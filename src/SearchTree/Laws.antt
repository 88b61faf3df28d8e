-- ===== src/SearchTree/Laws.antt =====
-- What a lookup finds after each operation of a map.
use mocf.Base.{true, none, some, [], ◌∷◌, ◌≡◌, refl, Text, arith, if◌then◌else◌}
use mocf.SearchTree.Defs.{Collation, Tree, find, insert, erase, eqv}

module _ (c : Collation) where
  pub eqv_refl : (a : Text) → eqv c a a ≡ true
  eqv_refl a = ground (arith, c.less_irrefl a)

  pub eqv_sym : (a b : Text) → eqv c a b ≡ eqv c b a
  eqv_sym a b = ground arith

  -- Equivalent keys are interchangeable.
  pub eqv_congr : (a b k : Text) → eqv c a b ≡ true → eqv c a k ≡ eqv c b k
  eqv_congr a b k e = ground (arith, c.eqv_trans b a k, c.eqv_trans a b k)

module _ {ℓ} (c : Collation) {V : Type ℓ} where
  pub find-insert :
      (j k : Text) (v : V) (m : Tree V)
      → find c j (insert c k v m) ≡ (if eqv c j k then some v else find c j m)
  unfolding find insert
  find-insert j k v [] = refl
  find-insert j k v ((i, w) ∷ m) = ground (
    arith,
    find-insert j k v m,
    eqv_congr c j k i,
    eqv_congr c k i j,
    eqv_sym c j k,
    eqv_sym c j i,
  )

  pub find-erase :
      (j k : Text) (m : Tree V) → find c j (erase c k m) ≡ (if eqv c j k then none else find c j m)
  unfolding find erase
  find-erase j k [] = ground arith
  find-erase j k ((i, w) ∷ m) =
      ground (
        arith,
        find-erase j k m,
        eqv_congr c j k i,
        eqv_congr c k i j,
        eqv_sym c j k,
        eqv_sym c j i,
      )

  -- Equivalent keys have one entry.
  pub find_congr : (j k : Text) (m : Tree V) → eqv c j k ≡ true → find c j m ≡ find c k m
  unfolding find
  find_congr j k [] e = refl
  find_congr j k ((i, w) ∷ m) e = rw (eqv_congr c j k i e, find_congr j k m e)
