-- ===== src/SearchTree/Defs.antt =====
-- The comparator of a map (`strcoll` for the playlist), and the map's operations.
use mocf.Base.{
  Bool, true, false, not, ◌&&◌, Option, none, some, List, [], ◌∷◌, ◌≡◌, Text, if◌then◌else◌,
}

abbrev pub eqv_by : (Text → Text → Bool) → Text → Text → Bool
eqv_by less a b = not (less a b) && not (less b a)

-- What a map asks of its comparator: a strict weak order.
pub record Collation : Type 0 where
  pub less : Text → Text → Bool
  pub less_irrefl : (a : Text) → less a a ≡ false
  pub less_trans : (a b c : Text) → less a b ≡ true → less b c ≡ true → less a c ≡ true
  pub eqv_trans :
      (a b c : Text) → eqv_by less a b ≡ true → eqv_by less b c ≡ true → eqv_by less a c ≡ true

module _ (c : Collation) where
  abbrev pub eqv : Text → Text → Bool
  eqv a b = eqv_by c.less a b

module _ {ℓ} where
  abbrev pub Tree : Type ℓ → Type ℓ
  Tree V = List (Text × V)

module _ {ℓ} (c : Collation) {V : Type ℓ} where
  -- `m.find(k)`, and the value at `k`.
  unfoldable pub find : Text → Tree V → Option V
  find k [] = none
  find k ((j, v) ∷ m) = if eqv c k j then some v else find k m

  -- `m[k] = v`: a key that is there stays, and its value is replaced.
  unfoldable pub insert : Text → V → Tree V → Tree V
  insert k v [] = (k, v) ∷ []
  insert k v ((j, w) ∷ m) =
      if c.less k j
      then (k, v) ∷ (j, w) ∷ m
      else if c.less j k
      then (j, w) ∷ insert k v m
      else (j, v) ∷ m

  -- `m.erase(k)`.
  unfoldable pub erase : Text → Tree V → Tree V
  erase k [] = []
  erase k ((j, v) ∷ m) = if eqv c k j then erase k m else (j, v) ∷ erase k m
