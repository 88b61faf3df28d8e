-- ===== src/Base/Ext.antt =====
-- Indexing laws in conditional form, and equality of lists by their elements.
use Prim.Native.Nat.{ℕ, zero, suc, ◌+◌, ◌-◌, ◌<◌}
use mathlib.Core.Path.{◌≡◌, refl, ap₂}
use mathlib.Core.List.{List, [], ◌∷◌, ◌++◌}
use mathlib.Core.Logic.{◌⊎◌}
use mathlib.Core.Option.{none, some}
use native.Mathlib.Omega.{arith}
use mocf.Base.Tests.{ltb, ◌==◌, if◌then◌else◌}
use mocf.Base.Lists.{length, get_elem?, get_or, set, take, drop, delete_at}

module _ {ℓ} {A : Type ℓ} (d : A) where
  pub get_or-append :
      (xs ys : List A) (i : ℕ)
      → get_or (xs ++ ys) i d
        ≡ (if ltb i (length xs) then get_or xs i d else get_or ys (i - length xs) d)
  get_or-append [] ys i = ground arith
  get_or-append (x ∷ xs) ys zero = ground arith
  get_or-append (x ∷ xs) ys (suc i) = ground (arith, get_or-append xs ys i)

  pub get_or-take :
      (n : ℕ) (xs : List A) (i : ℕ)
      → get_or (take n xs) i d ≡ (if ltb i n then get_or xs i d else d)
  get_or-take zero xs i = ground arith
  get_or-take (suc n) [] i = ground arith
  get_or-take (suc n) (x ∷ xs) zero = ground arith
  get_or-take (suc n) (x ∷ xs) (suc i) = ground (arith, get_or-take n xs i)

  pub get_or-drop : (n : ℕ) (xs : List A) (i : ℕ) → get_or (drop n xs) i d ≡ get_or xs (n + i) d
  get_or-drop zero xs i = ground arith
  get_or-drop (suc n) [] i = ground arith
  get_or-drop (suc n) (x ∷ xs) i = ground (arith, get_or-drop n xs i)

  -- Lists of one length with the same elements are equal.
  pub list_ext :
      (xs ys : List A)
      → length xs ≡ length ys
      → ((i : ℕ) → i < length xs → get_or xs i d ≡ get_or ys i d)
      → xs ≡ ys
  list_ext [] [] e h = refl
  list_ext [] (y ∷ ys) e h = absurd (omega arith)
  list_ext (x ∷ xs) [] e h = absurd (omega arith)
  list_ext (x ∷ xs) (y ∷ ys) e h =
      ap₂ ◌∷◌ (h 0 (omega arith)) (list_ext xs ys (omega arith) (λ i lt. h (suc i) (omega arith)))

module _ {ℓ} {A : Type ℓ} where
  pub get_elem?-set :
      (xs : List A) (i j : ℕ) (v : A)
      → get_elem? (set xs i v) j
        ≡ (if j == i then if ltb i (length xs) then some v else none else get_elem? xs j)
  get_elem?-set [] i j v = ground arith
  get_elem?-set (x ∷ xs) zero zero v = ground arith
  get_elem?-set (x ∷ xs) zero (suc j) v = ground arith
  get_elem?-set (x ∷ xs) (suc i) zero v = ground arith
  get_elem?-set (x ∷ xs) (suc i) (suc j) v = ground (arith, get_elem?-set xs i j v)

  -- One element more at the end.
  pub get_elem?-append_one :
      (xs : List A) (y : A) (i : ℕ)
      → get_elem? (xs ++ (y ∷ [])) i ≡ (if i == length xs then some y else get_elem? xs i)
  get_elem?-append_one [] y zero = ground arith
  get_elem?-append_one [] y (suc i) = ground arith
  get_elem?-append_one (x ∷ xs) y zero = ground arith
  get_elem?-append_one (x ∷ xs) y (suc i) = ground (arith, get_elem?-append_one xs y i)

  pub get_elem?-drop :
      (n : ℕ) (xs : List A) (i : ℕ) → get_elem? (drop n xs) i ≡ get_elem? xs (n + i)
  get_elem?-drop zero xs i = ground arith
  get_elem?-drop (suc n) [] i = ground arith
  get_elem?-drop (suc n) (x ∷ xs) i = ground (arith, get_elem?-drop n xs i)

  -- The elements behind a deleted one move up.
  pub get_elem?-delete_at :
      (xs : List A) (i j : ℕ)
      → get_elem? (delete_at xs i) j ≡ (if ltb j i then get_elem? xs j else get_elem? xs (suc j))
  get_elem?-delete_at [] i j = ground arith
  get_elem?-delete_at (x ∷ xs) zero j = ground arith
  get_elem?-delete_at (x ∷ xs) (suc i) zero = ground arith
  get_elem?-delete_at (x ∷ xs) (suc i) (suc j) = ground (arith, get_elem?-delete_at xs i j)

  pub length-delete_at :
      (xs : List A) (i : ℕ) → i < length xs → length (delete_at xs i) ≡ length xs - 1
  length-delete_at [] i lt = absurd (omega arith)
  length-delete_at (x ∷ xs) zero lt = omega arith
  length-delete_at (x ∷ xs) (suc i) lt = omega (arith, length-delete_at xs i (omega arith))

  -- An element of a list with one more at its end.
  pub old_or_last :
      (xs : List A) (y : A) (i : ℕ) {x : A}
      → get_elem? (xs ++ (y ∷ [])) i ≡ some x
      → ((i ≡ length xs) × (x ≡ y)) ⊎ (get_elem? xs i ≡ some x)
  old_or_last xs y i e = ground (arith, get_elem?-append_one xs y i, e)
