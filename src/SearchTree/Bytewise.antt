-- ===== src/SearchTree/Bytewise.antt =====
-- `std::less<std::string>`, which is also `strcoll` in the C locale: bytes from the first on.
use mocf.Base.{Bool, true, false, [], ◌∷◌, ◌≡◌, refl, Text, arith, ltb, if◌then◌else◌}
use mocf.SearchTree.Defs.{Collation, eqv_by}

unfoldable pub text_less : Text → Text → Bool
text_less [] [] = false
text_less [] (y ∷ ys) = true
text_less (x ∷ xs) [] = false
text_less (x ∷ xs) (y ∷ ys) =
    let rest = text_less xs ys in if ltb x y then true else if ltb y x then false else rest

pub text_less_irrefl : (a : Text) → text_less a a ≡ false
unfolding text_less
text_less_irrefl [] = refl
text_less_irrefl (x ∷ xs) = ground (arith, text_less_irrefl xs)

pub text_less_trans :
    (a b c : Text) → text_less a b ≡ true → text_less b c ≡ true → text_less a c ≡ true
unfolding text_less
text_less_trans [] [] c p q = cc
text_less_trans [] (y ∷ ys) [] p q = cc
text_less_trans [] (y ∷ ys) (z ∷ zs) p q = refl
text_less_trans (x ∷ xs) [] c p q = cc
text_less_trans (x ∷ xs) (y ∷ ys) [] p q = cc
text_less_trans (x ∷ xs) (y ∷ ys) (z ∷ zs) p q = ground (arith, text_less_trans xs ys zs)

-- Texts of which neither is less are equal.
pub text_less_total : (a b : Text) → text_less a b ≡ false → text_less b a ≡ false → a ≡ b
unfolding text_less
text_less_total [] [] p q = refl
text_less_total [] (y ∷ ys) p q = cc
text_less_total (x ∷ xs) [] p q = cc
text_less_total (x ∷ xs) (y ∷ ys) p q = ground (arith, text_less_total xs ys)

pub text_eqv_trans :
    (a b c : Text)
    → eqv_by text_less a b ≡ true
    → eqv_by text_less b c ≡ true
    → eqv_by text_less a c ≡ true
text_eqv_trans a b c p q =
    let e : a ≡ b = text_less_total a b (ground arith) (ground arith) in rw e q

abbrev pub bytewise : Collation
bytewise = record {
  less = text_less;
  less_irrefl = text_less_irrefl;
  less_trans = text_less_trans;
  eqv_trans = text_eqv_trans;
}
