-- ===== src/Audio/EveryFormat.antt =====
-- audio/audio.h: what holds for every sample format is a test of each of them.
use mocf.Base.{
  ℕ, zero, suc, ◌≡◌, refl, Bool, true, false, not, ◌&&◌, List, [], ◌∷◌, some, get_elem?, ◌||◌, ◌==◌,
  sym, ap, ◌∙◌, arith,
}
use mocf.Audio.Format.{
  Format, s8, u8, s16, u16, s24, u24, s32, u32, s24_3, u24_3, float, same_format,
}

abbrev formats : List Format
formats = s8 ∷ u8 ∷ s16 ∷ u16 ∷ s24 ∷ u24 ∷ s32 ∷ u32 ∷ s24_3 ∷ u24_3 ∷ float ∷ []

abbrev all : (Format → Bool) → List Format → Bool
all p [] = true
all p (f ∷ fs) = p f && all p fs

abbrev pub all_formats : (Format → Bool) → Bool
all_formats p = all p formats

both : (a b : Bool) → a && b ≡ true → (a ≡ true) × (b ≡ true)
both true b e = (refl, e)
both false b e = cc

some_lem : (p : Format → Bool) (g f : Format) → some g ≡ some f → p g ≡ true → p f ≡ true
some_lem p g f at e = cc

all_at :
    (p : Format → Bool) (fs : List Format) (i : ℕ) (f : Format)
    → all p fs ≡ true
    → get_elem? fs i ≡ some f
    → p f ≡ true
all_at p [] i f e at = cc
all_at p (g ∷ fs) zero f e at = some_lem p g f at (both (p g) (all p fs) e).0
all_at p (g ∷ fs) (suc i) f e at = all_at p fs i f (both (p g) (all p fs) e).1 at

pub every_format : (p : Format → Bool) → all_formats p ≡ true → (f : Format) → p f ≡ true
every_format p e s8 = all_at p formats 0 s8 e refl
every_format p e u8 = all_at p formats 1 u8 e refl
every_format p e s16 = all_at p formats 2 s16 e refl
every_format p e u16 = all_at p formats 3 u16 e refl
every_format p e s24 = all_at p formats 4 s24 e refl
every_format p e u24 = all_at p formats 5 u24 e refl
every_format p e s32 = all_at p formats 6 s32 e refl
every_format p e u32 = all_at p formats 7 u32 e refl
every_format p e s24_3 = all_at p formats 8 s24_3 e refl
every_format p e u24_3 = all_at p formats 9 u24_3 e refl
every_format p e float = all_at p formats 10 float e refl

-- The same for two formats.
pub every_two_formats :
    (p : Format → Format → Bool)
    → all_formats (λ f. all_formats (p f)) ≡ true
    → (f g : Format) → p f g ≡ true
every_two_formats p e f = every_format (p f) (every_format (λ k. all_formats (p k)) e f)

abbrev pub same_bool : Bool → Bool → Bool
same_bool true b = b
same_bool false b = not b

pub same_bool_lem : (a b : Bool) → same_bool a b ≡ true → a ≡ b
same_bool_lem true true e = refl
same_bool_lem true false e = cc
same_bool_lem false true e = cc
same_bool_lem false false e = refl

-- What a test says where another one holds.
pub implied : (a b : Bool) → not a || b ≡ true → a ≡ true → b ≡ true
implied true b e p = e
implied false b e p = cc

abbrev number : Format → ℕ
number s8 = 0
number u8 = 1
number s16 = 2
number u16 = 3
number s24 = 4
number u24 = 5
number s32 = 6
number u32 = 7
number s24_3 = 8
number u24_3 = 9
number float = 10

number_lem : (f : Format) → get_elem? formats (number f) ≡ some f
number_lem s8 = refl
number_lem u8 = refl
number_lem s16 = refl
number_lem u16 = refl
number_lem s24 = refl
number_lem u24 = refl
number_lem s32 = refl
number_lem u32 = refl
number_lem s24_3 = refl
number_lem u24_3 = refl
number_lem float = refl

pub eq_of_test : (m n : ℕ) → (m == n) ≡ true → m ≡ n
eq_of_test m n e = ground arith

some_eq : (f g : Format) → some f ≡ some g → f ≡ g
some_eq f g e = cc

pub same_format_lem : (f g : Format) → same_format f g ≡ true → f ≡ g
same_format_lem f g e =
    let p = every_two_formats (λ f g. not (same_format f g) || (number f == number g)) refl f g in
    let n : number f ≡ number g =
      eq_of_test (number f) (number g) (implied (same_format f g) (number f == number g) p e) in
    some_eq f g (sym (number_lem f) ∙ ap (get_elem? formats) n ∙ number_lem g)
