-- ===== src/Convert/Change.antt =====
-- audio/conversion/audio_conversion.cpp: how `process` changes the format.
use mocf.Base.{
  ℕ, ◌*◌, ◌/◌, ◌≤◌, ◌≡◌, refl, ap, ◌∙◌, inl, inr, Bool, true, false, not, ◌&&◌, ◌||◌, Option, none,
  some, List, arith, length, Bool-cases, ◌>>=◌, if_true, if_false, assert, ◌>>◌,
}
use mocf.Audio.Format.{
  Format, s8, u8, s16, u16, s24, u24, s32, u32, s24_3, u24_3, float, Sfmt, same_format, is_float,
  is_24_3, sfmt_same_bps, sfmt_bytes_per_sample,
}
use mocf.Audio.EveryFormat.{same_format_lem}
use mocf.Convert.Samples.{map_in_place, bytes_of, change_sign_impl, other_sign, change_sign}
use mocf.Convert.Process.{Floats, Sound, float_to_fixed, to_format, sfmt_set_fmt}
use mocf.Convert.Sizes.{length-map_in_place, length-bytes_of}
use mocf.Convert.Signs.{other_sign_lem, sfmt_same_bps-size}
use mocf.Convert.Pipeline.{bps, IsSized, counted, mapped}
use mocf.Convert.Formats.{stuck}

-- The sound is there, has `n` samples and the format.
abbrev pub Gives : Option Sound → Format → ℕ → Type 0
Gives r f n = (s : Sound) × (r ≡ some s) × IsSized s n × (s.fmt.format ≡ f)

length-change_sign_impl : (n : ℕ) (x : List ℕ) → length (change_sign_impl n x) ≡ n
unfolding change_sign_impl
length-change_sign_impl n x = length-bytes_of n _

le_of_count :
    (f : Format) (n : ℕ) (buf : List ℕ)
    → length buf ≡ bps f * n
    → bps f * (length buf / bps f) ≤ length buf
le_of_count f n buf size =
    let e = ap (λ (k : ℕ). bps f * k) (counted f n buf size) in omega (arith, e, size)

change_sign_lem :
    (f g : Format) (buf : List ℕ) (n : ℕ)
    → other_sign f ≡ some g
    → length buf ≡ bps f * n
    → (b : List ℕ) × (change_sign buf f ≡ some (b, g)) × (length b ≡ length buf)
unfolding change_sign
change_sign_lem f g buf n e size =
    let b = map_in_place (bps f) (length buf / bps f) (change_sign_impl (bps f)) buf in
    (
      b,
      rw e refl,
      length-map_in_place (bps f) (change_sign_impl (bps f))
          (λ x _. length-change_sign_impl (bps f) x) (length buf / bps f) buf
          (le_of_count f n buf size),
    )

float_to_fixed-IsSized :
    (fl : Floats) (to : Sfmt) (s : Sound) (n : ℕ)
    → is_float s.fmt.format ≡ true
    → IsSized s n
    → IsSized (float_to_fixed fl to s) n
unfolding float_to_fixed sfmt_bytes_per_sample
float_to_fixed-IsSized fl to s n w e =
    let four = ap bps (same_format_lem s.fmt.format float w) in
    mapped float (bps to.format) n (λ x. bytes_of (bps to.format) (fl.from_float to.format x)) s.buf
      (λ x _. length-bytes_of (bps to.format) (fl.from_float to.format x))
      (e ∙ ap (λ (k : ℕ). k * n) four)

all_three : (a b c : Bool) → a ≡ true → b ≡ false → c ≡ false → a && not b && not c ≡ true
all_three a b c p q r = rw (p, q, r) refl

-- A new format of the same width, by a change of signs.
sign_changed :
    (fl : Floats) (to : Sfmt) (s : Sound) (n : ℕ)
    → IsSized s n
    → same_format s.fmt.format to.format ≡ false
    → sfmt_same_bps s.fmt.format to.format ≡ true
    → is_24_3 s.fmt.format ≡ false
    → Gives (to_format fl to s) to.format n
unfolding to_format
sign_changed fl to s n e differ width loose =
    let c =
      change_sign_lem s.fmt.format to.format s.buf n
        (other_sign_lem s.fmt.format to.format (all_three _ _ _ width differ loose)) e in
    let new : Sound = record { buf = c.0; fmt = sfmt_set_fmt to.format s.fmt } in
    (
      new,
      if_false (same_format s.fmt.format to.format) _ _ differ
          ∙ if_true (sfmt_same_bps s.fmt.format to.format) _ _ width
          ∙ ap
              (λ (o : Option (List ℕ × Format)). (do
                r ← o
                some (record { buf = r.0; fmt = sfmt_set_fmt r.1 s.fmt })))
              c.1,
      c.2 ∙ e ∙ ap (λ (k : ℕ). k * n) (sfmt_same_bps-size s.fmt.format to.format width),
      refl,
    )

-- Another width, from floats.
fixed :
    (fl : Floats) (to : Sfmt) (s : Sound) (n : ℕ)
    → IsSized s n
    → same_format s.fmt.format to.format ≡ false
    → sfmt_same_bps s.fmt.format to.format ≡ false
    → is_float s.fmt.format ≡ true
    → Gives (to_format fl to s) to.format n
unfolding to_format float_to_fixed
fixed fl to s n e differ width w = (
  float_to_fixed fl to s,
  if_false (same_format s.fmt.format to.format) _ _ differ
      ∙ if_false (sfmt_same_bps s.fmt.format to.format) _ _ width
      ∙ ap (λ (b : Bool). (do assert b; some (float_to_fixed fl to s))) w,
  float_to_fixed-IsSized fl to s n w e,
  refl,
)

not_stuck : (a b c : Bool) → a && not b && c ≡ false → a ≡ true → b ≡ false → c ≡ false
not_stuck a b c e p q = ground arith

not_wide : (a b : Bool) → (a || b) ≡ true → b ≡ false → a ≡ true
not_wide true b e f = refl
not_wide false b e f = cc

pub to_format-Gives :
    (fl : Floats) (to : Sfmt) (s : Sound) (n : ℕ)
    → IsSized s n
    → stuck s.fmt.format to.format ≡ false
    → (is_float s.fmt.format || sfmt_same_bps s.fmt.format to.format) ≡ true
    → Gives (to_format fl to s) to.format n
unfolding to_format
to_format-Gives fl to s n e free near = elim (Bool-cases (same_format s.fmt.format to.format)) [
  | inl same ↦ (
    s,
    if_true (same_format s.fmt.format to.format) _ _ same,
    e,
    same_format_lem s.fmt.format to.format same,
  )
  | inr differ ↦ elim (Bool-cases (sfmt_same_bps s.fmt.format to.format)) [
    | inl width ↦ sign_changed fl to s n e differ width (not_stuck _ _ _ free width differ)
    | inr width ↦ fixed fl to s n e differ width (not_wide _ _ near width)
  ]
]

both_of : (a b c : Bool) → a && not b && c ≡ true → (a ≡ true) × (b ≡ false) × (c ≡ true)
both_of true false true e = (refl, refl, refl)
both_of true false false e = cc
both_of true true c e = cc
both_of false b c e = cc

-- The packed formats have no other sign.
unchanged : (f : Format) (buf : List ℕ) → is_24_3 f ≡ true → change_sign buf f ≡ none
unfolding change_sign other_sign
unchanged s8 buf e = cc
unchanged u8 buf e = cc
unchanged s16 buf e = cc
unchanged u16 buf e = cc
unchanged s24 buf e = cc
unchanged u24 buf e = cc
unchanged s32 buf e = cc
unchanged u32 buf e = cc
unchanged s24_3 buf e = refl
unchanged u24_3 buf e = refl
unchanged float buf e = cc

pub refused_lem :
    (fl : Floats) (to : Sfmt) (s : Sound)
    → stuck s.fmt.format to.format ≡ true
    → to_format fl to s ≡ none
unfolding to_format
refused_lem fl to s e =
    if_false (same_format s.fmt.format to.format) _ _ (both_of _ _ _ e).1
    ∙ if_true (sfmt_same_bps s.fmt.format to.format) _ _ (both_of _ _ _ e).0
    ∙ ap
        (λ (o : Option (List ℕ × Format)). (do
          r ← o
          some (record { buf = r.0; fmt = sfmt_set_fmt r.1 s.fmt })))
        (unchanged s.fmt.format s.buf (both_of _ _ _ e).2)
