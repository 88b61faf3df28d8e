-- ===== src/Convert/Pipeline.antt =====
-- audio/conversion/audio_conversion.cpp: `process` gives as many samples as it gets, in the format asked for.
use native.Mathlib.Nat.{mul-div_cancel_left}
use mocf.Base.{
  ◌==◌, ◌>>=◌, ◌%◌, Option, some, ℕ, ◌*◌, ◌/◌, ◌^◌, ◌≤◌, ◌<◌, ◌≡◌, refl, ap, sym, ◌∙◌, inl, inr,
  Bool, true, false, not, ◌&&◌, ◌||◌, List, if◌then◌else◌, arith, length, Bool-cases,
}
use mocf.Audio.Format.{
  Format, s8, u8, s16, u16, s24, u24, s32, u32, s24_3, u24_3, float, same_format, is_16, is_24,
  is_24_3, is_32, is_float, sfmt_same_bps, sfmt_bytes_per_sample,
}
use mocf.Convert.Samples.{
  map_samples, map_in_place, bytes_of, s32_to_s24_3, s32_to_s16, u32_to_u16, s32_to_s24, u32_to_u24,
  s24_to_s16, u24_to_u16, swap_endian, swap_samples, bswap, word, shift_right_signed,
}
use mocf.Convert.Process.{
  Floats, Sound, converted, to_native, narrow_24_3, narrow_16, narrow_24, narrow_24_16, narrowed,
  fixed_to_float, to_float_if_needed,
}
use mocf.Convert.Signs.{size_32, size_24, size_24_3}
use mocf.Convert.Sizes.{length-map_samples, length-map_in_place, length-bytes_of, length-bswap}

-- The bytes of a sample.
abbrev pub bps : Format → ℕ
bps f = sfmt_bytes_per_sample f

-- `n` samples.
abbrev pub IsSized : Sound → ℕ → Type 0
IsSized s n = length s.buf ≡ bps s.fmt.format * n

pub positive : (f : Format) → 0 < bps f
unfolding sfmt_bytes_per_sample
positive s8 = omega arith
positive u8 = omega arith
positive s16 = omega arith
positive u16 = omega arith
positive s24 = omega arith
positive u24 = omega arith
positive s32 = omega arith
positive u32 = omega arith
positive s24_3 = omega arith
positive u24_3 = omega arith
positive float = omega arith

-- The number of samples that the loops count.
pub counted : (f : Format) (n : ℕ) (buf : List ℕ) → length buf ≡ bps f * n → length buf / bps f ≡ n
counted f n buf e = ap (λ (k : ℕ). k / bps f) e ∙ mul-div_cancel_left n (positive f)

pub mapped :
    (f : Format) (m n : ℕ) (g : List ℕ → List ℕ) (buf : List ℕ)
    → ((x : List ℕ) → length x ≡ bps f → length (g x) ≡ m)
    → length buf ≡ bps f * n
    → length (map_samples (bps f) (length buf / bps f) g buf) ≡ m * n
mapped f m n g buf g_size e =
    ap (λ (k : ℕ). length (map_samples (bps f) k g buf)) (counted f n buf e)
    ∙ length-map_samples (bps f) m g g_size n buf (omega (arith, e))

swapped :
    (size : ℕ) (buf : List ℕ)
    → size * (length buf / size) ≤ length buf
    → length (map_in_place size (length buf / size) bswap buf) ≡ length buf
swapped size buf le =
    length-map_in_place size bswap (λ x e. length-bswap x ∙ e) (length buf / size) buf le

pub length-swap_samples : (buf : List ℕ) (f : Format) → length (swap_samples buf f) ≡ length buf
unfolding swap_samples
length-swap_samples buf s8 = refl
length-swap_samples buf u8 = refl
length-swap_samples buf float = refl
length-swap_samples buf s16 = swapped 2 buf (omega arith)
length-swap_samples buf u16 = swapped 2 buf (omega arith)
length-swap_samples buf s24 = swapped 4 buf (omega arith)
length-swap_samples buf u24 = swapped 4 buf (omega arith)
length-swap_samples buf s32 = swapped 4 buf (omega arith)
length-swap_samples buf u32 = swapped 4 buf (omega arith)
length-swap_samples buf s24_3 = swapped 3 buf (omega arith)
length-swap_samples buf u24_3 = swapped 3 buf (omega arith)

-- The loop over packed samples ends with the buffer.
pub swap_endian-whole :
    (buf : List ℕ) (f : Format) (n : ℕ)
    → length buf ≡ bps f * n
    → swap_endian buf f ≡ some (swap_samples buf f)
unfolding swap_endian
swap_endian-whole buf f n e =
    let fits : not (is_24_3 f) || (length buf % 3 == 0) ≡ true = elim (Bool-cases (is_24_3 f)) [
      | inr loose ↦ rw loose refl
      | inl packed ↦
          let three : length buf ≡ 3 * n = e ∙ ap (λ (k : ℕ). k * n) (size_24_3 f packed) in
          rw packed (ground (arith, three))
    ] in
    rw fits refl

abbrev pub in_order : Sound → Sound
in_order s = if s.fmt.le then s else record {
  buf = swap_samples s.buf s.fmt.format;
  fmt = record { format = s.fmt.format; le = true; be = false };
}

pub format-in_order : (s : Sound) → (in_order s).fmt.format ≡ s.fmt.format
format-in_order s = elim (Bool-cases s.fmt.le) [ inl w ↦ rw w refl | inr w ↦ rw w refl ]

pub to_native-in_order : (s : Sound) (n : ℕ) → IsSized s n → to_native s ≡ some (in_order s)
unfolding to_native
to_native-in_order s n e = elim (Bool-cases s.fmt.le) [
  | inl w ↦ rw w refl
  | inr w ↦ rw w (
      ap
        (λ (o : Option (List ℕ)). (do
          bytes ← o
          some (record {
            buf = bytes;
            fmt = record { format = s.fmt.format; le = true; be = false };
          })))
        (swap_endian-whole s.buf s.fmt.format n e))
]

pub in_order-IsSized :
    (s : Sound) (n : ℕ)
    → IsSized s n
    → IsSized (in_order s) n × ((in_order s).fmt.format ≡ s.fmt.format)
in_order-IsSized s n e = elim (Bool-cases s.fmt.le) [
  | inl w ↦ rw w (e, refl)
  | inr w ↦ rw w (length-swap_samples s.buf s.fmt.format ∙ e, refl)
]

converted-IsSized :
    (s : Sound) (n : ℕ) (g : List ℕ → List ℕ) (new : Format)
    → bps s.fmt.format ≡ 4
    → ((x : List ℕ) → length (g x) ≡ bps new)
    → IsSized s n
    → IsSized (converted 4 g new s) n
converted-IsSized s n g new four g_size e =
    ap (λ (k : ℕ). length (map_samples k (length s.buf / k) g s.buf)) (sym four)
    ∙ mapped s.fmt.format (bps new) n g s.buf (λ x _. g_size x) e

pub if-IsSized :
    (b : Bool) (x y : Sound) (n : ℕ)
    → (b ≡ true → IsSized x n)
    → IsSized y n
    → IsSized (if b then x else y) n
if-IsSized true x y n p q = p refl
if-IsSized false x y n p q = q

left_of : (a b : Bool) → a && b ≡ true → a ≡ true
left_of true b e = refl
left_of false b e = cc

narrow_24_3-IsSized : (to : Format) (s : Sound) (n : ℕ) → IsSized s n → IsSized (narrow_24_3 to s) n
unfolding narrow_24_3 s32_to_s24_3 sfmt_bytes_per_sample
narrow_24_3-IsSized to s n e =
    if-IsSized (is_32 s.fmt.format && is_24_3 to) _ s n
      (λ w.
        let four = size_32 s.fmt.format (left_of (is_32 s.fmt.format) (is_24_3 to) w) in
        if-IsSized (same_format s.fmt.format s32) _ _ n
          (λ _. converted-IsSized s n s32_to_s24_3 s24_3 four (λ x. refl) e)
          (converted-IsSized s n s32_to_s24_3 u24_3 four (λ x. refl) e))
      e

narrow_16-IsSized : (to : Format) (s : Sound) (n : ℕ) → IsSized s n → IsSized (narrow_16 to s) n
unfolding narrow_16 s32_to_s16 u32_to_u16 sfmt_bytes_per_sample
narrow_16-IsSized to s n e =
    if-IsSized (is_32 s.fmt.format && is_16 to) _ s n
      (λ w.
        let four = size_32 s.fmt.format (left_of (is_32 s.fmt.format) (is_16 to) w) in
        if-IsSized (same_format s.fmt.format s32) _ _ n
          (λ _.
            converted-IsSized s n s32_to_s16 s16 four
              (λ x. length-bytes_of 2 (shift_right_signed 16 (word x))) e)
          (converted-IsSized s n u32_to_u16 u16 four (λ x. length-bytes_of 2 (word x / 2 ^ 16)) e))
      e

narrow_24-IsSized : (to : Format) (s : Sound) (n : ℕ) → IsSized s n → IsSized (narrow_24 to s) n
unfolding narrow_24 s32_to_s24 u32_to_u24 sfmt_bytes_per_sample
narrow_24-IsSized to s n e =
    if-IsSized (is_32 s.fmt.format && is_24 to) _ s n
      (λ w.
        let four = size_32 s.fmt.format (left_of (is_32 s.fmt.format) (is_24 to) w) in
        if-IsSized (same_format s.fmt.format s32) _ _ n
          (λ _.
            converted-IsSized s n s32_to_s24 s24 four
              (λ x. length-bytes_of 4 (shift_right_signed 8 (word x))) e)
          (converted-IsSized s n u32_to_u24 u24 four (λ x. length-bytes_of 4 (word x / 2 ^ 8)) e))
      e

narrow_24_16-IsSized :
    (to : Format) (s : Sound) (n : ℕ) → IsSized s n → IsSized (narrow_24_16 to s) n
unfolding narrow_24_16 s24_to_s16 u24_to_u16 sfmt_bytes_per_sample
narrow_24_16-IsSized to s n e =
    if-IsSized (is_24 s.fmt.format && is_16 to) _ s n
      (λ w.
        let four = size_24 s.fmt.format (left_of (is_24 s.fmt.format) (is_16 to) w) in
        if-IsSized (same_format s.fmt.format s24) _ _ n
          (λ _.
            converted-IsSized s n s24_to_s16 s16 four
              (λ x. length-bytes_of 2 (shift_right_signed 8 (word x))) e)
          (converted-IsSized s n u24_to_u16 u16 four (λ x. length-bytes_of 2 (word x / 2 ^ 8)) e))
      e

pub narrowed-IsSized : (to : Format) (s : Sound) (n : ℕ) → IsSized s n → IsSized (narrowed to s) n
narrowed-IsSized to s n e =
    narrow_24_16-IsSized to (narrow_24 to (narrow_16 to (narrow_24_3 to s))) n (
      narrow_24-IsSized to (narrow_16 to (narrow_24_3 to s)) n
        (narrow_16-IsSized to (narrow_24_3 to s) n (narrow_24_3-IsSized to s n e)))

pub to_float-IsSized :
    (fl : Floats) (to : Format) (s : Sound) (n : ℕ)
    → IsSized s n
    → IsSized (to_float_if_needed fl to s) n
unfolding to_float_if_needed fixed_to_float sfmt_bytes_per_sample
to_float-IsSized fl to s n e =
    if-IsSized ((is_float to || not (sfmt_same_bps to s.fmt.format)) && not (is_float s.fmt.format))
      _ s n
      (λ _.
        mapped s.fmt.format 4 n (λ x. bytes_of 4 (fl.to_float s.fmt.format x)) s.buf
          (λ x _. length-bytes_of 4 (fl.to_float s.fmt.format x)) e)
      e
