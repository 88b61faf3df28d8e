-- ===== src/Softmixer/Buffers.antt =====
-- audio/processing/softmixer.cpp: `process_buffer_impl` computes the gain exactly in all but the 8-bit formats.
use native.Mathlib.Nat.{mul-div-le, mul-le-mul_left, mul-le-mul_right}
use mocf.Base.{
  ℕ, zero, suc, ◌+◌, ◌-◌, ◌*◌, ◌/◌, ◌^◌, ◌≤◌, ◌<◌, ◌≡◌, refl, ap, ◌∙◌, subst, false, some, List,
  ◌++◌, arith, length, take, drop, length-take, length-drop,
}
use mocf.Audio.Format.{Format, s8, u8, s16, u16, s24, u24, s32, u32, s24_3, u24_3, float, is_8}
use mocf.Convert.Samples.{map_in_place}
use mocf.Convert.Bytes.{AreBytes, take-AreBytes, drop-AreBytes, limit, word_lem}
use mocf.Softmixer.Mix.{
  SampleType, sample_type, read_sample, write_sample, amplified, process_buffer_impl,
}
use mocf.Softmixer.Exact.{scaled, magnitude, amplified-small, magnitude-read_sample}

-- The accumulator holds every sample at the highest gain.
record IsWide (t : SampleType) : Type 0 where
  halves : 2 ^ t.acc_bits ≡ 2 * 2 ^ (t.acc_bits - 1)
  words : limit t.bytes ≡ 2 ^ (8 * t.bytes)
  room : (2 ^ (8 * t.bytes) + magnitude t.offset) * 2000 + magnitude t.offset < 2 ^ (t.acc_bits - 1)

wide_of : (r t : SampleType) → IsWide r → some r ≡ some t → IsWide t
wide_of r t w e = subst IsWide (inside r t e) w
  where
    inside : (r t : SampleType) → some r ≡ some t → r ≡ t
    inside r t e = cc

sample_type-IsWide :
    (fmt : Format) (t : SampleType) → sample_type fmt ≡ some t → is_8 fmt ≡ false → IsWide t
unfolding sample_type
sample_type-IsWide s8 t e p = cc
sample_type-IsWide u8 t e p = cc
sample_type-IsWide s16 t e p =
    wide_of _ t (record { halves = refl; words = refl; room = omega arith }) e
sample_type-IsWide u16 t e p =
    wide_of _ t (record { halves = refl; words = refl; room = omega arith }) e
sample_type-IsWide s24 t e p =
    wide_of _ t (record { halves = refl; words = refl; room = omega arith }) e
sample_type-IsWide u24 t e p =
    wide_of _ t (record { halves = refl; words = refl; room = omega arith }) e
sample_type-IsWide s32 t e p =
    wide_of _ t (record { halves = refl; words = refl; room = omega arith }) e
sample_type-IsWide u32 t e p =
    wide_of _ t (record { halves = refl; words = refl; room = omega arith }) e
sample_type-IsWide s24_3 t e p = cc
sample_type-IsWide u24_3 t e p = cc
sample_type-IsWide float t e p = cc

sample-exact :
    (t : SampleType) (gain : ℕ) (x : List ℕ)
    → IsWide t
    → gain ≤ 2000
    → length x ≡ t.bytes
    → AreBytes x
    → amplified t gain (read_sample t x) ≡ scaled t gain (read_sample t x)
sample-exact t gain x w le size v =
    let full = 2 ^ (8 * t.bytes) in
    let small = magnitude-read_sample t x (omega (arith, word_lem x v, ap limit size, w.words)) in
    let off = magnitude t.offset in
    let most : (magnitude (read_sample t x) + off) * gain ≤ (full + off) * gain =
      mul-le-mul_right gain (omega (arith, small)) in
    let more : (full + off) * gain ≤ (full + off) * 2000 = mul-le-mul_left (full + off) le in
    amplified-small t gain (read_sample t x) w.halves (omega (arith, small, w.room))
      (omega (arith, most, more, w.room))

map_in_place-same :
    (size : ℕ) (f g : List ℕ → List ℕ)
    → ((x : List ℕ) → length x ≡ size → AreBytes x → f x ≡ g x)
    → (count : ℕ) (buf : List ℕ) → AreBytes buf
    → size * count ≤ length buf
    → map_in_place size count f buf ≡ map_in_place size count g buf
unfolding map_in_place
map_in_place-same size f g same zero buf v le = refl
map_in_place-same size f g same (suc count) buf v le =
    ap (λ (x : List ℕ). x ++ map_in_place size count f (drop size buf))
      (same (take size buf) (omega (arith, length-take size buf)) (take-AreBytes size buf v))
    ∙ ap (λ (x : List ℕ). g (take size buf) ++ x)
        (map_in_place-same size f g same count (drop size buf) (drop-AreBytes size buf v)
          (omega (arith, length-drop size buf)))

-- In a format of 16, 24 or 32 bits, with a gain of at most 2000 thousandths, `process_buffer_impl` gives
-- every sample of the buffer the gain that integers without bounds would give, before the clamping.
pub process_buffer_impl-scaled :
    (fmt : Format) (t : SampleType) (gain : ℕ) (buf : List ℕ)
    → sample_type fmt ≡ some t
    → is_8 fmt ≡ false
    → gain ≤ 2000
    → AreBytes buf
    → process_buffer_impl t gain buf (length buf / t.bytes)
      ≡ map_in_place t.bytes
          (length buf / t.bytes)
          (λ x. write_sample t (scaled t gain (read_sample t x)))
          buf
unfolding process_buffer_impl
process_buffer_impl-scaled fmt t gain buf e p le v =
    map_in_place-same t.bytes _ _
      (λ x size w.
        ap (write_sample t) (sample-exact t gain x (sample_type-IsWide fmt t e p) le size w))
      (length buf / t.bytes) buf v (mul-div-le (length buf) t.bytes)
