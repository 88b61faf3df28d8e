-- ===== src/Softmixer/Wraps.antt =====
-- audio/processing/softmixer.cpp: in the 8-bit formats, the product with the gain leaves the accumulator.
use mocf.Base.{ℕ, ◌-◌, ◌*◌, ◌/◌, ◌≤◌, ◌<◌, ◌≡◌, refl, ap, ◌∙◌, subst, some, arith, suc, zero, true}
use mocf.Base.Int.{ℤ, pos, negsuc, sub_ℕ, ◌+ℤ◌, ◌-ℤ◌, int_laws}
use mocf.Audio.Format.{s8}
use mocf.Softmixer.Mix.{SampleType, sample_type, amplified, wrapped, times, divided, clamp_ℤ}

abbrev narrow : SampleType
narrow = record {
  bytes = 1;
  signed = true;
  acc_bits = 16;
  min_val = negsuc 127;
  max_val = pos 127;
  offset = pos 0;
}

minus_zero : (n : ℕ) → pos n -ℤ pos 0 ≡ pos n
minus_zero n = omega int_laws

plus_zero : (x : ℤ) → x +ℤ pos 0 ≡ x
plus_zero x = omega int_laws

wrapped-pos : (n : ℕ) → n < 32768 → wrapped 16 (pos n) ≡ pos n
unfolding wrapped
wrapped-pos n lt = ground arith

wrapped-high : (m : ℕ) → 32768 ≤ m → m < 65536 → wrapped 16 (pos m) ≡ negsuc (65535 - m)
unfolding wrapped
wrapped-high m low high = ground arith

divided-minus : (d : ℕ) → d ≤ 32767 → divided (negsuc d) 1000 ≡ sub_ℕ 0 (suc d / 1000)
divided-minus d le = refl

wrapped-minus : (q : ℕ) → q ≤ 32 → wrapped 16 (sub_ℕ 0 q) ≡ sub_ℕ 0 q
unfolding wrapped
wrapped-minus zero le = refl
wrapped-minus (suc q) le = ground arith

clamp-minus : (q : ℕ) → q ≤ 32 → clamp_ℤ (sub_ℕ 0 q) (negsuc 127) (pos 127) ≡ sub_ℕ 0 q
clamp-minus zero le = refl
clamp-minus (suc q) le = ground arith

narrow-wraps :
    (gain n : ℕ)
    → n ≤ 127
    → 32768 ≤ n * gain
    → n * gain < 65536
    → amplified narrow gain (pos n) ≡ sub_ℕ 0 ((65536 - n * gain) / 1000)
unfolding amplified
narrow-wraps gain n small low high =
    let m = n * gain in
    let q = suc (65535 - m) / 1000 in
    let q_small : q ≤ 32 = omega (arith, low) in
    ap
      (λ c.
        clamp_ℤ (wrapped 16 (divided (wrapped 16 (times (wrapped 16 c) gain)) 1000 +ℤ pos 0))
          (negsuc 127) (pos 127))
      (minus_zero n)
    ∙ ap
        (λ c.
          clamp_ℤ (wrapped 16 (divided (wrapped 16 (times c gain)) 1000 +ℤ pos 0)) (negsuc 127)
            (pos 127))
        (wrapped-pos n (omega (arith, small)))
    ∙ ap (λ c. clamp_ℤ (wrapped 16 (divided c 1000 +ℤ pos 0)) (negsuc 127) (pos 127))
        (wrapped-high m low high)
    ∙ ap (λ c. clamp_ℤ (wrapped 16 c) (negsuc 127) (pos 127)) (plus_zero (sub_ℕ 0 q))
    ∙ ap (λ c. clamp_ℤ c (negsuc 127) (pos 127)) (wrapped-minus q q_small)
    ∙ clamp-minus q q_small
    ∙ ap (λ (k : ℕ). sub_ℕ 0 (k / 1000)) (omega (arith, high))

-- In the format S8 the accumulator has 16 bits, and a sample `n` whose product with the gain lies between 32768
-- and 65535 comes out at or below zero: as what is left of the product to 65536, in thousandths, with a minus.
pub amplified-wraps :
    (t : SampleType) (gain n : ℕ)
    → sample_type s8 ≡ some t
    → n ≤ 127
    → 32768 ≤ n * gain
    → n * gain < 65536
    → amplified t gain (pos n) ≡ sub_ℕ 0 ((65536 - n * gain) / 1000)
unfolding sample_type
amplified-wraps t gain n e small low high =
    subst (λ r. amplified r gain (pos n) ≡ sub_ℕ 0 ((65536 - n * gain) / 1000)) (inside narrow t e)
      (narrow-wraps gain n small low high)
  where
    inside : (r t : SampleType) → some r ≡ some t → r ≡ t
    inside r t e = cc
