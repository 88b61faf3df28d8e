-- ===== src/Softmixer/Exact.antt =====
-- audio/processing/softmixer.cpp: where the accumulator is wide enough, no step wraps.
use native.Mathlib.Nat.{mod-eq_of_lt, mul-le-mul_right}
use mocf.Base.{
  ℕ, suc, ◌+◌, ◌-◌, ◌*◌, ◌/◌, ◌^◌, ◌≤◌, ◌<◌, ◌≡◌, refl, ap, ◌∙◌, leb, arith, List, if_true,
  if_false,
}
use mocf.Base.Int.{ℤ, pos, negsuc, sub_ℕ, ◌+ℤ◌, ◌-ℤ◌}
use mocf.Convert.Samples.{word}
use mocf.Softmixer.Mix.{
  SampleType, signed_of, wrapped, times, divided, clamp_ℤ, read_sample, amplified,
}

-- The gain in thousandths, without any bound on the numbers between.
abbrev pub scaled : SampleType → ℕ → ℤ → ℤ
scaled t gain x =
    clamp_ℤ (divided (times (x -ℤ t.offset) gain) 1000 +ℤ t.offset) t.min_val t.max_val

abbrev pub magnitude : ℤ → ℕ
magnitude (pos n) = n
magnitude (negsuc n) = suc n

wrapped-small :
    (bits : ℕ) (x : ℤ)
    → 2 ^ bits ≡ 2 * 2 ^ (bits - 1)
    → magnitude x < 2 ^ (bits - 1)
    → wrapped bits x ≡ x
unfolding wrapped
wrapped-small bits (pos n) e lt =
    ap (signed_of bits) (mod-eq_of_lt (omega (arith, e, lt)))
    ∙ if_false (leb (2 ^ (bits - 1)) n) _ _ (ground arith)
wrapped-small bits (negsuc n) e lt =
    ap (λ (r : ℕ). signed_of bits (2 ^ bits - 1 - r)) (mod-eq_of_lt (omega (arith, e, lt)))
    ∙ if_true (leb (2 ^ (bits - 1)) (2 ^ bits - 1 - n)) _ _ (ground arith)
    ∙ ap negsuc (omega (arith, e, lt))

magnitude-sub : (a b : ℤ) → magnitude (a -ℤ b) ≤ magnitude a + magnitude b
unfolding ◌-ℤ◌
magnitude-sub a b = ground arith

magnitude-add : (a b : ℤ) → magnitude (a +ℤ b) ≤ magnitude a + magnitude b
unfolding ◌+ℤ◌
magnitude-add a b = ground arith

magnitude-minus : (n : ℕ) → magnitude (sub_ℕ 0 n) ≡ n
magnitude-minus n = ground arith

magnitude-times : (a : ℤ) (k : ℕ) → magnitude (times a k) ≡ magnitude a * k
magnitude-times (pos n) k = refl
magnitude-times (negsuc n) k = magnitude-minus (suc n * k)

magnitude-divided : (a : ℤ) → magnitude (divided a 1000) ≤ magnitude a
magnitude-divided (pos n) = omega arith
magnitude-divided (negsuc n) = omega (arith, magnitude-minus (suc n / 1000))

-- A bound on all that stands in the accumulator.
pub amplified-small :
    (t : SampleType) (gain : ℕ) (x : ℤ)
    → 2 ^ t.acc_bits ≡ 2 * 2 ^ (t.acc_bits - 1)
    → magnitude x + magnitude t.offset < 2 ^ (t.acc_bits - 1)
    → (magnitude x + magnitude t.offset) * gain + magnitude t.offset < 2 ^ (t.acc_bits - 1)
    → amplified t gain x ≡ scaled t gain x
unfolding amplified
amplified-small t gain x e in_range lt =
    let centred = x -ℤ t.offset in
    let small = magnitude-sub x t.offset in
    let louder = times centred gain in
    let product : magnitude louder ≤ (magnitude x + magnitude t.offset) * gain =
      omega (arith, magnitude-times centred gain, mul-le-mul_right gain small) in
    let back = divided louder 1000 +ℤ t.offset in
    let sum = magnitude-add (divided louder 1000) t.offset in
    ap
      (λ c.
        clamp_ℤ (wrapped t.acc_bits (divided (wrapped t.acc_bits (times c gain)) 1000 +ℤ t.offset))
          t.min_val t.max_val)
      (wrapped-small t.acc_bits centred e (omega (arith, small, in_range)))
    ∙ ap (λ c. clamp_ℤ (wrapped t.acc_bits (divided c 1000 +ℤ t.offset)) t.min_val t.max_val)
        (wrapped-small t.acc_bits louder e (omega (arith, product, lt)))
    ∙ ap (λ c. clamp_ℤ c t.min_val t.max_val)
        (wrapped-small t.acc_bits back e
          (omega (arith, sum, magnitude-divided louder, product, lt)))

pub magnitude-read_sample :
    (t : SampleType) (x : List ℕ)
    → word x < 2 ^ (8 * t.bytes)
    → magnitude (read_sample t x) ≤ 2 ^ (8 * t.bytes)
magnitude-read_sample t x lt = ground arith
