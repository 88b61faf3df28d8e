-- ===== src/Convert/Bytes.antt =====
-- audio/conversion/audio_conversion.cpp: buffers are lists of bytes, and words have a limit.
use mocf.Base.{ℕ, zero, suc, ◌*◌, ◌<◌, List, [], ◌∷◌, take, drop, length, arith}
use mocf.Convert.Samples.{word}

abbrev pub AreBytes : List ℕ → Type 0
AreBytes [] = Unit {0}
AreBytes (x ∷ xs) = (x < 256) × AreBytes xs

pub take-AreBytes : (n : ℕ) (xs : List ℕ) → AreBytes xs → AreBytes (take n xs)
take-AreBytes zero xs v = tt
take-AreBytes (suc n) [] v = tt
take-AreBytes (suc n) (x ∷ xs) v = (v.0, take-AreBytes n xs v.1)

pub drop-AreBytes : (n : ℕ) (xs : List ℕ) → AreBytes xs → AreBytes (drop n xs)
drop-AreBytes zero xs v = v
drop-AreBytes (suc n) [] v = tt
drop-AreBytes (suc n) (x ∷ xs) v = drop-AreBytes n xs v.1

-- One more than the greatest number of `n` bytes.
abbrev pub limit : ℕ → ℕ
limit zero = 1
limit (suc n) = 256 * limit n

pub word_lem : (x : List ℕ) → AreBytes x → word x < limit (length x)
word_lem [] v = omega arith
word_lem (b ∷ x) v = omega (arith, v.0, word_lem x v.1)
