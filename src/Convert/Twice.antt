-- ===== src/Convert/Twice.antt =====
-- audio/conversion/audio_conversion.cpp: a second change of the byte order, or of the signs, undoes the first.
use mocf.Base.{
  true, not, ◌||◌, ◌==◌, ℕ, zero, suc, ◌+◌, ◌-◌, ◌*◌, ◌/◌, ◌%◌, ◌^◌, ◌≤◌, ◌<◌, ◌≡◌, refl, ap, sym,
  ◌∙◌, false, some, List, [], ◌∷◌, ◌++◌, if◌then◌else◌, leb, arith, length, take, drop,
  length-append, length-take, length-drop, take-append-drop, take-drop-append,
}
use mocf.Audio.Format.{
  Format, s8, u8, s16, u16, s24, u24, s32, u32, s24_3, u24_3, float, is_24_3, is_float,
  sfmt_bytes_per_sample,
}
use mocf.Convert.Samples.{
  word, bytes_of, map_in_place, change_sign_impl, other_sign, change_sign, bswap, swap_samples,
  swap_endian,
}
use mocf.Convert.Bytes.{AreBytes, take-AreBytes, drop-AreBytes, limit, word_lem}
use mocf.Convert.Pipeline.{length-swap_samples}
use mocf.Convert.Sizes.{length-map_in_place, length-bytes_of, length-bswap}

-- A change of single samples that undoes itself.
module _ (P : List ℕ → Type 0) (P_take : (n : ℕ) (xs : List ℕ) → P xs → P (take n xs))
    (P_drop : (n : ℕ) (xs : List ℕ) → P xs → P (drop n xs)) (size : ℕ) (f : List ℕ → List ℕ)
    (f_size : (x : List ℕ) → length x ≡ size → length (f x) ≡ size)
    (f_twice : (x : List ℕ) → length x ≡ size → P x → f (f x) ≡ x) where
  map_in_place_twice :
      (count : ℕ) (buf : List ℕ)
      → P buf
      → size * count ≤ length buf
      → map_in_place size count f (map_in_place size count f buf) ≡ buf
  unfolding map_in_place
  map_in_place_twice zero buf v le = refl
  map_in_place_twice (suc count) buf v le =
      let head_size : length (take size buf) ≡ size = omega (arith, length-take size buf) in
      let rest = map_in_place size count f (drop size buf) in
      let cut =
        take-drop-append size (f (take size buf)) rest (
          omega
            (arith, f_size (take size buf) head_size, length-append (f (take size buf)) rest)) in
      ap (λ (x : List ℕ). f x ++ map_in_place size count f (drop size (f (take size buf) ++ rest)))
        cut.0
      ∙ ap (λ (x : List ℕ). f (f (take size buf)) ++ map_in_place size count f x) cut.1
      ∙ ap (λ (x : List ℕ). x ++ map_in_place size count f rest)
          (f_twice (take size buf) head_size (P_take size buf v))
      ∙ ap (λ (x : List ℕ). take size buf ++ x)
          (map_in_place_twice count (drop size buf) (P_drop size buf v)
            (omega (arith, length-drop size buf)))
      ∙ take-append-drop size buf

  -- The second run counts the same samples.
  whole_twice :
      (buf : List ℕ)
      → P buf
      → size * (length buf / size) ≤ length buf
      → map_in_place size
          (length (map_in_place size (length buf / size) f buf) / size)
          f
          (map_in_place size (length buf / size) f buf)
        ≡ buf
  whole_twice buf v le =
      ap (λ (k : ℕ). map_in_place size (k / size) f (map_in_place size (length buf / size) f buf))
        (length-map_in_place size f f_size (length buf / size) buf le)
      ∙ map_in_place_twice (length buf / size) buf v le

bswap_twice : (x : List ℕ) → bswap (bswap x) ≡ x
bswap_twice [] = refl
bswap_twice (a ∷ []) = refl
bswap_twice (a ∷ b ∷ []) = refl
bswap_twice (a ∷ b ∷ c ∷ []) = refl
bswap_twice (a ∷ b ∷ c ∷ d ∷ []) = refl
bswap_twice (a ∷ b ∷ c ∷ d ∷ e ∷ x) = refl

word-bytes_of : (n w : ℕ) → w < limit n → word (bytes_of n w) ≡ w
word-bytes_of zero w lt = omega arith
word-bytes_of (suc n) w lt = omega (arith, lt, word-bytes_of n (w / 256) (omega (arith, lt)))

bytes_of-word : (x : List ℕ) → AreBytes x → bytes_of (length x) (word x) ≡ x
bytes_of-word [] v = refl
bytes_of-word (b ∷ x) v =
    let low : (b + 256 * word x) % 256 ≡ b = omega (arith, v.0) in
    let high : (b + 256 * word x) / 256 ≡ word x = omega (arith, v.0) in
    rw (low, high, bytes_of-word x v.1) refl

abbrev toggle : ℕ → ℕ → ℕ
toggle h w = if leb h w then w - h else w + h

toggle_lem : (h w : ℕ) → w < 2 * h → (toggle h w < 2 * h) × (toggle h (toggle h w) ≡ w)
toggle_lem h w lt = (ground arith, ground arith)

-- `n` is a width whose highest bit is half the limit.
change_sign_impl_twice :
    (n : ℕ) (x : List ℕ)
    → limit n ≡ 2 * 2 ^ (8 * n - 1)
    → length x ≡ n
    → AreBytes x
    → change_sign_impl n (change_sign_impl n x) ≡ x
unfolding change_sign_impl
change_sign_impl_twice n x half size v =
    let h = 2 ^ (8 * n - 1) in
    let small : word x < 2 * h = omega (arith, word_lem x v, ap limit size, half) in
    let t = toggle_lem h (word x) small in
    ap (λ (w : ℕ). bytes_of n (toggle h w))
      (word-bytes_of n (toggle h (word x)) (omega (arith, t.0, half)))
    ∙ ap (λ (w : ℕ). bytes_of n w) t.1
    ∙ ap (λ (m : ℕ). bytes_of m (word x)) (sym size)
    ∙ bytes_of-word x v

swapped_twice :
    (size : ℕ) (buf : List ℕ)
    → size * (length buf / size) ≤ length buf
    → map_in_place size
        (length (map_in_place size (length buf / size) bswap buf) / size)
        bswap
        (map_in_place size (length buf / size) bswap buf)
      ≡ buf
swapped_twice size buf le =
    whole_twice (λ _. Unit {0}) (λ _ _ _. tt) (λ _ _ _. tt) size bswap (λ x e. length-bswap x ∙ e)
      (λ x _ _. bswap_twice x) buf tt le

swap_samples_twice : (buf : List ℕ) (f : Format) → swap_samples (swap_samples buf f) f ≡ buf
unfolding swap_samples
swap_samples_twice buf s8 = refl
swap_samples_twice buf u8 = refl
swap_samples_twice buf float = refl
swap_samples_twice buf s16 = swapped_twice 2 buf (omega arith)
swap_samples_twice buf u16 = swapped_twice 2 buf (omega arith)
swap_samples_twice buf s24 = swapped_twice 4 buf (omega arith)
swap_samples_twice buf u24 = swapped_twice 4 buf (omega arith)
swap_samples_twice buf s32 = swapped_twice 4 buf (omega arith)
swap_samples_twice buf u32 = swapped_twice 4 buf (omega arith)
swap_samples_twice buf s24_3 = swapped_twice 3 buf (omega arith)
swap_samples_twice buf u24_3 = swapped_twice 3 buf (omega arith)

-- Swapping the byte order of a buffer twice gives it back, in every format, where packed samples are whole; in
-- the other formats the buffer may end within a sample.
pub swap_endian-swap_endian :
    (buf : List ℕ) (f : Format)
    → not (is_24_3 f) || (length buf % 3 == 0) ≡ true
    → (b : List ℕ) × (swap_endian buf f ≡ some b) × (swap_endian b f ≡ some buf)
unfolding swap_endian
swap_endian-swap_endian buf f fits =
    let fits' : not (is_24_3 f) || (length (swap_samples buf f) % 3 == 0) ≡ true =
      ap (λ (k : ℕ). not (is_24_3 f) || (k % 3 == 0)) (length-swap_samples buf f) ∙ fits in
    (swap_samples buf f, rw fits refl, rw fits' (ap some (swap_samples_twice buf f)))

signs_twice :
    (size : ℕ) (buf : List ℕ)
    → limit size ≡ 2 * 2 ^ (8 * size - 1)
    → AreBytes buf
    → size * (length buf / size) ≤ length buf
    → map_in_place size
        (length (map_in_place size (length buf / size) (change_sign_impl size) buf) / size)
        (change_sign_impl size)
        (map_in_place size (length buf / size) (change_sign_impl size) buf)
      ≡ buf
unfolding change_sign_impl
signs_twice size buf half v le =
    whole_twice AreBytes take-AreBytes drop-AreBytes size (change_sign_impl size)
      (λ x _. length-bytes_of size (toggle (2 ^ (8 * size - 1)) (word x)))
      (λ x e w. change_sign_impl_twice size x half e w) buf v le

-- Changing the signs of bytes twice gives the buffer and the format back, in every format that is neither packed
-- nor `float`.
pub change_sign-change_sign :
    (buf : List ℕ) (f : Format)
    → AreBytes buf
    → is_24_3 f ≡ false
    → is_float f ≡ false
    → (b : List ℕ) × (g : Format) × (change_sign buf f ≡ some (b, g))
      × (change_sign b g ≡ some (buf, f))
unfolding change_sign other_sign sfmt_bytes_per_sample
change_sign-change_sign buf s8 v p q =
    (_, u8, refl, ap (λ (b : List ℕ). some (b, s8)) (signs_twice 1 buf refl v (omega arith)))
change_sign-change_sign buf u8 v p q =
    (_, s8, refl, ap (λ (b : List ℕ). some (b, u8)) (signs_twice 1 buf refl v (omega arith)))
change_sign-change_sign buf s16 v p q =
    (_, u16, refl, ap (λ (b : List ℕ). some (b, s16)) (signs_twice 2 buf refl v (omega arith)))
change_sign-change_sign buf u16 v p q =
    (_, s16, refl, ap (λ (b : List ℕ). some (b, u16)) (signs_twice 2 buf refl v (omega arith)))
change_sign-change_sign buf s24 v p q =
    (_, u24, refl, ap (λ (b : List ℕ). some (b, s24)) (signs_twice 4 buf refl v (omega arith)))
change_sign-change_sign buf u24 v p q =
    (_, s24, refl, ap (λ (b : List ℕ). some (b, u24)) (signs_twice 4 buf refl v (omega arith)))
change_sign-change_sign buf s32 v p q =
    (_, u32, refl, ap (λ (b : List ℕ). some (b, s32)) (signs_twice 4 buf refl v (omega arith)))
change_sign-change_sign buf u32 v p q =
    (_, s32, refl, ap (λ (b : List ℕ). some (b, u32)) (signs_twice 4 buf refl v (omega arith)))
change_sign-change_sign buf s24_3 v p q = cc
change_sign-change_sign buf u24_3 v p q = cc
change_sign-change_sign buf float v p q = cc
