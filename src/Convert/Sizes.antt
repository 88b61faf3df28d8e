-- ===== src/Convert/Sizes.antt =====
-- audio/conversion/audio_conversion.cpp: what a conversion does to the number of bytes.
use mocf.Base.{
  ℕ, zero, suc, ◌*◌, ◌/◌, ◌≤◌, ◌≡◌, refl, ap, List, [], ◌∷◌, arith, length, take, drop,
  length-append, length-take, length-drop,
}
use mocf.Convert.Samples.{map_samples, map_in_place, bytes_of, bswap}

module _ (size m : ℕ) (f : List ℕ → List ℕ)
    (f_size : (x : List ℕ) → length x ≡ size → length (f x) ≡ m) where
  pub length-map_samples :
      (count : ℕ) (buf : List ℕ)
      → size * count ≤ length buf
      → length (map_samples size count f buf) ≡ m * count
  unfolding map_samples
  length-map_samples zero buf le = omega arith
  length-map_samples (suc count) buf le =
      let rest = length-map_samples count (drop size buf) (omega (arith, length-drop size buf)) in
      let first = f_size (take size buf) (omega (arith, length-take size buf)) in
      omega (
        arith,
        first,
        rest,
        length-append (f (take size buf)) (map_samples size count f (drop size buf)),
      )

module _ (size : ℕ) (f : List ℕ → List ℕ)
    (f_size : (x : List ℕ) → length x ≡ size → length (f x) ≡ size) where
  pub length-map_in_place :
      (count : ℕ) (buf : List ℕ)
      → size * count ≤ length buf
      → length (map_in_place size count f buf) ≡ length buf
  unfolding map_in_place
  length-map_in_place zero buf le = refl
  length-map_in_place (suc count) buf le =
      let rest = length-map_in_place count (drop size buf) (omega (arith, length-drop size buf)) in
      let first = f_size (take size buf) (omega (arith, length-take size buf)) in
      omega (
        arith,
        first,
        rest,
        length-drop size buf,
        length-append (f (take size buf)) (map_in_place size count f (drop size buf)),
      )

pub length-bytes_of : (n w : ℕ) → length (bytes_of n w) ≡ n
length-bytes_of zero w = refl
length-bytes_of (suc n) w = ap suc (length-bytes_of n (w / 256))

pub length-bswap : (x : List ℕ) → length (bswap x) ≡ length x
length-bswap [] = refl
length-bswap (a ∷ []) = refl
length-bswap (a ∷ b ∷ []) = refl
length-bswap (a ∷ b ∷ c ∷ []) = refl
length-bswap (a ∷ b ∷ c ∷ d ∷ []) = refl
length-bswap (a ∷ b ∷ c ∷ d ∷ e ∷ x) = refl
