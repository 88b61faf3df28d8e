-- ===== src/Convert/Samples.antt =====
-- audio/conversion/audio_conversion.cpp: the conversions of single samples, and of whole buffers.
use mocf.Base.{
  assert, ◌>>◌, not, ◌||◌, ◌==◌, ℕ, zero, suc, ◌+◌, ◌-◌, ◌*◌, ◌/◌, ◌%◌, ◌^◌, Option, none, some,
  List, [], ◌∷◌, ◌++◌, if◌then◌else◌, leb, length, take, drop, ◌>>=◌,
}
use mocf.Audio.Format.{
  Format, s8, u8, s16, u16, s24, u24, s32, u32, s24_3, u24_3, float, is_24_3, sfmt_bytes_per_sample,
}

-- The number that the bytes of a sample stand for on a little-endian host.
abbrev pub word : List ℕ → ℕ
word [] = 0
word (b ∷ bs) = b + 256 * word bs

-- The low `n` bytes of a number.
abbrev pub bytes_of : ℕ → ℕ → List ℕ
bytes_of zero w = []
bytes_of (suc n) w = w % 256 ∷ bytes_of n (w / 256)

-- A loop over `count` samples of `size` bytes each.
unfoldable pub map_samples : ℕ → ℕ → (List ℕ → List ℕ) → List ℕ → List ℕ
map_samples size zero f buf = []
map_samples size (suc count) f buf = f (take size buf) ++ map_samples size count f (drop size buf)

-- The same where the samples are changed in place: what is left stays.
unfoldable pub map_in_place : ℕ → ℕ → (List ℕ → List ℕ) → List ℕ → List ℕ
map_in_place size zero f buf = buf
map_in_place size (suc count) f buf = f (take size buf) ++ map_in_place size count f (drop size buf)

-- `>>` of an `int32_t`: the sign fills the high bits.
abbrev pub shift_right_signed : ℕ → ℕ → ℕ
shift_right_signed n w = w / 2 ^ n + (if leb (2 ^ 31) w then 2 ^ 32 - 2 ^ (32 - n) else 0)

-- `s32_to_s24_3`
unfoldable pub s32_to_s24_3 : List ℕ → List ℕ
s32_to_s24_3 x = word x / 2 ^ 8 % 256 ∷ word x / 2 ^ 16 % 256 ∷ word x / 2 ^ 24 % 256 ∷ []

-- `s32_to_s16`, `u32_to_u16`, `s32_to_s24`, `u32_to_u24`, `s24_to_s16` and `u24_to_u16`
unfoldable pub s32_to_s16 : List ℕ → List ℕ
s32_to_s16 x = bytes_of 2 (shift_right_signed 16 (word x))

unfoldable pub u32_to_u16 : List ℕ → List ℕ
u32_to_u16 x = bytes_of 2 (word x / 2 ^ 16)

unfoldable pub s32_to_s24 : List ℕ → List ℕ
s32_to_s24 x = bytes_of 4 (shift_right_signed 8 (word x))

unfoldable pub u32_to_u24 : List ℕ → List ℕ
u32_to_u24 x = bytes_of 4 (word x / 2 ^ 8)

unfoldable pub s24_to_s16 : List ℕ → List ℕ
s24_to_s16 x = bytes_of 2 (shift_right_signed 8 (word x))

unfoldable pub u24_to_u16 : List ℕ → List ℕ
u24_to_u16 x = bytes_of 2 (word x / 2 ^ 8)

-- `change_sign_impl`: `^` with the highest bit of `n` bytes.
unfoldable pub change_sign_impl : ℕ → List ℕ → List ℕ
change_sign_impl n x =
    bytes_of n (
      if leb (2 ^ (8 * n - 1)) (word x) then word x - 2 ^ (8 * n - 1) else word x + 2 ^ (8 * n - 1))

-- The format of the other sign in `change_sign`; none where that aborts.
unfoldable pub other_sign : Format → Option Format
other_sign s8 = some u8
other_sign u8 = some s8
other_sign s16 = some u16
other_sign u16 = some s16
other_sign s24 = some u24
other_sign u24 = some s24
other_sign s32 = some u32
other_sign u32 = some s32
other_sign _ = none

-- `change_sign`: the bytes, and the new format.
unfoldable pub change_sign : List ℕ → Format → Option (List ℕ × Format)
change_sign buf fmt = do
  new ← other_sign fmt
  some (
    map_in_place (sfmt_bytes_per_sample fmt) (length buf / sfmt_bytes_per_sample fmt)
        (change_sign_impl (sfmt_bytes_per_sample fmt)) buf,
    new,
  )

-- `bswap_16`, `bswap_32`, and the exchange of the outer bytes of three.
abbrev pub bswap : List ℕ → List ℕ
bswap (a ∷ b ∷ []) = b ∷ a ∷ []
bswap (a ∷ b ∷ c ∷ []) = c ∷ b ∷ a ∷ []
bswap (a ∷ b ∷ c ∷ d ∷ []) = d ∷ c ∷ b ∷ a ∷ []
bswap x = x

-- The loops of `swap_endian` over whole samples.
unfoldable pub swap_samples : List ℕ → Format → List ℕ
swap_samples buf s8 = buf
swap_samples buf u8 = buf
swap_samples buf float = buf
swap_samples buf s16 = map_in_place 2 (length buf / 2) bswap buf
swap_samples buf u16 = map_in_place 2 (length buf / 2) bswap buf
swap_samples buf s24 = map_in_place 4 (length buf / 4) bswap buf
swap_samples buf u24 = map_in_place 4 (length buf / 4) bswap buf
swap_samples buf s32 = map_in_place 4 (length buf / 4) bswap buf
swap_samples buf u32 = map_in_place 4 (length buf / 4) bswap buf
swap_samples buf s24_3 = map_in_place 3 (length buf / 3) bswap buf
swap_samples buf u24_3 = map_in_place 3 (length buf / 3) bswap buf

-- `swap_endian`; `none` where `audio_conv_bswap_24` runs past the end of the buffer.
unfoldable pub swap_endian : List ℕ → Format → Option (List ℕ)
swap_endian buf fmt = do
  assert (not (is_24_3 fmt) || (length buf % 3 == 0))
  some (swap_samples buf fmt)

-- `mono_to_stereo`: every sample twice; `none` where the loop reads past the end of the buffer.
unfoldable pub mono_to_stereo : List ℕ → Format → Option (List ℕ)
mono_to_stereo mono fmt = do
  assert (length mono % sfmt_bytes_per_sample fmt == 0)
  some (
      map_samples (sfmt_bytes_per_sample fmt) (length mono / sfmt_bytes_per_sample fmt)
        (λ x. x ++ x) mono)
