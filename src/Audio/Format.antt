-- ===== src/Audio/Format.antt =====
-- audio/audio.h and audio/audio.cpp: sample formats, and the choice of one.
use mocf.Base.{
  ℕ, Bool, true, false, ◌&&◌, ◌||◌, Option, none, some, List, [], ◌∷◌, if◌then◌else◌, assert, ◌>>=◌,
  ◌>>◌,
}

-- The format bits of `sfmt_flags`, of which a sample format has one.
pub data Format : Type 0 where
  s8 u8 s16 u16 s24 u24 s32 u32 s24_3 u24_3 float : Format

-- A sample format: its format bit, and the bits SFMT_LE and SFMT_BE.
pub record Sfmt : Type 0 where
  pub format : Format
  pub le : Bool
  pub be : Bool

-- A mask of formats, as a driver reports it.
pub record FormatMask : Type 0 where
  pub formats : Format → Bool
  pub le : Bool
  pub be : Bool

-- `f & (SFMT_S8 | SFMT_U8 | SFMT_FLOAT)`
abbrev pub no_endian : Format → Bool
no_endian s8 = true
no_endian u8 = true
no_endian float = true
no_endian _ = false

-- `sound_format_ok` of one format.
abbrev pub sound_format_ok : Sfmt → Bool
sound_format_ok f = no_endian f.format || (f.le || f.be)

abbrev pub same_format : Format → Format → Bool
same_format s8 s8 = true
same_format u8 u8 = true
same_format s16 s16 = true
same_format u16 u16 = true
same_format s24 s24 = true
same_format u24 u24 = true
same_format s32 s32 = true
same_format u32 u32 = true
same_format s24_3 s24_3 = true
same_format u24_3 u24_3 = true
same_format float float = true
same_format _ _ = false

-- `sfmt_Bps`
unfoldable pub sfmt_bytes_per_sample : Format → ℕ
sfmt_bytes_per_sample s8 = 1
sfmt_bytes_per_sample u8 = 1
sfmt_bytes_per_sample s16 = 2
sfmt_bytes_per_sample u16 = 2
sfmt_bytes_per_sample s24_3 = 3
sfmt_bytes_per_sample u24_3 = 3
sfmt_bytes_per_sample s32 = 4
sfmt_bytes_per_sample u32 = 4
sfmt_bytes_per_sample s24 = 4
sfmt_bytes_per_sample u24 = 4
sfmt_bytes_per_sample float = 4

abbrev pub is_8 : Format → Bool
is_8 f = same_format f s8 || same_format f u8

abbrev pub is_16 : Format → Bool
is_16 f = same_format f s16 || same_format f u16

abbrev pub is_24 : Format → Bool
is_24 f = same_format f s24 || same_format f u24

abbrev pub is_24_3 : Format → Bool
is_24_3 f = same_format f s24_3 || same_format f u24_3

abbrev pub is_32 : Format → Bool
is_32 f = same_format f s32 || same_format f u32

abbrev pub is_float : Format → Bool
is_float f = same_format f float

-- `sfmt_same_bps`
unfoldable pub sfmt_same_bps : Format → Format → Bool
sfmt_same_bps f g =
    if is_8 f && is_8 g
    then true
    else if is_16 f && is_16 g
    then true
    else if is_24 f && is_24 g
    then true
    else if is_24_3 f && is_24_3 g
    then true
    else if is_32 f && is_32 g
    then true
    else if is_float f && is_float g
    then true
    else false

-- The lists `prefs` of `sfmt_best_matching`.
unfoldable pub prefs : Format → List Format
prefs s8 = s8 ∷ u8 ∷ s16 ∷ u16 ∷ s24_3 ∷ u24_3 ∷ s24 ∷ u24 ∷ s32 ∷ u32 ∷ float ∷ []
prefs u8 = s8 ∷ u8 ∷ s16 ∷ u16 ∷ s24_3 ∷ u24_3 ∷ s24 ∷ u24 ∷ s32 ∷ u32 ∷ float ∷ []
prefs s16 = s16 ∷ u16 ∷ s24_3 ∷ u24_3 ∷ s24 ∷ u24 ∷ s32 ∷ u32 ∷ float ∷ s8 ∷ u8 ∷ []
prefs u16 = s16 ∷ u16 ∷ s24_3 ∷ u24_3 ∷ s24 ∷ u24 ∷ s32 ∷ u32 ∷ float ∷ s8 ∷ u8 ∷ []
prefs s24 = s24 ∷ u24 ∷ s24_3 ∷ u24_3 ∷ s32 ∷ u32 ∷ float ∷ s16 ∷ u16 ∷ s8 ∷ u8 ∷ []
prefs u24 = s24 ∷ u24 ∷ s24_3 ∷ u24_3 ∷ s32 ∷ u32 ∷ float ∷ s16 ∷ u16 ∷ s8 ∷ u8 ∷ []
prefs s24_3 = s24_3 ∷ u24_3 ∷ s24 ∷ u24 ∷ s32 ∷ u32 ∷ float ∷ s16 ∷ u16 ∷ s8 ∷ u8 ∷ []
prefs u24_3 = s24_3 ∷ u24_3 ∷ s24 ∷ u24 ∷ s32 ∷ u32 ∷ float ∷ s16 ∷ u16 ∷ s8 ∷ u8 ∷ []
prefs s32 = s32 ∷ u32 ∷ float ∷ s24_3 ∷ u24_3 ∷ s24 ∷ u24 ∷ s16 ∷ u16 ∷ s8 ∷ u8 ∷ []
prefs u32 = s32 ∷ u32 ∷ float ∷ s24_3 ∷ u24_3 ∷ s24 ∷ u24 ∷ s16 ∷ u16 ∷ s8 ∷ u8 ∷ []
prefs float = s32 ∷ u32 ∷ s24_3 ∷ u24_3 ∷ s24 ∷ u24 ∷ s16 ∷ u16 ∷ s8 ∷ u8 ∷ []

-- The loop over `prefs`.
unfoldable pub first_of : (Format → Bool) → List Format → Option Format
first_of formats [] = none
first_of formats (pref ∷ rest) =
    let later = first_of formats rest in if formats pref then some pref else later

-- `sfmt_best_matching`; `none` is one of its assertions. The second takes the bitwise `^` of the two different
-- bits of the byte orders, which is 0 only where both are.
unfoldable pub sfmt_best_matching : FormatMask → Sfmt → Option Sfmt
sfmt_best_matching mask req = do
  best ←
      if mask.formats req.format then some req.format else first_of mask.formats (prefs req.format)
  assert (no_endian best || (mask.le || mask.be))
  some (
      if no_endian best
      then record { format = best; le = false; be = false }
      else record { format = best; le = mask.le; be = mask.be })
