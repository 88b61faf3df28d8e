-- ===== src/Convert/Process.antt =====
-- audio/conversion/audio_conversion.cpp: `AudioConversion::process` for formats of one rate.
use mocf.Base.{
  ℕ, ◌/◌, Bool, true, false, not, ◌&&◌, ◌||◌, Option, none, some, List, if◌then◌else◌, ◌==◌, length,
  assert, ◌>>=◌, ◌>>◌,
}
use mocf.Audio.Format.{
  Format, s16, u16, s24, u24, s32, s24_3, u24_3, float, Sfmt, same_format, is_16, is_24, is_24_3,
  is_32, is_float, sfmt_same_bps, sfmt_bytes_per_sample,
}
use mocf.Convert.Samples.{
  map_samples, s32_to_s24_3, s32_to_s16, u32_to_u16, s32_to_s24, u32_to_u24, s24_to_s16, u24_to_u16,
  change_sign, swap_endian, mono_to_stereo, bytes_of,
}

-- Floating-point arithmetic on one sample: the word of the `float` for a sample in a format, and back.
pub record Floats : Type 0 where
  pub to_float : Format → List ℕ → ℕ
  pub from_float : Format → List ℕ → ℕ

-- The bytes on their way, and their format.
pub record Sound : Type 0 where
  pub buf : List ℕ
  pub fmt : Sfmt

-- `sfmt_set_fmt`
abbrev pub sfmt_set_fmt : Format → Sfmt → Sfmt
sfmt_set_fmt new f = record f { format = new }

-- A special case of `process`: samples of `size` bytes go through `f` and get the format `new`.
abbrev pub converted : ℕ → (List ℕ → List ℕ) → Format → Sound → Sound
converted size f new s = record {
  buf = map_samples size (length s.buf / size) f s.buf;
  fmt = sfmt_set_fmt new s.fmt;
}

-- `if (!(curr_sfmt & SFMT_NE))`
unfoldable pub to_native : Sound → Option Sound
to_native s = if s.fmt.le then some s else (do
  bytes ← swap_endian s.buf s.fmt.format
  some (record { buf = bytes; fmt = record { format = s.fmt.format; le = true; be = false } }))

-- The four special cases, one after the other.
unfoldable pub narrow_24_3 : Format → Sound → Sound
narrow_24_3 to s =
    if is_32 s.fmt.format && is_24_3 to
    then (if same_format s.fmt.format s32
        then converted 4 s32_to_s24_3 s24_3 s
        else converted 4 s32_to_s24_3 u24_3 s)
    else s

unfoldable pub narrow_16 : Format → Sound → Sound
narrow_16 to s =
    if is_32 s.fmt.format && is_16 to
    then (if same_format s.fmt.format s32
        then converted 4 s32_to_s16 s16 s
        else converted 4 u32_to_u16 u16 s)
    else s

unfoldable pub narrow_24 : Format → Sound → Sound
narrow_24 to s =
    if is_32 s.fmt.format && is_24 to
    then (if same_format s.fmt.format s32
        then converted 4 s32_to_s24 s24 s
        else converted 4 u32_to_u24 u24 s)
    else s

unfoldable pub narrow_24_16 : Format → Sound → Sound
narrow_24_16 to s =
    if is_24 s.fmt.format && is_16 to
    then (if same_format s.fmt.format s24
        then converted 4 s24_to_s16 s16 s
        else converted 4 u24_to_u16 u16 s)
    else s

-- `fixed_to_float`
unfoldable pub fixed_to_float : Floats → Sound → Sound
fixed_to_float fl s =
    converted (sfmt_bytes_per_sample s.fmt.format) (λ x. bytes_of 4 (fl.to_float s.fmt.format x))
      float s

-- `float_to_fixed`; `sfmt_set_fmt` with all the flags of `to` adds its byte order.
unfoldable pub float_to_fixed : Floats → Sfmt → Sound → Sound
float_to_fixed fl to s = record {
  buf =
      map_samples 4 (length s.buf / 4)
        (λ x. bytes_of (sfmt_bytes_per_sample to.format) (fl.from_float to.format x)) s.buf;
  fmt = record { format = to.format; le = s.fmt.le || to.le; be = s.fmt.be || to.be };
}

-- The change to `float`, which needs not be where the width is right already.
unfoldable pub to_float_if_needed : Floats → Format → Sound → Sound
to_float_if_needed fl to s =
    if (is_float to || not (sfmt_same_bps to s.fmt.format)) && not (is_float s.fmt.format)
    then fixed_to_float fl s
    else s

-- The change to the format of `to`; `none` where the code aborts.
unfoldable pub to_format : Floats → Sfmt → Sound → Option Sound
to_format fl to s =
    if same_format s.fmt.format to.format
    then some s
    else if sfmt_same_bps s.fmt.format to.format
    then (do
      new ← change_sign s.buf s.fmt.format
      some (record { buf = new.0; fmt = sfmt_set_fmt new.1 s.fmt }))
    else (do assert (is_float s.fmt.format); some (float_to_fixed fl to s))

-- The channels that the constructor accepts.
unfoldable pub channels_ok : ℕ → ℕ → Bool
channels_ok from to = if from == to then true else ((from == 1) || (from == 6)) && (to == 2)

-- One channel becomes two; for six, whose downmix is not modelled, there is no result.
unfoldable pub to_channels : ℕ → ℕ → Sound → Option Sound
to_channels from to s =
    if (from == 1) && (to == 2)
    then (do bytes ← mono_to_stereo s.buf s.fmt.format; some (record s { buf = bytes }))
    else if (from == 6) && (to == 2)
    then none
    else some s

-- `(a & SFMT_MASK_ENDIANNESS) != (b & SFMT_MASK_ENDIANNESS)`
abbrev pub other_order : Sfmt → Sfmt → Bool
other_order f g = not ((if f.le then g.le else not g.le) && (if f.be then g.be else not g.be))

unfoldable pub to_order : Sfmt → Sound → Option Sound
to_order to s =
    if other_order s.fmt to
    then (do
      bytes ← swap_endian s.buf s.fmt.format
      some (record { buf = bytes; fmt = record s.fmt { le = to.le; be = to.be } }))
    else some s

-- The part up to the last change of the format.
abbrev pub narrowed : Format → Sound → Sound
narrowed to s = narrow_24_16 to (narrow_24 to (narrow_16 to (narrow_24_3 to s)))

-- `AudioConversion::process`, where the rates are equal and the channels are not six.
unfoldable pub process : Floats → Sfmt → Sfmt → ℕ → ℕ → List ℕ → Option Sound
process fl from to from_channels to_channels_n buf = do
  ordered ← to_native (record { buf = buf; fmt = from })
  s ← to_format fl to (to_float_if_needed fl to.format (narrowed to.format ordered))
  s' ← to_channels from_channels to_channels_n s
  to_order to s'
