-- ===== src/Convert/Formats.antt =====
-- audio/conversion/audio_conversion.cpp: the formats that the samples pass through in `process`.
use mocf.Base.{ℕ, List, ◌≡◌, refl, ap, ◌∙◌, Bool, true, false, not, ◌&&◌, ◌||◌, if◌then◌else◌}
use mocf.Audio.Format.{
  Format, s16, u16, s24, u24, s32, s24_3, u24_3, float, same_format, is_16, is_24, is_24_3, is_32,
  is_float, sfmt_same_bps,
}
use mocf.Audio.EveryFormat.{every_two_formats, same_bool, same_bool_lem}
use mocf.Convert.Process.{
  Sound, narrow_24_3, narrow_16, narrow_24, narrow_24_16, narrowed, converted,
}
use mocf.Convert.Samples.{
  s32_to_s24_3, s32_to_s16, u32_to_u16, s32_to_s24, u32_to_u24, s24_to_s16, u24_to_u16,
}

-- The formats that the special cases lead to.
abbrev pub from_32_to_24_3 : Format → Format → Format
from_32_to_24_3 to f =
    if is_32 f && is_24_3 to then (if same_format f s32 then s24_3 else u24_3) else f

abbrev pub from_32_to_16 : Format → Format → Format
from_32_to_16 to f = if is_32 f && is_16 to then (if same_format f s32 then s16 else u16) else f

abbrev pub from_32_to_24 : Format → Format → Format
from_32_to_24 to f = if is_32 f && is_24 to then (if same_format f s32 then s24 else u24) else f

abbrev pub from_24_to_16 : Format → Format → Format
from_24_to_16 to f = if is_24 f && is_16 to then (if same_format f s24 then s16 else u16) else f

abbrev pub narrow_format : Format → Format → Format
narrow_format to f = from_24_to_16 to (from_32_to_24 to (from_32_to_16 to (from_32_to_24_3 to f)))

pub format-if :
    (b : Bool) (x y : Sound)
    → (if b then x else y).fmt.format ≡ (if b then x.fmt.format else y.fmt.format)
format-if true x y = refl
format-if false x y = refl

module _ (b c : Bool) (g h : List ℕ → List ℕ) (new new_u : Format) (s : Sound) where
  format-special :
      (if b then (if c then converted 4 g new s else converted 4 h new_u s) else s).fmt.format
      ≡ (if b then (if c then new else new_u) else s.fmt.format)
  format-special =
      elim b
        as (λ k.
          (if k then (if c then converted 4 g new s else converted 4 h new_u s) else s).fmt.format
          ≡ (if k then (if c then new else new_u) else s.fmt.format)) [
            | true ↦
                elim c
                  as (λ k.
                    (if k then converted 4 g new s else converted 4 h new_u s).fmt.format
                    ≡ (if k then new else new_u)) [ true ↦ refl | false ↦ refl ]
            | false ↦ refl
          ]

format-narrow_24_3 :
    (to : Format) (s : Sound) → (narrow_24_3 to s).fmt.format ≡ from_32_to_24_3 to s.fmt.format
unfolding narrow_24_3
format-narrow_24_3 to s =
    format-special (is_32 s.fmt.format && is_24_3 to) (same_format s.fmt.format s32) s32_to_s24_3
      s32_to_s24_3 s24_3 u24_3 s

format-narrow_16 :
    (to : Format) (s : Sound) → (narrow_16 to s).fmt.format ≡ from_32_to_16 to s.fmt.format
unfolding narrow_16
format-narrow_16 to s =
    format-special (is_32 s.fmt.format && is_16 to) (same_format s.fmt.format s32) s32_to_s16
      u32_to_u16 s16 u16 s

format-narrow_24 :
    (to : Format) (s : Sound) → (narrow_24 to s).fmt.format ≡ from_32_to_24 to s.fmt.format
unfolding narrow_24
format-narrow_24 to s =
    format-special (is_32 s.fmt.format && is_24 to) (same_format s.fmt.format s32) s32_to_s24
      u32_to_u24 s24 u24 s

format-narrow_24_16 :
    (to : Format) (s : Sound) → (narrow_24_16 to s).fmt.format ≡ from_24_to_16 to s.fmt.format
unfolding narrow_24_16
format-narrow_24_16 to s =
    format-special (is_24 s.fmt.format && is_16 to) (same_format s.fmt.format s24) s24_to_s16
      u24_to_u16 s16 u16 s

pub format-narrowed :
    (to : Format) (s : Sound) → (narrowed to s).fmt.format ≡ narrow_format to s.fmt.format
format-narrowed to s =
    format-narrow_24_16 to (narrow_24 to (narrow_16 to (narrow_24_3 to s)))
    ∙ ap (from_24_to_16 to) (
        format-narrow_24 to (narrow_16 to (narrow_24_3 to s))
        ∙ ap (from_32_to_24 to) (
            format-narrow_16 to (narrow_24_3 to s)
            ∙ ap (from_32_to_16 to) (format-narrow_24_3 to s)))

abbrev is_signed : Format → Bool
is_signed f = same_format f s32 || same_format f s24_3

-- The conversions that end in `abort`: those to a packed format from one of 32 bits, or packed, of the other
-- sign.
unfoldable pub refuses : Format → Format → Bool
refuses f to =
    is_24_3 to
    && ((is_32 f || is_24_3 f) && (if is_signed f then not (is_signed to) else is_signed to))

-- A packed format that is left to `change_sign`.
abbrev pub stuck : Format → Format → Bool
stuck g to = sfmt_same_bps g to && not (same_format g to) && is_24_3 g

pub refuses-stuck : (f to : Format) → refuses f to ≡ stuck (narrow_format to f) to
unfolding refuses sfmt_same_bps
refuses-stuck f to =
    same_bool_lem (refuses f to) (stuck (narrow_format to f) to) (
      every_two_formats (λ f to. same_bool (refuses f to) (stuck (narrow_format to f) to)) refl f
        to)

-- The format after the change to `float`, which keeps what is refused, and leaves only a change of sign where
-- it is not `float`.
abbrev pub float_format : Format → Format → Format
float_format to h =
    if (is_float to || not (sfmt_same_bps to h)) && not (is_float h) then float else h

pub float_format_lem :
    (to h : Format)
    → (stuck (float_format to h) to ≡ stuck h to)
      × ((is_float (float_format to h) || sfmt_same_bps (float_format to h) to) ≡ true)
unfolding sfmt_same_bps
float_format_lem to h = (
  same_bool_lem (stuck (float_format to h) to) (stuck h to)
      (every_two_formats (λ to h. same_bool (stuck (float_format to h) to) (stuck h to)) refl to h),
  every_two_formats (λ to h. is_float (float_format to h) || sfmt_same_bps (float_format to h) to)
      refl to h,
)
