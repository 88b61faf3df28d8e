-- ===== src/Convert/Signs.antt =====
-- audio/conversion/audio_conversion.cpp: which formats differ by their signs only.
use mocf.Base.{◌≡◌, refl, ap, Bool, true, false, not, ◌&&◌, ◌||◌, Option, none, some, ◌==◌}
use mocf.Audio.Format.{
  Format, same_format, is_24, is_24_3, is_32, sfmt_same_bps, sfmt_bytes_per_sample,
}
use mocf.Audio.EveryFormat.{every_format, every_two_formats, implied, eq_of_test, same_format_lem}
use mocf.Convert.Samples.{other_sign}

abbrev is_other_sign : Option Format → Format → Bool
is_other_sign none g = false
is_other_sign (some h) g = same_format h g

is_other_sign_lem : (o : Option Format) (g : Format) → is_other_sign o g ≡ true → o ≡ some g
is_other_sign_lem none g e = cc
is_other_sign_lem (some h) g e = ap some (same_format_lem h g e)

-- Formats of one width that differ are those of the two signs, which `change_sign` exchanges, unless they
-- are packed.
pub other_sign_lem :
    (f g : Format)
    → sfmt_same_bps f g && not (same_format f g) && not (is_24_3 f) ≡ true
    → other_sign f ≡ some g
unfolding sfmt_same_bps other_sign
other_sign_lem f g e = is_other_sign_lem (other_sign f) g (
    implied (sfmt_same_bps f g && not (same_format f g) && not (is_24_3 f))
      (is_other_sign (other_sign f) g)
      (every_two_formats
        (λ f g.
          not (sfmt_same_bps f g && not (same_format f g) && not (is_24_3 f))
          || is_other_sign (other_sign f) g)
        refl f g)
      e)

-- Formats of one width have samples of one size.
pub sfmt_same_bps-size :
    (f g : Format) → sfmt_same_bps f g ≡ true → sfmt_bytes_per_sample f ≡ sfmt_bytes_per_sample g
unfolding sfmt_same_bps sfmt_bytes_per_sample
sfmt_same_bps-size f g e = eq_of_test (sfmt_bytes_per_sample f) (sfmt_bytes_per_sample g) (
    implied (sfmt_same_bps f g) (sfmt_bytes_per_sample f == sfmt_bytes_per_sample g)
      (every_two_formats
        (λ f g. not (sfmt_same_bps f g) || (sfmt_bytes_per_sample f == sfmt_bytes_per_sample g))
        refl f g)
      e)

pub size_32 : (f : Format) → is_32 f ≡ true → sfmt_bytes_per_sample f ≡ 4
unfolding sfmt_bytes_per_sample
size_32 f e = eq_of_test (sfmt_bytes_per_sample f) 4 (
    implied (is_32 f) (sfmt_bytes_per_sample f == 4)
      (every_format (λ f. not (is_32 f) || (sfmt_bytes_per_sample f == 4)) refl f) e)

pub size_24 : (f : Format) → is_24 f ≡ true → sfmt_bytes_per_sample f ≡ 4
unfolding sfmt_bytes_per_sample
size_24 f e = eq_of_test (sfmt_bytes_per_sample f) 4 (
    implied (is_24 f) (sfmt_bytes_per_sample f == 4)
      (every_format (λ f. not (is_24 f) || (sfmt_bytes_per_sample f == 4)) refl f) e)

pub size_24_3 : (f : Format) → is_24_3 f ≡ true → sfmt_bytes_per_sample f ≡ 3
unfolding sfmt_bytes_per_sample
size_24_3 f e = eq_of_test (sfmt_bytes_per_sample f) 3 (
    implied (is_24_3 f) (sfmt_bytes_per_sample f == 3)
      (every_format (λ f. not (is_24_3 f) || (sfmt_bytes_per_sample f == 3)) refl f) e)
