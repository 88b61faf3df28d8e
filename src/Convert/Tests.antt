-- ===== src/Convert/Tests.antt =====
-- audio/conversion/audio_conversion.cpp: one sample of 32 bits for a driver with two channels of 16 bits.
use mocf.Base.{ℕ, ◌*◌, ◌≡◌, refl, true, false, some, none, List, [], ◌∷◌, length, ◌⊎◌, arith}
use mocf.Audio.Format.{Format, s24_3, s16, s32, Sfmt, sfmt_bytes_per_sample, sfmt_same_bps}
use mocf.Convert.Process.{
  Floats, Sound, process, channels_ok, to_native, narrow_24_3, narrow_16, narrow_24, narrow_24_16,
  to_float_if_needed, to_format, to_channels, to_order,
}
use mocf.Convert.Samples.{
  map_samples, s32_to_s16, mono_to_stereo, swap_endian, swap_samples, map_in_place, change_sign,
}
use mocf.Convert.Formats.{refuses}
use mocf.Convert.Whole.{process-refuses}
use mocf.Convert.Twice.{swap_endian-swap_endian, change_sign-change_sign}

-- Nothing needs floats here.
abbrev no_floats : Floats
no_floats = record { to_float = λ f x. 0; from_float = λ f x. 0 }

abbrev decoded : Sfmt
decoded = record { format = s32; le = true; be = false }

abbrev played : Sfmt
played = record { format = s16; le = false; be = true }

-- -2 in the high half.
abbrev one_sample : List ℕ
one_sample = 0 ∷ 0 ∷ 254 ∷ 255 ∷ []

process_test :
    process no_floats decoded played 1 2 one_sample
    ≡ some (record { buf = 255 ∷ 254 ∷ 255 ∷ 254 ∷ []; fmt = played })
unfolding process channels_ok to_native narrow_24_3 narrow_16 narrow_24 narrow_24_16
    to_float_if_needed to_format to_channels to_order map_samples s32_to_s16 mono_to_stereo
    swap_endian swap_samples map_in_place sfmt_same_bps sfmt_bytes_per_sample
process_test = refl

process-refuses_example :
    ((refuses s32 s16 ≡ true) × (process no_floats decoded played 1 2 one_sample ≡ none))
    ⊎ ((refuses s32 s16 ≡ false)
        × ((s : Sound) × (process no_floats decoded played 1 2 one_sample ≡ some s)
            × (s.fmt ≡ played)
            × (length s.buf ≡ 2 * (2 * 1))))
unfolding channels_ok sfmt_bytes_per_sample
process-refuses_example = process-refuses no_floats decoded played 1 2 1 one_sample refl refl refl

swap_endian-swap_endian_example :
    (b : List ℕ) × (swap_endian (1 ∷ 2 ∷ 3 ∷ 4 ∷ 5 ∷ 6 ∷ []) s24_3 ≡ some b)
    × (swap_endian b s24_3 ≡ some (1 ∷ 2 ∷ 3 ∷ 4 ∷ 5 ∷ 6 ∷ []))
swap_endian-swap_endian_example = swap_endian-swap_endian (1 ∷ 2 ∷ 3 ∷ 4 ∷ 5 ∷ 6 ∷ []) s24_3 refl

-- Four bytes are no packed samples.
swap_endian_test : swap_endian (1 ∷ 2 ∷ 3 ∷ 4 ∷ []) s24_3 ≡ none
unfolding swap_endian
swap_endian_test = refl

change_sign-change_sign_example :
    (b : List ℕ) × (g : Format) × (change_sign (0 ∷ 128 ∷ []) s16 ≡ some (b, g))
    × (change_sign b g ≡ some (0 ∷ 128 ∷ [], s16))
change_sign-change_sign_example =
    change_sign-change_sign (0 ∷ 128 ∷ []) s16 (omega arith, (omega arith, tt)) refl refl
