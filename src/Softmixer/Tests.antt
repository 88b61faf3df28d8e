-- ===== src/Softmixer/Tests.antt =====
-- audio/processing/softmixer.cpp: a loud sample of 16 bits, one of 8 bits, and the state at rest.
use mocf.Base.{◌≡◌, refl, [], ◌∷◌, some, true, arith}
use mocf.Base.Int.{pos, negsuc, ◌-ℤ◌, ◌+ℤ◌}
use mocf.Audio.Format.{s16, sfmt_bytes_per_sample}
use mocf.Convert.Samples.{map_in_place}
use mocf.Softmixer.Mix.{
  SampleType, sample_type, read_sample, write_sample, amplified, process_buffer_impl, wrapped,
  mono_frame, mix_mono_impl, softmixer_process_buffer,
}
use mocf.Softmixer.Exact.{scaled}
use mocf.Softmixer.Buffers.{process_buffer_impl-scaled}
use mocf.Softmixer.Wraps.{amplified-wraps}

abbrev loud : SampleType
loud = record {
  bytes = 2;
  signed = true;
  acc_bits = 32;
  min_val = negsuc 32767;
  max_val = pos 32767;
  offset = pos 0;
}

abbrev small : SampleType
small = record {
  bytes = 1;
  signed = true;
  acc_bits = 16;
  min_val = negsuc 127;
  max_val = pos 127;
  offset = pos 0;
}

-- 1000 and -1000 at half the volume, then both channels alike.
mixer_test :
    softmixer_process_buffer
      (record { active = true; mix_mono = true; mixer_real = 500 })
      s16
      2
      (232 ∷ 3 ∷ 24 ∷ 252 ∷ [])
    ≡ some (0 ∷ 0 ∷ 0 ∷ 0 ∷ [])
unfolding softmixer_process_buffer sample_type process_buffer_impl mix_mono_impl mono_frame
    amplified wrapped map_in_place sfmt_bytes_per_sample ◌+ℤ◌ ◌-ℤ◌
mixer_test = refl

process_buffer_impl-scaled_example :
    process_buffer_impl loud 2000 (232 ∷ 3 ∷ 24 ∷ 252 ∷ []) 2
    ≡ map_in_place 2 2
        (λ x. write_sample loud (scaled loud 2000 (read_sample loud x)))
        (232 ∷ 3 ∷ 24 ∷ 252 ∷ [])
unfolding sample_type
process_buffer_impl-scaled_example =
    process_buffer_impl-scaled s16 loud 2000 (232 ∷ 3 ∷ 24 ∷ 252 ∷ []) refl refl (omega arith)
      (omega arith, (omega arith, (omega arith, (omega arith, tt))))

-- 100 at half the volume is -15 instead of 50.
amplified-wraps_example : amplified small 500 (pos 100) ≡ negsuc 14
unfolding sample_type
amplified-wraps_example =
    amplified-wraps small 500 100 refl (omega arith) (omega arith) (omega arith)
