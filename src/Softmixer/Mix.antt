-- ===== src/Softmixer/Mix.antt =====
-- audio/processing/softmixer.cpp: the state, and `softmixer_process_buffer` on the integer formats.
use mocf.Base.{
  ℕ, zero, suc, ◌-◌, ◌*◌, ◌/◌, ◌%◌, ◌^◌, Bool, true, false, not, ◌&&◌, Option, none, some, List, [],
  ◌++◌, if◌then◌else◌, ltb, leb, ◌==◌, length, take, drop, ◌>>◌, assert,
}
use mocf.Base.Int.{ℤ, pos, negsuc, sub_ℕ, ◌+ℤ◌, ◌-ℤ◌, ltb_ℤ}
use mocf.Audio.Format.{Format, s8, u8, s16, u16, s24, u24, s32, u32, sfmt_bytes_per_sample}
use mocf.Convert.Samples.{word, bytes_of, map_in_place}

-- `active`, `mix_mono` and `mixer_real`
pub record Mixer : Type 0 where
  pub active : Bool
  pub mix_mono : Bool
  pub mixer_real : ℕ

-- The arguments of the templates: the type `T` of a sample by its bytes and its sign, the bits of `AccT`, the
-- bounds of the results, and the offset.
pub record SampleType : Type 0 where
  pub bytes : ℕ
  pub signed : Bool
  pub acc_bits : ℕ
  pub min_val : ℤ
  pub max_val : ℤ
  pub offset : ℤ

-- The value of the low `bits` of a word in two's complement.
abbrev pub signed_of : ℕ → ℕ → ℤ
signed_of bits w = if leb (2 ^ (bits - 1)) w then negsuc (2 ^ bits - 1 - w) else pos w

-- A conversion to `bits` bits.
abbrev pub to_word : ℕ → ℤ → ℕ
to_word bits (pos n) = n % 2 ^ bits
to_word bits (negsuc n) = 2 ^ bits - 1 - n % 2 ^ bits

-- What is stored in an `AccT`.
unfoldable pub wrapped : ℕ → ℤ → ℤ
wrapped bits x = signed_of bits (to_word bits x)

abbrev pub times : ℤ → ℕ → ℤ
times (pos n) k = pos (n * k)
times (negsuc n) k = sub_ℕ 0 (suc n * k)

-- Division rounds to zero.
abbrev pub divided : ℤ → ℕ → ℤ
divided (pos n) k = pos (n / k)
divided (negsuc n) k = sub_ℕ 0 (suc n / k)

-- `std::clamp`
abbrev pub clamp_ℤ : ℤ → ℤ → ℤ → ℤ
clamp_ℤ x lo hi = if ltb_ℤ x lo then lo else if ltb_ℤ hi x then hi else x

-- A sample in memory.
abbrev pub read_sample : SampleType → List ℕ → ℤ
read_sample t x = if t.signed then signed_of (8 * t.bytes) (word x) else pos (word x)

abbrev pub write_sample : SampleType → ℤ → List ℕ
write_sample t v = bytes_of t.bytes (to_word (8 * t.bytes) v)

-- The body of the loop of `process_buffer_impl`.
unfoldable pub amplified : SampleType → ℕ → ℤ → ℤ
amplified t gain x =
    let centred = wrapped t.acc_bits (x -ℤ t.offset) in
    let louder = wrapped t.acc_bits (times centred gain) in
    let back = wrapped t.acc_bits (divided louder 1000 +ℤ t.offset) in
    clamp_ℤ back t.min_val t.max_val

-- `process_buffer_impl`
unfoldable pub process_buffer_impl : SampleType → ℕ → List ℕ → ℕ → List ℕ
process_buffer_impl t gain buf samples =
    map_in_place t.bytes samples (λ x. write_sample t (amplified t gain (read_sample t x))) buf

-- The sum over the channels of a frame, and what is written back.
abbrev pub sum_channels : SampleType → ℕ → List ℕ → ℤ → ℤ
sum_channels t zero x sum = sum
sum_channels t (suc channels) x sum =
    sum_channels t channels (drop t.bytes x)
      (wrapped t.acc_bits (sum +ℤ read_sample t (take t.bytes x)))

abbrev pub repeated : ℕ → List ℕ → List ℕ
repeated zero x = []
repeated (suc n) x = x ++ repeated n x

-- A round of the loop of `mix_mono_impl`.
unfoldable pub mono_frame : SampleType → ℕ → List ℕ → List ℕ
mono_frame t channels x = repeated channels (
    write_sample t
      (clamp_ℤ (divided (sum_channels t channels x (pos 0)) channels) t.min_val t.max_val))

-- `mix_mono_impl`: rounds go on while samples are left.
unfoldable pub mix_mono_impl : SampleType → ℕ → List ℕ → ℕ → Option (List ℕ)
mix_mono_impl t channels buf samples = do
  assert (ltb 1 channels)
  some (map_in_place (t.bytes * channels) (samples / channels) (mono_frame t channels) buf)

-- The cases of `softmixer_process_buffer`; `none` for those without integers.
unfoldable pub sample_type : Format → Option SampleType
sample_type u8 = some (record {
  bytes = 1;
  signed = false;
  acc_bits = 16;
  min_val = pos 0;
  max_val = pos 255;
  offset = pos 127;
})
sample_type s8 = some (record {
  bytes = 1;
  signed = true;
  acc_bits = 16;
  min_val = negsuc 127;
  max_val = pos 127;
  offset = pos 0;
})
sample_type u16 = some (record {
  bytes = 2;
  signed = false;
  acc_bits = 32;
  min_val = pos 0;
  max_val = pos 65535;
  offset = pos 32767;
})
sample_type s16 = some (record {
  bytes = 2;
  signed = true;
  acc_bits = 32;
  min_val = negsuc 32767;
  max_val = pos 32767;
  offset = pos 0;
})
sample_type u24 = some (record {
  bytes = 4;
  signed = false;
  acc_bits = 64;
  min_val = pos 0;
  max_val = pos 16777216;
  offset = pos 8388608;
})
sample_type s24 = some (record {
  bytes = 4;
  signed = true;
  acc_bits = 64;
  min_val = negsuc 8388607;
  max_val = pos 8388607;
  offset = pos 0;
})
sample_type u32 = some (record {
  bytes = 4;
  signed = false;
  acc_bits = 64;
  min_val = pos 0;
  max_val = pos 4294967295;
  offset = pos 2147483647;
})
sample_type s32 = some (record {
  bytes = 4;
  signed = true;
  acc_bits = 64;
  min_val = negsuc 2147483647;
  max_val = pos 2147483647;
  offset = pos 0;
})
sample_type _ = none

-- `softmixer_process_buffer`, where the format is not `float`; a packed format has no case and is left alone.
unfoldable pub softmixer_process_buffer : Mixer → Format → ℕ → List ℕ → Option (List ℕ)
softmixer_process_buffer m fmt channels buf =
    let do_softmix = m.active && not (m.mixer_real == 1000) in
    let do_monomix = m.mix_mono && ltb 1 channels in
    if not do_softmix && not do_monomix then some buf else (do
      assert (length buf % (sfmt_bytes_per_sample fmt * channels) == 0)
      elim (sample_type fmt) [
        | none ↦ some buf
        | some t ↦
            let samples = length buf / t.bytes in
            let mixed =
              if do_softmix then process_buffer_impl t m.mixer_real buf samples else buf in
            if do_monomix then mix_mono_impl t channels mixed samples else some mixed
      ])
