-- ===== src/Audio/Device.antt =====
-- audio/audio.cpp: the audio device: `audio_open` and `audio_close`.
use mocf.Base.{
  ℕ, ◌*◌, ◌%◌, Bool, true, false, not, ◌&&◌, ◌||◌, Option, none, some, if◌then◌else◌, assert, ◌>>=◌,
  ◌>>◌, leb, ltb, ◌==◌,
}
use mocf.Audio.Format.{
  Sfmt, FormatMask, same_format, sound_format_ok, sfmt_bytes_per_sample, sfmt_best_matching,
}

-- `struct sound_params`; a format of 0 is `none`.
pub record SoundParams : Type 0 where
  pub channels : ℕ
  pub rate : ℕ
  pub fmt : Option Sfmt

-- `{0, 0, 0}`, which `reset_sound_params` stores.
abbrev pub no_params : SoundParams
no_params = record { channels = 0; rate = 0; fmt = none }

-- `struct output_driver_caps`
pub record OutputDriverCaps : Type 0 where
  pub min_channels : ℕ
  pub max_channels : ℕ
  pub formats : FormatMask
  pub min_rate : ℕ
  pub max_rate : ℕ

-- The driver and the conversion, which other files define: what `hw->open` returns and leaves of its
-- parameters, what `hw->get_rate` returns then, and whether an `AudioConversion` can be made.
pub record Hardware : Type 0 where
  pub caps : OutputDriverCaps
  pub hw_open : SoundParams → Bool × SoundParams
  pub get_rate : SoundParams → ℕ
  pub converts : SoundParams → SoundParams → Bool

-- The options MaxSamplerate and EnableResample.
pub record RateOptions : Type 0 where
  pub max_samplerate : ℕ
  pub enable_resample : ℕ

-- The variables of audio.cpp that the device concerns.
pub record Device : Type 0 where
  pub audio_opened : Bool
  pub req_sound_params : SoundParams
  pub driver_sound_params : SoundParams
  pub last_params : SoundParams
  pub driver_bpf : ℕ
  pub driver_bps : ℕ
  pub need_audio_conversion : Bool

abbrev pub same_bool : Bool → Bool → Bool
same_bool a b = if a then b else not b

abbrev pub same_sfmt : Sfmt → Sfmt → Bool
same_sfmt f g = same_format f.format g.format && (same_bool f.le g.le && same_bool f.be g.be)

abbrev pub same_fmt : Option Sfmt → Option Sfmt → Bool
same_fmt none none = true
same_fmt (some f) (some g) = same_sfmt f g
same_fmt _ _ = false

-- `sound_params_eq`
abbrev pub sound_params_eq : SoundParams → SoundParams → Bool
sound_params_eq p q = same_fmt p.fmt q.fmt && ((p.channels == q.channels) && (p.rate == q.rate))

-- `std::clamp`, which asks for `lo` not above `hi`.
unfoldable pub clamp : ℕ → ℕ → ℕ → Option ℕ
clamp v lo hi = do assert (leb lo hi); some (if ltb v lo then lo else if ltb hi v then hi else v)

-- `rate * k`, if the driver has it.
abbrev pub has_multiple : ℕ → ℕ → ℕ → ℕ → Bool
has_multiple rate k min_rate max_rate = leb min_rate (rate * k) && leb (rate * k) max_rate

-- A rate that is a multiple of the requested one, if the driver has one; `none` where `rate % req` divides
-- by zero.
unfoldable pub multiple_rate : ℕ → ℕ → ℕ → ℕ → Option ℕ
multiple_rate rate req min_rate max_rate =
    if ltb req rate
    then (do
      assert (ltb 0 req)
      some (
          if rate % req == 0
          then rate
          else if has_multiple req 2 min_rate max_rate
          then req * 2
          else if has_multiple req 3 min_rate max_rate
          then req * 3
          else if has_multiple req 4 min_rate max_rate
          then req * 4
          else rate))
    else some rate

-- `EnableResample` 1: the highest rate.
abbrev pub highest_rate : ℕ → ℕ → ℕ
highest_rate max_option max_caps =
    if (max_option == 0) || ltb max_caps max_option then max_caps else max_option

-- The `switch` over `EnableResample`.
unfoldable pub output_rate : RateOptions → OutputDriverCaps → ℕ → Option ℕ
output_rate o caps req =
    if o.enable_resample == 2
    then (do assert (ltb 0 o.max_samplerate); some o.max_samplerate)
    else if o.enable_resample == 1
    then (do
      rate ← clamp req caps.min_rate (highest_rate o.max_samplerate caps.max_rate)
      multiple_rate rate req caps.min_rate (highest_rate o.max_samplerate caps.max_rate))
    else some req

-- `audio_close`
unfoldable pub audio_close : Device → Device
audio_close d =
    if d.audio_opened
    then record d {
      req_sound_params = no_params;
      driver_sound_params = no_params;
      driver_bpf = 0;
      driver_bps = 0;
      need_audio_conversion = false;
      audio_opened = false;
    }
    else d

-- The bytes of a frame.
abbrev pub bytes_per_frame : SoundParams → ℕ
bytes_per_frame p = p.channels * elim p.fmt [ none ↦ 0 | some f ↦ sfmt_bytes_per_sample f.format ]

-- The part of `audio_open` after the driver was opened with the parameters `p`.
unfoldable pub publish : Hardware → SoundParams → SoundParams → Device → Bool × Device
publish hw req p d =
    let opened : Device = record d {
      driver_sound_params = p;
      driver_bpf = bytes_per_frame p;
      driver_bps = p.rate * bytes_per_frame p;
      audio_opened = true;
    } in
    if sound_params_eq p req
    then (true, opened)
    else if hw.converts req p
    then (true, record opened { need_audio_conversion = true })
    else (false, record d { req_sound_params = no_params; driver_sound_params = p })

-- What `hw->open` does, and what follows.
unfoldable pub try_open : Hardware → SoundParams → SoundParams → Device → Bool × Device
try_open hw req asked d =
    let p : SoundParams = (hw.hw_open asked).1 in
    if (hw.hw_open asked).0
    then publish hw req (record p { rate = hw.get_rate p }) d
    else (false, record d { driver_sound_params = p })

-- The part of `audio_open` that chooses the parameters and opens the driver.
unfoldable pub open_driver : Hardware → RateOptions → SoundParams → Device → Option (Bool × Device)
open_driver hw o req d = do
  fmt ← req.fmt
  rate ← output_rate o hw.caps req.rate
  best ← sfmt_best_matching hw.caps.formats fmt
  channels ← clamp req.channels hw.caps.min_channels hw.caps.max_channels
  some (
      try_open hw req (record { channels = channels; rate = rate; fmt = some best })
        (record d { req_sound_params = req }))

-- `sound_format_ok` of a format that may be 0.
abbrev pub fmt_ok : Option Sfmt → Bool
fmt_ok none = false
fmt_ok (some f) = sound_format_ok f

-- The parameters, or those used last.
abbrev pub params_or_last : Option SoundParams → Device → SoundParams
params_or_last none d = d.last_params
params_or_last (some p) d = p

-- Whether the device can stay as it is.
abbrev pub stays_open : SoundParams → Device → Bool
stays_open req d =
    d.audio_opened && (sound_params_eq d.req_sound_params req && leb 88200 d.driver_bps)

-- `audio_open`; the parameters are `none` for those used last. The outer `none` is a failed assertion.
unfoldable pub audio_open :
    Hardware → RateOptions → Option SoundParams → Device → Option (Bool × Device)
audio_open hw o params d = do
  assert (fmt_ok (params_or_last params d).fmt)
  if stays_open (params_or_last params d) d
      then some (true, record d { last_params = params_or_last params d })
      else open_driver hw o (params_or_last params d)
          (audio_close (record d { last_params = params_or_last params d }))
