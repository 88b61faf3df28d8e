-- ===== src/Audio/DeviceState.antt =====
-- audio/audio.cpp: what `audio_open` leaves.
use mocf.Base.{
  ◌<◌, ◌||◌, ◌*◌, ◌≤◌, ◌≡◌, refl, ap, sym, ◌∙◌, ◌⊎◌, inl, inr, Bool, true, false, not, Option, some,
  arith, Bool-cases,
}
use mocf.Audio.Format.{Format, Sfmt, sound_format_ok}
use mocf.Audio.BestFormat.{sfmt_best_matching-IsCheapest}
use mocf.Audio.Device.{
  SoundParams, Hardware, RateOptions, Device, sound_params_eq, highest_rate, audio_close,
  bytes_per_frame, publish, try_open, open_driver, fmt_ok, params_or_last, stays_open, audio_open,
}
use mocf.Audio.OutputRate.{clamp-IsClamped, output_rate-chosen}

-- What the variables say of an open device, and of a closed one.
abbrev pub SaysOpen : Device → Type 0
SaysOpen d =
    (d.driver_bpf ≡ bytes_per_frame d.driver_sound_params)
    × (d.driver_bps ≡ d.driver_sound_params.rate * d.driver_bpf)
    × (d.need_audio_conversion ≡ not (sound_params_eq d.driver_sound_params d.req_sound_params))

abbrev pub SaysClosed : Device → Type 0
SaysClosed d = (d.driver_bpf ≡ 0) × (d.driver_bps ≡ 0) × (d.need_audio_conversion ≡ false)

abbrev pub IsConsistent : Device → Type 0
IsConsistent d = ((d.audio_opened ≡ true) × SaysOpen d) ⊎ ((d.audio_opened ≡ false) × SaysClosed d)

audio_close-closed :
    (d : Device)
    → IsConsistent d
    → ((audio_close d).audio_opened ≡ false) × SaysClosed (audio_close d)
unfolding audio_close
audio_close-closed d c = elim (Bool-cases d.audio_opened) [
  | inl e ↦ rw e (refl, (refl, refl, refl))
  | inr e ↦ elim c [
    | inl (e', _) ↦ absurd (let z : true ≡ false = sym e' ∙ e in cc)
    | inr (_, w) ↦ rw e (refl, w)
  ]
]

-- A result and a state that agrees with it.
abbrev pub Agrees : Bool × Device → Type 0
Agrees r = IsConsistent r.1 × (r.1.audio_opened ≡ r.0)

module _ (hw : Hardware) (req : SoundParams) (d : Device) (closed : d.audio_opened ≡ false)
    (w : SaysClosed d) (for_req : d.req_sound_params ≡ req) where
  publish-Agrees : (p : SoundParams) → Agrees (publish hw req p d)
  unfolding publish
  publish-Agrees p = elim (Bool-cases (sound_params_eq p req)) [
    | inl same ↦ rw same (inl (refl, (refl, refl, rw (for_req, same) w.2)), refl)
    | inr differ ↦ elim (Bool-cases (hw.converts req p)) [
      | inl can ↦ rw (differ, can) (inl (refl, (refl, refl, rw (for_req, differ) refl)), refl)
      | inr cannot ↦ rw (differ, cannot) (inr (closed, w), closed)
    ]
  ]

  try_open-Agrees : (asked : SoundParams) → Agrees (try_open hw req asked d)
  unfolding try_open
  try_open-Agrees asked = elim (Bool-cases (hw.hw_open asked).0) [
    | inl e ↦ rw e (publish-Agrees _)
    | inr e ↦ rw e (inr (closed, w), closed)
  ]

-- A request that hardware and options can serve: it has a proper format, and so has the driver, with a byte
-- order; the numbers of channels are in order; a rate that is forced is given, and where rates are resampled,
-- the request has one and the bounds are in order.
pub record CanServe (hw : Hardware) (o : RateOptions) (req : SoundParams) : Type 0 where
  pub fmt : Sfmt
  pub has_fmt : req.fmt ≡ some fmt
  pub proper : sound_format_ok fmt ≡ true
  pub available : Format
  pub is_available : hw.caps.formats.formats available ≡ true
  pub some_order : (hw.caps.formats.le || hw.caps.formats.be) ≡ true
  pub forced : o.enable_resample ≡ 2 → 0 < o.max_samplerate
  pub resampled :
      o.enable_resample ≡ 1
      → (0 < req.rate) × (hw.caps.min_rate ≤ highest_rate o.max_samplerate hw.caps.max_rate)
  pub has_channels : hw.caps.min_channels ≤ hw.caps.max_channels

open_driver-Agrees :
    (hw : Hardware) (o : RateOptions) (req : SoundParams) (d : Device)
    → CanServe hw o req
    → d.audio_opened ≡ false
    → SaysClosed d
    → (r : Bool × Device) × (open_driver hw o req d ≡ some r) × Agrees r
unfolding open_driver
open_driver-Agrees hw o req d can closed w =
    let (best, chosen, _, _) =
      sfmt_best_matching-IsCheapest hw.caps.formats can.fmt can.available can.is_available
        can.some_order in
    let (rate, has_rate) = output_rate-chosen o hw.caps req.rate can.forced can.resampled in
    let (channels, clamps, _) =
      clamp-IsClamped req.channels hw.caps.min_channels hw.caps.max_channels can.has_channels in
    (
      try_open hw req (record { channels = channels; rate = rate; fmt = some best })
          (record d { req_sound_params = req }),
      rw (can.has_fmt, has_rate, chosen, clamps) refl,
      try_open-Agrees hw req (record d { req_sound_params = req }) closed w refl
          (record { channels = channels; rate = rate; fmt = some best }),
    )

-- For a request, or parameters used last, with a proper format, where the driver has a format, a byte order and
-- numbers of channels in order, a forced rate is given, and for resampling the requested rate is above 0 and the
-- bounds are in order: from a state whose variables agree, `audio_open` passes its assertions. It returns 1
-- exactly when the device is open then; an open device has the published bytes per frame and per second of its
-- parameters, and a conversion exactly when these are not the requested ones, and a closed one has none of them.
pub audio_open-IsConsistent :
    (hw : Hardware) (o : RateOptions) (params : Option SoundParams) (d : Device)
    → IsConsistent d
    → CanServe hw o (params_or_last params d)
    → (ok : Bool) × (d' : Device) × (audio_open hw o params d ≡ some (ok, d'))
      × IsConsistent d'
      × (d'.audio_opened ≡ ok)
unfolding audio_open
audio_open-IsConsistent hw o params d c can =
    elim (Bool-cases (stays_open (params_or_last params d) d)) [
      | inl e ↦
          let opened : d.audio_opened ≡ true = ground arith in
          (true, record d { last_params = params_or_last params d }, rw (is_ok, e) refl, c, opened)
      | inr e ↦
          let d1 : Device = record d { last_params = params_or_last params d } in
          let (closed, w) = audio_close-closed d1 c in
          let (r, f, g) =
            open_driver-Agrees hw o (params_or_last params d) (audio_close d1) can closed w in
          (r.0, r.1, rw (is_ok, e) f, g.0, g.1)
    ]
  where
    is_ok : fmt_ok (params_or_last params d).fmt ≡ true
    is_ok = ap fmt_ok can.has_fmt ∙ can.proper
