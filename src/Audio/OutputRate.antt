-- ===== src/Audio/OutputRate.antt =====
-- audio/audio.cpp: the rate that `audio_open` chooses.
use mocf.Base.{
  ◌*◌, false, ◌∙◌, if_true, if_false, lt→ltb, ℕ, ◌%◌, ◌≤◌, ◌<◌, ◌≡◌, refl, ◌⊎◌, inl, inr, true,
  some, arith, leb, ltb, ◌==◌, Bool-cases,
}
use mocf.Audio.Device.{
  RateOptions, OutputDriverCaps, clamp, has_multiple, multiple_rate, highest_rate, output_rate,
}

-- A value between the bounds, the value itself where that is between them.
abbrev pub IsClamped : ℕ → ℕ → ℕ → ℕ → Type 0
IsClamped v lo hi r = (lo ≤ r) × (r ≤ hi) × ((r ≡ v) ⊎ ((v < lo) ⊎ (hi < v)))

pub clamp-IsClamped :
    (v lo hi : ℕ) → lo ≤ hi → (r : ℕ) × (clamp v lo hi ≡ some r) × IsClamped v lo hi r
unfolding clamp
clamp-IsClamped v lo hi le =
    let ok : leb lo hi ≡ true = ground (arith, le) in
    elim (Bool-cases (ltb v lo)) [
      | inl below ↦ (lo, rw (ok, below) refl, (omega arith, le, inr (inl (ground arith))))
      | inr at_least ↦ elim (Bool-cases (ltb hi v)) [
        | inl above ↦
            (hi, rw (ok, at_least, above) refl, (le, omega arith, inr (inr (ground arith))))
        | inr at_most ↦ (v, rw (ok, at_least, at_most) refl, (ground arith, ground arith, inl refl))
      ]
    ]

multiple_rate-IsClamped :
    (rate req lo hi : ℕ)
    → 0 < req
    → IsClamped req lo hi rate
    → (r : ℕ) × (multiple_rate rate req lo hi ≡ some r) × IsClamped req lo hi r
unfolding multiple_rate
multiple_rate-IsClamped rate req lo hi some_rate c =
    let nonzero : ltb 0 req ≡ true = ground (arith, some_rate) in
    elim (Bool-cases (ltb req rate)) [
      | inr e ↦ (rate, rw e refl, c)
      | inl e ↦ elim (Bool-cases (rate % req == 0)) [
        | inl whole ↦ (rate, rw (e, nonzero, whole) refl, c)
        | inr part ↦
            let off : (rate ≡ req) ⊎ ((req < lo) ⊎ (hi < req)) = c.2 in
            let out : (req < lo) ⊎ (hi < req) = elim off [
              | inl same ↦ absurd (ground (arith, same))
              | inr o ↦ o
            ] in
            elim (Bool-cases (has_multiple req 2 lo hi)) [
              | inl m ↦
                  (req * 2, rw (e, nonzero, part, m) refl, (ground arith, ground arith, inr out))
              | inr m ↦ elim (Bool-cases (has_multiple req 3 lo hi)) [
                | inl m' ↦ (
                  req * 3,
                  rw (e, nonzero, part, m, m') refl,
                  (ground arith, ground arith, inr out),
                )
                | inr m' ↦ elim (Bool-cases (has_multiple req 4 lo hi)) [
                  | inl m'' ↦ (
                    req * 4,
                    rw (e, nonzero, part, m, m', m'') refl,
                    (ground arith, ground arith, inr out),
                  )
                  | inr m'' ↦ (rate, rw (e, nonzero, part, m, m', m'') refl, c)
                ]
              ]
            ]
      ]
    ]

resampled_rate :
    (o : RateOptions) (caps : OutputDriverCaps) (req : ℕ)
    → o.enable_resample ≡ 1
    → 0 < req
    → caps.min_rate ≤ highest_rate o.max_samplerate caps.max_rate
    → (r : ℕ) × (output_rate o caps req ≡ some r)
      × IsClamped req caps.min_rate (highest_rate o.max_samplerate caps.max_rate) r
unfolding output_rate
resampled_rate o caps req one some_rate le =
    let (v, e, c) =
      clamp-IsClamped req caps.min_rate (highest_rate o.max_samplerate caps.max_rate) le in
    let (r, e', c') =
      multiple_rate-IsClamped v req caps.min_rate (highest_rate o.max_samplerate caps.max_rate)
        some_rate c in
    let other : (o.enable_resample == 2) ≡ false = ground (arith, one) in
    let this : (o.enable_resample == 1) ≡ true = ground (arith, one) in
    (r, if_false _ _ _ other ∙ if_true _ _ _ this ∙ rw e e', c')

-- With `EnableResample` 1, a request for a rate above 0, and a lowest rate of the driver that is not above the
-- highest which driver and options allow, the rate that is chosen lies between these two, and is the requested
-- rate where that does.
pub output_rate-IsClamped :
    (max : ℕ) (caps : OutputDriverCaps) (req : ℕ)
    → 0 < req
    → caps.min_rate ≤ highest_rate max caps.max_rate
    → (r : ℕ) × (output_rate (record { max_samplerate = max; enable_resample = 1 }) caps req
        ≡ some r)
      × IsClamped req caps.min_rate (highest_rate max caps.max_rate) r
output_rate-IsClamped max caps req some_rate le =
    resampled_rate (record { max_samplerate = max; enable_resample = 1 }) caps req refl some_rate le

-- In each setting of `EnableResample`, what it needs of the options, the driver and the request.
pub output_rate-chosen :
    (o : RateOptions) (caps : OutputDriverCaps) (req : ℕ)
    → (o.enable_resample ≡ 2 → 0 < o.max_samplerate)
    → (o.enable_resample ≡ 1
        → (0 < req) × (caps.min_rate ≤ highest_rate o.max_samplerate caps.max_rate))
    → (r : ℕ) × (output_rate o caps req ≡ some r)
unfolding output_rate
output_rate-chosen o caps req forced resampled = elim (Bool-cases (o.enable_resample == 2)) [
  | inl two ↦
      let given : ltb 0 o.max_samplerate ≡ true = lt→ltb _ _ (forced (ground arith)) in
      (o.max_samplerate, if_true _ _ _ two ∙ rw given refl)
  | inr not_two ↦ elim (Bool-cases (o.enable_resample == 1)) [
    | inl one ↦
        let is_one : o.enable_resample ≡ 1 = ground arith in
        let r = resampled_rate o caps req is_one (resampled is_one).0 (resampled is_one).1 in
        (r.0, r.1)
    | inr not_one ↦ (req, if_false _ _ _ not_two ∙ if_false _ _ _ not_one)
  ]
]
