-- ===== src/Convert/Whole.antt =====
-- audio/conversion/audio_conversion.cpp: what `process` gives.
use native.Mathlib.Nat.{mul-mod_right}
use mocf.Base.{
  ◌/◌, ◌%◌, ℕ, ◌+◌, ◌*◌, ◌≡◌, refl, ap, sym, ◌∙◌, ◌⊎◌, inl, inr, Bool, true, false, not, ◌&&◌, ◌||◌,
  Option, none, some, List, ◌++◌, if◌then◌else◌, arith, ◌==◌, length, Bool-cases, ◌>>=◌,
  length-append, if_true, if_false,
}
use mocf.Audio.Format.{Format, Sfmt, is_float, sfmt_same_bps, sfmt_bytes_per_sample}
use mocf.Convert.Samples.{mono_to_stereo, map_samples, swap_samples}
use mocf.Convert.Process.{
  Floats, Sound, narrowed, to_float_if_needed, fixed_to_float, to_format, channels_ok, to_channels,
  other_order, to_order, process,
}
use mocf.Convert.Pipeline.{
  bps, IsSized, mapped, length-swap_samples, swap_endian-whole, in_order, to_native-in_order,
  in_order-IsSized, format-in_order, narrowed-IsSized, to_float-IsSized,
}
use mocf.Convert.Formats.{
  narrow_format, format-narrowed, refuses, stuck, refuses-stuck, float_format, float_format_lem,
  format-if,
}
use mocf.Convert.Change.{to_format-Gives, refused_lem}

doubled : (b from to k : ℕ) → (from == 1) && (to == 2) ≡ true → (b + b) * (from * k) ≡ b * (to * k)
doubled b from to k e =
    let f : from ≡ 1 = ground arith in let t : to ≡ 2 = ground arith in rw (f, t) (omega arith)

kept :
    (from to : ℕ)
    → (if from == to then true else ((from == 1) || (from == 6)) && (to == 2)) ≡ true
    → (from == 1) && (to == 2) ≡ false
    → (from == 6) && (to == 2) ≡ false
    → from ≡ to
kept from to ok one six = ground arith

to_channels-Gives :
    (from to : ℕ) (s : Sound) (k : ℕ)
    → channels_ok from to ≡ true
    → (from == 6) && (to == 2) ≡ false
    → IsSized s (from * k)
    → (r : Sound) × (to_channels from to s ≡ some r) × IsSized r (to * k) × (r.fmt ≡ s.fmt)
unfolding to_channels channels_ok mono_to_stereo
to_channels-Gives from to s k ok six e = elim (Bool-cases ((from == 1) && (to == 2))) [
  | inl two ↦
      let fits : length s.buf % bps s.fmt.format ≡ 0 =
        ap (λ (m : ℕ). m % bps s.fmt.format) e ∙ mul-mod_right (bps s.fmt.format) (from * k) in
      (
        record s {
          buf =
              map_samples (bps s.fmt.format) (length s.buf / bps s.fmt.format) (λ x. x ++ x) s.buf;
        },
        if_true ((from == 1) && (to == 2)) _ _ two ∙ rw fits refl,
        mapped s.fmt.format (bps s.fmt.format + bps s.fmt.format) (from * k) (λ x. x ++ x) s.buf
              (λ x size. length-append x x ∙ ap (λ (m : ℕ). m + m) size) e
            ∙ doubled (bps s.fmt.format) from to k two,
        refl,
      )
  | inr one ↦ (
    s,
    if_false ((from == 1) && (to == 2)) _ _ one ∙ if_false ((from == 6) && (to == 2)) _ _ six,
    e ∙ ap (λ (m : ℕ). bps s.fmt.format * (m * k)) (kept from to ok one six),
    refl,
  )
]

abbrev sfmt_of : Format → Bool → Bool → Sfmt
sfmt_of f l b = record { format = f; le = l; be = b }

of_parts :
    (f : Format) (l b : Bool) (g : Sfmt) → f ≡ g.format → l ≡ g.le → b ≡ g.be → sfmt_of f l b ≡ g
of_parts f l b g p q r = rw (p, q, r) refl

same_order :
    (l m b c : Bool)
    → not ((if l then m else not m) && (if b then c else not c)) ≡ false
    → (l ≡ m) × (b ≡ c)
same_order l m b c e = (ground arith, ground arith)

to_order-IsSized :
    (to : Sfmt) (s : Sound) (n : ℕ)
    → s.fmt.format ≡ to.format
    → IsSized s n
    → (r : Sound) × (to_order to s ≡ some r) × (r.fmt ≡ to) × (length r.buf ≡ bps to.format * n)
unfolding to_order
to_order-IsSized to s n same e = elim (Bool-cases (other_order s.fmt to)) [
  | inl other ↦ (
    record { buf = swap_samples s.buf s.fmt.format; fmt = record s.fmt { le = to.le; be = to.be } },
    if_true (other_order s.fmt to) _ _ other
        ∙ ap
            (λ (o : Option (List ℕ)). (do
              bytes ← o
              some (record { buf = bytes; fmt = record s.fmt { le = to.le; be = to.be } })))
            (swap_endian-whole s.buf s.fmt.format n e),
    of_parts s.fmt.format to.le to.be to same refl refl,
    length-swap_samples s.buf s.fmt.format ∙ e ∙ ap (λ (f : Format). bps f * n) same,
  )
  | inr one ↦ (
    s,
    if_false (other_order s.fmt to) _ _ one,
    of_parts s.fmt.format s.fmt.le s.fmt.be to same (same_order s.fmt.le to.le s.fmt.be to.be one).0
        (same_order s.fmt.le to.le s.fmt.be to.be one).1,
    e ∙ ap (λ (f : Format). bps f * n) same,
  )
]

format-to_float :
    (fl : Floats) (to : Format) (s : Sound)
    → (to_float_if_needed fl to s).fmt.format ≡ float_format to s.fmt.format
unfolding to_float_if_needed fixed_to_float
format-to_float fl to s =
    format-if ((is_float to || not (sfmt_same_bps to s.fmt.format)) && not (is_float s.fmt.format))
      (fixed_to_float fl s) s

module _ (fl : Floats) (from to : Sfmt) (from_channels to_channels_n k : ℕ) (buf : List ℕ) where
  -- The sound on its way to the last change of its format.
  abbrev begun : Sound
  begun = narrowed to.format (in_order (record { buf = buf; fmt = from }))

  abbrev ready : Sound
  ready = to_float_if_needed fl to.format begun

  format-begun : begun.fmt.format ≡ narrow_format to.format from.format
  format-begun =
      format-narrowed to.format (in_order (record { buf = buf; fmt = from }))
      ∙ ap (narrow_format to.format) (format-in_order (record { buf = buf; fmt = from }))

  stuck-ready : stuck ready.fmt.format to.format ≡ refuses from.format to.format
  stuck-ready =
      ap (λ (f : Format). stuck f to.format) (format-to_float fl to.format begun)
      ∙ (float_format_lem to.format begun.fmt.format).0
      ∙ ap (λ (f : Format). stuck f to.format) format-begun
      ∙ sym (refuses-stuck from.format to.format)

  near-ready : (is_float ready.fmt.format || sfmt_same_bps ready.fmt.format to.format) ≡ true
  near-ready =
      ap (λ (f : Format). is_float f || sfmt_same_bps f to.format)
        (format-to_float fl to.format begun)
      ∙ (float_format_lem to.format begun.fmt.format).1

  ready-IsSized :
      length buf ≡ bps from.format * (from_channels * k) → IsSized ready (from_channels * k)
  ready-IsSized size = to_float-IsSized fl to.format begun (from_channels * k) (
      narrowed-IsSized to.format (in_order (record { buf = buf; fmt = from })) (from_channels * k)
        (in_order-IsSized (record { buf = buf; fmt = from }) (from_channels * k) size).0)

  -- What `process` does behind the change of the byte order.
  abbrev rest : Sound → Option Sound
  rest ordered = do
    s ← to_format fl to (to_float_if_needed fl to.format (narrowed to.format ordered))
    r ← to_channels from_channels to_channels_n s
    to_order to r

  process_begins :
      length buf ≡ bps from.format * (from_channels * k)
      → process fl from to from_channels to_channels_n buf
        ≡ rest (in_order (record { buf = buf; fmt = from }))
  unfolding process
  process_begins size =
      ap (λ (o : Option Sound). o >>= rest)
        (to_native-in_order (record { buf = buf; fmt = from }) (from_channels * k) size)

  process_ends :
      (s r : Sound)
      → length buf ≡ bps from.format * (from_channels * k)
      → to_format fl to ready ≡ some s
      → to_channels from_channels to_channels_n s ≡ some r
      → process fl from to from_channels to_channels_n buf ≡ to_order to r
  process_ends s r size e e' =
      process_begins size
      ∙ ap
          (λ (o : Option Sound). (do
            s ← o
            r ← to_channels from_channels to_channels_n s
            to_order to r))
          e
      ∙ ap (λ (o : Option Sound). o >>= to_order to) e'

  process_fails :
      length buf ≡ bps from.format * (from_channels * k)
      → refuses from.format to.format ≡ true
      → process fl from to from_channels to_channels_n buf ≡ none
  process_fails size e =
      process_begins size
      ∙ ap
          (λ (o : Option Sound). (do
            s ← o
            r ← to_channels from_channels to_channels_n s
            to_order to r))
          (refused_lem fl to ready (stuck-ready ∙ e))

-- `process` on whole frames, where the rates are equal and the constructor accepts the channels, which are not
-- a downmix of six: it aborts exactly for a packed 24-bit format that is asked for where the samples are packed,
-- or of 32 bits, and of the other sign. Else the result has the format asked for, and as many frames.
pub process-refuses :
    (fl : Floats) (from to : Sfmt) (from_channels to_channels_n k : ℕ) (buf : List ℕ)
    → channels_ok from_channels to_channels_n ≡ true
    → (from_channels == 6) && (to_channels_n == 2) ≡ false
    → length buf ≡ sfmt_bytes_per_sample from.format * (from_channels * k)
    → ((refuses from.format to.format ≡ true)
        × (process fl from to from_channels to_channels_n buf ≡ none))
      ⊎ ((refuses from.format to.format ≡ false)
          × ((s : Sound) × (process fl from to from_channels to_channels_n buf ≡ some s)
              × (s.fmt ≡ to)
              × (length s.buf ≡ sfmt_bytes_per_sample to.format * (to_channels_n * k))))
process-refuses fl from to a b k buf ok six size =
    elim (Bool-cases (refuses from.format to.format)) [
      | inl odd ↦ inl (odd, process_fails fl from to a b k buf size odd)
      | inr fine ↦
          let g =
            to_format-Gives fl to (ready fl from to a b k buf) (a * k)
              (ready-IsSized fl from to a b k buf size) (stuck-ready fl from to a b k buf ∙ fine)
              (near-ready fl from to a b k buf) in
          let c = to_channels-Gives a b g.0 k ok six g.2 in
          let o = to_order-IsSized to c.0 (b * k) (ap Sfmt.format c.3 ∙ g.3) c.2 in
          inr (fine, (o.0, process_ends fl from to a b k buf g.0 c.0 size g.1 c.1 ∙ o.1, o.2, o.3))
    ]
