-- ===== src/OutBuf/Flow.antt =====
-- audio/outputs/out_buf.cpp: no byte is lost, doubled or overtaken on its way to the device.
use mocf.Base.{
  none, true, assert, ltb, ◌>>=◌, ◌>>◌, ℕ, ◌≡◌, refl, sym, ap, ◌∙◌, Bool, not, ◌&&◌, ◌||◌, some,
  List, [], ◌++◌, ◌==◌, length, take, drop, min, take-append-drop, subst, Bool-cases, inl, inr,
  if◌then◌else◌,
}
use mathlib.Core.List.{append-nil, append_assoc}
use mocf.Fifo.{get, space, clear}
use mocf.Fifo.Contents.{IsValid, contents}
use mocf.Fifo.Put.{put-contents}
use mocf.Fifo.Get.{get-contents}
use mocf.OutBuf.{
  Device, OutBuf, Place, start_round, leave_callback, check, proceed, send, sent, put_some, pause,
  unpause, request_exit, set_free_callback, resumed, taken, whole_frames,
}
use mocf.OutBuf.Steps.{Reads, Step, Run}
use mocf.OutBuf.Pipeline.{
  under_way, pipeline, IsRunning, some_inj, either_idle, put_some-flow, quiet,
}

module _ (dev : Device) where
  taken-flow :
      (b b' : OutBuf)
      → IsRunning b
      → under_way b.place ≡ []
      → taken dev b ≡ some b'
      → IsRunning b' × (pipeline b' ≡ pipeline b)
  taken-flow b b' h idle e =
      let (ring, done, left, valid, size) = get-contents b.fifo (whole_frames dev) h.valid in
      let after : OutBuf = record b {
        fifo = ring;
        place = Place.sending (take (whole_frames dev) (contents b.fifo));
      } in
      let framed : ltb 0 dev.bpf ≡ true = elim (Bool-cases (ltb 0 dev.bpf)) [
        | inl some_frame ↦ some_frame
        | inr no_frame ↦ absurd (
            let z : none ≡ some b' =
              ap
                (λ (f : Bool). (do
                  n ← (do assert f; some (whole_frames dev))
                  r ← get b.fifo n
                  some (record b { fifo = r.0; place = Place.sending r.1 })))
                (sym no_frame)
              ∙ e in
            cc)
      ] in
      let computed : taken dev b ≡ some after = rw (framed, done) refl in
      let whole : take (whole_frames dev) (contents b.fifo) ++ (contents ring ++ b.unsent)
          ≡ under_way b.place ++ (contents b.fifo ++ b.unsent) =
        ap (λ (r : List ℕ). take (whole_frames dev) (contents b.fifo) ++ (r ++ b.unsent)) left
        ∙ sym (
            append_assoc (take (whole_frames dev) (contents b.fifo))
              (drop (whole_frames dev) (contents b.fifo)) b.unsent)
        ∙ ap (λ (r : List ℕ). r ++ b.unsent) (take-append-drop (whole_frames dev) (contents b.fifo))
        ∙ ap (λ (r : List ℕ). r ++ (contents b.fifo ++ b.unsent)) (sym idle) in
      subst (λ (z : OutBuf). IsRunning z × (pipeline z ≡ pipeline b)) (some_inj (sym computed ∙ e))
        (record { valid = valid; going = h.going }, ap (λ (r : List ℕ). b.played ++ r) whole)

  pub put_some-put : (b : OutBuf) → IsValid b.fifo → (b' : OutBuf) × (put_some b ≡ some b')
  unfolding put_some
  put_some-put b v = elim (Bool-cases b.is_stopped) [
    | inl x ↦ (record b { unsent = [] }, rw (x, put_some) refl)
    | inr x ↦
        let (ring, done, held, valid, size) = put-contents b.fifo b.unsent v in
        (
          record b { fifo = ring; unsent = drop (min (length b.unsent) (space b.fifo)) b.unsent },
          rw (x, put_some, done) refl,
        )
  ]

  proceed-flow :
      (b b' : OutBuf) (opens : Bool)
      → IsRunning b
      → b.place ≡ Place.awake
      → proceed dev b opens ≡ some b'
      → IsRunning b' × (pipeline b' ≡ pipeline b)
  unfolding proceed
  proceed-flow b b' opens h at e =
      let idle : under_way b.place ≡ [] = ap under_way at in
      let back : OutBuf = resumed dev b opens in
      let again : OutBuf = record back { place = Place.top } in
      let gone : OutBuf = record back { place = Place.exited; hardware_buf_fill = 0 } in
      elim (Bool-cases (b.fifo.fill == 0)) [
        | inl empty ↦ elim (Bool-cases b.is_exit) [
          | inl x ↦
              arrive gone (rw (empty, proceed, x) refl)
                (quiet b gone h refl refl refl refl (sym idle))
          | inr x ↦
              arrive again (rw (empty, proceed, x) refl)
                (quiet b again h refl refl refl refl (sym idle))
        ]
        | inr some_bytes ↦
            elim (Bool-cases (b.is_paused || (b.is_stopped || back.audio_dev_closed))) [
              | inl x ↦
                  arrive again (rw (some_bytes, proceed, x) refl)
                    (quiet b again h refl refl refl refl (sym idle))
              | inr x ↦
                  taken-flow back b' (record { valid = h.valid; going = h.going }) idle
                    (sym (rw (some_bytes, proceed, x) refl) ∙ e)
            ]
      ]
    where
      arrive :
          (z : OutBuf)
          → proceed dev b opens ≡ some z
          → IsRunning z × (pipeline z ≡ pipeline b)
          → IsRunning b' × (pipeline b' ≡ pipeline b)
      arrive z computed fine =
          subst (λ (w : OutBuf). IsRunning w × (pipeline w ≡ pipeline b))
            (some_inj (sym computed ∙ e)) fine

  Reads-flow :
      (b b' : OutBuf) → IsRunning b → Reads dev b b' → IsRunning b' × (pipeline b' ≡ pipeline b)
  unfolding start_round leave_callback check send sent
  Reads-flow _ _ h (Reads.starts b at) =
      let same : (if b.is_stopped then clear b.fifo else b.fifo) ≡ b.fifo = rw h.going refl in
      quiet b (start_round b) h same refl refl refl (
        either_idle b.has_callback Place.in_callback Place.checking refl refl
        ∙ sym (ap under_way at))
  Reads-flow _ _ h (Reads.leaves b at) =
      quiet b (leave_callback b) h refl refl refl refl (sym (ap under_way at))
  Reads-flow _ _ h (Reads.checks b at) = quiet b (check dev b) h refl refl refl refl (
      either_idle ((b.fifo.fill == 0 || (b.is_paused || b.is_stopped)) && not b.is_exit)
        Place.waiting Place.awake refl refl
      ∙ sym (ap under_way at))
  Reads-flow _ _ h (Reads.wakes b at) =
      quiet b (record b { place = Place.awake }) h refl refl refl refl (sym (ap under_way at))
  Reads-flow _ _ h (Reads.proceeds b b' opens at done) = proceed-flow b b' opens h at done
  Reads-flow _ _ h (Reads.sends b bytes n at) =
      let rest : List ℕ = contents b.fifo ++ b.unsent in
      (
        record { valid = h.valid; going = h.going },
        append_assoc b.played (take n bytes) (drop n bytes ++ rest)
            ∙ ap (λ (r : List ℕ). b.played ++ r)
                (sym (append_assoc (take n bytes) (drop n bytes) rest)
                  ∙ ap (λ (r : List ℕ). r ++ rest)
                      (take-append-drop n bytes ∙ sym (ap under_way at))),
      )
  Reads-flow _ _ h (Reads.finishes b hw_fill at) =
      quiet b (sent b hw_fill) h refl refl refl refl (sym (ap under_way at))

  Step-flow :
      (b b' : OutBuf) (bytes : List ℕ)
      → IsRunning b
      → Step dev b bytes b'
      → IsRunning b' × (pipeline b' ≡ pipeline b ++ bytes)
  unfolding pause unpause request_exit set_free_callback
  Step-flow _ _ _ h (Step.reads b b' r) =
      let (h', e) = Reads-flow b b' h r in (h', e ∙ sym (append-nil (pipeline b)))
  Step-flow _ _ _ h (Step.calls b bytes e) =
      let held : List ℕ = contents b.fifo in
      let way : List ℕ = under_way b.place in
      (
        record { valid = h.valid; going = h.going },
        sym (
            ap (λ (r : List ℕ). (b.played ++ (way ++ (held ++ r))) ++ bytes) e
            ∙ ap (λ (r : List ℕ). (b.played ++ (way ++ r)) ++ bytes) (append-nil held)
            ∙ append_assoc b.played (way ++ held) bytes
            ∙ ap (λ (r : List ℕ). b.played ++ r) (append_assoc way held bytes)),
      )
  Step-flow _ _ _ h (Step.puts b b' e) =
      let (h', e') = put_some-flow b b' h e in (h', e' ∙ sym (append-nil (pipeline b)))
  Step-flow _ _ _ h (Step.pauses b) =
      (record { valid = h.valid; going = h.going }, sym (append-nil (pipeline b)))
  Step-flow _ _ _ h (Step.unpauses b) =
      (record { valid = h.valid; going = h.going }, sym (append-nil (pipeline b)))
  Step-flow _ _ _ h (Step.exits b) =
      (record { valid = h.valid; going = h.going }, sym (append-nil (pipeline b)))
  Step-flow _ _ _ h (Step.listens b given) =
      (record { valid = h.valid; going = h.going }, sym (append-nil (pipeline b)))

  -- In whatever order the threads run: as long as nobody stops the buffer, what was played, is under way,
  -- is held, and is still to be put, is exactly the data that was there and that the calls of `put` brought,
  -- in their order, and the ring stays valid.
  pub Run-pipeline :
      (b b' : OutBuf) (bytes : List ℕ)
      → IsRunning b
      → Run dev b bytes b'
      → IsRunning b' × (pipeline b' ≡ pipeline b ++ bytes)
  Run-pipeline _ _ _ h (Run.stays b) = (h, sym (append-nil (pipeline b)))
  Run-pipeline _ _ _ h (Run.goes b b' b'' bytes more step run) =
      let (h', e) = Step-flow b b' bytes h step in
      let (h'', e') = Run-pipeline b' b'' more h' run in
      (h'', e' ∙ ap (λ (r : List ℕ). r ++ more) e ∙ append_assoc (pipeline b) bytes more)
