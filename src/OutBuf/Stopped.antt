-- ===== src/OutBuf/Stopped.antt =====
-- audio/outputs/out_buf.cpp: a stopped buffer hands nothing more to the device.
use mocf.Base.{
  ℕ, ◌≡◌, refl, sym, ap, ◌∙◌, subst, Bool, true, not, ◌&&◌, ◌||◌, some, List, [], ◌++◌, ◌==◌, take,
  drop, take-append-drop, Bool-cases, inl, inr, arith,
}
use mathlib.Core.List.{append_assoc}
use mocf.OutBuf.{
  Device, OutBuf, Place, start_round, leave_callback, check, proceed, send, sent, put_some, pause,
  unpause, stop, request_exit, set_free_callback, resumed,
}
use mocf.OutBuf.Steps.{Reads, Step, Run}
use mocf.OutBuf.Pipeline.{under_way, some_inj, either_idle}

-- The bytes that have left the ring: played and under way.
abbrev pub handed : OutBuf → List ℕ
handed b = b.played ++ under_way b.place

pub record IsQuiet (b b' : OutBuf) : Type 0 where
  pub still : b'.is_stopped ≡ true
  pub same : handed b' ≡ handed b

-- A step that hands nothing out.
idle_step :
    (b z : OutBuf)
    → b.is_stopped ≡ true
    → z.is_stopped ≡ b.is_stopped
    → z.played ≡ b.played
    → under_way z.place ≡ under_way b.place
    → IsQuiet b z
idle_step b z h s p w = record {
  still = s ∙ h;
  same = ap (λ (r : List ℕ). r ++ under_way z.place) p ∙ ap (λ (r : List ℕ). b.played ++ r) w;
}

module _ (dev : Device) where
  proceed-IsQuiet :
      (b b' : OutBuf) (opens : Bool)
      → b.is_stopped ≡ true
      → b.place ≡ Place.awake
      → proceed dev b opens ≡ some b'
      → IsQuiet b b'
  unfolding proceed
  proceed-IsQuiet b b' opens h at e =
      let idle : [] ≡ under_way b.place = sym (ap under_way at) in
      let back : OutBuf = resumed dev b opens in
      let again : OutBuf = record back { place = Place.top } in
      let gone : OutBuf = record back { place = Place.exited; hardware_buf_fill = 0 } in
      let shut : (b.is_paused || (b.is_stopped || back.audio_dev_closed)) ≡ true =
        or_true b.is_paused b.is_stopped back.audio_dev_closed h in
      elim (Bool-cases (b.fifo.fill == 0)) [
        | inl empty ↦ elim (Bool-cases b.is_exit) [
          | inl x ↦ arrive gone (rw (empty, proceed, x) refl) (idle_step b gone h refl refl idle)
          | inr x ↦ arrive again (rw (empty, proceed, x) refl) (idle_step b again h refl refl idle)
        ]
        | inr some_bytes ↦
            arrive again (rw (some_bytes, proceed, shut) refl) (idle_step b again h refl refl idle)
      ]
    where
      arrive : (z : OutBuf) → proceed dev b opens ≡ some z → IsQuiet b z → IsQuiet b b'
      arrive z computed fine = subst (IsQuiet b) (some_inj (sym computed ∙ e)) fine

      or_true : (x y z : Bool) → y ≡ true → (x || (y || z)) ≡ true
      or_true x y z e = ground (arith, e)

  Reads-IsQuiet : (b b' : OutBuf) → b.is_stopped ≡ true → Reads dev b b' → IsQuiet b b'
  unfolding start_round leave_callback check send sent
  Reads-IsQuiet _ _ h (Reads.starts b at) = idle_step b (start_round b) h refl refl (
      either_idle b.has_callback Place.in_callback Place.checking refl refl ∙ sym (ap under_way at))
  Reads-IsQuiet _ _ h (Reads.leaves b at) =
      idle_step b (leave_callback b) h refl refl (sym (ap under_way at))
  Reads-IsQuiet _ _ h (Reads.checks b at) = idle_step b (check dev b) h refl refl (
      either_idle ((b.fifo.fill == 0 || (b.is_paused || b.is_stopped)) && not b.is_exit)
        Place.waiting Place.awake refl refl
      ∙ sym (ap under_way at))
  Reads-IsQuiet _ _ h (Reads.wakes b at) =
      idle_step b (record b { place = Place.awake }) h refl refl (sym (ap under_way at))
  Reads-IsQuiet _ _ h (Reads.proceeds b b' opens at done) = proceed-IsQuiet b b' opens h at done
  Reads-IsQuiet _ _ h (Reads.sends b bytes n at) = record {
    still = h;
    same =
        append_assoc b.played (take n bytes) (drop n bytes)
        ∙ ap (λ (r : List ℕ). b.played ++ r) (take-append-drop n bytes ∙ sym (ap under_way at));
  }
  Reads-IsQuiet _ _ h (Reads.finishes b hw_fill at) =
      idle_step b (sent b hw_fill) h refl refl (sym (ap under_way at))

  put_some-IsQuiet : (b b' : OutBuf) → b.is_stopped ≡ true → put_some b ≡ some b' → IsQuiet b b'
  unfolding put_some
  put_some-IsQuiet b b' h e =
      let refused : OutBuf = record b { unsent = [] } in
      let computed : put_some b ≡ some refused = rw (h, put_some) refl in
      subst (IsQuiet b) (some_inj (sym computed ∙ e)) (idle_step b refused h refl refl refl)

  Step-IsQuiet :
      (b b' : OutBuf) (bytes : List ℕ) → b.is_stopped ≡ true → Step dev b bytes b' → IsQuiet b b'
  unfolding pause unpause request_exit set_free_callback
  Step-IsQuiet _ _ _ h (Step.reads b b' r) = Reads-IsQuiet b b' h r
  Step-IsQuiet _ _ _ h (Step.calls b bytes e) =
      idle_step b (record b { unsent = bytes }) h refl refl refl
  Step-IsQuiet _ _ _ h (Step.puts b b' e) = put_some-IsQuiet b b' h e
  Step-IsQuiet _ _ _ h (Step.pauses b) = idle_step b (pause b) h refl refl refl
  Step-IsQuiet _ _ _ h (Step.unpauses b) = idle_step b (unpause b) h refl refl refl
  Step-IsQuiet _ _ _ h (Step.exits b) = idle_step b (request_exit b) h refl refl refl
  Step-IsQuiet _ _ _ h (Step.listens b given) =
      idle_step b (set_free_callback b given) h refl refl refl

  Run-IsQuiet :
      (b b' : OutBuf) (bytes : List ℕ) → b.is_stopped ≡ true → Run dev b bytes b' → IsQuiet b b'
  Run-IsQuiet _ _ _ h (Run.stays b) = record { still = h; same = refl }
  Run-IsQuiet _ _ _ h (Run.goes b b' b'' bytes more step run) =
      let q = Step-IsQuiet b b' bytes h step in
      let r = Run-IsQuiet b' b'' more q.still run in
      record { still = r.still; same = r.same ∙ q.same }

  -- After `stop`, in whatever order the threads run until `reset`, the buffer stays stopped, and the device
  -- gets nothing but what had left the ring before.
  pub stop-IsQuiet : (b b' : OutBuf) (bytes : List ℕ) → Run dev (stop b) bytes b' → IsQuiet b b'
  unfolding stop
  stop-IsQuiet b b' bytes run =
      let q = Run-IsQuiet (stop b) b' bytes refl run in record { still = q.still; same = q.same }
