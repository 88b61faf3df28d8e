-- ===== src/Audio/Ending.antt =====
-- audio/audio.cpp: a request to stop ends the playing thread.
use mocf.Base.{
  ℕ, zero, suc, ◌≤◌, ◌≡◌, refl, ap, subst, sym, ◌∙◌, subst, true, false, Option, some, none, inl,
  inr, arith, ◌>>=◌,
}
use mocf.Playlist.Data.{Host}
use mocf.Audio.Data.{
  Options, Audio, Thread, no_thread, loop_test, file_read, in_player, past_player, exited,
}
use mocf.Audio.Control.{thread_steps}
use mocf.Audio.Sound.{IsSound}
use mocf.Audio.Thread.{IsListed, IsSilent, is_started, rank, thread_step-Stepped}

-- What a thread that was to stop leaves.
pub record Stopped (h : Host) (s : Audio) (r : Option Audio) : Type 0 where
  pub result : Audio
  pub returned : r ≡ some result
  pub sound : IsSound h result
  pub over : result.thread ≡ exited
  pub silent : IsSilent result
  pub same_running : result.play_thread_running ≡ s.play_thread_running

-- No steps are left only to a thread that has ended.
over_of_rank : (t : Thread) (i : Option ℕ) → is_started t ≡ true → rank t i ≤ 0 → t ≡ exited
over_of_rank no_thread i r le = cc
over_of_rank loop_test none r le = absurd (omega arith)
over_of_rank loop_test (some i) r le = absurd (omega arith)
over_of_rank (file_read file) i r le = absurd (omega arith)
over_of_rank in_player i r le = absurd (omega arith)
over_of_rank past_player i r le = absurd (omega arith)
over_of_rank exited i r le = refl

-- A thread that is to stop ends within the steps that are left to it.
pub thread_steps-Stopped :
    (h : Host) (rand : ℕ → ℕ → ℕ) (o : Options) (n : ℕ) (s : Audio)
    → IsSound h s
    → IsListed s.thread s
    → is_started s.thread ≡ true
    → s.stop_playing ≡ true
    → rank s.thread s.curr_playing ≤ n
    → Stopped h s (thread_steps h rand o n s)
unfolding thread_steps
thread_steps-Stopped h rand o zero s v l r w le =
    let e = over_of_rank s.thread s.curr_playing r le in
    record {
      result = s;
      returned = refl;
      sound = v;
      over = e;
      silent = subst (λ (t : Thread). IsListed t s) e l;
      same_running = refl;
    }
thread_steps-Stopped h rand o (suc n) s v l r w le =
    let g = thread_step-Stepped h rand o s v l r in
    elim g.stopping [
      | inl f ↦ absurd (let z : true ≡ false = sym w ∙ f in cc)
      | inr (w', closer) ↦
          let q =
            thread_steps-Stopped h rand o n g.result g.sound g.listed g.started w'
              (omega (arith, closer, le)) in
          record {
            result = q.result;
            returned =
                ap (λ (m : Option Audio). m >>= thread_steps h rand o n) g.returned ∙ q.returned;
            sound = q.sound;
            over = q.over;
            silent = q.silent;
            same_running = q.same_running ∙ g.same_running;
          }
    ]
