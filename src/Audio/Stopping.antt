-- ===== src/Audio/Stopping.antt =====
-- audio/audio.cpp: `audio_stop` and `audio_play`.
use mocf.Base.{
  if_true, if_false, ℕ, ◌≤◌, ◌≡◌, refl, ap, subst, sym, ◌∙◌, true, false, Option, some, none, [],
  inl, inr, arith, Bool-cases, assert, ◌>>=◌, ◌>>◌,
}
use mocf.Playlist.Data.{Host}
use mocf.Audio.Data.{
  Options, Audio, current, call, set_state, state_stop, player_stop, Thread, no_thread, loop_test,
  file_read, in_player, past_player, exited,
}
use mocf.Audio.Control.{thread_steps, is_exited, join, is_paused, audio_stop}
use mocf.Audio.Sound.{IsSound}
use mocf.Audio.Thread.{IsListed, IsSilent, is_started, rank, same-IsListed}
use mocf.Audio.Ending.{Stopped, thread_steps-Stopped}

-- The invariant of the whole state: that of the lists, and the state of the thread.
pub record IsWell (h : Host) (s : Audio) : Type 0 where
  pub sound : IsSound h s
  pub listed : IsListed s.thread s
  pub running : s.play_thread_running ≡ is_started s.thread

-- Nothing is played, and there is no thread.
pub record IsStopped (h : Host) (s : Audio) : Type 0 where
  pub sound : IsSound h s
  pub silent : IsSilent s
  pub no_thread_left : s.thread ≡ no_thread
  pub not_running : s.play_thread_running ≡ false

pub IsStopped-IsWell : (h : Host) (s : Audio) → IsStopped h s → IsWell h s
IsStopped-IsWell h s w = record {
  sound = w.sound;
  listed = subst (λ (t : Thread). IsListed t s) (sym w.no_thread_left) w.silent;
  running = w.not_running ∙ sym (ap is_started w.no_thread_left);
}

rank_le : (t : Thread) (i : Option ℕ) → rank t i ≤ 5
rank_le no_thread i = omega arith
rank_le loop_test none = omega arith
rank_le loop_test (some i) = omega arith
rank_le (file_read file) i = omega arith
rank_le in_player i = omega arith
rank_le past_player i = omega arith
rank_le exited i = omega arith

pub not_started : (t : Thread) → is_started t ≡ false → t ≡ no_thread
not_started no_thread e = refl
not_started loop_test e = cc
not_started (file_read file) e = cc
not_started in_player e = cc
not_started past_player e = cc
not_started exited e = cc

module _ (h : Host) (rand : ℕ → ℕ → ℕ) (o : Options) where
  join_returns :
      (s : Audio) (q : Stopped h s (thread_steps h rand o 5 s))
      → join h rand o s ≡ some (record q.result { thread = no_thread })
  unfolding join
  join_returns s q = rw q.returned (joined q.result q.over)
    where
      joined :
          (s' : Audio)
          → s'.thread ≡ exited
          → (assert (is_exited s'.thread) >> some (record s' { thread = no_thread }))
            ≡ some (record s' { thread = no_thread })
      joined s' e =
          ap (λ (t : Thread). assert (is_exited t) >> some (record s' { thread = no_thread })) e

  module _ (s : Audio) (w : IsWell h s) where
    asked : Audio
    asked = call player_stop (record s { stop_playing = true })

    asked-Stopped : s.play_thread_running ≡ true → Stopped h asked (thread_steps h rand o 5 asked)
    unfolding asked current
    asked-Stopped run =
        thread_steps-Stopped h rand o 5 asked w.sound
          (same-IsListed s.thread s asked refl refl refl w.listed) (sym w.running ∙ run) refl
          (rank_le s.thread s.curr_playing)

    stop_returns :
        {s' : Audio}
        → s.play_thread_running ≡ true
        → join h rand o asked ≡ some s'
        → audio_stop h rand o s
          ≡ some (record s' { play_thread_running = false; stop_playing = false })
    unfolding audio_stop asked
    stop_returns run e =
        if_true s.play_thread_running _ _ run
        ∙ ap
            (λ (r : Option Audio).
              r >>= λ s'. some (record s' { play_thread_running = false; stop_playing = false }))
            e

    -- `audio_stop` returns: the thread ends within the steps that `join` gives it, and then nothing is played,
    -- and there is no thread.
    pub audio_stop-IsStopped : (s' : Audio) × (audio_stop h rand o s ≡ some s') × IsStopped h s'
    unfolding audio_stop
    audio_stop-IsStopped = elim (Bool-cases s.play_thread_running) [
      | inl run ↦
          let q = asked-Stopped run in
          (
            record q.result {
              thread = no_thread;
              play_thread_running = false;
              stop_playing = false;
            },
            stop_returns run (join_returns asked q),
            record {
              sound = q.sound;
              silent = q.silent;
              no_thread_left = refl;
              not_running = refl;
            },
          )
      | inr idle ↦
          let e : s.thread ≡ no_thread = not_started s.thread (sym w.running ∙ idle) in
          let silent : IsSilent s = subst (λ (t : Thread). IsListed t s) e w.listed in
          elim (Bool-cases (is_paused s.state)) [
            | inl paused ↦ (
              set_state state_stop (record s { curr_playing_fname = [] }),
              if_false s.play_thread_running _ _ idle ∙ if_true (is_paused s.state) _ _ paused,
              record {
                sound = w.sound;
                silent = (silent.0, refl);
                no_thread_left = e;
                not_running = idle;
              },
            )
            | inr other ↦ (
              s,
              if_false s.play_thread_running _ _ idle ∙ if_false (is_paused s.state) _ _ other,
              record { sound = w.sound; silent = silent; no_thread_left = e; not_running = idle },
            )
          ]
    ]
