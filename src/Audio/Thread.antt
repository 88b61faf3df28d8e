-- ===== src/Audio/Thread.antt =====
-- audio/audio.cpp: the playing thread passes its assertions, and a request to stop ends it.
use mocf.Base.{
  if_true, if_false, ℕ, ◌≤◌, ◌-◌, ◌≡◌, refl, ap, subst, sym, ◌∙◌, subst, Bool, true, false, Option,
  some, none, [], ◌⊎◌, inl, inr, Text, is_empty, arith, Bool-cases, ◌>>=◌,
}
use mocf.Playlist.Data.{Plist, Host}
use mocf.Playlist.Edit.{plist_get_file}
use mocf.Audio.Data.{
  Options, Audio, current, call, player, Thread, no_thread, loop_test, file_read, in_player,
  past_player, exited,
}
use mocf.Audio.Control.{
  next_file, leave_loop, test_loop, start_file, finish_file, step_from, thread_step,
}
use mocf.Audio.Sound.{IsSound}
use mocf.Audio.Go.{go_to_another_file}
use mocf.Audio.Going.{Gone}
use mocf.Audio.Another.{go_to_another_file-Gone}

-- A list is chosen.
abbrev pub HasCurrent : Audio → Type 0
HasCurrent s = (p : Plist) × (current s ≡ some p)

abbrev pub is_started : Thread → Bool
is_started no_thread = false
is_started _ = true

-- Nothing is played.
abbrev pub IsSilent : Audio → Type 0
IsSilent s = (s.curr_playing ≡ none) × (s.curr_playing_fname ≡ [])

-- While the thread runs, a list is chosen, and otherwise nothing is played.
abbrev pub IsListed : Thread → Audio → Type 0
IsListed no_thread s = IsSilent s
IsListed exited s = IsSilent s
IsListed loop_test s = HasCurrent s
IsListed (file_read file) s = HasCurrent s
IsListed in_player s = HasCurrent s
IsListed past_player s = HasCurrent s

-- Only the lists, the index and the name matter.
pub same-IsListed :
    (t : Thread) (s s' : Audio)
    → current s' ≡ current s
    → s'.curr_playing ≡ s.curr_playing
    → s'.curr_playing_fname ≡ s.curr_playing_fname
    → IsListed t s
    → IsListed t s'
same-IsListed no_thread s s' e e' e'' (l, l') = (e' ∙ l, e'' ∙ l')
same-IsListed exited s s' e e' e'' (l, l') = (e' ∙ l, e'' ∙ l')
same-IsListed loop_test s s' e e' e'' (p, l) = (p, e ∙ l)
same-IsListed (file_read file) s s' e e' e'' (p, l) = (p, e ∙ l)
same-IsListed in_player s s' e e' e'' (p, l) = (p, e ∙ l)
same-IsListed past_player s s' e e' e'' (p, l) = (p, e ∙ l)

-- Steps that are left to a thread that is to stop.
abbrev pub rank : Thread → Option ℕ → ℕ
rank no_thread i = 0
rank exited i = 0
rank loop_test none = 1
rank loop_test (some i) = 5
rank (file_read file) i = 4
rank in_player i = 3
rank past_player i = 2

-- What a step of the thread leaves.
pub record Stepped (h : Host) (s : Audio) (t : Thread) (r : Option Audio) : Type 0 where
  pub result : Audio
  pub returned : r ≡ some result
  pub sound : IsSound h result
  pub listed : IsListed result.thread result
  pub started : is_started result.thread ≡ true
  pub same_running : result.play_thread_running ≡ s.play_thread_running
  pub stopping :
      (s.stop_playing ≡ false)
      ⊎ ((result.stop_playing ≡ true)
          × (rank result.thread result.curr_playing ≤ rank t s.curr_playing - 1))

module _ (h : Host) (rand : ℕ → ℕ → ℕ) (o : Options) (s : Audio) (v : IsSound h s) where
  as_asked : {a b : ℕ} → a ≤ b → (s.stop_playing ≡ false) ⊎ ((s.stop_playing ≡ true) × (a ≤ b))
  as_asked le = elim (Bool-cases s.stop_playing) [ inl e ↦ inr (e, le) | inr e ↦ inl e ]

  test_loop-Stepped : HasCurrent s → Stepped h s loop_test (test_loop s)
  unfolding test_loop current
  test_loop-Stepped (p, e) = by_index s.curr_playing refl
    where
      by_index : (i : Option ℕ) → s.curr_playing ≡ i → Stepped h s loop_test (test_loop s)
      by_index none f = record {
        result = leave_loop s;
        returned = rw f refl;
        sound = v;
        listed = (f, refl);
        started = refl;
        same_running = refl;
        stopping = as_asked (rw f (omega arith));
      }
      by_index (some i) f = record {
        result = record s {
          thread = file_read (plist_get_file p i);
          play_next = false;
          play_prev = false;
        };
        returned = rw (f, e) refl;
        sound = v;
        listed = (p, e);
        started = refl;
        same_running = refl;
        stopping = as_asked (rw f (omega arith));
      }

  start_file-Stepped :
      (file : Text) → HasCurrent s → Stepped h s (file_read file) (start_file file s)
  unfolding start_file current
  start_file-Stepped file (p, e) = elim (Bool-cases (is_empty file)) [
    | inl w ↦ record {
      result = record s { thread = past_player };
      returned = rw w refl;
      sound = v;
      listed = (p, e);
      started = refl;
      same_running = refl;
      stopping = as_asked (omega arith);
    }
    | inr w ↦ record {
      result =
          call (player file (next_file p s.curr_playing))
            (record s { curr_playing_fname = file; thread = in_player });
      returned = rw (w, e) refl;
      sound = v;
      listed = (p, e);
      started = refl;
      same_running = refl;
      stopping = as_asked (omega arith);
    }
  ]

  past_player-Stepped :
      HasCurrent s → Stepped h s in_player (some (record s { thread = past_player }))
  unfolding current
  past_player-Stepped (p, e) = record {
    result = record s { thread = past_player };
    returned = refl;
    sound = v;
    listed = (p, e);
    started = refl;
    same_running = refl;
    stopping = as_asked (omega arith);
  }

  finish_file-stopped :
      s.stop_playing ≡ true
      → finish_file h rand o s ≡ some (record s { curr_playing = none; thread = loop_test })
  unfolding finish_file
  finish_file-stopped w = if_true s.stop_playing _ _ w

  finish_file-on :
      {s' : Audio}
      → s.stop_playing ≡ false
      → go_to_another_file h rand o s ≡ some s'
      → finish_file h rand o s ≡ some (record s' { thread = loop_test })
  unfolding finish_file
  finish_file-on w e =
      if_false s.stop_playing _ _ w
      ∙ ap (λ (r : Option Audio). r >>= λ s'. some (record s' { thread = loop_test })) e

  go_on-Stepped :
      (g : Gone h o s.curr_playing s.play_thread_running (go_to_another_file h rand o s))
      → s.stop_playing ≡ false
      → Stepped h s past_player (finish_file h rand o s)
  unfolding current
  go_on-Stepped g w = record {
    result = record g.result { thread = loop_test };
    returned = finish_file-on w g.returned;
    sound = g.sound;
    listed = (g.list, g.is_current);
    started = refl;
    same_running = g.same_running;
    stopping = inl w;
  }

  finish_file-Stepped : HasCurrent s → Stepped h s past_player (finish_file h rand o s)
  unfolding current
  finish_file-Stepped (p, e) = elim (Bool-cases s.stop_playing) [
    | inl w ↦ record {
      result = record s { curr_playing = none; thread = loop_test };
      returned = finish_file-stopped w;
      sound = v;
      listed = (p, e);
      started = refl;
      same_running = refl;
      stopping = as_asked (omega arith);
    }
    | inr w ↦ go_on-Stepped (go_to_another_file-Gone h rand o s v) w
  ]

module _ (h : Host) (rand : ℕ → ℕ → ℕ) (o : Options) (s : Audio) (v : IsSound h s) where
  exited-Stepped : s.thread ≡ exited → IsSilent s → Stepped h s exited (some s)
  exited-Stepped e l = record {
    result = s;
    returned = refl;
    sound = v;
    listed = subst (λ (t : Thread). IsListed t s) (sym e) l;
    started = ap is_started e;
    same_running = refl;
    stopping = as_asked h rand o s v (omega (arith, ap (λ (t : Thread). rank t s.curr_playing) e));
  }

  step_from-Stepped :
      (t : Thread)
      → s.thread ≡ t
      → IsListed t s
      → is_started t ≡ true
      → Stepped h s t (step_from h rand o t s)
  unfolding step_from
  step_from-Stepped no_thread e l r = cc
  step_from-Stepped loop_test e l r = test_loop-Stepped h rand o s v l
  step_from-Stepped (file_read file) e l r = start_file-Stepped h rand o s v file l
  step_from-Stepped in_player e l r = past_player-Stepped h rand o s v l
  step_from-Stepped past_player e l r = finish_file-Stepped h rand o s v l
  step_from-Stepped exited e l r = exited-Stepped e l

  -- Every step of the thread passes its assertions and keeps the invariant.
  pub thread_step-Stepped :
      IsListed s.thread s
      → is_started s.thread ≡ true
      → Stepped h s s.thread (thread_step h rand o s)
  unfolding thread_step
  thread_step-Stepped l r = step_from-Stepped s.thread refl l r
