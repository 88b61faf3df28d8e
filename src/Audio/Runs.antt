-- ===== src/Audio/Runs.antt =====
-- audio/audio.cpp: the operations as they follow each other: the user's, and the steps of the thread
-- between them.
use mocf.Base.{
  ℕ, ◌≡◌, refl, ap, subst, sym, ◌∙◌, Bool, true, false, not, ◌&&◌, Option, some, none, List, [],
  ◌∷◌, inl, inr, Text, if◌then◌else◌, is_empty, Bool-cases, arith, ◌>>=◌,
}
use mocf.Base.Int.{ℤ}
use mocf.Playlist.Data.{Plist, Host}
use mocf.Audio.Data.{
  Options, Audio, start, current, CurrPlist, nullptr, the_playlist, the_shuffled, the_queue, Thread,
  no_thread, loop_test, file_read, in_player, past_player, exited,
}
use mocf.Audio.Control.{
  thread_step, step_from, audio_stop, audio_play, audio_next, audio_prev, audio_pause,
  audio_unpause, audio_state_started_playing,
}
use mocf.Audio.Lists.{
  audio_plist_add, audio_queue_add, audio_plist_clear, audio_queue_clear, audio_plist_delete,
  audio_queue_delete, audio_plist_move, audio_plist_set_time,
}
use mocf.Audio.Sound.{IsSound, start-IsSound}
use mocf.Audio.Changes.{
  ListsChanged, audio_plist_add-ListsChanged, audio_queue_add-ListsChanged,
  audio_plist_clear-ListsChanged, audio_queue_clear-ListsChanged, audio_plist_delete-ListsChanged,
  audio_queue_delete-ListsChanged, audio_plist_move-ListsChanged,
}
use mocf.Audio.Timed.{audio_plist_set_time-audio_get_ftime}
use mocf.Audio.Thread.{HasCurrent, IsListed, is_started, same-IsListed, thread_step-Stepped}
use mocf.Audio.Stopping.{IsWell, IsStopped-IsWell, not_started, audio_stop-IsStopped}
use mocf.Audio.Playing.{audio_play-IsWell}

-- One call of an operation, or one step of the playing thread, with the options as they are then.
pub data Op : Type 0 where
  play : Options → Text → Op
  next prev pause unpause started_playing plist_clear queue_clear : Op
  plist_add queue_add plist_delete queue_delete : Text → Op
  plist_move : Text → Text → Op
  plist_set_time : Text → ℤ → Op
  stop thread : Options → Op

unfoldable pub run_op : Host → (ℕ → ℕ → ℕ) → Op → Audio → Option Audio
run_op h rand (play o fname) s = audio_play h rand o fname s
run_op h rand (stop o) s = audio_stop h rand o s
run_op h rand next s = some (audio_next s)
run_op h rand prev s = some (audio_prev s)
run_op h rand pause s = some (audio_pause s)
run_op h rand unpause s = some (audio_unpause s)
run_op h rand started_playing s = some (audio_state_started_playing s)
run_op h rand plist_clear s = some (audio_plist_clear s)
run_op h rand queue_clear s = some (audio_queue_clear s)
run_op h rand (plist_add file) s = audio_plist_add h file s
run_op h rand (queue_add file) s = audio_queue_add h file s
run_op h rand (plist_delete file) s = audio_plist_delete h file s
run_op h rand (queue_delete file) s = audio_queue_delete h file s
run_op h rand (plist_move file1 file2) s = audio_plist_move h file1 file2 s
run_op h rand (plist_set_time file time) s = audio_plist_set_time h file time s
run_op h rand (thread o) s = thread_step h rand o s

unfoldable pub run_ops : Host → (ℕ → ℕ → ℕ) → List Op → Audio → Option Audio
run_ops h rand [] s = some s
run_ops h rand (op ∷ ops) s = run_op h rand op s >>= run_ops h rand ops

-- Files are added by their names.
abbrev pub is_named : Op → Bool
is_named (plist_add file) = not (is_empty file)
is_named (queue_add file) = not (is_empty file)
is_named _ = true

abbrev pub all_named : List Op → Bool
all_named [] = true
all_named (op ∷ ops) = is_named op && all_named ops

-- Other lists in the place of those that there are.
abbrev with_lists : Plist → Plist → Plist → Audio → Audio
with_lists p q r s = record s { playlist = p; shuffled_plist = q; queue = r }

current_lists :
    (p q r : Plist) (s : Audio) (c : CurrPlist)
    → s.curr_plist ≡ c
    → HasCurrent s
    → HasCurrent (with_lists p q r s)
unfolding current
current_lists p q r s nullptr e (l, f) = cc
current_lists p q r s the_playlist e l = (p, rw e refl)
current_lists p q r s the_shuffled e l = (q, rw e refl)
current_lists p q r s the_queue e l = (r, rw e refl)

lists-IsListed :
    (t : Thread) (p q r : Plist) (s : Audio) → IsListed t s → IsListed t (with_lists p q r s)
lists-IsListed no_thread p q r s l = l
lists-IsListed exited p q r s l = l
lists-IsListed loop_test p q r s l = current_lists p q r s s.curr_plist refl l
lists-IsListed (file_read file) p q r s l = current_lists p q r s s.curr_plist refl l
lists-IsListed in_player p q r s l = current_lists p q r s s.curr_plist refl l
lists-IsListed past_player p q r s l = current_lists p q r s s.curr_plist refl l

-- What every operation leaves.
pub record Well (h : Host) (r : Option Audio) : Type 0 where
  pub result : Audio
  pub returned : r ≡ some result
  pub well : IsWell h result

changed-Well :
    (h : Host) (s : Audio) {r : Option Audio} → IsWell h s → ListsChanged h s r → Well h r
changed-Well h s w c = record {
  result = with_lists c.new_playlist c.new_shuffled c.new_queue s;
  returned = c.returned;
  well = record {
    sound = c.sound;
    listed = lists-IsListed s.thread c.new_playlist c.new_shuffled c.new_queue s w.listed;
    running = w.running;
  };
}

-- An operation that changes neither the lists nor the thread.
same-Well :
    (h : Host) (s s' : Audio)
    → IsWell h s
    → IsSound h s'
    → current s' ≡ current s
    → s'.curr_playing ≡ s.curr_playing
    → s'.curr_playing_fname ≡ s.curr_playing_fname
    → s'.thread ≡ s.thread
    → s'.play_thread_running ≡ s.play_thread_running
    → Well h (some s')
same-Well h s s' w v c i f t r = record {
  result = s';
  returned = refl;
  well = record {
    sound = v;
    listed =
        subst (λ (t : Thread). IsListed t s') (sym t) (same-IsListed s.thread s s' c i f w.listed);
    running = r ∙ w.running ∙ ap is_started (sym t);
  };
}

if-Well :
    (h : Host) (b : Bool) (x y : Audio)
    → Well h (some x)
    → Well h (some y)
    → Well h (some (if b then x else y))
if-Well h true x y p q = p
if-Well h false x y p q = q

elim-Well :
    (h : Host) (i : Option ℕ) (x y : Audio)
    → Well h (some x)
    → Well h (some y)
    → Well h (some (elim i [ none ↦ x | some j ↦ y ]))
elim-Well h none x y p q = p
elim-Well h (some j) x y p q = q

module _ (h : Host) (s : Audio) (w : IsWell h s) where
  requests-Well :
      Well h (some (audio_next s))
      × Well h (some (audio_prev s))
      × Well h (some (audio_pause s))
      × Well h (some (audio_unpause s))
      × Well h (some (audio_state_started_playing s))
  unfolding audio_next audio_prev audio_pause audio_unpause audio_state_started_playing current
  requests-Well = (
    if-Well h s.play_thread_running _ s (same-Well h s _ w w.sound refl refl refl refl refl) same,
    if-Well h s.play_thread_running _ s (same-Well h s _ w w.sound refl refl refl refl refl) same,
    elim-Well h s.curr_playing s _ same (same-Well h s _ w w.sound refl refl refl refl refl),
    elim-Well h s.curr_playing s _ same (same-Well h s _ w w.sound refl refl refl refl refl),
    same-Well h s _ w w.sound refl refl refl refl refl,
  )
    where
      same : Well h (some s)
      same = record { result = s; returned = refl; well = w }

  thread_step-Well : (rand : ℕ → ℕ → ℕ) (o : Options) → Well h (thread_step h rand o s)
  unfolding thread_step step_from
  thread_step-Well rand o = elim (Bool-cases (is_started s.thread)) [
    | inl r ↦
        let g = thread_step-Stepped h rand o s w.sound w.listed r in
        record {
          result = g.result;
          returned = g.returned;
          well = record {
            sound = g.sound;
            listed = g.listed;
            running = g.same_running ∙ w.running ∙ r ∙ sym g.started;
          };
        }
    | inr r ↦ record {
      result = s;
      returned = ap (λ (t : Thread). step_from h rand o t s) (not_started s.thread r);
      well = w;
    }
  ]

  run_op-Well : (rand : ℕ → ℕ → ℕ) (op : Op) → is_named op ≡ true → Well h (run_op h rand op s)
  unfolding run_op
  run_op-Well rand (play o fname) n =
      let (s', e, v, _) = audio_play-IsWell h rand o fname s w in
      record { result = s'; returned = e; well = v }
  run_op-Well rand (stop o) n =
      let (s', e, v) = audio_stop-IsStopped h rand o s w in
      record { result = s'; returned = e; well = IsStopped-IsWell h s' v }
  run_op-Well rand next n = requests-Well.0
  run_op-Well rand prev n = requests-Well.1
  run_op-Well rand pause n = requests-Well.2
  run_op-Well rand unpause n = requests-Well.3
  run_op-Well rand started_playing n = requests-Well.4
  run_op-Well rand plist_clear n = changed-Well h s w (audio_plist_clear-ListsChanged h s w.sound)
  run_op-Well rand queue_clear n = changed-Well h s w (audio_queue_clear-ListsChanged h s w.sound)
  run_op-Well rand (plist_add file) n =
      changed-Well h s w (audio_plist_add-ListsChanged h s w.sound file (ground arith))
  run_op-Well rand (queue_add file) n =
      changed-Well h s w (audio_queue_add-ListsChanged h s w.sound file (ground arith))
  run_op-Well rand (plist_delete file) n =
      changed-Well h s w (audio_plist_delete-ListsChanged h s w.sound file)
  run_op-Well rand (queue_delete file) n =
      changed-Well h s w (audio_queue_delete-ListsChanged h s w.sound file)
  run_op-Well rand (plist_move file1 file2) n =
      changed-Well h s w (audio_plist_move-ListsChanged h s w.sound file1 file2)
  run_op-Well rand (plist_set_time file time) n =
      let (_, q, _, e, v, _) = audio_plist_set_time-audio_get_ftime h s file time w.sound in
      changed-Well h s w (record {
        new_playlist = q;
        new_shuffled = s.shuffled_plist;
        new_queue = s.queue;
        returned = e;
        sound = v;
      })
  run_op-Well rand (thread o) n = thread_step-Well rand o

run_ops-Well :
    (h : Host) (rand : ℕ → ℕ → ℕ) (ops : List Op) (s : Audio)
    → IsWell h s
    → all_named ops ≡ true
    → Well h (run_ops h rand ops s)
unfolding run_ops
run_ops-Well h rand [] s w n = record { result = s; returned = refl; well = w }
run_ops-Well h rand (op ∷ ops) s w n =
    let one = run_op-Well h s w rand op (ground arith) in
    let rest = run_ops-Well h rand ops one.result one.well (ground arith) in
    record { result = rest.result; returned = rw one.returned rest.returned; well = rest.well }

start-IsWell : (h : Host) → IsWell h start
start-IsWell h = record { sound = start-IsSound h; listed = (refl, refl); running = refl }

-- However the calls and the steps of the thread follow each other, from the start, with any options and
-- random numbers: no assertion fails, no item is read out of range, and the invariant holds.
pub run_ops-IsWell :
    (h : Host) (rand : ℕ → ℕ → ℕ) (ops : List Op)
    → all_named ops ≡ true
    → (s : Audio) × (run_ops h rand ops start ≡ some s) × IsWell h s
run_ops-IsWell h rand ops n =
    let r = run_ops-Well h rand ops start (start-IsWell h) n in (r.result, r.returned, r.well)
