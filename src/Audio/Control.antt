-- ===== src/Audio/Control.antt =====
-- audio/audio.cpp: the playing thread, and the operations that start, stop and direct it.
use mocf.Base.{
  ℕ, zero, suc, Bool, true, false, not, ◌&&◌, Option, none, some, [], Text, is_empty, if◌then◌else◌,
  ltb, assert, ◌>>=◌, ◌>>◌,
}
use mocf.Playlist.Data.{Plist, Host}
use mocf.Playlist.Search.{plist_find_fname, plist_next}
use mocf.Playlist.Edit.{plist_count, plist_clear, plist_get_file}
use mocf.Audio.Data.{
  Options, Audio, PlayState, state_play, state_stop, state_pause, player, player_stop, player_reset,
  audio_close, pause, unpause, Thread, no_thread, loop_test, file_read, in_player, past_player,
  exited, the_playlist, the_shuffled, current, call, set_state,
}
use mocf.Audio.Go.{go_to_another_file, take_from_queue, fill_shuffled, put_first}

-- `!next_file.empty() ? … : nullptr`, of the file after the current one.
abbrev pub next_file : Plist → Option ℕ → Option Text
next_file p i = elim (plist_next p i) [
  | none ↦ none
  | some j ↦ if is_empty (plist_get_file p j) then none else some (plist_get_file p j)
]

-- The end of `play_thread_func`.
abbrev pub leave_loop : Audio → Audio
leave_loop s =
    call audio_close (record (set_state state_stop s) { curr_playing_fname = []; thread = exited })

-- The loop's test, the name of the file, and the requests for another file.
unfoldable pub test_loop : Audio → Option Audio
test_loop s = elim s.curr_playing [
  | none ↦ some (leave_loop s)
  | some i ↦ do
    p ← current s
    some
        (record s { thread = file_read (plist_get_file p i); play_next = false; play_prev = false })
]

-- The call of `player`, where there is a file.
unfoldable pub start_file : Text → Audio → Option Audio
start_file file s = if is_empty file then some (record s { thread = past_player }) else do
  p ← current s
  some (
      call (player file (next_file p s.curr_playing))
        (record s { curr_playing_fname = file; thread = in_player }))

-- What follows `player`.
unfoldable pub finish_file : Host → (ℕ → ℕ → ℕ) → Options → Audio → Option Audio
finish_file h rand o s =
    if s.stop_playing
    then some (record s { curr_playing = none; thread = loop_test })
    else (do s' ← go_to_another_file h rand o s; some (record s' { thread = loop_test }))

-- One step of `play_thread_func`; `player` returns in the step from `in_player`.
unfoldable pub step_from : Host → (ℕ → ℕ → ℕ) → Options → Thread → Audio → Option Audio
step_from h rand o no_thread s = some s
step_from h rand o loop_test s = test_loop s
step_from h rand o (file_read file) s = start_file file s
step_from h rand o in_player s = some (record s { thread = past_player })
step_from h rand o past_player s = finish_file h rand o s
step_from h rand o exited s = some s

unfoldable pub thread_step : Host → (ℕ → ℕ → ℕ) → Options → Audio → Option Audio
thread_step h rand o s = step_from h rand o s.thread s

unfoldable pub thread_steps : Host → (ℕ → ℕ → ℕ) → Options → ℕ → Audio → Option Audio
thread_steps h rand o zero s = some s
thread_steps h rand o (suc n) s = thread_step h rand o s >>= thread_steps h rand o n

abbrev pub is_exited : Thread → Bool
is_exited exited = true
is_exited _ = false

-- `playing_thread.join()`: five steps end a thread that is to stop.
unfoldable pub join : Host → (ℕ → ℕ → ℕ) → Options → Audio → Option Audio
join h rand o s = do
  s' ← thread_steps h rand o 5 s
  assert (is_exited s'.thread)
  some (record s' { thread = no_thread })

abbrev pub is_paused : PlayState → Bool
is_paused state_pause = true
is_paused _ = false

-- `audio_stop`
unfoldable pub audio_stop : Host → (ℕ → ℕ → ℕ) → Options → Audio → Option Audio
audio_stop h rand o s =
    if s.play_thread_running
    then (do
      s' ← join h rand o (call player_stop (record s { stop_playing = true }))
      some (record s' { play_thread_running = false; stop_playing = false }))
    else if is_paused s.state
    then some (set_state state_stop (record s { curr_playing_fname = [] }))
    else some s

-- The first file that `audio_play` plays of the list `p`.
unfoldable pub first_file : Host → Text → Plist → Option (Option ℕ)
first_file h fname p =
    if not (is_empty fname)
    then plist_find_fname h p fname
    else if ltb 0 (plist_count p)
    then some (plist_next p none)
    else some none

unfoldable pub play_shuffled : Host → (ℕ → ℕ → ℕ) → Text → Audio → Option Audio
play_shuffled h rand fname s = do
  filled ← fill_shuffled h rand (record s { shuffled_plist = plist_clear s.shuffled_plist })
  s' ← put_first h fname filled
  i ← first_file h fname s'.shuffled_plist
  some (record s' { curr_plist = the_shuffled; curr_playing = i })

unfoldable pub play_in_order : Host → Text → Audio → Option Audio
play_in_order h fname s = do
  i ← first_file h fname s.playlist
  some (record s { curr_plist = the_playlist; curr_playing = i })

-- What `audio_play` chooses to play.
unfoldable pub choose_first : Host → (ℕ → ℕ → ℕ) → Options → Text → Audio → Option Audio
choose_first h rand o fname s =
    if ltb 0 (plist_count s.queue) && is_empty fname
    then (do s' ← take_from_queue s; some (record s' { started_playing_in_queue = true }))
    else if o.shuffle
    then play_shuffled h rand fname s
    else play_in_order h fname s

-- `audio_play`
unfoldable pub audio_play : Host → (ℕ → ℕ → ℕ) → Options → Text → Audio → Option Audio
audio_play h rand o fname s = do
  stopped ← audio_stop h rand o s
  s' ← choose_first h rand o fname (call player_reset stopped)
  some (record s' { play_thread_running = true; thread = loop_test })

-- `audio_next` and `audio_prev`
unfoldable pub audio_next : Audio → Audio
audio_next s = if s.play_thread_running then call player_stop (record s { play_next = true }) else s

unfoldable pub audio_prev : Audio → Audio
audio_prev s = if s.play_thread_running then call player_stop (record s { play_prev = true }) else s

-- `audio_pause` and `audio_unpause`
unfoldable pub audio_pause : Audio → Audio
audio_pause s = elim s.curr_playing [ none ↦ s | some i ↦ set_state state_pause (call pause s) ]

unfoldable pub audio_unpause : Audio → Audio
audio_unpause s = elim s.curr_playing [ none ↦ s | some i ↦ set_state state_play (call unpause s) ]

-- `audio_state_started_playing`
unfoldable pub audio_state_started_playing : Audio → Audio
audio_state_started_playing s = set_state state_play s
