-- ===== src/Audio/Spinning.antt =====
-- audio/audio.cpp: the option Repeat after the playlist was cleared.
use mocf.Base.{ℕ, zero, suc, ◌≡◌, Bool, true, false, some, []}
use mocf.Playlist.Data.{Host}
use mocf.Audio.Data.{Options, Audio, the_playlist, in_player, loop_test}
use mocf.Audio.Lists.{audio_plist_clear, audio_queue_clear}

-- Repeat without Shuffle.
abbrev pub repeating : Bool → Bool → Options
repeating auto return = record {
  shuffle = false;
  auto_next = auto;
  repeat = true;
  queue_next_song_return = return;
}

-- The thread is in `player` with the item `i` of the playlist, and nothing else is asked of it.
pub record IsPlaying (i : ℕ) (s : Audio) : Type 0 where
  pub in_the_player : s.thread ≡ in_player
  pub from_playlist : s.curr_plist ≡ the_playlist
  pub item : s.curr_playing ≡ some i
  pub no_return : s.before_queue_fname ≡ []
  pub not_queued : s.started_playing_in_queue ≡ false
  pub no_stop : s.stop_playing ≡ false
  pub no_next : s.play_next ≡ false
  pub no_prev : s.play_prev ≡ false

-- The same state with these fields written out.
abbrev playing : ℕ → Audio → Audio
playing i s = record s {
  thread = in_player;
  curr_plist = the_playlist;
  curr_playing = some i;
  before_queue_fname = [];
  started_playing_in_queue = false;
  stop_playing = false;
  play_next = false;
  play_prev = false;
}

-- After both calls, when `player` has returned and the thread is before the test of its loop.
abbrev pub cleared : Audio → Audio
cleared s = record (audio_queue_clear (audio_plist_clear s)) { thread = loop_test }

module _ (h : Host) (rand : ℕ → ℕ → ℕ) (a b : Bool) (i : ℕ) (s : Audio) where
  abbrev triple : ℕ → ℕ
  triple zero = 0
  triple (suc n) = suc (suc (suc (triple n)))
