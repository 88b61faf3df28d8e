-- ===== src/Audio/Data.antt =====
-- audio/audio.cpp: the state of playback, the options that it reads, and the lists that it plays from.
use mocf.Base.{ℕ, Bool, false, Option, none, some, List, [], ◌∷◌, Text}
use mocf.Playlist.Data.{Plist, empty_plist}

-- The options of core/options.cpp that these functions read.
pub record Options : Type 0 where
  pub shuffle : Bool
  pub auto_next : Bool
  pub repeat : Bool
  pub queue_next_song_return : Bool

-- `STATE_PLAY`, `STATE_STOP` and `STATE_PAUSE` of core/protocol.h.
pub data PlayState : Type 0 where
  state_play state_stop state_pause : PlayState

-- What `curr_plist` points to.
pub data CurrPlist : Type 0 where
  nullptr the_playlist the_shuffled the_queue : CurrPlist

-- The calls of other parts of the program.
pub data Event : Type 0 where
  server_queue_pop : Text → Event
  player : Text → Option Text → Event
  player_stop player_reset state_change audio_close pause unpause : Event

-- Where the playing thread is: there is none, or it is at the test of its loop, has read the name of the
-- file, is in `player`, or is past `player`.
pub data Thread : Type 0 where
  no_thread loop_test in_player past_player exited : Thread
  file_read : Text → Thread

-- The variables of audio.cpp; -1 of `curr_playing` is `none`. The last two fields are not the code's: how
-- many lists were shuffled, for the random numbers, and the calls of other parts, the last one first.
pub record Audio : Type 0 where
  pub playlist : Plist
  pub shuffled_plist : Plist
  pub queue : Plist
  pub curr_plist : CurrPlist
  pub curr_playing : Option ℕ
  pub before_queue_fname : Text
  pub curr_playing_fname : Text
  pub started_playing_in_queue : Bool
  pub state : PlayState
  pub prev_state : PlayState
  pub stop_playing : Bool
  pub play_next : Bool
  pub play_prev : Bool
  pub play_thread_running : Bool
  pub thread : Thread
  pub shuffles : ℕ
  pub events : List Event

-- The initial values.
abbrev pub start : Audio
start = record {
  playlist = empty_plist;
  shuffled_plist = empty_plist;
  queue = empty_plist;
  curr_plist = nullptr;
  curr_playing = none;
  before_queue_fname = [];
  curr_playing_fname = [];
  started_playing_in_queue = false;
  state = state_stop;
  prev_state = state_stop;
  stop_playing = false;
  play_next = false;
  play_prev = false;
  play_thread_running = false;
  thread = no_thread;
  shuffles = 0;
  events = [];
}

-- `*curr_plist`; `none` where it is null.
unfoldable pub current : Audio → Option Plist
current s = elim s.curr_plist [
  | nullptr ↦ none
  | the_playlist ↦ some s.playlist
  | the_shuffled ↦ some s.shuffled_plist
  | the_queue ↦ some s.queue
]

abbrev pub call : Event → Audio → Audio
call e s = record s { events = e ∷ s.events }

-- `prev_state = state.load(); state = …; state_change();`
abbrev pub set_state : PlayState → Audio → Audio
set_state new s = call state_change (record s { prev_state = s.state; state = new })
