-- ===== src/OutBuf.antt =====
-- audio/outputs/out_buf.cpp: the ring with its reading thread, and the calls of the other threads, as
-- steps that hold the mutex.
pub mod Steps
pub mod Pipeline
pub mod Flow
pub mod Stopped
mod Tests
use mocf.Base.{
  assert, ℕ, zero, suc, ◌+◌, ◌-◌, ◌*◌, ◌/◌, Bool, true, false, not, ◌&&◌, ◌||◌, Option, none, some,
  List, [], ◌∷◌, ◌++◌, ◌==◌, ltb, if◌then◌else◌, length, take, drop, ◌>>=◌, ◌>>◌, min,
}
use mocf.Fifo.{Fifo, new, put, get, space, clear}

-- What the thread asks of the sound device.
pub record Device : Type 0 where
  pub can_hw_pause : Bool
  pub bps : ℕ
  pub bpf : ℕ

-- Where the reading thread is: at the top of its loop, in the callback, behind the callback, in
-- `play_cond.wait`, behind it, playing bytes without the mutex, or gone.
pub data Place : Type 0 where
  top in_callback checking waiting awake exited : Place
  sending : List ℕ → Place

-- `class OutBuf` with the locals of its thread. `unsent` is what a call of `put` has not yet written,
-- and `played` what `audio_send_pcm` has taken so far.
pub record OutBuf : Type 0 where
  pub fifo : Fifo
  pub is_exit : Bool
  pub is_paused : Bool
  pub is_stopped : Bool
  pub reset_dev : Bool
  pub hardware_buf_fill : ℕ
  pub read_thread_waiting : Bool
  pub has_callback : Bool
  pub audio_dev_closed : Bool
  pub hw_paused : Bool
  pub place : Place
  pub unsent : List ℕ
  pub played : List ℕ

abbrev pub opened_buf : Fifo → OutBuf
opened_buf f = record {
  fifo = f;
  is_exit = false;
  is_paused = false;
  is_stopped = false;
  reset_dev = false;
  hardware_buf_fill = 0;
  read_thread_waiting = false;
  has_callback = false;
  audio_dev_closed = false;
  hw_paused = false;
  place = Place.top;
  unsent = [];
  played = [];
}

-- The constructor.
unfoldable pub new_buf : ℕ → Option OutBuf
new_buf size = do f ← new size; some (opened_buf f)

-- The top of the loop of `read_thread`, up to the callback.
unfoldable pub start_round : OutBuf → OutBuf
start_round b = record b {
  reset_dev = b.reset_dev && b.audio_dev_closed;
  fifo = if b.is_stopped then clear b.fifo else b.fifo;
  place = if b.has_callback then Place.in_callback else Place.checking;
}

-- The callback returns; it is code of the player.
unfoldable pub leave_callback : OutBuf → OutBuf
leave_callback b = record b { place = Place.checking }

module _ (dev : Device) where
  -- The test in front of `play_cond.wait`, and the pause of the device.
  unfoldable pub check : OutBuf → OutBuf
  check b =
      let wait : Bool = (b.fifo.fill == 0 || (b.is_paused || b.is_stopped)) && not b.is_exit in
      let pause : Bool = wait && (b.is_paused && (not b.audio_dev_closed && not b.hw_paused)) in
      record b {
        hw_paused = b.hw_paused || (pause && dev.can_hw_pause);
        audio_dev_closed = b.audio_dev_closed || (pause && not dev.can_hw_pause);
        read_thread_waiting = b.read_thread_waiting || wait;
        place = if wait then Place.waiting else Place.awake;
      }

  -- A tenth of a second, at most 32768 bytes, in whole frames of some bytes.
  abbrev pub whole_frames : ℕ
  whole_frames = min (dev.bps / 10) 32768 / dev.bpf * dev.bpf

  -- The bytes that are asked of the ring; `none` where the frame size divides by zero.
  abbrev pub play_bytes : Option ℕ
  play_bytes = do assert (ltb 0 dev.bpf); some whole_frames

  -- The thread behind the wait: the device comes back from a pause (`opens` is the answer of
  -- `audio_open`).
  abbrev pub resumed : OutBuf → Bool → OutBuf
  resumed b opens = record b {
    read_thread_waiting = false;
    hw_paused = b.hw_paused && b.is_paused;
    audio_dev_closed =
        if b.hw_paused && not b.is_paused
        then b.audio_dev_closed
        else b.audio_dev_closed && (b.is_paused || not opens);
  }

  -- The bytes that the thread takes to play.
  abbrev pub taken : OutBuf → Option OutBuf
  taken b = do
    n ← play_bytes
    r ← get b.fifo n
    some (record b { fifo = r.0; place = Place.sending r.1 })

  -- The rest of the round, up to the point where the mutex is given back.
  unfoldable pub proceed : OutBuf → Bool → Option OutBuf
  proceed b opens =
      let b' : OutBuf = resumed b opens in
      let again : OutBuf = record b' { place = Place.top } in
      if b.fifo.fill == 0
      then some
          (if b.is_exit then record b' { place = Place.exited; hardware_buf_fill = 0 } else again)
      else if b.is_paused || (b.is_stopped || b'.audio_dev_closed)
      then some again
      else taken b'

-- `audio_send_pcm` takes `n` of the bytes.
unfoldable pub send : OutBuf → List ℕ → ℕ → OutBuf
send b bytes n = record b {
  played = b.played ++ take n bytes;
  place = Place.sending (drop n bytes);
}

-- All are sent, and the mutex is taken again.
unfoldable pub sent : OutBuf → ℕ → OutBuf
sent b hw_fill = record b { hardware_buf_fill = hw_fill; place = Place.top }

-- A round of the loop of `put`, behind `ready_cond.wait`: a stopped buffer refuses the data.
unfoldable pub put_some : OutBuf → Option OutBuf
put_some b =
    if b.is_stopped
    then some (record b { unsent = [] })
    else do r ← put b.fifo b.unsent; some (record b { fifo = r.0; unsent = drop r.1 b.unsent })

unfoldable pub pause : OutBuf → OutBuf
pause b = record b { is_paused = true }

unfoldable pub unpause : OutBuf → OutBuf
unpause b = record b { is_paused = false }

-- `stop`, up to its wait.
unfoldable pub stop : OutBuf → OutBuf
stop b = record b { is_stopped = true; is_paused = false; reset_dev = true }

unfoldable pub reset : OutBuf → OutBuf
reset b = record b {
  fifo = clear b.fifo;
  is_stopped = false;
  is_paused = false;
  reset_dev = false;
  hardware_buf_fill = 0;
}

-- The first part of the destructor.
unfoldable pub request_exit : OutBuf → OutBuf
request_exit b = record b { is_exit = true }

unfoldable pub set_free_callback : OutBuf → Bool → OutBuf
set_free_callback b given = record b { has_callback = given }

abbrev pub get_free : OutBuf → ℕ
get_free b = space b.fifo

abbrev pub get_fill : OutBuf → ℕ
get_fill b = b.fifo.fill
