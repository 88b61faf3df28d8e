-- ===== src/OutBuf/Steps.antt =====
-- audio/outputs/out_buf.cpp: one step of a thread. A step is a part of the code that holds the mutex;
-- the steps of all threads follow each other in any order.
use mocf.Base.{ℕ, ◌≡◌, Bool, some, List, [], ◌++◌}
use mocf.OutBuf.{
  Device, OutBuf, Place, start_round, leave_callback, check, proceed, send, sent, put_some, pause,
  unpause, request_exit, set_free_callback,
}

module _ (dev : Device) where
  -- A step of the reading thread.
  pub data Reads : OutBuf → OutBuf → Type 0 where
    starts : (b : OutBuf) → b.place ≡ Place.top → Reads b (start_round b)
    leaves : (b : OutBuf) → b.place ≡ Place.in_callback → Reads b (leave_callback b)
    checks : (b : OutBuf) → b.place ≡ Place.checking → Reads b (check dev b)
    wakes : (b : OutBuf) → b.place ≡ Place.waiting → Reads b (record b { place = Place.awake })
    proceeds :
        (b b' : OutBuf) (opens : Bool)
        → b.place ≡ Place.awake
        → proceed dev b opens ≡ some b'
        → Reads b b'
    sends :
        (b : OutBuf) (bytes : List ℕ) (n : ℕ)
        → b.place ≡ Place.sending bytes
        → Reads b (send b bytes n)
    finishes : (b : OutBuf) (hw_fill : ℕ) → b.place ≡ Place.sending [] → Reads b (sent b hw_fill)

  -- A step of any thread but `stop` and `reset`, and the data that a new call of `put` brings.
  pub data Step : OutBuf → List ℕ → OutBuf → Type 0 where
    reads : (b b' : OutBuf) → Reads b b' → Step b [] b'
    calls :
        (b : OutBuf) (bytes : List ℕ) → b.unsent ≡ [] → Step b bytes (record b { unsent = bytes })
    puts : (b b' : OutBuf) → put_some b ≡ some b' → Step b [] b'
    pauses : (b : OutBuf) → Step b [] (pause b)
    unpauses : (b : OutBuf) → Step b [] (unpause b)
    exits : (b : OutBuf) → Step b [] (request_exit b)
    listens : (b : OutBuf) (given : Bool) → Step b [] (set_free_callback b given)

  -- Any number of steps, and all the data that they bring.
  pub data Run : OutBuf → List ℕ → OutBuf → Type 0 where
    stays : (b : OutBuf) → Run b [] b
    goes :
        (b b' b'' : OutBuf) (bytes more : List ℕ)
        → Step b bytes b'
        → Run b' more b''
        → Run b (bytes ++ more) b''
