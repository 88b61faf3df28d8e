-- ===== src/OutBuf/Tests.antt =====
-- audio/outputs/out_buf.cpp: a ring of two bytes and a call of `put` with three.
use mocf.Base.{ℕ, ◌≡◌, refl, true, some, List, [], ◌∷◌, ◌++◌, arith}
use mocf.Fifo.{Fifo}
use mocf.Fifo.Contents.{IsValid}
use mocf.OutBuf.{Device, OutBuf, opened_buf, put_some, stop, pause}
use mocf.OutBuf.Steps.{Step, Run}
use mocf.OutBuf.Pipeline.{pipeline, IsRunning}
use mocf.OutBuf.Flow.{put_some-put, Run-pipeline}
use mocf.OutBuf.Stopped.{IsQuiet, stop-IsQuiet}

abbrev device : Device
device = record { can_hw_pause = true; bps = 40; bpf = 2 }

abbrev ring : Fifo
ring = record { size = 2; pos = 0; fill = 0; buf = 0 ∷ 0 ∷ [] }

ring-IsValid : IsValid ring
ring-IsValid = record {
  storage = refl;
  nonempty = omega arith;
  pos_in = omega arith;
  fill_in = omega arith;
}

abbrev start : OutBuf
start = opened_buf ring

abbrev bytes : List ℕ
bytes = 7 ∷ 8 ∷ 9 ∷ []

abbrev called : OutBuf
called = record start { unsent = bytes }

start-IsRunning : IsRunning start
start-IsRunning = record { valid = ring-IsValid; going = refl }

-- The call writes what fits, and the thread begins a round.
written : (b' : OutBuf) × (put_some called ≡ some b')
written = put_some-put device called ring-IsValid

one_run : (b' : OutBuf) × Run device start (bytes ++ ([] ++ ([] ++ []))) b'
one_run =
    let (b', e) = written in
    (
      pause b',
      Run.goes start called (pause b') bytes ([] ++ ([] ++ [])) (Step.calls start bytes refl) (
          Run.goes called b' (pause b') [] ([] ++ []) (Step.puts called b' e)
            (Run.goes b' (pause b') (pause b') [] [] (Step.pauses b') (Run.stays (pause b')))),
    )

Run-pipeline_example :
    IsRunning one_run.0 × (pipeline one_run.0 ≡ pipeline start ++ (bytes ++ ([] ++ ([] ++ []))))
Run-pipeline_example =
    Run-pipeline device start one_run.0 (bytes ++ ([] ++ ([] ++ []))) start-IsRunning one_run.1

-- The stopped buffer refuses the call.
refused : (b' : OutBuf) × Run device (stop called) ([] ++ []) b'
unfolding stop
refused =
    let (b', e) = put_some-put device (stop called) ring-IsValid in
    (b', Run.goes (stop called) b' b' [] [] (Step.puts (stop called) b' e) (Run.stays b'))

stop-IsQuiet_example : IsQuiet called refused.0
stop-IsQuiet_example = stop-IsQuiet device called refused.0 ([] ++ []) refused.1
