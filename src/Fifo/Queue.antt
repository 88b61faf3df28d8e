-- ===== src/Fifo/Queue.antt =====
-- utils/fifo_buf.cpp behaves as a bounded queue of bytes, whatever the sequence of calls.
use mocf.Base.{
  ℕ, ◌+◌, ◌-◌, ◌^◌, ◌≤◌, ◌<◌, min, ◌≡◌, refl, sym, ap, ◌∙◌, Option, some, List, [], ◌∷◌, ◌++◌,
  arith, length, take, drop, ◌>>=◌,
}
use mocf.Fifo.{Fifo, put, peek, get, space, clear, put_span, get_span, clip}
use mocf.Fifo.Contents.{IsValid, contents, length-tabulate, byte_at}
use mocf.Fifo.Put.{put-contents}
use mocf.Fifo.Get.{get-contents, peek-get}

-- A call of the class, and what its caller sees.
pub data Op : Type 0 where
  puts : List ℕ → Op
  gets peeks : ℕ → Op
  spaces clears : Op

pub data Reply : Type 0 where
  count : ℕ → Reply
  bytes : List ℕ → Reply
  done : Reply

pub step : Fifo → Op → Option (Fifo × Reply)
step f (puts payload) = do r ← put f payload; some (r.0, count r.1)
step f (gets n) = do r ← get f n; some (r.0, bytes r.1)
step f (peeks n) = do r ← peek f n; some (f, bytes r)
step f spaces = some (f, count (space f))
step f clears = some (clear f, done)

pub run : Fifo → List Op → Option (List Reply)
run f [] = some []
run f (op ∷ ops) = do r ← step f op; rs ← run r.0 ops; some (r.1 ∷ rs)

-- The queue of at most `cap` bytes, oldest first.
pub spec_step : ℕ → List ℕ → Op → List ℕ × Reply
spec_step cap q (puts payload) =
    (q ++ take (cap - length q) payload, count (min (length payload) (cap - length q)))
spec_step cap q (gets n) = (drop n q, bytes (take n q))
spec_step cap q (peeks n) = (q, bytes (take n q))
spec_step cap q spaces = (q, count (cap - length q))
spec_step cap q clears = ([], done)

pub spec_run : ℕ → List ℕ → List Op → List Reply
spec_run cap q [] = []
spec_run cap q (op ∷ ops) = let r = spec_step cap q op in r.1 ∷ spec_run cap r.0 ops

space_lem : (f : Fifo) → space f ≡ f.size - length (contents f)
unfolding space
space_lem f = ap (λ (n : ℕ). f.size - n) (sym (length-tabulate (byte_at f) 0 f.fill))

cleared : (f : Fifo) → contents (clear f) ≡ []
unfolding clear
cleared f = refl

size-clear : (f : Fifo) → (clear f).size ≡ f.size
unfolding clear
size-clear f = refl

clear-IsValid : (f : Fifo) → IsValid f → IsValid (clear f)
unfolding clear
clear-IsValid f v = ground arith

-- One call returns, replies as the queue does, and leaves the ring with the queue's bytes.
step_refines :
    (f : Fifo) (op : Op)
    → IsValid f
    → (ring : Fifo) × (step f op ≡ some (ring, (spec_step f.size (contents f) op).1))
      × (contents ring ≡ (spec_step f.size (contents f) op).0)
      × IsValid ring
      × (ring.size ≡ f.size)
unfolding step spec_step
step_refines f (puts payload) v =
    let (ring, e, held, valid, sized) = put-contents f payload v in
    (ring, rw (e, ← space_lem f), held ∙ rw (space_lem f), valid, sized)
step_refines f (gets n) v =
    let (ring, e, held, valid, sized) = get-contents f n v in (ring, rw e, held, valid, sized)
step_refines f (peeks n) v =
    let (ring, e, held, valid, sized) = get-contents f n v in
    (f, rw (peek-get f n, e), refl, v, refl)
step_refines f spaces v = (f, rw (space_lem f), refl, v, refl)
step_refines f clears v = (clear f, refl, cleared f, clear-IsValid f v, size-clear f)

-- No sequence of calls tells a valid ring from the bounded queue of its contents: every call
-- returns, with the queue's reply.
pub run_refines :
    (ops : List Op) (f : Fifo) → IsValid f → run f ops ≡ some (spec_run f.size (contents f) ops)
unfolding run spec_run
run_refines [] f v = refl
run_refines (op ∷ ops) f v =
    let (ring, e, held, valid, sized) = step_refines f op v in
    rw (e, run_refines ops ring valid, held, sized)

-- Every copy of `put` and of `get` stays inside the buffer, and in a buffer of at most 2^30 bytes no
-- `int` sum of the loops overflows.
pub copies_in_bounds :
    (f : Fifo) (n : ℕ)
    → IsValid f
    → f.size ≤ 2 ^ 30
    → ((put_span f).0 + clip (put_span f).1 n ≤ length f.buf)
      × (f.fill + clip (put_span f).1 n ≤ f.size)
      × (f.pos + clip (get_span f.size f.pos f.fill) n ≤ length f.buf)
      × (f.pos + f.fill < 2 ^ 31)
unfolding put_span get_span clip
copies_in_bounds f n v small = ground arith
