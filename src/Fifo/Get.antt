-- ===== src/Fifo/Get.antt =====
-- utils/fifo_buf.cpp: the loops of `get` and `peek` end and return the front of the contents.
use mathlib.Core.Option
use mathlib.Core.List.{append-nil, append_assoc}
use native.Mathlib.Decide.{dec_lt}
use mocf.Base.{
  ℕ, zero, suc, ◌+◌, ◌-◌, ◌≤◌, ◌<◌, min, ◌≡◌, refl, sym, ap, ◌∙◌, List, [], ◌++◌, ◌⊎◌, inl, inr,
  Option, some, arith, lt→ltb, length, take, drop, length-append, take-drop-append,
}
use mocf.Fifo.{Fifo, get_span, advance, clip, peek_loop, peek, get_round, get_loop, get}
use mocf.Fifo.Contents.{
  IsValid, contents, consumed, consumed-IsValid, contents-consumed, length-slice, length-tabulate,
  byte_at,
}

-- How many bytes one round of `get` hands out, and which.
abbrev step_size : Fifo → ℕ → List ℕ → ℕ
step_size f want out = clip (get_span f.size f.pos f.fill) (want - length out)

abbrev slice : Fifo → ℕ → List ℕ → List ℕ
slice f want out = take (step_size f want out) (drop f.pos f.buf)

get_round_lem :
    (f : Fifo) (want : ℕ) (out : List ℕ)
    → get_round f want out ≡ (consumed f (step_size f want out), out ++ slice f want out)
unfolding get_round
get_round_lem f want out = refl

step_size_bounds :
    (f : Fifo) (want : ℕ) (out : List ℕ)
    → IsValid f
    → 0 < f.fill
    → length out < want
    → (0 < step_size f want out)
      × (step_size f want out ≤ get_span f.size f.pos f.fill)
      × (step_size f want out ≤ f.fill)
      × (length out + step_size f want out ≤ want)
unfolding clip get_span
step_size_bounds f want out v some_left more = ground arith

get_loop_stop :
    (fuel : ℕ) (f : Fifo) (want : ℕ) (out : List ℕ)
    → (f.fill ≡ 0) ⊎ (want ≤ length out)
    → get_loop (suc fuel) f want out ≡ some (f, out)
unfolding get_loop
get_loop_stop fuel f want out h = ground arith

get_loop_more :
    (fuel : ℕ) (f : Fifo) (want : ℕ) (out : List ℕ)
    → 0 < f.fill
    → length out < want
    → get_loop (suc fuel) f want out
      ≡ get_loop fuel (get_round f want out).0 want (get_round f want out).1
unfolding get_loop
get_loop_more fuel f want out h k = rw (lt→ltb 0 f.fill h, lt→ltb (length out) want k, get_loop)

-- What the loop of `get` returns once `out` is copied.
record Taken (f : Fifo) (want : ℕ) (out : List ℕ) (r : Option (Fifo × List ℕ)) : Type 0 where
  ring : Fifo
  bytes : List ℕ
  result : r ≡ some (ring, out ++ bytes)
  counted : length bytes ≡ min (want - length out) f.fill
  split : contents f ≡ bytes ++ contents ring
  valid : IsValid ring
  sized : ring.size ≡ f.size

Taken-stop :
    (f : Fifo) (want : ℕ) (out : List ℕ)
    → IsValid f
    → (f.fill ≡ 0) ⊎ (want ≤ length out)
    → Taken f want out (some (f, out))
Taken-stop f want out v over = record {
  ring = f;
  bytes = [];
  result = ap (λ (r : List ℕ). some (f, r)) (sym (append-nil out));
  counted = omega arith;
  split = refl;
  valid = v;
  sized = refl;
}

Taken-more :
    (f : Fifo) (want : ℕ) (out : List ℕ) {r : Option (Fifo × List ℕ)}
    → IsValid f
    → 0 < f.fill
    → length out < want
    → Taken (consumed f (step_size f want out)) want (out ++ slice f want out) r
    → Taken f want out r
Taken-more f want out {r} v some_left more later =
    let bounds = step_size_bounds f want out v some_left more in
    let n = step_size f want out in
    let len = length-slice n v bounds.1 in
    record {
      ring = later.ring;
      bytes = slice f want out ++ later.bytes;
      result =
          later.result
          ∙ ap (λ (r : List ℕ). some (later.ring, r))
              (append_assoc out (slice f want out) later.bytes);
      counted = omega (
        arith,
        later.counted,
        bounds,
        len,
        length-append out (slice f want out),
        length-append (slice f want out) later.bytes,
      );
      split =
          contents-consumed n v bounds.1
          ∙ ap (λ (r : List ℕ). slice f want out ++ r) later.split
          ∙ sym (append_assoc (slice f want out) later.bytes (contents later.ring));
      valid = later.valid;
      sized = later.sized;
    }

get_loop-Taken :
    (fuel : ℕ) (f : Fifo) (want : ℕ) (out : List ℕ)
    → want - length out < fuel
    → IsValid f
    → Taken f want out (get_loop fuel f want out)
get_loop-Taken zero f want out h v = absurd (omega arith)
get_loop-Taken (suc fuel) f want out h v = elim (dec_lt 0 f.fill) [
  | no empty ↦
      rw (get_loop_stop fuel f want out (inl (omega arith)))
        (Taken-stop f want out v (inl (omega arith)))
  | yes some_left ↦ elim (dec_lt (length out) want) [
    | no done ↦
        rw (get_loop_stop fuel f want out (inr (omega arith)))
          (Taken-stop f want out v (inr (omega arith)))
    | yes more ↦
        let bounds = step_size_bounds f want out v some_left more in
        let n = step_size f want out in
        let len = length-slice n v bounds.1 in
        rw (get_loop_more fuel f want out some_left more) (
          Taken-more f want out v some_left more (
            rw (get_round_lem f want out) (
              get_loop-Taken fuel (consumed f n) want (out ++ slice f want out)
                (omega (arith, length-append out (slice f want out)))
                (consumed-IsValid n v bounds.1))))
  ]
]

-- `get` returns: it hands out the first `want` bytes of the contents (all of them if there are
-- fewer), leaves exactly the others, and keeps the ring valid.
pub get-contents :
    (f : Fifo) (want : ℕ)
    → IsValid f
    → (ring : Fifo) × (get f want ≡ some (ring, take want (contents f)))
      × (contents ring ≡ drop want (contents f))
      × IsValid ring
      × (ring.size ≡ f.size)
unfolding get
get-contents f want v =
    let t = get_loop-Taken (suc want) f want [] (omega arith) v in
    let whole = length-tabulate (byte_at f) 0 f.fill in
    let parts =
      take-drop-append want t.bytes (contents t.ring)
        (rw (← t.split) (omega (arith, t.counted, whole))) in
    (
      t.ring,
      t.result ∙ ap (λ (r : List ℕ). some (t.ring, r)) (rw t.split (sym parts.0)),
      rw t.split (sym parts.1),
      t.valid,
      t.sized,
    )

-- `peek` runs the rounds of `get` on copies of `fill` and `pos`.
peek_loop-get_loop :
    (fuel : ℕ) (f : Fifo) (want left pos : ℕ) (out : List ℕ)
    → peek_loop fuel f want left pos out
      ≡ Option.map (λ r. r.1) (get_loop fuel (record f { fill = left; pos = pos }) want out)
unfolding peek_loop get_loop get_round
peek_loop-get_loop zero f want left pos out = refl
peek_loop-get_loop (suc fuel) f want left pos out =
    let n : ℕ = clip (get_span f.size pos left) (want - length out) in
    ground (
      arith,
      peek_loop-get_loop fuel f want (left - n) (advance f.size pos n)
          (out ++ take n (drop pos f.buf)),
    )

-- `peek` returns the bytes that `get` would hand out, and (having no ring in its result) consumes
-- nothing.
pub peek-get : (f : Fifo) (want : ℕ) → peek f want ≡ Option.map (λ r. r.1) (get f want)
unfolding peek get
peek-get f want = peek_loop-get_loop (suc want) f want f.fill f.pos []
