-- ===== src/Fifo/Put.antt =====
-- utils/fifo_buf.cpp: the loop of `put` ends and stores a prefix of the bytes.
use mathlib.Core.List.{append-nil, append_assoc}
use mocf.Base.{
  ℕ, zero, suc, ◌+◌, ◌-◌, ◌≤◌, ◌<◌, min, ◌≡◌, refl, sym, ap, ◌∙◌, List, [], ◌++◌, ◌⊎◌, inl, inr,
  Option, some, arith, lt→ltb, length, take, drop, length-take, length-drop, take-nil, drop-all,
  take-add, drop-drop,
}
use native.Mathlib.Decide.{dec_lt}
use mocf.Fifo.{Fifo, put_span, put_round, put_loop, put, clip, space, memcpy}
use mocf.Fifo.Contents.{IsValid, contents, with_chunk, with_chunk-IsValid, contents-with_chunk}

-- What one round of `put` copies.
abbrev chunk : Fifo → List ℕ → ℕ → List ℕ
chunk f bytes written = take (clip (put_span f).1 (length bytes - written)) (drop written bytes)

module _ (f : Fifo) (bytes : List ℕ) (written : ℕ) where
  length-chunk : length (chunk f bytes written) ≡ clip (put_span f).1 (length bytes - written)
  unfolding clip
  length-chunk = ground (
    arith,
    length-take (clip (put_span f).1 (length bytes - written)) (drop written bytes),
    length-drop written bytes,
  )

  put_round_lem :
      put_round f bytes written
      ≡ (with_chunk f (chunk f bytes written), written + length (chunk f bytes written))
  unfolding put_round
  put_round_lem =
      ap {B = Fifo × ℕ}
        (λ (n : ℕ). (
          record f { buf = memcpy f.buf (put_span f).0 (chunk f bytes written); fill = f.fill + n },
          written + n,
        ))
        (sym length-chunk)

  chunk_bounds :
      IsValid f
      → f.fill < f.size
      → written < length bytes
      → (0 < length (chunk f bytes written))
        × (length (chunk f bytes written) ≤ (put_span f).1)
        × (length (chunk f bytes written) ≤ f.size - f.fill)
        × (written + length (chunk f bytes written) ≤ length bytes)
  unfolding clip put_span
  chunk_bounds v room more = ground (arith, length-chunk)

prefix_split :
    (size fill written : ℕ) (bytes c : List ℕ)
    → length c ≤ size - fill
    → take (length c) (drop written bytes) ≡ c
    → take (size - fill) (drop written bytes)
      ≡ c ++ take (size - (fill + length c)) (drop (written + length c) bytes)
prefix_split size fill written bytes c h e =
    ap (λ (n : ℕ). take n (drop written bytes)) two_parts
    ∙ take-add (length c) (size - (fill + length c)) (drop written bytes)
    ∙ rw (e, drop-drop written (length c) bytes) refl
  where
    two_parts : size - fill ≡ length c + (size - (fill + length c))
    two_parts = omega arith

chunk-eq-take :
    (f : Fifo) (bytes : List ℕ) (written : ℕ)
    → take (length (chunk f bytes written)) (drop written bytes) ≡ chunk f bytes written
chunk-eq-take f bytes written =
    ap (λ (n : ℕ). take n (drop written bytes)) (length-chunk f bytes written)

-- What the loop of `put` returns, from `written` bytes on.
record Stored (f : Fifo) (bytes : List ℕ) (written : ℕ) (r : Option (Fifo × ℕ)) : Type 0 where
  ring : Fifo
  count : ℕ
  result : r ≡ some (ring, count)
  counted : count ≡ written + min (length bytes - written) (f.size - f.fill)
  valid : IsValid ring
  sized : ring.size ≡ f.size
  held : contents ring ≡ contents f ++ take (f.size - f.fill) (drop written bytes)

-- The loop is over when the ring is full or every byte is stored.
Stored-stop :
    (f : Fifo) (bytes : List ℕ) (written : ℕ)
    → IsValid f
    → written ≤ length bytes
    → (f.size ≤ f.fill) ⊎ (length bytes ≤ written)
    → Stored f bytes written (some (f, written))
Stored-stop f bytes written v le over = record {
  ring = f;
  count = written;
  result = refl;
  counted = omega arith;
  valid = v;
  sized = refl;
  held = sym (append-nil (contents f)) ∙ ap (λ (r : List ℕ). contents f ++ r) (sym (nothing over));
}
  where
    nothing :
        (f.size ≤ f.fill) ⊎ (length bytes ≤ written)
        → take (f.size - f.fill) (drop written bytes) ≡ []
    nothing (inl full) =
        let none_left : f.size - f.fill ≡ 0 = omega arith in
        ap (λ (n : ℕ). take n (drop written bytes)) none_left
    nothing (inr done) = rw (drop-all written bytes done) (take-nil (f.size - f.fill))

-- One round, and the rest of the loop.
Stored-more :
    (f : Fifo) (bytes : List ℕ) (written : ℕ) {r : Option (Fifo × ℕ)}
    → IsValid f
    → f.fill < f.size
    → written < length bytes
    → Stored (put_round f bytes written).0 bytes (put_round f bytes written).1 r
    → Stored f bytes written r
Stored-more f bytes written {r} v room more later = go (rw (put_round_lem f bytes written) at later)
  where
    c : List ℕ
    c = chunk f bytes written

    bounds :
        (0 < length c)
        × (length c ≤ (put_span f).1)
        × (length c ≤ f.size - f.fill)
        × (written + length c ≤ length bytes)
    bounds = chunk_bounds f bytes written v room more

    rest : List ℕ
    rest = take (f.size - (f.fill + length c)) (drop (written + length c) bytes)

    split : take (f.size - f.fill) (drop written bytes) ≡ c ++ rest
    split = prefix_split f.size f.fill written bytes c bounds.2 (chunk-eq-take f bytes written)

    go : Stored (with_chunk f c) bytes (written + length c) r → Stored f bytes written r
    go s = record {
      ring = s.ring;
      count = s.count;
      result = s.result;
      counted = omega (arith, s.counted, bounds);
      valid = s.valid;
      sized = s.sized;
      held =
          s.held
          ∙ ap (λ (r : List ℕ). r ++ rest) (contents-with_chunk c v bounds.1 room)
          ∙ append_assoc (contents f) c rest
          ∙ ap (λ (r : List ℕ). contents f ++ r) (sym split);
    }

put_loop_stop :
    (fuel : ℕ) (f : Fifo) (bytes : List ℕ) (written : ℕ)
    → (f.size ≤ f.fill) ⊎ (length bytes ≤ written)
    → put_loop (suc fuel) f bytes written ≡ some (f, written)
unfolding put_loop
put_loop_stop fuel f bytes written h = ground arith

put_loop_more :
    (fuel : ℕ) (f : Fifo) (bytes : List ℕ) (written : ℕ)
    → f.fill < f.size
    → written < length bytes
    → put_loop (suc fuel) f bytes written
      ≡ put_loop fuel (put_round f bytes written).0 bytes (put_round f bytes written).1
unfolding put_loop
put_loop_more fuel f bytes written h k =
    rw (lt→ltb f.fill f.size h, lt→ltb written (length bytes) k, put_loop)

put_loop-Stored :
    (fuel : ℕ) (f : Fifo) (bytes : List ℕ) (written : ℕ)
    → length bytes - written < fuel
    → written ≤ length bytes
    → IsValid f
    → Stored f bytes written (put_loop fuel f bytes written)
put_loop-Stored zero f bytes written h le v = absurd (omega arith)
put_loop-Stored (suc fuel) f bytes written h le v = elim (dec_lt f.fill f.size) [
  | no full ↦
      rw (put_loop_stop fuel f bytes written (inl (omega arith)))
        (Stored-stop f bytes written v le (inl (omega arith)))
  | yes room ↦ elim (dec_lt written (length bytes)) [
    | no done ↦
        rw (put_loop_stop fuel f bytes written (inr (omega arith)))
          (Stored-stop f bytes written v le (inr (omega arith)))
    | yes more ↦
        let bounds = chunk_bounds f bytes written v room more in
        rw (put_loop_more fuel f bytes written room more) (
          Stored-more f bytes written v room more (
            rw (put_round_lem f bytes written) (
              put_loop-Stored fuel (with_chunk f (chunk f bytes written)) bytes
                (written + length (chunk f bytes written)) (omega arith) (omega arith)
                (with_chunk-IsValid (chunk f bytes written) v bounds.1 room))))
  ]
]

-- `put` returns: it stores as many bytes as there is room for, returns their number, appends
-- exactly those bytes to the contents, and keeps the ring valid.
pub put-contents :
    (f : Fifo) (bytes : List ℕ)
    → IsValid f
    → (ring : Fifo) × (put f bytes ≡ some (ring, min (length bytes) (space f)))
      × (contents ring ≡ contents f ++ take (space f) bytes)
      × IsValid ring
      × (ring.size ≡ f.size)
unfolding put space
put-contents f bytes v =
    let s = put_loop-Stored (suc (length bytes)) f bytes 0 (omega arith) (omega arith) v in
    (
      s.ring,
      s.result ∙ ap (λ (n : ℕ). some (s.ring, n)) (s.counted ∙ omega arith),
      s.held,
      s.valid,
      s.sized,
    )
