-- ===== src/Fifo.antt =====
-- utils/fifo_buf.cpp: the byte ring between the player and the output thread.
pub mod Contents
pub mod Put
pub mod Get
pub mod Queue
mod Tests
use mocf.Base.{
  ℕ, zero, suc, ◌+◌, ◌-◌, ◌≡◌, Bool, true, false, not, ◌&&◌, Option, none, some, List, [], ◌∷◌,
  ◌++◌, ltb, leb, ◌==◌, if◌then◌else◌, length, take, drop, replicate,
}

-- `class fifo_buf`. The four fields of the class; `buf` holds `size` bytes.
pub record Fifo : Type 0 where
  pub size : ℕ
  pub pos : ℕ
  pub fill : ℕ
  pub buf : List ℕ

-- `memcpy(dst + off, src, |src|)`, within the bounds of `dst`.
pub memcpy : List ℕ → ℕ → List ℕ → List ℕ
memcpy dst off src = take off dst ++ (src ++ drop (off + length src) dst)

-- The constructor; `assert(size > 0)` is the guard.
pub new : ℕ → Option Fifo
new size =
    if ltb 0 size
    then some (record { size = size; pos = 0; fill = 0; buf = replicate size 0 })
    else none

-- Where one round of `put` writes, and how much room there is up to the end or to `pos`.
pub put_span : Fifo → ℕ × ℕ
put_span f =
    if ltb (f.pos + f.fill) f.size
    then (f.pos + f.fill, f.size - (f.pos + f.fill))
    else (f.pos + f.fill - f.size, f.size - f.fill)

-- `if (to_write > size - written) to_write = size - written;`
pub clip : ℕ → ℕ → ℕ
clip n room = if ltb room n then room else n

-- One round of the loop of `put`, at `written` bytes of `bytes`.
pub put_round : Fifo → List ℕ → ℕ → Fifo × ℕ
unfolding put_span clip memcpy
put_round f bytes written =
    let (write_from, room) = put_span f in
    let to_write : ℕ = clip room (length bytes - written) in
    (
      record f {
        buf = memcpy f.buf write_from (take to_write (drop written bytes));
        fill = f.fill + to_write;
      },
      written + to_write,
    )

-- The loop of `put` on fuel; `none` means that the fuel ran out.
pub put_loop : ℕ → Fifo → List ℕ → ℕ → Option (Fifo × ℕ)
put_loop zero f bytes written = none
put_loop (suc fuel) f bytes written =
    let next = put_round f bytes written in
    elim (ltb f.fill f.size && ltb written (length bytes)) [
      | true ↦ put_loop fuel next.0 bytes next.1
      | false ↦ some (f, written)
    ]

-- `fifo_buf::put`: each round writes at least one byte, so `|bytes| + 1` rounds are enough.
pub put : Fifo → List ℕ → Option (Fifo × ℕ)
unfolding put_loop
put f bytes = put_loop (suc (length bytes)) f bytes 0

-- How far one round of `peek` and `get` reads: to the end of the data or of the buffer.
pub get_span : ℕ → ℕ → ℕ → ℕ
get_span size pos left = if leb (pos + left) size then left else size - pos

-- `pos += n; if (pos == size) pos = 0;`
pub advance : ℕ → ℕ → ℕ → ℕ
advance size pos n = if pos + n == size then 0 else pos + n

-- The loop of `peek`: `left` and `pos` are its locals, and `out` the bytes copied so far.
pub peek_loop : ℕ → Fifo → ℕ → ℕ → ℕ → List ℕ → Option (List ℕ)
peek_loop zero f want left pos out = none
peek_loop (suc fuel) f want left pos out =
    let to_copy : ℕ = clip (get_span f.size pos left) (want - length out) in
    elim (ltb 0 left && ltb (length out) want) [
      | true ↦
          peek_loop fuel f want (left - to_copy) (advance f.size pos to_copy)
            (out ++ take to_copy (drop pos f.buf))
      | false ↦ some out
    ]

-- `fifo_buf::peek` with `user_buf_size = want`.
pub peek : Fifo → ℕ → Option (List ℕ)
unfolding peek_loop get_span clip advance
peek f want = peek_loop (suc want) f want f.fill f.pos []

-- One round of the loop of `get`: the bytes copied, and the ring without them.
pub get_round : Fifo → ℕ → List ℕ → Fifo × List ℕ
unfolding get_span clip advance
get_round f want out =
    let to_copy : ℕ = clip (get_span f.size f.pos f.fill) (want - length out) in
    (
      record f { fill = f.fill - to_copy; pos = advance f.size f.pos to_copy },
      out ++ take to_copy (drop f.pos f.buf),
    )

pub get_loop : ℕ → Fifo → ℕ → List ℕ → Option (Fifo × List ℕ)
get_loop zero f want out = none
get_loop (suc fuel) f want out =
    let next = get_round f want out in
    elim (ltb 0 f.fill && ltb (length out) want) [
      | true ↦ get_loop fuel next.0 want next.1
      | false ↦ some (f, out)
    ]

-- `fifo_buf::get` with `user_buf_size = want`.
pub get : Fifo → ℕ → Option (Fifo × List ℕ)
unfolding get_loop
get f want = get_loop (suc want) f want []

-- `fifo_buf::space`.
pub space : Fifo → ℕ
space f = f.size - f.fill

-- `fifo_buf::clear`: `pos_` stays.
pub clear : Fifo → Fifo
clear f = record f { fill = 0 }
