-- ===== src/Fifo/Contents.antt =====
-- What a ring of utils/fifo_buf.cpp holds: the `fill` bytes from `pos` on, going round at `size`.
use mocf.Base.{
  ℕ, zero, suc, ◌+◌, ◌-◌, ◌≤◌, ◌<◌, ◌≡◌, refl, ap, ◌∙◌, List, [], ◌∷◌, ◌++◌, arith, ltb, leb,
  if◌then◌else◌, length, get_or, take, drop, length-append, length-take, length-drop, get_or-append,
  get_or-take, get_or-drop, list_ext,
}
use mocf.Fifo.{Fifo, memcpy, put_span, get_span, advance}

pub record IsValid (f : Fifo) : Type 0 where
  pub storage : length f.buf ≡ f.size
  pub nonempty : 0 < f.size
  pub pos_in : f.pos < f.size
  pub fill_in : f.fill ≤ f.size

-- The index of the `i`-th byte held.
abbrev pub index : ℕ → ℕ → ℕ → ℕ
index size pos i = if ltb (pos + i) size then pos + i else pos + i - size

-- `n` values of a function from `i` on.
abbrev pub tabulate : (ℕ → ℕ) → ℕ → ℕ → List ℕ
tabulate f i zero = []
tabulate f i (suc n) = f i ∷ tabulate f (suc i) n

pub length-tabulate : (f : ℕ → ℕ) (i n : ℕ) → length (tabulate f i n) ≡ n
length-tabulate f i zero = refl
length-tabulate f i (suc n) = ap suc (length-tabulate f (suc i) n)

pub get_or-tabulate : (f : ℕ → ℕ) (i n j : ℕ) → j < n → get_or (tabulate f i n) j 0 ≡ f (i + j)
get_or-tabulate f i zero j h = absurd (omega arith)
get_or-tabulate f i (suc n) zero h = ap f (omega arith)
get_or-tabulate f i (suc n) (suc j) h =
    let e : suc i + j ≡ i + suc j = omega arith in
    get_or-tabulate f (suc i) n j (omega arith) ∙ ap f e

abbrev pub byte_at : Fifo → ℕ → ℕ
byte_at f i = get_or f.buf (index f.size f.pos i) 0

abbrev pub contents : Fifo → List ℕ
contents f = tabulate (byte_at f) 0 f.fill

length-memcpy :
    (dst : List ℕ) (off : ℕ) (src : List ℕ)
    → off + length src ≤ length dst
    → length (memcpy dst off src) ≡ length dst
unfolding memcpy
length-memcpy dst off src h = omega (
  arith,
  length-append (take off dst) (src ++ drop (off + length src) dst),
  length-append src (drop (off + length src) dst),
  length-take off dst,
  length-drop (off + length src) dst,
)

-- A copy changes the bytes from `off` on and no others.
get_or-memcpy :
    (dst : List ℕ) (off : ℕ) (src : List ℕ) (i : ℕ)
    → off + length src ≤ length dst
    → get_or (memcpy dst off src) i 0 ≡ (
        if ltb i off
        then get_or dst i 0
        else if ltb i (off + length src)
        then get_or src (i - off) 0
        else get_or dst i 0)
unfolding memcpy
get_or-memcpy dst off src i h = ground (
  arith,
  length-take off dst,
  get_or-append 0 (take off dst) (src ++ drop (off + length src) dst) i,
  get_or-append 0 src (drop (off + length src) dst) (i - off),
  get_or-take 0 off dst i,
  get_or-drop 0 (off + length src) dst (i - off - length src),
  ap (λ (k : ℕ). get_or dst k 0) (back h),
)
  where
    back :
        off + length src ≤ length dst
        → (if leb (off + length src) i then off + length src + (i - off - length src) else i) ≡ i
    back h = ground arith

-- The ring after one copy of `put`.
abbrev pub with_chunk : Fifo → List ℕ → Fifo
with_chunk f c = record f { buf = memcpy f.buf (put_span f).0 c; fill = f.fill + length c }

module _ {f : Fifo} (c : List ℕ) (v : IsValid f) (fits : length c ≤ (put_span f).1) where
  pub with_chunk-IsValid : f.fill < f.size → IsValid (with_chunk f c)
  unfolding put_span
  with_chunk-IsValid h = ground (arith, length-memcpy f.buf (put_span f).0 c)

  -- The bytes already held stay, and the chunk follows them.
  byte_at-with_chunk :
      (i : ℕ)
      → f.fill < f.size
      → i < f.fill + length c
      → byte_at (with_chunk f c) i ≡ (if ltb i f.fill then byte_at f i else get_or c (i - f.fill) 0)
  unfolding put_span
  byte_at-with_chunk i room h =
      ground (arith, get_or-memcpy f.buf (put_span f).0 c (index f.size f.pos i))

  pub contents-with_chunk : f.fill < f.size → contents (with_chunk f c) ≡ contents f ++ c
  contents-with_chunk room = list_ext 0 _ _ same_length same_bytes
    where
      filled : length (contents (with_chunk f c)) ≡ f.fill + length c
      filled = length-tabulate (byte_at (with_chunk f c)) 0 (f.fill + length c)

      same_length : length (contents (with_chunk f c)) ≡ length (contents f ++ c)
      same_length =
          omega (arith, filled, length-tabulate (byte_at f) 0 f.fill, length-append (contents f) c)

      same_bytes :
          (i : ℕ)
          → i < length (contents (with_chunk f c))
          → get_or (contents (with_chunk f c)) i 0 ≡ get_or (contents f ++ c) i 0
      same_bytes i h = ground (
        arith,
        filled,
        length-tabulate (byte_at f) 0 f.fill,
        get_or-tabulate (byte_at (with_chunk f c)) 0 (f.fill + length c) i,
        get_or-tabulate (byte_at f) 0 f.fill i,
        byte_at-with_chunk i room,
        get_or-append 0 (contents f) c i,
      )

-- The ring after one copy of `get`, which hands out `n` bytes.
abbrev pub consumed : Fifo → ℕ → Fifo
consumed f n = record f { fill = f.fill - n; pos = advance f.size f.pos n }

module _ {f : Fifo} (n : ℕ) (v : IsValid f) (fits : n ≤ get_span f.size f.pos f.fill) where
  pub consumed-IsValid : IsValid (consumed f n)
  unfolding get_span advance
  consumed-IsValid = ground arith

  byte_at-consumed : (i : ℕ) → i < f.fill - n → byte_at (consumed f n) i ≡ byte_at f (n + i)
  unfolding get_span advance
  byte_at-consumed i h = ap (λ (k : ℕ). get_or f.buf k 0) (ground arith)

  byte_at-slice : (i : ℕ) → i < n → get_or (take n (drop f.pos f.buf)) i 0 ≡ byte_at f i
  unfolding get_span
  byte_at-slice i h =
      ground (arith, get_or-take 0 n (drop f.pos f.buf) i, get_or-drop 0 f.pos f.buf i)

  pub length-slice : length (take n (drop f.pos f.buf)) ≡ n
  unfolding get_span
  length-slice = ground (arith, length-take n (drop f.pos f.buf), length-drop f.pos f.buf)

  -- What `get` copies out is the front of the contents, and the ring keeps the rest.
  pub contents-consumed : contents f ≡ take n (drop f.pos f.buf) ++ contents (consumed f n)
  unfolding get_span
  contents-consumed = list_ext 0 _ _ same_length same_bytes
    where
      filled : length (contents f) ≡ f.fill
      filled = length-tabulate (byte_at f) 0 f.fill

      n-le-fill : n ≤ f.fill
      n-le-fill = ground arith

      same_length :
          length (contents f) ≡ length (take n (drop f.pos f.buf) ++ contents (consumed f n))
      same_length = omega (
        arith,
        filled,
        n-le-fill,
        length-slice,
        length-tabulate (byte_at (consumed f n)) 0 (f.fill - n),
        length-append (take n (drop f.pos f.buf)) (contents (consumed f n)),
      )

      same_bytes :
          (i : ℕ)
          → i < length (contents f)
          → get_or (contents f) i 0
            ≡ get_or (take n (drop f.pos f.buf) ++ contents (consumed f n)) i 0
      same_bytes i h = ground (
        arith,
        filled,
        length-slice,
        get_or-tabulate (byte_at f) 0 f.fill i,
        get_or-tabulate (byte_at (consumed f n)) 0 (f.fill - n) (i - n),
        byte_at-consumed (i - n),
        byte_at-slice i,
        ap (λ (k : ℕ). byte_at f k) (back i),
        get_or-append 0 (take n (drop f.pos f.buf)) (contents (consumed f n)) i,
      )
        where
          back : (i : ℕ) → (if ltb i n then i else n + (i - n)) ≡ i
          back i = ground arith
