-- ===== src/Paths/Fit.antt =====
-- library/files.cpp: `resolve_path` stops, and stays within the buffer.
use mocf.Base.{
  ℕ, zero, suc, ◌+◌, ◌-◌, ◌≤◌, ◌<◌, [], ◌∷◌, ◌++◌, Text, leb, ◌==◌, length, take, drop, arith,
  Bool-cases, Option-cases, inl, inr, length-take, length-append, length-drop,
}
use mocf.Paths.{
  starts_with, last_slash, Resolved, path, fatal, failed, no_fuel, strip_dot, strip_slash, parent,
  resolve_loop, resolve_path, path_size, joined,
}

-- A path that fits with its terminating zero, or an error; fuel is enough.
abbrev pub Fits : ℕ → Resolved → Type 0
Fits size (path t) = length t < size
Fits size fatal = Unit
Fits size failed = Unit
Fits size no_fuel = ⊥

strip_dot-le : (t : Text) → length (strip_dot t) ≤ length t
unfolding strip_dot
strip_dot-le t = ground (arith, length-take (length t - 1) t)

strip_slash-le : (t : Text) → length (strip_slash t) ≤ length t
unfolding strip_slash
strip_slash-le t = ground (arith, length-take (length t - 1) t)

parent-le : (buf : Text) (slash : ℕ) → length (parent buf slash) ≤ length buf
parent-le buf slash = ground (arith, length-take 1 buf, length-take slash buf)

resolve_loop-Fits :
    (fuel size : ℕ) (buf : Text) (len : ℕ) (f : Text)
    → length f < fuel
    → length buf < size
    → len < size
    → Fits size (resolve_loop fuel size buf len f)
unfolding resolve_loop
resolve_loop-Fits zero size buf len f lt fit room = absurd (omega arith)
resolve_loop-Fits (suc fuel) size buf len [] lt fit room = omega (
  arith,
  strip_dot-le (take len buf),
  strip_slash-le (strip_dot (take len buf)),
  length-take len buf,
)
resolve_loop-Fits (suc fuel) size buf len (c ∷ f) lt fit room =
    elim (Bool-cases (starts_with (b'/' ∷ b'.' ∷ b'.' ∷ b'/' ∷ []) (c ∷ f))) [
      | inl up ↦ elim (Option-cases (last_slash buf)) [
        | inl gone ↦ rw (up, resolve_loop, gone) tt
        | inr (slash, there) ↦
            let le = parent-le buf slash in
            rw (up, resolve_loop, there)
              (resolve_loop-Fits fuel size (parent buf slash) (length (parent buf slash)) (drop 2 f)
                (omega (arith, length-drop 2 f)) (omega (arith, le)) (omega (arith, le)))
      ]
      | inr not_up ↦ elim (Bool-cases (starts_with (b'/' ∷ b'.' ∷ b'/' ∷ []) (c ∷ f))) [
        | inl dot ↦
            rw (not_up, resolve_loop, dot)
              (resolve_loop-Fits fuel size buf len (drop 1 f) (omega (arith, length-drop 1 f)) fit
                room)
        | inr not_dot ↦ elim (Bool-cases (starts_with (b'/' ∷ b'/' ∷ []) (c ∷ f))) [
          | inl double ↦
              rw (not_up, resolve_loop, not_dot, double)
                (resolve_loop-Fits fuel size buf len f (omega arith) fit room)
          | inr single ↦ elim (Bool-cases (len == size - 1)) [
            | inl full ↦ rw (not_up, resolve_loop, not_dot, single, full) tt
            | inr more ↦
                let below : len + 1 < size = ground arith in
                rw (not_up, resolve_loop, not_dot, single, more)
                  (resolve_loop-Fits fuel size (take len buf ++ (c ∷ [])) (len + 1) f (omega arith)
                    (omega
                      (arith, length-append (take len buf) (c ∷ []), length-take len buf, below))
                    below)
          ]
        ]
      ]
    ]

-- `resolve_path` always stops, and a path that it makes fits into the buffer with its terminating zero,
-- if the directory did.
pub resolve_path-Fits :
    (buf : Text) (size : ℕ) (file : Text)
    → length buf < size
    → Fits size (resolve_path buf size file)
unfolding resolve_path
resolve_path-Fits buf size file fit = elim (Bool-cases (starts_with (b'/' ∷ []) buf)) [
  | inr bad ↦ rw (bad, resolve_path) tt
  | inl good ↦ elim (Bool-cases (leb path_size (length (joined buf file)))) [
    | inl long ↦ rw (good, resolve_path, long) tt
    | inr short ↦
        rw (good, resolve_path, short)
          (resolve_loop-Fits (suc (length (joined buf file))) size buf 0 (joined buf file)
            (omega arith) fit (omega arith))
  ]
]
