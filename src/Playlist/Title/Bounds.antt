-- ===== src/Playlist/Title/Bounds.antt =====
-- library/playlist.cpp: a title format is always expanded, and the title has at most `max_len` bytes.
use mocf.Base.{
  ℕ, zero, suc, ◌-◌, ◌≤◌, ◌<◌, Bool, true, false, not, ◌&&◌, Option, none, some, [], ◌∷◌, ◌++◌, inl,
  inr, Text, arith, ltb, ◌==◌, if◌then◌else◌, length, take, Bool-cases, ltb→lt, length-append,
  length-take,
}
use mocf.Playlist.Data.{FileTags}
use mocf.Playlist.Title.{
  title_expn_subs, Piece, bad, literal, nested, ternary, from_ternary, from_value, percent, piece,
  Outcome, title, malformed, no_fuel, and_then, expand, do_title_expn,
}
use mocf.Playlist.Title.Parts.{Post, Parts, ternary-Post}

-- The texts that a round leaves to be done are not longer than the format behind its byte.
abbrev Fits : ℕ → Piece → Type 0
Fits n bad = Unit
Fits n (literal t escape rest) = length rest ≤ n
Fits n (nested expr rest) = (length expr ≤ n) × (length rest ≤ n)

from_ternary-Fits : (n : ℕ) (r : Option (Text × Text)) → Post (Parts n) r → Fits n (from_ternary r)
unfolding from_ternary
from_ternary-Fits n none h = tt
from_ternary-Fits n (some (expr, [])) h = tt
from_ternary-Fits n (some (expr, d ∷ rest)) h = (h.0, omega arith)

from_value-Fits :
    (n : ℕ) (rest : Text) (v : Option (Option Text)) → length rest ≤ n → Fits n (from_value rest v)
unfolding from_value
from_value-Fits n rest none h = tt
from_value-Fits n rest (some value) h = h

percent-Fits :
    (tags : Option FileTags) (c : ℕ) (rest : Text) → Fits (suc (length rest)) (percent tags c rest)
unfolding percent
percent-Fits tags c rest = elim (Bool-cases (c == b'(')) [
  | inl open_ ↦ rw open_ (
      from_ternary-Fits (suc (length rest)) (ternary (c ∷ rest) tags)
        (ternary-Post (c ∷ rest) tags))
  | inr plain ↦
      rw plain (from_value-Fits (suc (length rest)) rest (title_expn_subs c tags) (omega arith))
]

plain-Fits :
    (escape : Bool) (c : ℕ) (rest : Text)
    → Fits
        (length rest)
        (if c == b'\\' && not escape then literal [] true rest else literal (c ∷ []) false rest)
plain-Fits escape c rest = elim (Bool-cases (c == b'\\' && not escape)) [
  | inl e ↦ rw e (omega arith)
  | inr e ↦ rw e (omega arith)
]

piece-Fits :
    (tags : Option FileTags) (escape : Bool) (c : ℕ) (rest : Text)
    → Fits (length rest) (piece tags escape c rest)
unfolding piece
piece-Fits tags escape c [] = elim (Bool-cases (c == b'%' && not escape)) [
  | inl e ↦ rw e tt
  | inr e ↦ rw e (plain-Fits escape c [])
]
piece-Fits tags escape c (d ∷ rest) = elim (Bool-cases (c == b'%' && not escape)) [
  | inl e ↦ rw e (percent-Fits tags d rest)
  | inr e ↦ rw e (plain-Fits escape c (d ∷ rest))
]

-- The expansion ends, and its text has at most `n` bytes.
abbrev pub Within : ℕ → Outcome → Type 0
Within n (title t) = length t ≤ n
Within n malformed = Unit
Within n no_fuel = ⊥

and_then-Within :
    (n room : ℕ) (o : Outcome) (f : Text → Outcome)
    → Within room o
    → ((t : Text) → length t ≤ room → Within n (f t))
    → Within n (and_then o f)
and_then-Within n room (title t) f h k = k t h
and_then-Within n room malformed f h k = tt
and_then-Within n room no_fuel f h k = elim h [ ]

-- What one round leaves to the next ones.
abbrev Expands : ℕ → Option FileTags → Type 0
Expands fuel tags =
    (max_len : ℕ) (dest : Text) (escape : Bool) (fmt : Text)
    → length fmt < fuel
    → length dest ≤ max_len
    → Within max_len (expand fuel max_len tags dest escape fmt)

round-Within :
    (fuel max_len : ℕ) (tags : Option FileTags) (dest : Text) (n : ℕ) (p : Piece)
    → Expands fuel tags
    → n < fuel
    → length dest < max_len
    → Fits n p
    → Within max_len (elim p [
      | bad ↦ malformed
      | literal t escape' rest' ↦
          expand fuel max_len tags (dest ++ take (max_len - length dest) t) escape' rest'
      | nested expr rest' ↦
          and_then
            (expand fuel (max_len - length dest) tags [] false expr)
            (λ t. expand fuel max_len tags (dest ++ t) false rest')
    ])
round-Within fuel max_len tags dest n bad ih lt room fits = tt
round-Within fuel max_len tags dest n (literal t escape rest) ih lt room fits =
    ih max_len (dest ++ take (max_len - length dest) t) escape rest (omega arith) (
      omega (
        arith,
        length-append dest (take (max_len - length dest) t),
        length-take (max_len - length dest) t,
      ))
round-Within fuel max_len tags dest n (nested expr rest) ih lt room fits =
    and_then-Within max_len (max_len - length dest)
      (expand fuel (max_len - length dest) tags [] false expr) _
      (ih (max_len - length dest) [] false expr (omega arith) (omega arith))
      λ t h. ih max_len (dest ++ t) false rest (omega arith) (omega (arith, length-append dest t))

expand-Within : (fuel : ℕ) (tags : Option FileTags) → Expands fuel tags
unfolding expand
expand-Within zero tags max_len dest escape fmt lt le = absurd (omega arith)
expand-Within (suc fuel) tags max_len dest escape [] lt le = le
expand-Within (suc fuel) tags max_len dest escape (c ∷ rest) lt le =
    elim (Bool-cases (ltb (length dest) max_len)) [
      | inr full ↦ rw (full, expand) le
      | inl room ↦
          rw (room, expand)
            (round-Within fuel max_len tags dest (length rest) (piece tags escape c rest)
              (expand-Within fuel tags) (omega arith) (ltb→lt (length dest) max_len room)
              (piece-Fits tags escape c rest))
    ]

-- `do_title_expn` ends on every format, and a title that it makes has at most `max_len` bytes.
pub do_title_expn-Within :
    (max_len : ℕ) (fmt : Text) (tags : Option FileTags)
    → Within max_len (do_title_expn max_len fmt tags)
unfolding do_title_expn
do_title_expn-Within max_len fmt tags =
    expand-Within (suc (length fmt)) tags max_len [] false fmt (omega arith) (omega arith)
