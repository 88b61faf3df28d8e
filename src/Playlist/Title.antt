-- ===== src/Playlist/Title.antt =====
-- library/playlist.cpp: the expansion of a title format, as `%(n:%n :)%t`. A format is a C string,
-- the list of its bytes up to the terminating zero.
pub mod Parts
pub mod Bounds
pub mod Titles
mod Tests
use mocf.Base.{
  ℕ, zero, suc, ◌+◌, ◌-◌, ◌/◌, ◌%◌, Bool, true, false, not, ◌&&◌, Option, none, some, List, [], ◌∷◌,
  ◌++◌, Text, is_empty, if◌then◌else◌, ltb, ◌==◌, ◌>>=◌, length, take,
}
use mocf.Base.Int.{ℤ, pos, negsuc, eqb_ℤ}
use mocf.Playlist.Data.{FileTags, minus_one}

-- The decimal digits of `n`, on fuel above `n`, in front of `acc`.
digits_from : ℕ → ℕ → Text → Text
digits_from zero n acc = acc
digits_from (suc fuel) n acc =
    let more = digits_from fuel (n / 10) ((b'0' + n % 10) ∷ acc) in
    if ltb n 10 then (b'0' + n) ∷ acc else more

-- `std::to_string`
pub to_string : ℤ → Text
unfolding digits_from
to_string (pos n) = digits_from (suc n) n []
to_string (negsuc n) = b'-' ∷ digits_from (suc (suc n)) (suc n) []

abbrev some_text : Text → Option Text
some_text t = if is_empty t then none else some t

abbrev some_number : ℤ → Option Text
some_number n = if eqb_ℤ n minus_one then none else some (to_string n)

-- `title_expn_subs`; the outer `none` is the exception `BadTitleFormat`.
pub title_expn_subs : ℕ → Option FileTags → Option (Option Text)
title_expn_subs c tags =
    if c == b'n'
    then some (tags >>= λ t. some_number t.track)
    else if c == b'y'
    then some (tags >>= λ t. some_number t.year)
    else if c == b'a'
    then some (tags >>= λ t. some_text t.artist)
    else if c == b'A'
    then some (tags >>= λ t. some_text t.album)
    else if c == b't'
    then some (tags >>= λ t. some_text t.title)
    else none

-- `check_zero(++fmt)`: the text behind the first byte, which must not be empty.
pub next_byte : Text → Option (ℕ × Text)
next_byte [] = none
next_byte (c ∷ []) = none
next_byte (c ∷ d ∷ rest) = some (d, d ∷ rest)

-- The loops that copy an expression up to `stop`: what is copied, and the text from `stop` on.
pub copy_until : ℕ → Bool → Text → Text → Option (Text × Text)
copy_until stop escape [] expr = none
copy_until stop escape (c ∷ rest) expr =
    let more = copy_until stop (c == b'\\') rest (expr ++ (c ∷ [])) in
    if not escape && c == stop then some (expr, c ∷ rest) else more

-- The loops that skip an expression up to `stop`.
pub skip_until : ℕ → Bool → Text → Option Text
skip_until stop escape [] = none
skip_until stop escape (c ∷ rest) =
    let more = skip_until stop (not escape && c == b'\\') rest in
    if not escape && c == stop then some (c ∷ rest) else more

-- The chosen expression of `%(x:true:false)` and the text from the closing `)` on; `known` says
-- whether `x` has a value, and `fmt` begins behind the first separator.
pub choose : Bool → ℕ → Text → Option (Text × Text)
choose true separator fmt = do
  copied ← copy_until separator false fmt []
  rest ← skip_until b')' false copied.1
  some (copied.0, rest)
choose false separator fmt = do
  at_separator ← skip_until separator false fmt
  fmt' ← next_byte at_separator
  copy_until b')' false fmt'.1 []

-- What one round of the loop of `do_title_expn` finds at its position.
pub data Piece : Type 0 where
  bad : Piece
  literal : Text → Bool → Text → Piece
  nested : Text → Text → Piece

abbrev pub is_some {ℓ} : {A : Type ℓ} → Option A → Bool
is_some none = false
is_some (some a) = true

-- The ternary expansion; `fmt` begins at the `(`.
pub ternary : Text → Option FileTags → Option (Text × Text)
ternary fmt tags = do
  name ← next_byte fmt
  value ← title_expn_subs name.0 tags
  separator ← next_byte name.1
  body ← next_byte separator.1
  choose (is_some value) separator.0 body.1

abbrev pub or_empty : Option Text → Text
or_empty none = []
or_empty (some t) = t

-- The piece that a ternary expansion gives.
pub from_ternary : Option (Text × Text) → Piece
from_ternary none = bad
from_ternary (some (expr, [])) = bad
from_ternary (some (expr, d ∷ rest)) = nested expr rest

-- The piece that a plain substitution gives.
pub from_value : Text → Option (Option Text) → Piece
from_value rest none = bad
from_value rest (some value) = literal (or_empty value) false rest

-- The substitution behind a `%`; `rest` begins at the byte behind the `c` that follows it.
pub percent : Option FileTags → ℕ → Text → Piece
percent tags c rest =
    if c == b'('
    then from_ternary (ternary (c ∷ rest) tags)
    else from_value rest (title_expn_subs c tags)

-- One round: the text to add, whether the next byte is escaped, and the text behind.
pub piece : Option FileTags → Bool → ℕ → Text → Piece
piece tags escape c rest =
    if c == b'%' && not escape
    then elim rest [ [] ↦ bad | d ∷ rest' ↦ percent tags d rest' ]
    else if c == b'\\' && not escape
    then literal [] true rest
    else literal (c ∷ []) false rest

-- The outcome of `do_title_expn`: its text, the exception, or (never, by the laws) no fuel left.
pub data Outcome : Type 0 where
  title : Text → Outcome
  malformed no_fuel : Outcome

abbrev pub and_then : Outcome → (Text → Outcome) → Outcome
and_then (title t) f = f t
and_then malformed f = malformed
and_then no_fuel f = no_fuel

-- `do_title_expn`, with `dest` so far; `max_len - dest.size()` is the room left.
pub expand : ℕ → ℕ → Option FileTags → Text → Bool → Text → Outcome
expand zero max_len tags dest escape fmt = no_fuel
expand (suc fuel) max_len tags dest escape [] = title dest
expand (suc fuel) max_len tags dest escape (c ∷ rest) = elim (ltb (length dest) max_len) [
  | false ↦ title dest
  | true ↦ elim (piece tags escape c rest) [
    | bad ↦ malformed
    | literal t escape' rest' ↦
        expand fuel max_len tags (dest ++ take (max_len - length dest) t) escape' rest'
    | nested expr rest' ↦
        and_then (expand fuel (max_len - length dest) tags [] false expr)
          (λ t. expand fuel max_len tags (dest ++ t) false rest')
  ]
]

-- `do_title_expn`: a round for each byte is enough.
pub do_title_expn : ℕ → Text → Option FileTags → Outcome
do_title_expn max_len fmt tags = expand (suc (length fmt)) max_len tags [] false fmt

abbrev pub max_title_len : ℕ
max_title_len = 511

abbrev pub plain_title : Option FileTags → Text
plain_title none = []
plain_title (some t) = t.title

-- `build_title_with_format`: the plain title where the format is malformed.
pub build_title_with_format : Option FileTags → Text → Option Text
build_title_with_format tags fmt = elim (do_title_expn max_title_len fmt tags) [
  | title t ↦ some t
  | malformed ↦ some (plain_title tags)
  | no_fuel ↦ none
]
