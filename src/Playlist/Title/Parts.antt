-- ===== src/Playlist/Title/Parts.antt =====
-- library/playlist.cpp: the pieces of a title format are no longer than the format.
use mocf.Base.{
  ℕ, ◌+◌, ◌≤◌, ◌<◌, Bool, true, false, not, ◌&&◌, Option, none, some, [], ◌∷◌, ◌++◌, inl, inr, Text,
  arith, ◌==◌, ◌>>=◌, length, Bool-cases, length-append,
}
use mocf.Playlist.Data.{FileTags}
use mocf.Playlist.Title.{
  title_expn_subs, next_byte, copy_until, skip_until, choose, ternary, is_some,
}

-- A condition on what a parsing step returns, if it returns.
abbrev pub Post {ℓ κ} : {A : Type ℓ} → (A → Type κ) → Option A → Type κ
Post P none = Unit
Post P (some a) = P a

Post-bind {ℓ κ} :
    {A B : Type ℓ} (P : A → Type κ) (Q : B → Type κ) (m : Option A) (f : A → Option B)
    → Post P m
    → ((a : A) → P a → Post Q (f a))
    → Post Q (m >>= f)
Post-bind P Q none f h k = tt
Post-bind P Q (some a) f h k = k a h

Post-any {ℓ} : {A : Type ℓ} (m : Option A) → Post (λ (a : A). Unit {0}) m
Post-any none = tt
Post-any (some a) = tt

Post-mono {ℓ κ} :
    {A : Type ℓ} (P Q : A → Type κ) (m : Option A) → ((a : A) → P a → Q a) → Post P m → Post Q m
Post-mono P Q none f h = tt
Post-mono P Q (some a) f h = f a h

copy_until-Post :
    (stop : ℕ) (escape : Bool) (fmt expr : Text)
    → Post
        (λ r. length r.0 + length r.1 ≤ length expr + length fmt)
        (copy_until stop escape fmt expr)
unfolding copy_until
copy_until-Post stop escape [] expr = tt
copy_until-Post stop escape (c ∷ rest) expr = elim (Bool-cases (not escape && c == stop)) [
  | inl here ↦ rw here (omega arith)
  | inr on ↦ rw on (
      Post-mono (λ r. length r.0 + length r.1 ≤ length (expr ++ (c ∷ [])) + length rest) _
        (copy_until stop (c == b'\\') rest (expr ++ (c ∷ [])))
        (λ r h. omega (arith, length-append expr (c ∷ [])))
        (copy_until-Post stop (c == b'\\') rest (expr ++ (c ∷ []))))
]

skip_until-Post :
    (stop : ℕ) (escape : Bool) (fmt : Text)
    → Post (λ r. length r ≤ length fmt) (skip_until stop escape fmt)
unfolding skip_until
skip_until-Post stop escape [] = tt
skip_until-Post stop escape (c ∷ rest) = elim (Bool-cases (not escape && c == stop)) [
  | inl here ↦ rw here (omega arith)
  | inr on ↦ rw on (
      Post-mono (λ r. length r ≤ length rest) _ (skip_until stop (not escape && c == b'\\') rest)
        (λ r h. omega arith) (skip_until-Post stop (not escape && c == b'\\') rest))
]

next_byte-Post : (fmt : Text) → Post (λ r. length r.1 < length fmt) (next_byte fmt)
unfolding next_byte
next_byte-Post [] = tt
next_byte-Post (c ∷ []) = tt
next_byte-Post (c ∷ d ∷ rest) = omega arith

-- The expression and what follows are parts of the format.
abbrev pub Parts : ℕ → Text × Text → Type 0
Parts n r = (length r.0 ≤ n) × (length r.1 ≤ n)

choose-Post :
    (known : Bool) (separator : ℕ) (fmt : Text)
    → Post (Parts (length fmt)) (choose known separator fmt)
unfolding choose
choose-Post true separator fmt =
    Post-bind (λ r. length r.0 + length r.1 ≤ length fmt) (Parts (length fmt))
      (copy_until separator false fmt []) _
      (Post-mono _ _ (copy_until separator false fmt []) (λ r h. omega arith)
        (copy_until-Post separator false fmt []))
      λ copied h.
        Post-bind (λ r. length r ≤ length copied.1) (Parts (length fmt))
          (skip_until b')' false copied.1) _ (skip_until-Post b')' false copied.1)
          (λ rest k. (omega arith, omega arith))
choose-Post false separator fmt =
    Post-bind (λ r. length r ≤ length fmt) (Parts (length fmt)) (skip_until separator false fmt) _
      (skip_until-Post separator false fmt)
      λ here h.
        Post-bind (λ r. length r.1 < length here) (Parts (length fmt)) (next_byte here) _
          (next_byte-Post here)
          λ fmt' k.
            Post-mono _ (Parts (length fmt)) (copy_until b')' false fmt'.1 [])
              (λ r j. (omega arith, omega arith)) (copy_until-Post b')' false fmt'.1 [])

pub ternary-Post :
    (fmt : Text) (tags : Option FileTags) → Post (Parts (length fmt)) (ternary fmt tags)
unfolding ternary
ternary-Post fmt tags =
    Post-bind (λ r. length r.1 < length fmt) (Parts (length fmt)) (next_byte fmt) _
      (next_byte-Post fmt)
      λ name h.
        Post-bind (λ v. Unit) (Parts (length fmt)) (title_expn_subs name.0 tags) _
          (Post-any (title_expn_subs name.0 tags))
          λ value u.
            Post-bind (λ r. length r.1 < length name.1) (Parts (length fmt)) (next_byte name.1) _
              (next_byte-Post name.1)
              λ sep k.
                Post-bind (λ r. length r.1 < length sep.1) (Parts (length fmt)) (next_byte sep.1) _
                  (next_byte-Post sep.1)
                  λ body j.
                    Post-mono (Parts (length body.1)) (Parts (length fmt))
                      (choose (is_some value) sep.0 body.1) (λ r p. (omega arith, omega arith))
                      (choose-Post (is_some value) sep.0 body.1)
