-- ===== src/Playlist/Title/Titles.antt =====
-- library/playlist.cpp: the title of a file, of a plain format, and behind an escaped backslash.
use mathlib.Core.List.{append-nil, append_assoc}
use mocf.Base.{
  ℕ, zero, suc, ◌+◌, ◌-◌, ◌≤◌, ◌<◌, ◌≡◌, ◌≢◌, refl, sym, ap, ◌∙◌, false, Option, some, [], ◌∷◌,
  ◌++◌, ◌⊎◌, inl, inr, Text, arith, ltb, ◌==◌, length, take, Bool-cases, length-append, take-nil,
  take-cons,
}
use mocf.Playlist.Data.{FileTags}
use mocf.Playlist.Title.{
  copy_until, skip_until, literal, piece, Outcome, title, malformed, no_fuel, expand, do_title_expn,
  max_title_len, plain_title, build_title_with_format,
}
use mocf.Playlist.Title.Bounds.{Within, do_title_expn-Within}

-- `build_title_with_format` always returns: a title of at most 511 bytes, or the plain title, which is
-- not shortened, where the format is malformed.
pub build_title-bounded :
    (tags : Option FileTags) (fmt : Text)
    → (t : Text) × (build_title_with_format tags fmt ≡ some t)
      × ((length t ≤ 511)
          ⊎ ((t ≡ plain_title tags) × (do_title_expn max_title_len fmt tags ≡ malformed)))
unfolding build_title_with_format
build_title-bounded tags fmt =
    outcome (do_title_expn max_title_len fmt tags) refl
      (do_title_expn-Within max_title_len fmt tags)
  where
    outcome :
        (o : Outcome)
        → do_title_expn max_title_len fmt tags ≡ o
        → Within max_title_len o
        → (t : Text) × (build_title_with_format tags fmt ≡ some t)
          × ((length t ≤ 511)
              ⊎ ((t ≡ plain_title tags) × (do_title_expn max_title_len fmt tags ≡ malformed)))
    outcome (title t) e w = (t, rw (e, build_title_with_format), inl w)
    outcome malformed e w = (plain_title tags, rw (e, build_title_with_format), inr (refl, e))
    outcome no_fuel e w = elim w [ ]

-- A text with neither `%` nor a backslash.
abbrev pub IsPlain : Text → Type 0
IsPlain [] = Unit
IsPlain (c ∷ rest) = (c ≢ b'%') × (c ≢ b'\\') × IsPlain rest

piece-plain :
    (tags : Option FileTags) (c : ℕ) (rest : Text)
    → c ≢ b'%'
    → c ≢ b'\\'
    → piece tags false c rest ≡ literal (c ∷ []) false rest
unfolding piece
piece-plain tags c rest h k = ground arith

expand-plain :
    (fuel max_len : ℕ) (tags : Option FileTags) (dest fmt : Text)
    → IsPlain fmt
    → length fmt < fuel
    → length dest ≤ max_len
    → expand fuel max_len tags dest false fmt ≡ title (dest ++ take (max_len - length dest) fmt)
unfolding expand
expand-plain zero max_len tags dest fmt p lt le = absurd (omega arith)
expand-plain (suc fuel) max_len tags dest [] p lt le =
    ap title (
      sym (append-nil dest) ∙ ap (λ (r : Text). dest ++ r) (sym (take-nil (max_len - length dest))))
expand-plain (suc fuel) max_len tags dest (c ∷ rest) p lt le =
    elim (Bool-cases (ltb (length dest) max_len)) [
      | inr full ↦
          let none_left : max_len - length dest ≡ 0 = ground arith in
          rw (full, expand, none_left) (ap title (sym (append-nil dest)))
      | inl room ↦
          let n : ℕ = max_len - length dest in
          let enough : 0 < n = ground arith in
          let one : take n (c ∷ []) ≡ c ∷ [] =
            take-cons n c [] enough ∙ ap (λ (r : Text). c ∷ r) (take-nil (n - 1)) in
          let grown : length (dest ++ (c ∷ [])) ≡ length dest + 1 = length-append dest (c ∷ []) in
          let fewer : max_len - length (dest ++ (c ∷ [])) ≡ n - 1 = omega (arith, grown) in
          rw (room, expand, piece-plain tags c rest p.0 p.1, one)
            (expand-plain fuel max_len tags (dest ++ (c ∷ [])) rest p.2 (omega arith)
                (omega (arith, grown))
              ∙ ap title (
                  append_assoc dest (c ∷ []) (take (max_len - length (dest ++ (c ∷ []))) rest)
                  ∙ ap (λ (k : ℕ). dest ++ (c ∷ take k rest)) fewer
                  ∙ ap (λ (r : Text). dest ++ r) (sym (take-cons n c rest enough))))
    ]

-- A format with neither `%` nor a backslash is the title itself, cut at `max_len` bytes.
pub do_title_expn-plain :
    (max_len : ℕ) (tags : Option FileTags) (fmt : Text)
    → IsPlain fmt
    → do_title_expn max_len fmt tags ≡ title (take max_len fmt)
unfolding do_title_expn
do_title_expn-plain max_len tags fmt p =
    let whole : max_len - 0 ≡ max_len = omega arith in
    expand-plain (suc (length fmt)) max_len tags [] fmt p (omega arith) (omega arith)
    ∙ ap (λ (k : ℕ). title (take k fmt)) whole

-- The loops that copy and that skip an expression disagree: behind two backslashes, skipping stops at
-- the separator, and copying takes the separator for escaped and goes on behind it.
pub separator_after_backslashes :
    (stop : ℕ) (rest : Text)
    → stop ≢ b'\\'
    → (skip_until stop false (b'\\' ∷ b'\\' ∷ stop ∷ rest) ≡ some (stop ∷ rest))
      × (copy_until stop false (b'\\' ∷ b'\\' ∷ stop ∷ rest) []
          ≡ copy_until stop false rest (b'\\' ∷ b'\\' ∷ stop ∷ []))
unfolding skip_until copy_until
separator_after_backslashes stop rest ne =
    let no : (b'\\' == stop) ≡ false = ground arith in
    let no' : (stop == b'\\') ≡ false = ground arith in (ground arith, rw (no, no'))
