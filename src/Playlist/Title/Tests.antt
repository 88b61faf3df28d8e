-- ===== src/Playlist/Title/Tests.antt =====
-- library/playlist.cpp: titles made by the default format and by others.
use mocf.Base.{◌≡◌, ◌≤◌, refl, false, some, [], ◌∷◌, ◌⊎◌, Text, arith, length}
use mocf.Base.Int.{pos}
use mocf.Playlist.Data.{FileTags, no_tags}
use mocf.Playlist.Title.{
  title, malformed, do_title_expn, expand, build_title_with_format, max_title_len, copy_until,
  skip_until, piece, percent, ternary, choose, next_byte, title_expn_subs, to_string, from_ternary,
  from_value,
}
use mocf.Playlist.Title.Bounds.{Within, do_title_expn-Within}
use mocf.Playlist.Title.Titles.{build_title-bounded, separator_after_backslashes}

abbrev tagged : FileTags
tagged = record no_tags { title = b'T' ∷ []; track = pos 12 }

-- `%(n:%n :)%t`
abbrev format : Text
format = b'%' ∷ b'(' ∷ b'n' ∷ b':' ∷ b'%' ∷ b'n' ∷ b' ' ∷ b':' ∷ b')' ∷ b'%' ∷ b't' ∷ []

-- `%x`
abbrev unknown : Text
unknown = b'%' ∷ b'x' ∷ []

numbered : do_title_expn 511 format (some tagged) ≡ title (b'1' ∷ b'2' ∷ b' ' ∷ b'T' ∷ [])
unfolding do_title_expn expand piece percent ternary choose next_byte title_expn_subs to_string
    from_ternary from_value copy_until skip_until
numbered = refl

unnumbered : do_title_expn 511 format (some no_tags) ≡ title []
unfolding do_title_expn expand piece percent ternary choose next_byte title_expn_subs from_ternary
    from_value copy_until skip_until
unnumbered = refl

refused : build_title_with_format (some tagged) unknown ≡ some (b'T' ∷ [])
unfolding build_title_with_format do_title_expn expand piece percent title_expn_subs from_value
refused = refl

do_title_expn-Within_example : Within 3 (do_title_expn 3 format (some tagged))
do_title_expn-Within_example = do_title_expn-Within 3 format (some tagged)

build_title-bounded_example :
    (t : Text) × (build_title_with_format (some tagged) unknown ≡ some t)
    × ((length t ≤ 511)
        ⊎ ((t ≡ b'T' ∷ []) × (do_title_expn max_title_len unknown (some tagged) ≡ malformed)))
build_title-bounded_example = build_title-bounded (some tagged) unknown

separator_after_backslashes_example :
    (skip_until b':' false (b'\\' ∷ b'\\' ∷ b':' ∷ b')' ∷ []) ≡ some (b':' ∷ b')' ∷ []))
    × (copy_until b':' false (b'\\' ∷ b'\\' ∷ b':' ∷ b')' ∷ []) []
        ≡ copy_until b':' false (b')' ∷ []) (b'\\' ∷ b'\\' ∷ b':' ∷ []))
separator_after_backslashes_example =
    separator_after_backslashes b':' (b')' ∷ []) (λ e. absurd (omega arith))
