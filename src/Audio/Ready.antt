-- ===== src/Audio/Ready.antt =====
-- audio/audio.cpp: the places in the lists where `go_to_another_file` goes.
use mocf.Base.{
  ℕ, ◌+◌, ◌<◌, ◌≡◌, refl, ap, sym, ◌∙◌, true, false, Option, some, none, inl, inr, Text, is_empty,
  arith, get_elem?, length, Bool-cases, ltb, lt_of_get_elem?,
}
use mocf.Playlist.Data.{Item, Plist, Host}
use mocf.Playlist.Search.{plist_find_fname, plist_next, plist_prev, plist_last}
use mocf.Playlist.Edit.{plist_get_file}
use mocf.Playlist.Tally.{unnamed, tally, le-tally, IsCounted}
use mocf.Playlist.Index.{IsIndexed, Finds, plist_find_fname-Finds}
use mocf.Playlist.Walk.{
  IsLive, FirstFrom, LastBefore, LastResult, plist_next-FirstFrom, plist_prev-LastBefore,
  plist_last-LastResult,
}
use mocf.Playlist.Live.{live_item}
use mocf.Audio.Data.{Audio}
use mocf.Audio.Go.{find_current, from}

-- An index of the list, or -1.
abbrev pub IsInList : Plist → Option ℕ → Type 0
IsInList p none = Unit
IsInList p (some i) = i < length p.items

-- The index of an item with a file name, or -1.
abbrev pub IsPlayable : Plist → Option ℕ → Type 0
IsPlayable p none = Unit
IsPlayable p (some i) = is_empty (plist_get_file p i) ≡ false

module _ (p : Plist) (named : tally unnamed p.items ≡ 0) where
  pub live_named : (i : ℕ) → IsLive p.items i → is_empty (plist_get_file p i) ≡ false
  unfolding plist_get_file
  live_named i (it, g, present) =
      let none_here : unnamed it ≡ 0 = omega (arith, le-tally unnamed p.items i g, named) in
      let file : is_empty it.file ≡ false = ground (arith, none_here) in rw (g, is_empty) file

  next_from-IsPlayable : (n : ℕ) (r : Option ℕ) → FirstFrom p.items n r → IsPlayable p r
  next_from-IsPlayable n none f = tt
  next_from-IsPlayable n (some j) (_, l, _) = live_named j l

  pub plist_next-IsPlayable : (i : Option ℕ) → IsPlayable p (plist_next p i)
  plist_next-IsPlayable none =
      next_from-IsPlayable 0 (plist_next p none) (plist_next-FirstFrom p 0).0
  plist_next-IsPlayable (some i) =
      next_from-IsPlayable (i + 1) (plist_next p (some i)) (plist_next-FirstFrom p i).1

  prev_below-IsPlayable : (n : ℕ) (r : Option ℕ) → LastBefore p.items n r → IsPlayable p r
  prev_below-IsPlayable n none f = tt
  prev_below-IsPlayable n (some j) (_, l, _) = live_named j l

  pub plist_prev-IsPlayable :
      (i : Option ℕ) → IsInList p i → (r : Option ℕ) × (plist_prev p i ≡ some r) × IsPlayable p r
  plist_prev-IsPlayable none l = (none, (plist_prev-LastBefore p 0 (omega arith)).0, tt)
  plist_prev-IsPlayable (some i) l =
      let (r, e, b) = (plist_prev-LastBefore p i (omega arith)).1 in
      (r, e, prev_below-IsPlayable i r b)

  -- The last item of a list with a live one is live.
  pub plist_last-IsPlayable : IsCounted p → 0 < p.not_deleted → IsPlayable p (plist_last p)
  plist_last-IsPlayable v lt = by_cases (plist_last-LastResult p)
    where
      some_live : (i : ℕ) × (it : Item) × (get_elem? p.items i ≡ some it) × (it.deleted ≡ false)
      some_live = live_item p v lt

      by_cases : LastResult p.items (plist_last p) → IsPlayable p (plist_last p)
      by_cases (inl (e, r)) = rw r tt
      by_cases (inr (j, r, (_, inl l, _), _)) = rw r (live_named j l)
      by_cases (inr (j, r, (_, inr z, after), _)) = rw r (live_named j first)
        where
          first : IsLive p.items j
          first =
              let (i, it, g, present) = some_live in
              elim (Bool-cases (ltb j i)) [
                | inl l ↦ absurd (
                    let e : it.deleted ≡ true =
                      after i it (ground arith) (lt_of_get_elem? p.items i g) g in
                    let z : true ≡ false = sym e ∙ present in cc)
                | inr le ↦
                    let q : i ≡ j = ground (arith, z) in
                    (it, ap (λ (k : ℕ). get_elem? p.items k) (sym q) ∙ g, present)
              ]

found-IsInList :
    (h : Host) (p : Plist) (file : Text) (r : Option ℕ) → Finds h p file r → IsInList p r
found-IsInList h p file none f = tt
found-IsInList h p file (some i) (it, g, _, _) = lt_of_get_elem? p.items i g

-- The search for the current file passes its assertions.
pub find_current-IsInList :
    (h : Host) (p : Plist) (s : Audio)
    → IsIndexed h p
    → (pos : Option ℕ) × (find_current h p s ≡ some pos) × IsInList p pos
unfolding find_current
find_current-IsInList h p s v = by_search (plist_find_fname-Finds h p s.curr_playing_fname v)
  where
    by_search :
        (r : Option ℕ) × (plist_find_fname h p s.curr_playing_fname ≡ some r)
          × Finds h p s.curr_playing_fname r
        → (pos : Option ℕ) × (find_current h p s ≡ some pos) × IsInList p pos
    by_search (some i, e, f) =
        (some i, rw (e, find_current) refl, found-IsInList h p s.curr_playing_fname (some i) f)
    by_search (none, e, f) = elim (Bool-cases (is_empty s.before_queue_fname)) [
      | inl empty ↦ (none, rw (e, find_current, empty) refl, tt)
      | inr kept ↦
          let (r, e', f') = plist_find_fname-Finds h p s.before_queue_fname v in
          (r, rw (e, find_current, kept) e', found-IsInList h p s.before_queue_fname r f')
    ]

pub from-IsInList :
    (p : Plist) (s : Audio) (pos : Option ℕ) → IsInList p pos → IsInList p (from s pos)
from-IsInList p s pos l = elim (Bool-cases s.started_playing_in_queue) [
  | inl e ↦ rw e tt
  | inr e ↦ rw e l
]
