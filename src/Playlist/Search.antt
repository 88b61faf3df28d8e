-- ===== src/Playlist/Search.antt =====
-- library/playlist.cpp: finding items and walking over those that are not deleted. `none` of an
-- index is the code's -1.
use mocf.Base.{
  ℕ, zero, suc, ◌+◌, ◌-◌, Bool, not, ◌&&◌, Option, none, some, List, [], ◌∷◌, Text, is_empty,
  text_eq, if◌then◌else◌, ltb, assert, ◌>>=◌, ◌>>◌, get_elem?, length, drop, take,
}
use mocf.SearchTree.{find}
use mocf.Playlist.Data.{Item, Plist, Host, plist_deleted}

-- `plist_find_fname`. The outer `none` is the assertion of `plist_deleted`.
unfoldable pub plist_find_fname : Host → Plist → Text → Option (Option ℕ)
plist_find_fname h p file = elim (find h.collation file p.search_tree) [
  | none ↦ some none
  | some i ↦ do deleted ← plist_deleted p i; some (if deleted then none else some i)
]

-- `!file.empty() && file == …`
abbrev pub has_name : Text → Item → Bool
has_name file it = not (is_empty it.file) && text_eq it.file file

-- `item` was found so far; `i` takes its place if it is none or deleted.
unfoldable pub chosen : Plist → ℕ → Option ℕ → Option (Option ℕ)
chosen p i none = some (some i)
chosen p i (some j) = do deleted ← plist_deleted p j; some (if deleted then some i else some j)

-- One round of the loop of `plist_find_del_fname`.
unfoldable pub better_item : Plist → Text → ℕ → Item → Option ℕ → Option (Option ℕ)
better_item p file i it item = if has_name file it then chosen p i item else some item

unfoldable pub find_del_from : Plist → Text → ℕ → List Item → Option ℕ → Option (Option ℕ)
find_del_from p file i [] item = some item
find_del_from p file i (it ∷ its) item = do
  item' ← better_item p file i it item
  find_del_from p file (i + 1) its item'

-- `plist_find_del_fname`
unfoldable pub plist_find_del_fname : Plist → Text → Option (Option ℕ)
plist_find_del_fname p file = find_del_from p file 0 p.items none

-- The loop of `plist_next` over the items from index `i` on.
unfoldable pub next_from : List Item → ℕ → Option ℕ
next_from [] i = none
next_from (it ∷ its) i = let rest = next_from its (i + 1) in if it.deleted then rest else some i

-- `plist_next`; `num` is -1 when it is `none`.
unfoldable pub plist_next : Plist → Option ℕ → Option ℕ
plist_next p none = next_from p.items 0
plist_next p (some num) = next_from (drop (num + 1) p.items) (num + 1)

-- The loop of `plist_prev` over the indices below `n`, the highest first.
unfoldable pub prev_below : List Item → ℕ → Option (Option ℕ)
prev_below items zero = some none
prev_below items (suc i) =
    let rest = prev_below items i in
    do it ← get_elem? items i; if it.deleted then rest else some (some i)

-- `plist_prev`; the outer `none` is a read past the items.
unfoldable pub plist_prev : Plist → Option ℕ → Option (Option ℕ)
plist_prev p none = some none
plist_prev p (some num) = prev_below p.items num

-- The loop of `plist_last` at index `i`.
unfoldable pub last_from : List Item → ℕ → Option ℕ
last_from items zero = some 0
last_from items (suc i) =
    let rest = last_from items i in
    elim (get_elem? items (suc i)) [
      | none ↦ none
      | some it ↦ if it.deleted then rest else some (suc i)
    ]

-- `plist_last`
unfoldable pub plist_last : Plist → Option ℕ
plist_last p = if is_empty p.items then none else last_from p.items (length p.items - 1)

-- The loop of `plist_get_next_dead_entry`: the file, and the new `*last_index`.
dead_from : Host → List Item → ℕ → Option (Text × ℕ)
dead_from h [] i = none
dead_from h (it ∷ its) i =
    let rest = dead_from h its (i + 1) in
    if not (is_empty it.file) && (not it.deleted && not (h.can_read_file it.file))
    then some (it.file, i + 1)
    else rest

-- `plist_get_next_dead_entry`
unfoldable pub plist_get_next_dead_entry : Host → Plist → ℕ → Option (Text × ℕ)
unfolding dead_from
plist_get_next_dead_entry h p last_index = dead_from h (drop last_index p.items) last_index

-- The loop of `plist_get_position` over the items before `num`.
position_loop : List Item → ℕ → ℕ
position_loop [] n = n
position_loop (it ∷ its) n = position_loop its (if it.deleted then n else n + 1)

-- `plist_get_position`
unfoldable pub plist_get_position : Plist → ℕ → Option ℕ
unfolding position_loop
plist_get_position p num = do
  assert (ltb num (length p.items))
  some (position_loop (take num p.items) 1)
