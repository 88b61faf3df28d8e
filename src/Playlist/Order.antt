-- ===== src/Playlist/Order.antt =====
-- library/playlist.cpp: the operations that move items: sorting, shuffling and swapping.
use mocf.Base.{
  ℕ, zero, suc, ◌+◌, ◌-◌, ◌%◌, Option, none, some, List, [], ◌∷◌, Text, if◌then◌else◌, leb, ◌==◌,
  assert, ◌>>=◌, ◌>>◌, get_elem?, set, length,
}
use mocf.Base.Int.{pos}
use mocf.SearchTree.{Tree, find, insert, erase}
use mocf.Playlist.Data.{Item, Plist, Host, tags_time}
use mocf.Playlist.Search.{plist_find_fname}
use mocf.Playlist.Edit.{count_time}

-- `plist_swap` on the items.
unfoldable pub swap_items : List Item → ℕ → ℕ → Option (List Item)
swap_items items a b = do
  x ← get_elem? items a
  y ← get_elem? items b
  some (if a == b then items else set (set items a y) b x)

-- The first loop of `plist_shuffle`, for the indices `i`, …, 1; `rand i` is what `rand()` returns in
-- the round of index `i`.
unfoldable pub shuffle_from : (ℕ → ℕ) → ℕ → List Item → Option (List Item)
shuffle_from rand zero items = some items
shuffle_from rand (suc i) items = do
  items' ← swap_items items (suc i) (rand (suc i) % (suc i + 1))
  shuffle_from rand i items'

-- `search_tree[items[i].file] = i` for each item, from index `i` on.
unfoldable pub index_from : Host → ℕ → List Item → Tree ℕ → Tree ℕ
index_from h i [] tree = tree
index_from h i (it ∷ its) tree = index_from h (i + 1) its (insert h.collation it.file i tree)

-- `plist_shuffle`
unfoldable pub plist_shuffle : Host → (ℕ → ℕ) → Plist → Option Plist
plist_shuffle h rand p = do
  items ← shuffle_from rand (length p.items - 1) p.items
  some (record p { items = items; search_tree = index_from h 0 items [] })

-- `plist_swap_first_fname` where the file is the item `i`, not the first one.
unfoldable pub swap_first : Host → Plist → Text → ℕ → Option Plist
swap_first h p fname i = do
  first ← get_elem? p.items 0
  items ← swap_items p.items 0 i
  head ← get_elem? items 0
  moved ← get_elem? items i
  let tree = erase h.collation first.file (erase h.collation fname p.search_tree)
  some (record p {
    items = items;
    search_tree = insert h.collation moved.file i (insert h.collation head.file 0 tree);
  })

-- `plist_swap_first_fname`
unfoldable pub plist_swap_first_fname : Host → Plist → Text → Option Plist
plist_swap_first_fname h p fname = do
  found ← plist_find_fname h p fname
  elim found [ none ↦ some p | some i ↦ if i == 0 then some p else swap_first h p fname i ]

-- `plist_swap_files` where the files are the items `i` and `j`: the two entries of the tree exchange
-- their indices.
unfoldable pub swap_found : Host → Plist → Text → Text → Option ℕ → Option ℕ → Option Plist
swap_found h p file1 file2 none _ = some p
swap_found h p file1 file2 (some i) none = some p
swap_found h p file1 file2 (some i) (some j) = do
  items ← swap_items p.items i j
  some (record p {
    items = items;
    search_tree = insert h.collation file2 i (insert h.collation file1 j p.search_tree);
  })

-- `plist_swap_files`
unfoldable pub plist_swap_files : Host → Plist → Text → Text → Option Plist
plist_swap_files h p file1 file2 =
    swap_found h p file1 file2 (find h.collation file1 p.search_tree)
      (find h.collation file2 p.search_tree)

-- An item whose content was moved away.
abbrev pub moved_from : Item → Item
moved_from it = record it { file = []; title_file = []; title_tags = []; tags = none }

-- The first loop of `plist_sort_fname`: the items that are not deleted, in the order of the tree.
unfoldable pub collect : Tree ℕ → List Item → Option (List Item)
collect [] items = some []
collect ((k, i) ∷ m) items = do
  it ← get_elem? items i
  rest ← collect m (if it.deleted then items else set items i (moved_from it))
  some (if it.deleted then rest else it ∷ rest)

-- The second loop: the counters over the sorted items.
unfoldable pub recount : List Item → Plist → Plist
recount [] p = p
recount (it ∷ its) p = recount its (count_time (tags_time it.tags) p)

-- `plist_sort_fname`; `none` if more items are collected than there are.
unfoldable pub plist_sort_fname : Host → Plist → Option Plist
plist_sort_fname h p = if p.not_deleted == 0 then some p else sorted
  where
    sorted : Option Plist
    sorted = do
      items ← collect p.search_tree p.items
      assert (leb (length items) (length p.items))
      some (
          recount items (record p {
            items = items;
            search_tree = index_from h 0 items [];
            total_time = pos 0;
            items_with_time = pos 0;
            not_deleted = length items;
          }))
