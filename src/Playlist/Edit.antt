-- ===== src/Playlist/Edit.antt =====
-- library/playlist.cpp: the operations that add, delete and change items. Indices are below the
-- number of items, or the code's assertion (or its read past the items) gives `none`.
use mocf.Base.{
  ℕ, zero, suc, ◌+◌, ◌-◌, Bool, true, false, not, Option, none, some, List, [], ◌∷◌, ◌++◌, Text,
  is_empty, if◌then◌else◌, ltb, assert, ◌>>=◌, ◌>>◌, get_elem?, set, length,
}
use mathlib.Core.List
use mocf.Base.Int.{ℤ, pos, ◌+ℤ◌, ◌-ℤ◌, eqb_ℤ}
use mocf.SearchTree.{insert, erase}
use mocf.Playlist.Data.{
  FileTags, no_tags, FileType, other, Item, Plist, Host, minus_one, empty_plist, tags_time,
}
use mocf.Playlist.Search.{plist_find_fname}

abbrev pub name_of : Option Text → Text
name_of none = []
name_of (some f) = f

-- The item that `plist_add` makes for a file name, which may be null.
abbrev pub new_item : Host → Option Text → Item
new_item h name = record {
  file = name_of name;
  kind = elim name [ none ↦ other | some f ↦ h.file_type f ];
  title_file = [];
  title_tags = [];
  tags = none;
  deleted = false;
  mtime = elim name [ none ↦ minus_one | some f ↦ h.get_mtime f ];
  queue_pos = pos 0;
}

-- `plist_add`: the playlist and the index of the new item.
unfoldable pub plist_add : Host → Plist → Option Text → Plist × ℕ
plist_add h p name = (
  record p {
    items = p.items ++ (new_item h name ∷ []);
    search_tree = elim name [
      | none ↦ p.search_tree
      | some f ↦ insert h.collation f (length p.items) p.search_tree
    ];
    not_deleted = p.not_deleted + 1;
  },
  length p.items,
)

-- `plist_item_copy`
unfoldable pub plist_item_copy : Item → Item → Item
plist_item_copy dst src = record dst {
  file = src.file;
  kind = src.kind;
  title_file = src.title_file;
  title_tags = src.title_tags;
  mtime = src.mtime;
  queue_pos = src.queue_pos;
  tags = src.tags;
  deleted = src.deleted;
}

-- `total_time += time; items_with_time++;` where the time is known.
abbrev pub count_time : ℤ → Plist → Plist
count_time time p = record p {
  total_time = if eqb_ℤ time minus_one then p.total_time else p.total_time +ℤ time;
  items_with_time = if eqb_ℤ time minus_one then p.items_with_time else p.items_with_time +ℤ pos 1;
}

-- `total_time -= time; items_with_time--;` where the time is known.
abbrev pub uncount_time : ℤ → Plist → Plist
uncount_time time p = record p {
  total_time = if eqb_ℤ time minus_one then p.total_time else p.total_time -ℤ time;
  items_with_time = if eqb_ℤ time minus_one then p.items_with_time else p.items_with_time -ℤ pos 1;
}

-- `plist_add_from_item`
unfoldable pub plist_add_from_item : Host → Plist → Item → Plist × ℕ
unfolding plist_add plist_item_copy
plist_add_from_item h p item =
    let (p', num) = plist_add h p (some item.file) in
    (
      count_time (tags_time item.tags) (record p' {
        items = set p'.items num (plist_item_copy (new_item h (some item.file)) item);
      }),
      num,
    )

-- What `plist_delete` does to the item `num` and the counters.
abbrev pub deleted_at : Plist → ℕ → Item → Plist
deleted_at p num item = record (uncount_time (tags_time item.tags) p) {
  items = set p.items num (record item { deleted = true });
  not_deleted = p.not_deleted - 1;
}

-- `plist_delete`
unfoldable pub plist_delete : Plist → ℕ → Option Plist
plist_delete p num = do
  item ← get_elem? p.items num
  assert (not item.deleted)
  assert (ltb 0 p.not_deleted)
  some (deleted_at p num item)

-- `plist_clear`
unfoldable pub plist_clear : Plist → Plist
plist_clear p = empty_plist

-- `plist_count`
abbrev pub plist_count : Plist → ℕ
plist_count p = p.not_deleted

-- `plist_set_title_tags` and `plist_set_title_file`
unfoldable pub plist_set_title_tags : Plist → ℕ → Option Text → Option Plist
plist_set_title_tags p num title = do
  item ← get_elem? p.items num
  some (record p { items = set p.items num (record item { title_tags = name_of title }) })

unfoldable pub plist_set_title_file : Plist → ℕ → Option Text → Option Plist
plist_set_title_file p num title = do
  item ← get_elem? p.items num
  some (record p { items = set p.items num (record item { title_file = name_of title }) })

-- `plist_set_file`
unfoldable pub plist_set_file : Host → Plist → ℕ → Text → Option Plist
plist_set_file h p num file = do
  item ← get_elem? p.items num
  let tree = if is_empty item.file then p.search_tree else erase h.collation item.file p.search_tree
  some (record p {
    items =
        set p.items num
          (record item { file = file; kind = h.file_type file; mtime = h.get_mtime file });
    search_tree = insert h.collation file num tree;
  })

abbrev pub tags_or_new : Option FileTags → FileTags
tags_or_new none = no_tags
tags_or_new (some t) = t

-- The item and the counters after the item `num` gets other tags.
abbrev pub retagged : Plist → ℕ → Item → FileTags → Plist
retagged p num item tags = record (count_time tags.time (uncount_time (tags_time item.tags) p)) {
  items = set p.items num (record item { tags = some tags });
}

-- `plist_set_item_time`
unfoldable pub plist_set_item_time : Plist → ℕ → ℤ → Option Plist
plist_set_item_time p num time = do
  item ← get_elem? p.items num
  some (retagged p num item (record (tags_or_new item.tags) { time = time; filled_time = true }))

-- `get_item_time`
unfoldable pub get_item_time : Plist → ℕ → Option ℤ
get_item_time p i = do item ← get_elem? p.items i; some (tags_time item.tags)

-- `plist_total_time`: the total, and whether all the files have their times.
unfoldable pub plist_total_time : Plist → ℤ × Bool
plist_total_time p = (p.total_time, eqb_ℤ (pos p.not_deleted) p.items_with_time)

-- `plist_set_tags`
unfoldable pub plist_set_tags : Plist → ℕ → FileTags → Option Plist
plist_set_tags p num tags = do item ← get_elem? p.items num; some (retagged p num item tags)

-- `plist_get_tags`
unfoldable pub plist_get_tags : Plist → ℕ → Option (Option FileTags)
plist_get_tags p num = do item ← get_elem? p.items num; some item.tags

-- `plist_file_type`
unfoldable pub plist_file_type : Plist → ℕ → Option FileType
plist_file_type p num = do item ← get_elem? p.items num; some item.kind

-- `plist_get_file`
unfoldable pub plist_get_file : Plist → ℕ → Text
plist_get_file p i = elim (get_elem? p.items i) [ none ↦ [] | some item ↦ item.file ]

-- The loop of `plist_discard_tags`.
abbrev pub discard_item : Item → Item
discard_item item = if item.deleted then item else record item { tags = none }

unfoldable pub plist_discard_tags : Plist → Plist
plist_discard_tags p = record p {
  items = List.map discard_item p.items;
  items_with_time = pos 0;
  total_time = pos 0;
}

-- One round of the loop of `plist_cat`.
unfoldable pub cat_item : Host → Plist → Item → Option Plist
cat_item h a item = if item.deleted then some a else do
  assert (not (is_empty item.file))
  found ← plist_find_fname h a item.file
  some (elim found [ none ↦ (plist_add_from_item h a item).0 | some i ↦ a ])

unfoldable pub cat_items : Host → Plist → List Item → Option Plist
cat_items h a [] = some a
cat_items h a (item ∷ rest) = do a' ← cat_item h a item; cat_items h a' rest

-- `plist_cat`; `b` is another playlist than `a`.
unfoldable pub plist_cat : Host → Plist → Plist → Option Plist
plist_cat h a b = cat_items h a b.items

-- One round of the loop of `plist_remove_common_items`.
unfoldable pub remove_common : Host → Plist → Plist → ℕ → Option Plist
remove_common h a b i = do
  item ← get_elem? a.items i
  if item.deleted then some a else do
    assert (not (is_empty item.file))
    found ← plist_find_fname h b item.file
    elim found [ none ↦ some a | some j ↦ plist_delete a i ]

-- `rounds` rounds of the loop, from index `i` on.
unfoldable pub remove_common_from : Host → Plist → Plist → ℕ → ℕ → Option Plist
remove_common_from h a b i zero = some a
remove_common_from h a b i (suc rounds) = do
  a' ← remove_common h a b i
  remove_common_from h a' b (i + 1) rounds

-- `plist_remove_common_items`; `b` is another playlist than `a`.
unfoldable pub plist_remove_common_items : Host → Plist → Plist → Option Plist
plist_remove_common_items h a b = remove_common_from h a b 0 (length a.items)
