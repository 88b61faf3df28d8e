-- ===== src/Menu/Items.antt =====
-- ui/curses/menu.cpp: the operations that delete, swap, mark and filter items.
use mocf.Base.{
  ℕ, suc, Bool, not, Option, none, some, List, [], ◌∷◌, Text, is_empty, if◌then◌else◌, length,
  get_elem?, set, delete_at, ◌>>=◌, ◌>>◌, assert, ltb, ◌==◌,
}
use mocf.Base.Int.{ℤ, pos, negsuc, ◌-ℤ◌, ltb_ℤ, eqb_ℤ}
use mocf.SearchTree.{erase}
use mocf.SearchTree.Bytewise.{bytewise}
use mocf.Playlist.Data.{minus_one}
use mocf.Menu.Data.{MenuItem, Menu, size, item_at, menu_find, menu_add, menu_new}
use mocf.Menu.Settings.{
  menu_set_show_time, menu_set_show_format, menu_set_info_attr_normal, menu_set_info_attr_sel,
  menu_set_info_attr_marked, menu_set_info_attr_sel_marked,
}
use mocf.Menu.Cursor.{raised, last_item, menu_setcurritem}

-- `menu_renumber_items`, from the number `i` on.
unfoldable pub menu_renumber_items : ℕ → List MenuItem → List MenuItem
menu_renumber_items i [] = []
menu_renumber_items i (mi ∷ rest) = record mi { num = i } ∷ menu_renumber_items (suc i) rest

-- Where `marked_idx` goes when the item `idx` is deleted.
abbrev pub unmarked : ℕ → ℤ → ℤ
unmarked idx n =
    if eqb_ℤ n (pos idx) then minus_one else if ltb_ℤ (pos idx) n then n -ℤ pos 1 else n

-- Where `selected_idx` and `top_idx` go; `m` has its items already without the deleted one.
abbrev pub closed_up : Menu → ℕ → ℤ → ℤ
closed_up m idx n =
    if eqb_ℤ n (pos idx)
    then if ltb_ℤ n (size m) then n else last_item m
    else if ltb_ℤ (pos idx) n
    then n -ℤ pos 1
    else n

-- The menu without the item in its tree and its items.
abbrev pub without_item : Menu → MenuItem → Menu
without_item m mi = record m {
  search_tree = if is_empty mi.file then m.search_tree else erase bytewise mi.file m.search_tree;
  items = menu_renumber_items 0 (delete_at m.items mi.num);
}

abbrev pub moved_up : Menu → MenuItem → Menu
moved_up m mi = record (without_item m mi) {
  marked_idx = unmarked mi.num m.marked_idx;
  selected_idx = closed_up (without_item m mi) mi.num m.selected_idx;
  top_idx = raised (closed_up (without_item m mi) mi.num m.top_idx);
}

-- `menu_delete`; none where the erased position is out of range.
unfoldable pub menu_delete : Menu → MenuItem → Option Menu
menu_delete m mi = do assert (ltb mi.num (length m.items)); some (moved_up m mi)

-- `menu_del_item`; the assertion is that the file is found.
unfoldable pub menu_del_item : Menu → Text → Option Menu
menu_del_item m fname = do a ← menu_find m fname; mi ← item_at a m.items; menu_delete m mi

-- Where `selected_idx` and `marked_idx` go when two items change places.
abbrev pub exchanged : ℕ → ℕ → ℤ → ℤ
exchanged idx1 idx2 n =
    if eqb_ℤ n (pos idx1) then pos idx2 else if eqb_ℤ n (pos idx2) then pos idx1 else n

-- `menu_items_swap`; none where the items are one, or a number is out of range.
unfoldable pub menu_items_swap : Menu → MenuItem → MenuItem → Option Menu
menu_items_swap m mi1 mi2 = do
  assert (not (mi1.addr == mi2.addr))
  x ← get_elem? m.items mi1.num
  y ← get_elem? m.items mi2.num
  some (record m {
    items =
        set (set m.items mi1.num (record y { num = mi1.num })) mi2.num (record x { num = mi2.num });
    selected_idx = exchanged mi1.num mi2.num m.selected_idx;
    marked_idx = exchanged mi1.num mi2.num m.marked_idx;
  })

-- `items[n]`
abbrev pub at_index : Menu → ℤ → Option MenuItem
at_index m (pos i) = get_elem? m.items i
at_index m (negsuc k) = none

-- The body of `menu_swap_items` for two different items.
unfoldable pub swap_different : Menu → ℕ → ℕ → Option Menu
swap_different m a1 a2 = do
  mi1 ← item_at a1 m.items
  mi2 ← item_at a2 m.items
  m' ← menu_items_swap m mi1 mi2
  selected ← at_index m' m'.selected_idx
  some (menu_setcurritem m' selected)

-- `menu_swap_items`
unfoldable pub menu_swap_items : Menu → Text → Text → Option Menu
menu_swap_items m file1 file2 = elim (menu_find m file1) [
  | none ↦ some m
  | some a1 ↦ elim (menu_find m file2) [
    | none ↦ some m
    | some a2 ↦ if a1 == a2 then some m else swap_different m a1 a2
  ]
]

-- `menu_mark_item` and `menu_unmark_item`
unfoldable pub menu_mark_item : Menu → Text → Option Menu
menu_mark_item m file = elim (menu_find m file) [
  | none ↦ some m
  | some a ↦ do mi ← item_at a m.items; some (record m { marked_idx = pos mi.num })
]

unfoldable pub menu_unmark_item : Menu → Menu
menu_unmark_item m = record m { marked_idx = minus_one }

-- What `menu_add_from_item` copies into the new item.
abbrev pub copied_into : MenuItem → MenuItem → MenuItem
copied_into dst mi = record dst {
  attr_normal = mi.attr_normal;
  attr_sel = mi.attr_sel;
  attr_marked = mi.attr_marked;
  attr_sel_marked = mi.attr_sel_marked;
  time = mi.time;
  format = mi.format;
  format_attr = mi.format_attr;
}

-- A change of the item at an address, through its pointer.
abbrev pub change_item : ℕ → (MenuItem → MenuItem) → List MenuItem → List MenuItem
change_item a f [] = []
change_item a f (mi ∷ rest) = if mi.addr == a then f mi ∷ rest else mi ∷ change_item a f rest

-- `menu_add_from_item`
unfoldable pub menu_add_from_item : Menu → MenuItem → Menu
menu_add_from_item m mi =
    let (m', a) = menu_add m mi.title mi.kind (if is_empty mi.file then none else some mi.file) in
    record m' { items = change_item a (λ dst. copied_into dst mi) m'.items }

module _ (strcasestr : Text → Text → Bool) where
  -- The loop of `menu_filter_pattern`.
  unfoldable pub filter_items : Text → List MenuItem → Menu → Menu
  filter_items pattern [] m = m
  filter_items pattern (mi ∷ rest) m =
      filter_items pattern rest (if strcasestr mi.title pattern then menu_add_from_item m mi else m)

  -- `menu_filter_pattern`; `strcasestr` is the C library's, as a test.
  unfoldable pub menu_filter_pattern : Menu → Text → Option Menu
  menu_filter_pattern m pattern = do
    m' ← menu_new m.posx m.posy m.width m.height
    let shown : Menu = menu_set_show_format (menu_set_show_time m' m.show_time) m.show_format
    let plain : Menu =
        menu_set_info_attr_sel (menu_set_info_attr_normal shown m.info_attr_normal) m.info_attr_sel
    let marked : Menu =
        menu_set_info_attr_sel_marked (menu_set_info_attr_marked plain m.info_attr_marked)
          m.info_attr_sel_marked
    let filtered : Menu = filter_items pattern m.items marked
    elim (at_index m m.marked_idx) [
      | none ↦ some filtered
      | some mi ↦ menu_mark_item filtered mi.file
    ]
