-- ===== src/Menu/Data.antt =====
-- ui/curses/menu.h: the items, the menu with its window, and the pointers into it.
use mocf.Base.{
  ℕ, ◌+◌, Bool, false, Option, none, some, List, [], ◌∷◌, ◌++◌, Text, if◌then◌else◌, ltb, ◌==◌,
  length, assert, ◌>>◌,
}
use mocf.Base.Int.{ℤ, pos}
use mocf.SearchTree.{Tree, find, insert}
use mocf.SearchTree.Bytewise.{bytewise}
use mocf.Playlist.Data.{FileType, minus_one}

pub data MenuAlign : Type 0 where
  align_right align_left : MenuAlign

-- `struct menu_item`; `addr` is its address, which the search tree points to.
pub record MenuItem : Type 0 where
  pub addr : ℕ
  pub title : Text
  pub align : MenuAlign
  pub num : ℕ
  pub attr_normal : ℤ
  pub attr_sel : ℤ
  pub attr_marked : ℤ
  pub attr_sel_marked : ℤ
  pub file : Text
  pub kind : FileType
  pub time : Text
  pub format : Text
  pub format_attr : ℤ
  pub queue_pos : ℤ

-- `struct menu` without its curses window; `next_addr` is above the addresses given out.
pub record Menu : Type 0 where
  pub items : List MenuItem
  pub next_addr : ℕ
  pub top_idx : ℤ
  pub selected_idx : ℤ
  pub marked_idx : ℤ
  pub posx : ℕ
  pub posy : ℕ
  pub width : ℕ
  pub height : ℕ
  pub show_time : ℤ
  pub show_format : Bool
  pub info_attr_normal : ℤ
  pub info_attr_sel : ℤ
  pub info_attr_marked : ℤ
  pub info_attr_sel_marked : ℤ
  pub number_items : ℤ
  pub search_tree : Tree ℕ

-- `struct menu_state`
pub record MenuState : Type 0 where
  pub top_item : ℤ
  pub selected_item : ℤ

-- `A_NORMAL`
abbrev pub a_normal : ℤ
a_normal = pos 0

abbrev pub new_menu : ℕ → ℕ → ℕ → ℕ → Menu
new_menu posx posy width height = record {
  items = [];
  next_addr = 0;
  top_idx = pos 0;
  selected_idx = pos 0;
  marked_idx = minus_one;
  posx = posx;
  posy = posy;
  width = width;
  height = height;
  show_time = pos 0;
  show_format = false;
  info_attr_normal = a_normal;
  info_attr_sel = a_normal;
  info_attr_marked = a_normal;
  info_attr_sel_marked = a_normal;
  number_items = pos 0;
  search_tree = [];
}

-- `menu_new`, with its assertions on the size.
unfoldable pub menu_new : ℕ → ℕ → ℕ → ℕ → Option Menu
menu_new posx posy width height = do
  assert (ltb 0 width)
  assert (ltb 0 height)
  some (new_menu posx posy width height)

-- `(int)menu->items.size()`
abbrev pub size : Menu → ℤ
size m = pos (length m.items)

-- The item at an address; none where the pointer dangles.
abbrev pub item_at : ℕ → List MenuItem → Option MenuItem
item_at a [] = none
item_at a (mi ∷ rest) = if mi.addr == a then some mi else item_at a rest

-- `menu_find`: the address in the search tree.
unfoldable pub menu_find : Menu → Text → Option ℕ
menu_find m fname = find bytewise fname m.search_tree

-- `file ? file : ""`
abbrev pub file_name : Option Text → Text
file_name none = []
file_name (some f) = f

abbrev pub new_menu_item : Menu → Text → FileType → Option Text → MenuItem
new_menu_item m title kind file = record {
  addr = m.next_addr;
  title = title;
  align = MenuAlign.align_left;
  num = length m.items;
  attr_normal = a_normal;
  attr_sel = a_normal;
  attr_marked = a_normal;
  attr_sel_marked = a_normal;
  file = file_name file;
  kind = kind;
  time = [];
  format = [];
  format_attr = pos 0;
  queue_pos = pos 0;
}

-- `menu_add`: the menu and the address of the new item.
unfoldable pub menu_add : Menu → Text → FileType → Option Text → Menu × ℕ
menu_add m title kind file = (
  record m {
    items = m.items ++ (new_menu_item m title kind file ∷ []);
    next_addr = m.next_addr + 1;
    search_tree = elim file [
      | none ↦ m.search_tree
      | some f ↦ insert bytewise f m.next_addr m.search_tree
    ];
  },
  m.next_addr,
)
