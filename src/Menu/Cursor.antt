-- ===== src/Menu/Cursor.antt =====
-- ui/curses/menu.cpp: the requests that move the cursor, and the window that follows it.
use mocf.Base.{
  ℕ, ◌/◌, Bool, not, ◌&&◌, ◌||◌, Option, none, some, List, [], ◌∷◌, Text, is_empty, if◌then◌else◌,
  text_eq, get_elem?, drop, ◌>>=◌, ◌>>◌, assert, ltb,
}
use mocf.Base.Int.{ℤ, pos, negsuc, ◌+ℤ◌, ◌-ℤ◌, ltb_ℤ}
use mocf.Menu.Data.{MenuItem, Menu, MenuState, size, item_at, menu_find}

pub data MenuRequest : Type 0 where
  req_up req_down req_pgup req_pgdown req_top req_bottom : MenuRequest

-- `if (top > (int)items.size() - height) top = items.size() - height;`
abbrev pub lowered : Menu → ℤ → ℤ
lowered m top = if ltb_ℤ (size m -ℤ pos m.height) top then size m -ℤ pos m.height else top

-- `if (top < 0) top = 0;`
abbrev pub raised : ℤ → ℤ
raised top = if ltb_ℤ top (pos 0) then pos 0 else top

-- `selected_idx >= top_idx + height`
abbrev pub below_window : Menu → ℤ → Bool
below_window m selected = not (ltb_ℤ selected (m.top_idx +ℤ pos m.height))

-- The six branches of `menu_driver`, before `top_idx` is raised to 0.
unfoldable pub down : Menu → Menu
down m =
    if ltb_ℤ m.selected_idx (size m -ℤ pos 1)
    then record m {
      selected_idx = m.selected_idx +ℤ pos 1;
      top_idx =
          if below_window m (m.selected_idx +ℤ pos 1)
          then lowered m (m.selected_idx +ℤ pos 1 -ℤ pos (m.height / 2))
          else m.top_idx;
    }
    else m

unfoldable pub up : Menu → Menu
up m =
    if ltb_ℤ (pos 0) m.selected_idx
    then record m {
      selected_idx = m.selected_idx -ℤ pos 1;
      top_idx =
          if ltb_ℤ (m.selected_idx -ℤ pos 1) m.top_idx
          then m.selected_idx -ℤ pos 1 -ℤ pos (m.height / 2)
          else m.top_idx;
    }
    else m

unfoldable pub page_down : Menu → Menu
page_down m =
    if ltb_ℤ m.selected_idx (size m -ℤ pos 1)
    then if ltb_ℤ (m.selected_idx +ℤ pos m.height -ℤ pos 1) (size m -ℤ pos 1)
      then record m {
        selected_idx = m.selected_idx +ℤ (pos m.height -ℤ pos 1);
        top_idx = lowered m (m.top_idx +ℤ (pos m.height -ℤ pos 1));
      }
      else record m { selected_idx = size m -ℤ pos 1; top_idx = size m -ℤ pos m.height }
    else m

unfoldable pub page_up : Menu → Menu
page_up m =
    if ltb_ℤ (pos 0) m.selected_idx
    then if ltb_ℤ (pos 0) (m.selected_idx -ℤ pos m.height +ℤ pos 1)
      then record m {
        selected_idx = m.selected_idx -ℤ (pos m.height -ℤ pos 1);
        top_idx = m.top_idx -ℤ (pos m.height -ℤ pos 1);
      }
      else record m { selected_idx = pos 0; top_idx = pos 0 }
    else m

unfoldable pub to_top : Menu → Menu
to_top m = record m { selected_idx = pos 0; top_idx = pos 0 }

unfoldable pub to_bottom : Menu → Menu
to_bottom m = record m {
  selected_idx = size m -ℤ pos 1;
  top_idx = size m -ℤ pos 1 -ℤ pos m.height +ℤ pos 1;
}

unfoldable pub moved : MenuRequest → Menu → Menu
moved req_up m = up m
moved req_down m = down m
moved req_pgup m = page_up m
moved req_pgdown m = page_down m
moved req_top m = to_top m
moved req_bottom m = to_bottom m

-- `menu_driver`
unfoldable pub menu_driver : Menu → MenuRequest → Menu
menu_driver m req =
    if is_empty m.items then m else record (moved req m) { top_idx = raised (moved req m).top_idx }

-- `menu_curritem`, by value
unfoldable pub menu_curritem : Menu → Option MenuItem
menu_curritem m = elim m.selected_idx [ negsuc k ↦ none | pos i ↦ get_elem? m.items i ]

-- `num < top_idx || num >= top_idx + height`
abbrev pub outside : Menu → ℤ → Bool
outside m num = ltb_ℤ num m.top_idx || below_window m num

-- `menu_is_visible`
unfoldable pub menu_is_visible : Menu → MenuItem → Bool
menu_is_visible m mi = not (ltb_ℤ (pos mi.num) m.top_idx) && not (below_window m (pos mi.num))

-- The first half of `make_item_visible`: the window moves to the item.
abbrev pub window_to : Menu → MenuItem → Menu
window_to m mi = record m {
  top_idx =
      if outside m (pos mi.num)
      then raised (lowered m (pos mi.num -ℤ pos (m.height / 2)))
      else m.top_idx;
}

-- `make_item_visible`
unfoldable pub make_item_visible : Menu → MenuItem → Menu
make_item_visible m mi =
    let m' : Menu = window_to m mi in
    record m' { selected_idx = if outside m' m.selected_idx then pos mi.num else m.selected_idx }

-- `menu_setcurritem`
unfoldable pub menu_setcurritem : Menu → MenuItem → Menu
menu_setcurritem m mi = make_item_visible (record m { selected_idx = pos mi.num }) mi

-- The item of this title, from `items` on.
abbrev pub titled : Text → List MenuItem → Option MenuItem
titled title [] = none
titled title (mi ∷ rest) = if text_eq mi.title title then some mi else titled title rest

-- `menu_setcurritem_title`: the loop begins at the first visible item; a negative `top_idx` would
-- read in front of the items.
unfoldable pub menu_setcurritem_title : Menu → Text → Option Menu
menu_setcurritem_title m title = elim m.top_idx [
  | negsuc k ↦ none
  | pos top ↦
      some (elim (titled title (drop top m.items)) [ none ↦ m | some mi ↦ menu_setcurritem m mi ])
]

-- `n < 0 || n >= (int)items.size()`, and the index of the last item.
abbrev pub out_of_range : Menu → ℤ → Bool
out_of_range m n = ltb_ℤ n (pos 0) || not (ltb_ℤ n (size m))

abbrev pub last_item : Menu → ℤ
last_item m = if is_empty m.items then pos 0 else size m -ℤ pos 1

-- `menu_set_state`
unfoldable pub menu_set_state : Menu → MenuState → Menu
menu_set_state m st = record m {
  selected_idx = if out_of_range m st.selected_item then last_item m else st.selected_item;
  top_idx =
      if out_of_range m st.top_item
      then raised (if is_empty m.items then pos 0 else size m -ℤ pos m.height)
      else st.top_item;
}

-- `menu_get_state`
unfoldable pub menu_get_state : Menu → MenuState
menu_get_state m = record { top_item = m.top_idx; selected_item = m.selected_idx }

-- `menu_update_size`, with its assertions.
unfoldable pub menu_update_size : Menu → ℕ → ℕ → ℕ → ℕ → Option Menu
menu_update_size m posx posy width height = do
  assert (ltb 0 width)
  assert (ltb 0 height)
  let m' : Menu = record m { posx = posx; posy = posy; width = width; height = height }
  let last : ℤ = m'.top_idx +ℤ pos height -ℤ pos 1
  some (record m' {
    selected_idx =
        if below_window m' m.selected_idx
        then if ltb_ℤ last (size m) then last else last_item m
        else m.selected_idx;
  })

-- `menu_setcurritem_file` and `menu_make_visible`: nothing where the file is not found.
unfoldable pub menu_setcurritem_file : Menu → Text → Option Menu
menu_setcurritem_file m file = elim (menu_find m file) [
  | none ↦ some m
  | some a ↦ do mi ← item_at a m.items; some (menu_setcurritem m mi)
]

unfoldable pub menu_make_visible : Menu → Text → Option Menu
menu_make_visible m file = elim (menu_find m file) [
  | none ↦ some m
  | some a ↦ do mi ← item_at a m.items; some (make_item_visible m mi)
]
