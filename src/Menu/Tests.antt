-- ===== src/Menu/Tests.antt =====
-- ui/curses/menu.cpp: a menu of two files, and the theorems at it.
use mocf.Base.{◌≡◌, refl, none, some, [], ◌∷◌, Text, arith, if◌then◌else◌, length, ◌+◌, text_eq}
use mocf.Base.Int.{int_laws, pos}
use mocf.SearchTree.{find, insert, eqv}
use mocf.SearchTree.Bytewise.{bytewise, text_less}
use mocf.Playlist.Data.{FileType}
use mocf.Menu.Data.{item_at, MenuItem, Menu, new_menu, menu_add, menu_find, new_menu_item}
use mocf.Menu.Cursor.{MenuRequest, menu_driver}
use mocf.Menu.Items.{menu_del_item, menu_swap_items, menu_filter_pattern}
use mocf.Menu.Window.{IsShown, menu_driver-IsShown}
use mocf.Menu.Visible.{IsInRange}
use mocf.Menu.Pointers.{IsLinked, menu_add-IsLinked, new_menu-IsLinked}
use mocf.Menu.Deletion.{menu_del_item-IsLinked}
use mocf.Menu.Closing.{menu_del_item-IsShown}
use mocf.Menu.Swaps.{IsSwapped, menu_swap_items-IsSwapped}
use mocf.Menu.Filter.{IsFiltered, menu_filter_pattern-IsFiltered}

abbrev a : Text
a = b'a' ∷ []

abbrev b : Text
b = b'b' ∷ []

-- A window of one line.
abbrev empty : Menu
empty = new_menu 0 0 10 1

abbrev one : Menu
one = (menu_add empty a FileType.sound (some a)).0

abbrev two : Menu
two = (menu_add one b FileType.sound (some b)).0

abbrev first : MenuItem
first = new_menu_item empty a FileType.sound (some a)

abbrev second : MenuItem
second = new_menu_item one b FileType.sound (some b)

one-IsLinked : IsLinked one
one-IsLinked =
    menu_add-IsLinked empty a FileType.sound (some a) (new_menu-IsLinked 0 0 10 1) (λ e. cc)

two-IsLinked : IsLinked two
two-IsLinked = menu_add-IsLinked one b FileType.sound (some b) one-IsLinked (λ e. cc)

two-IsShown : IsShown two
unfolding menu_add
two-IsShown = (
  omega arith,
  record {
    selected_pos = omega arith;
    top_selected = omega arith;
    selected_shown = omega int_laws;
    selected_item = omega arith;
  },
)

two-IsInRange : IsInRange two
unfolding menu_add
two-IsInRange = record {
  top_pos = omega arith;
  selected_pos = omega arith;
  selected_item = omega arith;
}

found_a : menu_find two a ≡ some 0
unfolding menu_find menu_add find insert text_less
found_a = refl

found_b : menu_find two b ≡ some 1
unfolding menu_find menu_add find insert text_less
found_b = refl

length-two : length two.items ≡ 2
unfolding menu_add
length-two = refl

height-two : two.height ≡ 1
unfolding menu_add
height-two = refl

menu_driver-IsShown_example : IsShown (menu_driver two MenuRequest.req_down)
menu_driver-IsShown_example =
    menu_driver-IsShown two MenuRequest.req_down (omega (arith, height-two)) two-IsShown

menu_del_item-IsLinked_example :
    (m' : Menu) × (menu_del_item two a ≡ some m')
    × IsLinked m'
    × (length m'.items + 1 ≡ length two.items)
    × ((g : Text) → menu_find m' g ≡ (if eqv bytewise g a then none else menu_find two g))
menu_del_item-IsLinked_example = menu_del_item-IsLinked two a 0 two-IsLinked found_a

menu_del_item-IsShown_example : (m' : Menu) × (menu_del_item two a ≡ some m') × IsShown m'
menu_del_item-IsShown_example = menu_del_item-IsShown two a 0 two-IsLinked found_a two-IsShown

menu_swap_items-IsSwapped_example :
    (x y : MenuItem) × (item_at 0 two.items ≡ some x)
    × (item_at 1 two.items ≡ some y)
    × ((m' : Menu) × (menu_swap_items two a b ≡ some m') × IsSwapped two x y m')
menu_swap_items-IsSwapped_example =
    menu_swap_items-IsSwapped two a b 0 1 (omega (arith, height-two)) two-IsLinked two-IsShown
      found_a found_b (λ e. absurd (omega arith))

menu_filter_pattern-IsFiltered_example :
    (m' : Menu) × (menu_filter_pattern text_eq (record two { marked_idx = pos 1 }) b ≡ some m')
    × IsFiltered text_eq b (record two { marked_idx = pos 1 }) m'
unfolding menu_add
menu_filter_pattern-IsFiltered_example =
    menu_filter_pattern-IsFiltered text_eq b (record two { marked_idx = pos 1 }) (omega arith)
      (omega arith)
