-- ===== src/Menu/Settings.antt =====
-- ui/curses/menu.cpp: the functions that set one field of a menu or of an item, and those that read one.
use mocf.Base.{ℕ, Bool, Text, length, take}
use mocf.Base.Int.{ℤ}
use mocf.Playlist.Data.{FileType}
use mocf.Menu.Data.{MenuAlign, MenuItem, Menu}

unfoldable pub menu_item_set_attr_normal : MenuItem → ℤ → MenuItem
menu_item_set_attr_normal mi value = record mi { attr_normal = value }

unfoldable pub menu_item_set_attr_sel : MenuItem → ℤ → MenuItem
menu_item_set_attr_sel mi value = record mi { attr_sel = value }

unfoldable pub menu_item_set_attr_sel_marked : MenuItem → ℤ → MenuItem
menu_item_set_attr_sel_marked mi value = record mi { attr_sel_marked = value }

unfoldable pub menu_item_set_attr_marked : MenuItem → ℤ → MenuItem
menu_item_set_attr_marked mi value = record mi { attr_marked = value }

unfoldable pub menu_item_set_format_attr : MenuItem → ℤ → MenuItem
menu_item_set_format_attr mi value = record mi { format_attr = value }

unfoldable pub menu_item_set_queue_pos : MenuItem → ℤ → MenuItem
menu_item_set_queue_pos mi value = record mi { queue_pos = value }

unfoldable pub menu_item_set_title : MenuItem → Text → MenuItem
menu_item_set_title mi value = record mi { title = value }

unfoldable pub menu_item_set_align : MenuItem → MenuAlign → MenuItem
menu_item_set_align mi value = record mi { align = value }

-- `FILE_TIME_STR_SZ - 1` and `FILE_FORMAT_SZ - 1` bytes: `strnlen` and `memcpy` cut what is longer.
unfoldable pub menu_item_set_time : MenuItem → Text → MenuItem
menu_item_set_time mi time = record mi { time = take 5 time }

unfoldable pub menu_item_set_format : MenuItem → Text → MenuItem
menu_item_set_format mi format = record mi { format = take 4 format }

unfoldable pub menu_set_items_numbering : Menu → ℤ → Menu
menu_set_items_numbering m value = record m { number_items = value }

unfoldable pub menu_set_show_time : Menu → ℤ → Menu
menu_set_show_time m value = record m { show_time = value }

unfoldable pub menu_set_show_format : Menu → Bool → Menu
menu_set_show_format m value = record m { show_format = value }

unfoldable pub menu_set_info_attr_normal : Menu → ℤ → Menu
menu_set_info_attr_normal m value = record m { info_attr_normal = value }

unfoldable pub menu_set_info_attr_sel : Menu → ℤ → Menu
menu_set_info_attr_sel m value = record m { info_attr_sel = value }

unfoldable pub menu_set_info_attr_marked : Menu → ℤ → Menu
menu_set_info_attr_marked m value = record m { info_attr_marked = value }

unfoldable pub menu_set_info_attr_sel_marked : Menu → ℤ → Menu
menu_set_info_attr_sel_marked m value = record m { info_attr_sel_marked = value }

abbrev pub menu_item_get_type : MenuItem → FileType
menu_item_get_type mi = mi.kind

abbrev pub menu_item_get_file : MenuItem → Text
menu_item_get_file mi = mi.file

abbrev pub menu_nitems : Menu → ℕ
menu_nitems m = length m.items
