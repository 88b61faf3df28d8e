-- ===== src/Menu.antt =====
-- ui/curses/menu.cpp: the list of a panel, its cursor and its window. Drawing is left out.
pub mod Data
pub mod Cursor
pub mod Window
pub mod Visible
pub mod Items
pub mod Settings
pub mod Pointers
pub mod Deletion
pub mod Closing
pub mod Swapping
pub mod Swaps
pub mod Copies
pub mod Filter
mod Tests
