-- ===== src/SearchTree.antt =====
-- `std::map` with text keys, as library/playlist.h and ui/curses/menu.h use it: the entries in the
-- order of the comparator. Two keys are one to the map when neither is less than the other.
mod Defs
mod Laws
pub mod Bytewise
pub use Defs.{Collation, Tree, eqv}
unfoldable pub use Defs.{find, insert, erase}
pub use Laws.*
