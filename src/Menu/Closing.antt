-- ===== src/Menu/Closing.antt =====
-- ui/curses/menu.cpp: the cursor and the window after an item is deleted.
use mocf.Base.{
  ℕ, ◌+◌, ◌-◌, ◌<◌, ◌≡◌, refl, ◌∙◌, some, Text, arith, if◌then◌else◌, length, delete_at, ltb, ◌==◌,
  lt→ltb, subst, length-delete_at, lt_of_get_elem?,
}
use mocf.Base.Int.{ℤ, pos, negsuc, ◌+ℤ◌, ◌-ℤ◌, ◌≤ℤ◌, int_laws}
use mocf.Menu.Data.{MenuItem, Menu, menu_find}
use mocf.Menu.Cursor.{last_item}
use mocf.Menu.Items.{menu_delete, menu_del_item, closed_up, without_item, moved_up}
use mocf.Menu.Window.{IsReached, IsShown, raised-IsReached}
use mocf.Menu.Pointers.{IsLinked, menu_find-item_at}
use mocf.Menu.Deletion.{length-menu_renumber_items}

-- `closed_up` on a number that is not negative.
abbrev closed : ℕ → ℕ → ℕ → ℕ
closed len idx n =
    if n == idx then if ltb n len then n else len - 1 else if ltb idx n then n - 1 else n

last_item-pos : (m : Menu) → last_item m ≡ pos (length m.items - 1)
unfolding ◌-ℤ◌
last_item-pos m = ground arith

closed_up-pos :
    (m : Menu) (idx n : ℕ) → closed_up m idx (pos n) ≡ pos (closed (length m.items) idx n)
unfolding ◌-ℤ◌
closed_up-pos m idx n = rw (last_item-pos m) (ground arith)

closed-IsReached :
    (n height idx top selected : ℕ)
    → idx < n
    → IsReached n height (pos top) (pos selected)
    → IsReached (n - 1) height (pos (closed (n - 1) idx top)) (pos (closed (n - 1) idx selected))
unfolding ◌+ℤ◌
closed-IsReached n height idx top selected lt r =
    let shown : selected < top + height = omega (int_laws, r.selected_shown) in
    record {
      selected_pos = omega arith;
      top_selected = ground (arith, r.top_selected, r.selected_item);
      selected_shown = ground (arith, shown, r.top_selected, r.selected_item);
      selected_item = ground (arith, r.selected_item);
    }

-- A number that is not negative.
at_pos : (n : ℤ) → pos 0 ≤ℤ n → (k : ℕ) × (n ≡ pos k)
at_pos (pos k) h = (k, refl)
at_pos (negsuc k) h = absurd (omega arith)

-- Deleting an item keeps the cursor on an item and inside the window.
moved_up-IsShown :
    (m : Menu) (mi : MenuItem) → mi.num < length m.items → IsShown m → IsShown (moved_up m mi)
moved_up-IsShown m mi lt (h, r) =
    let (t, top) = at_pos m.top_idx h in
    let (s, selected) = at_pos m.selected_idx r.selected_pos in
    let after : Menu = without_item m mi in
    let len : length after.items ≡ length m.items - 1 =
      length-menu_renumber_items 0 (delete_at m.items mi.num)
      ∙ length-delete_at m.items mi.num lt in
    let reached : IsReached (length m.items) m.height (pos t) (pos s) =
      subst (λ (z : ℤ). IsReached (length m.items) m.height (pos t) z) selected
        (subst (λ (z : ℤ). IsReached (length m.items) m.height z m.selected_idx) top r) in
    raised-IsReached {top = closed_up after mi.num m.top_idx} (
      rw (top, selected, closed_up-pos after mi.num t, closed_up-pos after mi.num s, len)
        (closed-IsReached (length m.items) m.height mi.num t s lt reached))

-- Deleting a file that is found keeps the cursor on an item and inside the window.
pub menu_del_item-IsShown :
    (m : Menu) (f : Text) (a : ℕ)
    → IsLinked m
    → menu_find m f ≡ some a
    → IsShown m
    → (m' : Menu) × (menu_del_item m f ≡ some m') × IsShown m'
unfolding menu_del_item menu_delete
menu_del_item-IsShown m f a h e shown =
    let (mi, at, file, same, there) = menu_find-item_at m f a h e in
    let lt = lt_of_get_elem? m.items mi.num there in
    (
      moved_up m mi,
      rw (e, at, lt→ltb mi.num (length m.items) lt) refl,
      moved_up-IsShown m mi lt shown,
    )
