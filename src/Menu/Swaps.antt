-- ===== src/Menu/Swaps.antt =====
-- ui/curses/menu.cpp: `menu_swap_items`.
use mocf.Base.{
  ℕ, ◌-◌, ◌<◌, ◌≡◌, ◌≢◌, refl, sym, ap, ◌∙◌, false, Option, none, some, Text, arith, length,
  get_elem?, ◌==◌, lt_of_get_elem?, get_elem?_of_lt,
}
use mocf.Base.Int.{ℤ, pos, negsuc, ◌≤ℤ◌}
use mocf.Menu.Data.{MenuItem, Menu, item_at, menu_find}
use mocf.Menu.Cursor.{menu_setcurritem, make_item_visible}
use mocf.Menu.Items.{exchanged, menu_items_swap, at_index, swap_different, menu_swap_items}
use mocf.Menu.Window.{IsShown}
use mocf.Menu.Visible.{menu_setcurritem-IsShown}
use mocf.Menu.Pointers.{IsLinked, menu_find-item_at}
use mocf.Menu.Swapping.{addr_of, addr_at, swapped, swapped-IsLinked, exchanged-addr_at}

menu_items_swap-swapped :
    (m : Menu) (x y : MenuItem)
    → get_elem? m.items x.num ≡ some x
    → get_elem? m.items y.num ≡ some y
    → x.addr ≢ y.addr
    → menu_items_swap m x y ≡ some (swapped m x y)
unfolding menu_items_swap
menu_items_swap-swapped m x y at_x at_y differ =
    let other : (x.addr == y.addr) ≡ false = ground (arith, differ) in rw (other, at_x, at_y) refl

-- Moving the cursor changes neither the items nor the pointers.
menu_setcurritem-IsLinked :
    (m : Menu) (mi : MenuItem) → IsLinked m → IsLinked (menu_setcurritem m mi)
unfolding menu_setcurritem make_item_visible menu_find
menu_setcurritem-IsLinked m mi h = record {
  numbered = h.numbered;
  fresh = h.fresh;
  distinct = h.distinct;
  live = h.live;
}

menu_setcurritem-frame :
    (m : Menu) (mi : MenuItem)
    → ((menu_setcurritem m mi).items ≡ m.items)
      × ((menu_setcurritem m mi).marked_idx ≡ m.marked_idx)
unfolding menu_setcurritem make_item_visible
menu_setcurritem-frame m mi = (refl, refl)

-- The cursor of a menu with items is on one of them.
index_in :
    (m : Menu) (n : ℤ)
    → pos 0 ≤ℤ n
    → n ≤ℤ pos (length m.items - 1)
    → 0 < length m.items
    → (mi : MenuItem) × (at_index m n ≡ some mi)
index_in m (pos k) h le some_items = get_elem?_of_lt m.items k (omega arith)
index_in m (negsuc k) h le some_items = absurd (omega arith)

-- The item at an index has that number.
index_num :
    (m : Menu) (n : ℤ) (mi : MenuItem)
    → IsLinked m
    → at_index m n ≡ some mi
    → (n ≡ pos mi.num) × (mi.num < length m.items)
index_num m (pos k) mi h e =
    let num = h.numbered k mi e in
    let lt = lt_of_get_elem? m.items k e in (ap pos (sym num), omega (arith, num, lt))
index_num m (negsuc k) mi h e = cc

item_of_addr : (o : Option MenuItem) (a : ℕ) → addr_of o ≡ some a → (mi : MenuItem) × (o ≡ some mi)
item_of_addr none a e = cc
item_of_addr (some mi) a e = (mi, refl)

addr_at-menu_setcurritem :
    (m : Menu) (mi : MenuItem) (n : ℤ) → addr_at (menu_setcurritem m mi) n ≡ addr_at m n
unfolding menu_setcurritem make_item_visible
addr_at-menu_setcurritem m mi (pos k) = refl
addr_at-menu_setcurritem m mi (negsuc k) = refl

swap_different-swapped :
    (m : Menu) (a1 a2 : ℕ) (x y mi : MenuItem)
    → item_at a1 m.items ≡ some x
    → item_at a2 m.items ≡ some y
    → menu_items_swap m x y ≡ some (swapped m x y)
    → at_index (swapped m x y) (swapped m x y).selected_idx ≡ some mi
    → swap_different m a1 a2 ≡ some (menu_setcurritem (swapped m x y) mi)
unfolding swap_different
swap_different-swapped m a1 a2 x y mi found_x found_y done there =
    rw (found_x, found_y, done, there) refl

menu_swap_items-found :
    (m : Menu) (f1 f2 : Text) (a1 a2 : ℕ)
    → menu_find m f1 ≡ some a1
    → menu_find m f2 ≡ some a2
    → a1 ≢ a2
    → menu_swap_items m f1 f2 ≡ swap_different m a1 a2
unfolding menu_swap_items
menu_swap_items-found m f1 f2 a1 a2 e1 e2 ne =
    let other : (a1 == a2) ≡ false = ground (arith, ne) in rw (e1, menu_swap_items, e2, other) refl

some_item : {a b : MenuItem} → some a ≡ some b → a ≡ b
some_item e = cc

-- The items `x` and `y` have changed places, and nothing else has moved.
pub record IsSwapped (m : Menu) (x y : MenuItem) (m' : Menu) : Type 0 where
  pub linked : IsLinked m'
  pub shown : IsShown m'
  pub first : addr_at m' (pos y.num) ≡ some x.addr
  pub second : addr_at m' (pos x.num) ≡ some y.addr
  pub others : (k : ℕ) → k ≢ x.num → k ≢ y.num → addr_at m' (pos k) ≡ addr_at m (pos k)
  pub selected : addr_at m' m'.selected_idx ≡ addr_at m m.selected_idx
  pub marked : addr_at m' m'.marked_idx ≡ addr_at m m.marked_idx

-- What the exchange of two numbers does to an index.
to_second : (i j : ℕ) → exchanged i j (pos i) ≡ pos j
to_second i j = ground arith

to_first : (i j : ℕ) → i ≢ j → exchanged i j (pos j) ≡ pos i
to_first i j ne = ground (arith, ne)

to_itself : (i j k : ℕ) → k ≢ i → k ≢ j → exchanged i j (pos k) ≡ pos k
to_itself i j k p q = ground (arith, p, q)

-- In a menu with right numbers and pointers and its cursor in the window, two files that are found as two items
-- change places, and no other item moves: numbers and pointers stay right, the cursor stays on its item, which is
-- shown, and the mark on its own.
pub menu_swap_items-IsSwapped :
    (m : Menu) (f1 f2 : Text) (a1 a2 : ℕ)
    → 0 < m.height
    → IsLinked m
    → IsShown m
    → menu_find m f1 ≡ some a1
    → menu_find m f2 ≡ some a2
    → a1 ≢ a2
    → (x y : MenuItem) × (item_at a1 m.items ≡ some x)
      × (item_at a2 m.items ≡ some y)
      × ((m' : Menu) × (menu_swap_items m f1 f2 ≡ some m') × IsSwapped m x y m')
menu_swap_items-IsSwapped m f1 f2 a1 a2 tall h shown e1 e2 ne =
    let (x, found_x, file_x, same_x, at_x) = menu_find-item_at m f1 a1 h e1 in
    let (y, found_y, file_y, same_y, at_y) = menu_find-item_at m f2 a2 h e2 in
    let differ : x.addr ≢ y.addr = λ z. ne (sym same_x ∙ z ∙ same_y) in
    let m1 : Menu = swapped m x y in
    let linked : IsLinked m1 = swapped-IsLinked m x y h at_x at_y differ in
    let (cursor, on_cursor) =
      index_in m m.selected_idx shown.1.selected_pos shown.1.selected_item
        (omega (arith, lt_of_get_elem? m.items x.num at_x)) in
    let kept = exchanged-addr_at m x y h at_x at_y differ m.selected_idx in
    let (mi, there) =
      item_of_addr (at_index m1 m1.selected_idx) cursor.addr (kept ∙ ap addr_of on_cursor) in
    let (num, lt) = index_num m1 m1.selected_idx mi linked there in
    let set_there = menu_setcurritem-IsShown m1 mi tall lt shown.0 in
    let frame = menu_setcurritem-frame m1 mi in
    let to = λ (n : ℤ). addr_at-menu_setcurritem m1 mi n in
    let moved = exchanged-addr_at m x y h at_x at_y differ in
    let places : x.num ≢ y.num = λ z. differ (
      ap (λ (o : MenuItem). o.addr)
        (some_item (sym at_x ∙ ap (λ (k : ℕ). get_elem? m.items k) z ∙ at_y))) in
    (
      x,
      y,
      found_x,
      found_y,
      (
        menu_setcurritem m1 mi,
        menu_swap_items-found m f1 f2 a1 a2 e1 e2 ne
            ∙ (swap_different-swapped m a1 a2 x y mi found_x found_y
                (menu_items_swap-swapped m x y at_x at_y differ) there),
        record {
          linked = menu_setcurritem-IsLinked m1 mi linked;
          shown = set_there.0;
          first =
              to (pos y.num)
              ∙ ap (addr_at m1) (sym (to_second x.num y.num))
              ∙ moved (pos x.num)
              ∙ ap addr_of at_x;
          second =
              to (pos x.num)
              ∙ ap (addr_at m1) (sym (to_first x.num y.num places))
              ∙ moved (pos y.num)
              ∙ ap addr_of at_y;
          others = λ k p q.
              to (pos k) ∙ ap (addr_at m1) (sym (to_itself x.num y.num k p q)) ∙ moved (pos k);
          selected =
              addr_at-menu_setcurritem m1 mi (menu_setcurritem m1 mi).selected_idx
              ∙ ap (addr_at m1) (set_there.1 ∙ sym num)
              ∙ kept;
          marked =
              addr_at-menu_setcurritem m1 mi (menu_setcurritem m1 mi).marked_idx
              ∙ ap (addr_at m1) frame.1
              ∙ exchanged-addr_at m x y h at_x at_y differ m.marked_idx;
        },
      ),
    )
