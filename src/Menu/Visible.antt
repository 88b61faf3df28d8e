-- ===== src/Menu/Visible.antt =====
-- ui/curses/menu.cpp: making an item visible, restoring a state, and a new size of the window.
use mocf.Base.{
  ℕ, ◌-◌, ◌<◌, ◌≡◌, refl, true, false, some, inl, inr, arith, is_empty, if◌then◌else◌, length,
  Bool-cases, lt→ltb,
}
use mocf.Base.Int.{ℤ, pos, ◌+ℤ◌, ◌-ℤ◌, ◌≤ℤ◌, ◌<ℤ◌, ltb_ℤ, int_laws}
use mocf.Menu.Data.{MenuItem, Menu, MenuState, size}
use mocf.Menu.Cursor.{
  outside, window_to, out_of_range, last_item, raised, below_window, make_item_visible,
  menu_is_visible, menu_setcurritem, menu_set_state, menu_get_state, menu_update_size,
}
use mocf.Menu.Window.{IsReached, IsShown, raised-IsReached, lowered-IsReached}

seen :
    (m : Menu) (num : ℤ)
    → outside m num ≡ false
    → (m.top_idx ≤ℤ num) × (num <ℤ (m.top_idx +ℤ pos m.height))
seen m num e = (ground arith, ground arith)

-- The window moves to the item, and not in front of the first one.
window_to-IsReached :
    (m : Menu) (mi : MenuItem)
    → 0 < m.height
    → mi.num < length m.items
    → pos 0 ≤ℤ m.top_idx
    → let top = (window_to m mi).top_idx in
      (pos 0 ≤ℤ top) × IsReached (length m.items) m.height top (pos mi.num)
window_to-IsReached m mi tall lt h = elim (Bool-cases (outside m (pos mi.num))) [
  | inl e ↦ rw e (
      raised-IsReached (
        lowered-IsReached m (omega arith) record {
          selected_pos = omega arith;
          top_selected = omega int_laws;
          selected_shown = omega int_laws;
          selected_item = omega arith;
        }))
  | inr e ↦
      let there = seen m (pos mi.num) e in
      rw e (
        h,
        record {
          selected_pos = omega arith;
          top_selected = there.0;
          selected_shown = there.1;
          selected_item = omega arith;
        },
      )
]

-- The cursor is on an item, or 0 where there is none, and the window does not begin in front of the
-- first item; the cursor may be outside the window.
pub record IsInRange (m : Menu) : Type 0 where
  pub top_pos : pos 0 ≤ℤ m.top_idx
  pub selected_pos : pos 0 ≤ℤ m.selected_idx
  pub selected_item : m.selected_idx ≤ℤ pos (length m.items - 1)

IsReached-visible :
    (m : Menu) (mi : MenuItem)
    → IsReached (length m.items) m.height m.top_idx (pos mi.num)
    → menu_is_visible m mi ≡ true
unfolding menu_is_visible
IsReached-visible m mi r = ground (arith, r.top_selected, r.selected_shown)

-- `make_item_visible` shows the item and the cursor, wherever they were.
pub make_item_visible-IsShown :
    (m : Menu) (mi : MenuItem)
    → 0 < m.height
    → mi.num < length m.items
    → IsInRange m
    → IsShown (make_item_visible m mi) × (menu_is_visible (make_item_visible m mi) mi ≡ true)
unfolding make_item_visible
make_item_visible-IsShown m mi tall lt h =
    let moved = window_to-IsReached m mi tall lt h.top_pos in
    (
      elim (Bool-cases (outside (window_to m mi) m.selected_idx)) [
        | inl e ↦ rw e moved
        | inr e ↦
            let there = seen (window_to m mi) m.selected_idx e in
            rw e (
              moved.0,
              record {
                selected_pos = h.selected_pos;
                top_selected = there.0;
                selected_shown = there.1;
                selected_item = h.selected_item;
              },
            )
      ],
      IsReached-visible (make_item_visible m mi) mi moved.1,
    )

-- `menu_setcurritem` puts the cursor on the item and shows it.
pub menu_setcurritem-IsShown :
    (m : Menu) (mi : MenuItem)
    → 0 < m.height
    → mi.num < length m.items
    → pos 0 ≤ℤ m.top_idx
    → IsShown (menu_setcurritem m mi) × ((menu_setcurritem m mi).selected_idx ≡ pos mi.num)
unfolding menu_setcurritem make_item_visible
menu_setcurritem-IsShown m mi tall lt h =
    let m' : Menu = record m { selected_idx = pos mi.num } in
    (
      (make_item_visible-IsShown m' mi tall lt
          record { top_pos = h; selected_pos = omega arith; selected_item = omega arith }).0,
      elim (Bool-cases (outside (window_to m' mi) (pos mi.num))) [
        | inl e ↦ rw e refl
        | inr e ↦ rw e refl
      ],
    )

last_item-bounds : (m : Menu) → (pos 0 ≤ℤ last_item m) × (last_item m ≤ℤ pos (length m.items - 1))
last_item-bounds m = elim (Bool-cases (is_empty m.items)) [
  | inl e ↦ rw e (omega arith, omega arith)
  | inr e ↦
      let some_items : 0 < length m.items = ground arith in rw e (omega int_laws, omega int_laws)
]

raised-pos : (top : ℤ) → pos 0 ≤ℤ raised top
raised-pos top = ground arith

in_range :
    (m : Menu) (n : ℤ) → out_of_range m n ≡ false → (pos 0 ≤ℤ n) × (n ≤ℤ pos (length m.items - 1))
in_range m n e = (ground arith, ground arith)

-- Whatever state is given, the cursor is on an item, or 0 where there is none, and the window does not
-- begin in front of the first item.
pub menu_set_state-IsInRange : (m : Menu) (st : MenuState) → IsInRange (menu_set_state m st)
unfolding menu_set_state
menu_set_state-IsInRange m st = record {
  top_pos = elim (Bool-cases (out_of_range m st.top_item)) [
    | inl e ↦ rw e (raised-pos (if is_empty m.items then pos 0 else size m -ℤ pos m.height))
    | inr e ↦ rw e (in_range m st.top_item e).0
  ];
  selected_pos = elim (Bool-cases (out_of_range m st.selected_item)) [
    | inl e ↦ rw e (last_item-bounds m).0
    | inr e ↦ rw e (in_range m st.selected_item e).0
  ];
  selected_item = elim (Bool-cases (out_of_range m st.selected_item)) [
    | inl e ↦ rw e (last_item-bounds m).1
    | inr e ↦ rw e (in_range m st.selected_item e).1
  ];
}

-- A state that was taken from a menu whose cursor and window are on its items is restored exactly.
pub menu_set_state-menu_get_state :
    (m : Menu)
    → 0 < length m.items
    → IsInRange m
    → m.top_idx <ℤ size m
    → menu_set_state m (menu_get_state m) ≡ m
unfolding menu_set_state menu_get_state
menu_set_state-menu_get_state m some_items h lt =
    let top : out_of_range m m.top_idx ≡ false = ground (arith, h.top_pos) in
    let selected : out_of_range m m.selected_idx ≡ false =
      ground (arith, h.selected_pos, h.selected_item) in
    rw (top, selected) refl

-- A new size pulls the cursor into the window, and changes no item.
pub menu_update_size-IsShown :
    (m : Menu) (posx posy width height : ℕ)
    → 0 < width
    → 0 < height
    → IsShown m
    → (m' : Menu) × (menu_update_size m posx posy width height ≡ some m')
      × IsShown m'
      × (m'.items ≡ m.items)
      × (m'.height ≡ height)
unfolding menu_update_size
menu_update_size-IsShown m posx posy width height wide tall (h, r) =
    let m' : Menu = record m { posx = posx; posy = posy; width = width; height = height } in
    let last : ℤ = m.top_idx +ℤ pos height -ℤ pos 1 in
    elim (Bool-cases (below_window m' m.selected_idx)) [
      | inl e ↦
          let under : m.top_idx +ℤ pos height ≤ℤ m.selected_idx = ground arith in
          let fits : ltb_ℤ last (size m) ≡ true = lt→ltb _ _ (omega (int_laws, r.selected_item)) in
          (
            record m' { selected_idx = last },
            rw (lt→ltb 0 width wide, lt→ltb 0 height tall, menu_update_size, e, fits) refl,
            (
              h,
              record {
                selected_pos = omega int_laws;
                top_selected = omega int_laws;
                selected_shown = omega int_laws;
                selected_item = omega (int_laws, r.selected_item);
              },
            ),
            refl,
            refl,
          )
      | inr e ↦
          let over : m.selected_idx <ℤ (m.top_idx +ℤ pos height) = ground arith in
          (
            m',
            rw (lt→ltb 0 width wide, lt→ltb 0 height tall, menu_update_size, e) refl,
            (
              h,
              record {
                selected_pos = r.selected_pos;
                top_selected = r.top_selected;
                selected_shown = over;
                selected_item = r.selected_item;
              },
            ),
            refl,
            refl,
          )
    ]
