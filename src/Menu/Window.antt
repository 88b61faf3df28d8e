-- ===== src/Menu/Window.antt =====
-- ui/curses/menu.cpp: the cursor stays on an item and inside the window.
use mocf.Base.{ℕ, ◌-◌, ◌<◌, ◌≡◌, refl, inl, inr, arith, is_empty, length, Bool-cases}
use mocf.Base.Int.{ℤ, pos, ◌+ℤ◌, ◌-ℤ◌, ◌≤ℤ◌, ◌<ℤ◌, ltb_ℤ, int_laws, lt_of_ltb_ℤ, le_of_ltb_ℤ}
use mocf.Menu.Data.{Menu, size}
use mocf.Menu.Cursor.{
  MenuRequest, lowered, raised, below_window, down, up, page_down, page_up, to_top, to_bottom,
  moved, menu_driver,
}

-- A window that reaches the cursor, and perhaps in front of the first item; the cursor is on an item,
-- or 0 where there is none.
pub record IsReached (items height : ℕ) (top selected : ℤ) : Type 0 where
  pub selected_pos : pos 0 ≤ℤ selected
  pub top_selected : top ≤ℤ selected
  pub selected_shown : selected <ℤ (top +ℤ pos height)
  pub selected_item : selected ≤ℤ pos (items - 1)

abbrev pub IsShown : Menu → Type 0
IsShown m = (pos 0 ≤ℤ m.top_idx) × IsReached (length m.items) m.height m.top_idx m.selected_idx

-- Raising the window to the first item keeps the cursor in reach.
pub raised-IsReached :
    {items height : ℕ} {top selected : ℤ}
    → IsReached items height top selected
    → (pos 0 ≤ℤ raised top) × IsReached items height (raised top) selected
raised-IsReached {items} {height} {top} {selected} r = elim (Bool-cases (ltb_ℤ top (pos 0))) [
  | inl e ↦
      let lt = lt_of_ltb_ℤ top (pos 0) e in
      rw e (
        omega arith,
        record {
          selected_pos = r.selected_pos;
          top_selected = r.selected_pos;
          selected_shown = omega (int_laws, lt, r.selected_shown, r.selected_pos);
          selected_item = r.selected_item;
        },
      )
  | inr e ↦ rw e (le_of_ltb_ℤ top (pos 0) e, r)
]

-- The window that ends at the last item still reaches the cursor.
pub lowered-IsReached :
    (m : Menu) {top selected : ℤ}
    → selected <ℤ size m
    → IsReached (length m.items) m.height top selected
    → IsReached (length m.items) m.height (lowered m top) selected
lowered-IsReached m {top} {selected} lt r = elim (Bool-cases (ltb_ℤ (size m -ℤ pos m.height) top)) [
  | inl e ↦
      let above = lt_of_ltb_ℤ (size m -ℤ pos m.height) top e in
      rw e record {
        selected_pos = r.selected_pos;
        top_selected = omega (int_laws, above, r.top_selected);
        selected_shown = omega (int_laws, lt);
        selected_item = r.selected_item;
      }
  | inr e ↦ rw e r
]

down-IsReached :
    (m : Menu)
    → 0 < length m.items
    → 0 < m.height
    → IsShown m
    → let m' = down m in IsReached (length m.items) m.height m'.top_idx m'.selected_idx
unfolding down
down-IsReached m some_items tall (h, r) =
    elim (Bool-cases (ltb_ℤ m.selected_idx (size m -ℤ pos 1))) [
      | inl e ↦
          let more = lt_of_ltb_ℤ m.selected_idx (size m -ℤ pos 1) e in
          let item : m.selected_idx +ℤ pos 1 ≤ℤ pos (length m.items - 1) = omega (int_laws, more) in
          let on_pos : pos 0 ≤ℤ m.selected_idx +ℤ pos 1 = omega (int_laws, r.selected_pos) in
          elim (Bool-cases (below_window m (m.selected_idx +ℤ pos 1))) [
            | inl e' ↦
                rw (e, down, e')
                  (lowered-IsReached m (omega (int_laws, more)) record {
                    selected_pos = on_pos;
                    top_selected = omega int_laws;
                    selected_shown = omega int_laws;
                    selected_item = item;
                  })
            | inr e' ↦
                let seen : m.selected_idx +ℤ pos 1 <ℤ m.top_idx +ℤ pos m.height =
                  lt_of_ltb_ℤ (m.selected_idx +ℤ pos 1) (m.top_idx +ℤ pos m.height)
                    (ground arith) in
                rw (e, down, e')
                  (record {
                    selected_pos = on_pos;
                    top_selected = omega (int_laws, r.top_selected);
                    selected_shown = seen;
                    selected_item = item;
                  })
          ]
      | inr e ↦ rw (e, down) r
    ]

up-IsReached :
    (m : Menu)
    → 0 < m.height
    → IsShown m
    → let m' = up m in IsReached (length m.items) m.height m'.top_idx m'.selected_idx
unfolding up
up-IsReached m tall (h, r) = elim (Bool-cases (ltb_ℤ (pos 0) m.selected_idx)) [
  | inl e ↦
      let more = lt_of_ltb_ℤ (pos 0) m.selected_idx e in
      let item : m.selected_idx -ℤ pos 1 ≤ℤ pos (length m.items - 1) =
        omega (int_laws, r.selected_item) in
      let on_pos : pos 0 ≤ℤ m.selected_idx -ℤ pos 1 = omega (int_laws, more) in
      elim (Bool-cases (ltb_ℤ (m.selected_idx -ℤ pos 1) m.top_idx)) [
        | inl e' ↦
            rw (e, up, e')
              record {
                selected_pos = on_pos;
                top_selected = omega int_laws;
                selected_shown = omega int_laws;
                selected_item = item;
              }
        | inr e' ↦
            let seen = le_of_ltb_ℤ (m.selected_idx -ℤ pos 1) m.top_idx e' in
            rw (e, up, e')
              (record {
                selected_pos = on_pos;
                top_selected = seen;
                selected_shown = omega (int_laws, r.selected_shown);
                selected_item = item;
              })
      ]
  | inr e ↦ rw (e, up) r
]

page_down-IsReached :
    (m : Menu)
    → 0 < length m.items
    → 0 < m.height
    → IsShown m
    → let m' = page_down m in IsReached (length m.items) m.height m'.top_idx m'.selected_idx
unfolding page_down
page_down-IsReached m some_items tall (h, r) =
    elim (Bool-cases (ltb_ℤ m.selected_idx (size m -ℤ pos 1))) [
      | inl e ↦
          elim (Bool-cases (ltb_ℤ (m.selected_idx +ℤ pos m.height -ℤ pos 1) (size m -ℤ pos 1))) [
            | inl e' ↦
                let far =
                  lt_of_ltb_ℤ (m.selected_idx +ℤ pos m.height -ℤ pos 1) (size m -ℤ pos 1) e' in
                rw (e, page_down, e')
                  (lowered-IsReached m (omega (int_laws, far)) record {
                    selected_pos = omega (int_laws, r.selected_pos);
                    top_selected = omega (int_laws, r.top_selected);
                    selected_shown = omega (int_laws, r.selected_shown);
                    selected_item = omega (int_laws, far);
                  })
            | inr e' ↦
                rw (e, page_down, e')
                  record {
                    selected_pos = omega int_laws;
                    top_selected = omega int_laws;
                    selected_shown = omega int_laws;
                    selected_item = omega int_laws;
                  }
          ]
      | inr e ↦ rw (e, page_down) r
    ]

page_up-IsReached :
    (m : Menu)
    → 0 < m.height
    → IsShown m
    → let m' = page_up m in IsReached (length m.items) m.height m'.top_idx m'.selected_idx
unfolding page_up
page_up-IsReached m tall (h, r) = elim (Bool-cases (ltb_ℤ (pos 0) m.selected_idx)) [
  | inl e ↦ elim (Bool-cases (ltb_ℤ (pos 0) (m.selected_idx -ℤ pos m.height +ℤ pos 1))) [
    | inl e' ↦
        let far = lt_of_ltb_ℤ (pos 0) (m.selected_idx -ℤ pos m.height +ℤ pos 1) e' in
        rw (e, page_up, e')
          record {
            selected_pos = omega (int_laws, far);
            top_selected = omega (int_laws, r.top_selected);
            selected_shown = omega (int_laws, r.selected_shown);
            selected_item = omega (int_laws, r.selected_item);
          }
    | inr e' ↦
        rw (e, page_up, e')
          record {
            selected_pos = omega arith;
            top_selected = omega arith;
            selected_shown = omega int_laws;
            selected_item = omega arith;
          }
  ]
  | inr e ↦ rw (e, page_up) r
]

moved-IsReached :
    (m : Menu) (req : MenuRequest)
    → 0 < length m.items
    → 0 < m.height
    → IsShown m
    → let m' = moved req m in IsReached (length m.items) m.height m'.top_idx m'.selected_idx
unfolding moved to_top to_bottom
moved-IsReached m MenuRequest.req_up some_items tall h = up-IsReached m tall h
moved-IsReached m MenuRequest.req_down some_items tall h = down-IsReached m some_items tall h
moved-IsReached m MenuRequest.req_pgup some_items tall h = page_up-IsReached m tall h
moved-IsReached m MenuRequest.req_pgdown some_items tall h = page_down-IsReached m some_items tall h
moved-IsReached m MenuRequest.req_top some_items tall h = record {
  selected_pos = omega arith;
  top_selected = omega arith;
  selected_shown = omega int_laws;
  selected_item = omega arith;
}
moved-IsReached m MenuRequest.req_bottom some_items tall h = record {
  selected_pos = omega int_laws;
  top_selected = omega int_laws;
  selected_shown = omega int_laws;
  selected_item = omega int_laws;
}

-- No request changes the items or the size of the window.
moved-frame :
    (m : Menu) (req : MenuRequest)
    → ((moved req m).items ≡ m.items) × ((moved req m).height ≡ m.height)
unfolding moved up down page_up page_down to_top to_bottom
moved-frame m MenuRequest.req_up = (ground arith, ground arith)
moved-frame m MenuRequest.req_down = (ground arith, ground arith)
moved-frame m MenuRequest.req_pgup = (ground arith, ground arith)
moved-frame m MenuRequest.req_pgdown = (ground arith, ground arith)
moved-frame m MenuRequest.req_top = (refl, refl)
moved-frame m MenuRequest.req_bottom = (refl, refl)

-- Every request keeps the cursor on an item and inside the window, and the window behind the first
-- item.
pub menu_driver-IsShown :
    (m : Menu) (req : MenuRequest) → 0 < m.height → IsShown m → IsShown (menu_driver m req)
unfolding menu_driver
menu_driver-IsShown m req tall h = elim (Bool-cases (is_empty m.items)) [
  | inl e ↦ rw (e, menu_driver) h
  | inr e ↦
      let same = moved-frame m req in
      let reached = moved-IsReached m req (ground arith) tall h in
      rw (e, menu_driver, same.0, same.1) (raised-IsReached reached)
]
