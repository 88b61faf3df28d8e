-- ===== src/Menu/Filter.antt =====
-- ui/curses/menu.cpp: `menu_filter_pattern`.
use mocf.Base.{
  ℕ, none, false, ◌⊎◌, ◌≢◌, get_elem?, is_empty, Option, ◌<◌, ◌≡◌, refl, sym, ap, ◌∙◌, Bool, some,
  List, [], ◌∷◌, ◌++◌, inl, inr, Text, arith, if◌then◌else◌, Bool-cases, Option-cases, lt→ltb,
}
use mathlib.Core.List.{append-nil, append_assoc}
use mocf.Base.Int.{ℤ, pos, negsuc, int_laws}
use mocf.Menu.Data.{MenuItem, Menu, menu_find, new_menu, menu_new}
use mocf.Menu.Items.{
  menu_add_from_item, filter_items, menu_filter_pattern, at_index, menu_mark_item,
}
use mocf.Menu.Settings.{
  menu_set_show_time, menu_set_show_format, menu_set_info_attr_normal, menu_set_info_attr_sel,
  menu_set_info_attr_marked, menu_set_info_attr_sel_marked,
}
use mocf.Menu.Window.{IsShown}
use mocf.Menu.Pointers.{IsLinked, menu_find-item_at, new_menu-IsLinked}
use mocf.Menu.Copies.{
  added, menu_add_from_item-appended, menu_add_from_item-IsLinked, added-file, IsComplete,
  menu_add_from_item-IsComplete,
}

-- The titles and the files.
abbrev pub entries : List MenuItem → List (Text × Text)
entries [] = []
entries (mi ∷ rest) = (mi.title, mi.file) ∷ entries rest

entries-append_one :
    (xs : List MenuItem) (y : MenuItem)
    → entries (xs ++ (y ∷ [])) ≡ entries xs ++ ((y.title, y.file) ∷ [])
entries-append_one [] y = refl
entries-append_one (x ∷ xs) y =
    ap (λ (r : List (Text × Text)). (x.title, x.file) ∷ r) (entries-append_one xs y)

-- The cursor and the window of a new menu.
at_zero : (m : Menu) → m.top_idx ≡ pos 0 → m.selected_idx ≡ pos 0 → 0 < m.height → IsShown m
at_zero m top selected tall =
    rw (top, selected)
      (
        omega arith,
        record {
          selected_pos = omega arith;
          top_selected = omega arith;
          selected_shown = omega int_laws;
          selected_item = omega arith;
        },
      )

-- The mark is on an item with the file; or there is no mark, and no item with the file.
abbrev pub MarksFile : Menu → Text → Type 0
MarksFile m f =
    ((x : MenuItem) × (at_index m m.marked_idx ≡ some x) × (x.file ≡ f) × (is_empty f ≡ false))
    ⊎ ((m.marked_idx ≡ negsuc 0)
        × ((i : ℕ) (x : MenuItem)
            → get_elem? m.items i ≡ some x
            → is_empty x.file ≡ false
            → x.file ≢ f))

-- The mark of a filtered menu, where the old one marks that item.
abbrev pub MarksSame : Menu → Option MenuItem → Type 0
MarksSame m none = m.marked_idx ≡ negsuc 0
MarksSame m (some mi) = MarksFile m mi.file

not_empty : (t : Text) → t ≢ [] → is_empty t ≡ false
not_empty [] ne = absurd (ne refl)
not_empty (x ∷ t) ne = refl

-- Marking a file puts the mark on the item that is found, if any.
menu_mark_item-MarksFile :
    (m : Menu) (f : Text)
    → IsLinked m
    → IsComplete m
    → m.marked_idx ≡ negsuc 0
    → (k : ℤ) × (menu_mark_item m f ≡ some (record m { marked_idx = k }))
      × MarksFile (record m { marked_idx = k }) f
unfolding menu_mark_item
menu_mark_item-MarksFile m f h c off = elim (Option-cases (menu_find m f)) [
  | inl e ↦ (
    m.marked_idx,
    rw (e, menu_mark_item) refl,
    inr (
      off,
      λ i x at named same.
          let (a, hit) = c.found i x at named in
          absurd (let z : none ≡ some a = sym e ∙ ap (menu_find m) (sym same) ∙ hit in cc),
    ),
  )
  | inr (a, e) ↦
      let (mi, found, file, same, there) = menu_find-item_at m f a h e in
      (
        pos mi.num,
        rw (e, menu_mark_item, found) refl,
        inl (mi, there, file, not_empty f (h.live f a e).0),
      )
]

module _ (strcasestr : Text → Text → Bool) (pattern : Text) where
  -- The titles that match, in their order.
  abbrev pub matching : List MenuItem → List (Text × Text)
  matching [] = []
  matching (mi ∷ rest) =
      if strcasestr mi.title pattern then (mi.title, mi.file) ∷ matching rest else matching rest

  record Grown (m : Menu) (rest : List MenuItem) (m' : Menu) : Type 0 where
    linked : IsLinked m'
    complete : IsComplete m'
    all_entries : entries m'.items ≡ entries m.items ++ matching rest
    same_top : m'.top_idx ≡ m.top_idx
    same_selected : m'.selected_idx ≡ m.selected_idx
    same_marked : m'.marked_idx ≡ m.marked_idx
    same_height : m'.height ≡ m.height

  filter_items-Grown :
      (rest : List MenuItem) (m : Menu)
      → IsLinked m
      → IsComplete m
      → Grown m rest (filter_items strcasestr pattern rest m)
  unfolding filter_items
  filter_items-Grown [] m h c = record {
    linked = h;
    complete = c;
    all_entries = sym (append-nil (entries m.items));
    same_top = refl;
    same_selected = refl;
    same_marked = refl;
    same_height = refl;
  }
  filter_items-Grown (mi ∷ rest) m h c = elim (Bool-cases (strcasestr mi.title pattern)) [
    | inr e ↦
        rw (e, filter_items)
          (let r = filter_items-Grown rest m h c in
            record {
              linked = r.linked;
              complete = r.complete;
              all_entries = rw e r.all_entries;
              same_top = r.same_top;
              same_selected = r.same_selected;
              same_marked = r.same_marked;
              same_height = r.same_height;
            })
    | inl e ↦
        let one = menu_add_from_item-appended m mi h in
        let r =
          filter_items-Grown rest (menu_add_from_item m mi) (menu_add_from_item-IsLinked m mi h)
            (menu_add_from_item-IsComplete m mi h c) in
        rw (e, filter_items)
          record {
            linked = r.linked;
            complete = r.complete;
            all_entries = rw e (
                r.all_entries
                ∙ ap (λ (w : Menu). entries w.items ++ matching rest) one
                ∙ ap (λ (t : List (Text × Text)). t ++ matching rest)
                    (entries-append_one m.items (added m mi))
                ∙ ap (λ (f : Text). (entries m.items ++ ((mi.title, f) ∷ [])) ++ matching rest)
                    (added-file m mi)
                ∙ append_assoc (entries m.items) ((mi.title, mi.file) ∷ []) (matching rest));
            same_top = r.same_top ∙ ap (λ (w : Menu). w.top_idx) one;
            same_selected = r.same_selected ∙ ap (λ (w : Menu). w.selected_idx) one;
            same_marked = r.same_marked ∙ ap (λ (w : Menu). w.marked_idx) one;
            same_height = r.same_height ∙ ap (λ (w : Menu). w.height) one;
          }
  ]

  -- The menu that is filtered into: as new, but for what is shown.
  abbrev start : Menu → Menu
  start m =
      let shown : Menu =
        menu_set_show_format
          (menu_set_show_time (new_menu m.posx m.posy m.width m.height) m.show_time)
          m.show_format in
      let plain : Menu =
        menu_set_info_attr_sel (menu_set_info_attr_normal shown m.info_attr_normal)
          m.info_attr_sel in
      menu_set_info_attr_sel_marked (menu_set_info_attr_marked plain m.info_attr_marked)
        m.info_attr_sel_marked

  start-Grown :
      (m : Menu)
      → IsLinked (start m)
        × ((start m).items ≡ [])
        × ((start m).top_idx ≡ pos 0)
        × ((start m).selected_idx ≡ pos 0)
        × ((start m).marked_idx ≡ negsuc 0)
        × ((start m).height ≡ m.height)
  unfolding menu_set_show_format menu_set_show_time menu_set_info_attr_normal menu_set_info_attr_sel
      menu_set_info_attr_marked menu_set_info_attr_sel_marked menu_find
  start-Grown m = (
    let n = new_menu-IsLinked m.posx m.posy m.width m.height in
        record { numbered = n.numbered; fresh = n.fresh; distinct = n.distinct; live = n.live },
    refl,
    refl,
    refl,
    refl,
    refl,
  )

  pub record IsFiltered (m m' : Menu) : Type 0 where
    pub linked : IsLinked m'
    pub shown : IsShown m'
    pub chosen : entries m'.items ≡ matching m.items
    pub mark : MarksSame m' (at_index m m.marked_idx)

  no_item : (i : ℕ) (x : MenuItem) → get_elem? {A = MenuItem} [] i ≡ some x → ⊥
  no_item i x e = cc

  unmarked_filter :
      (m : Menu)
      → 0 < m.height
      → let m' = filter_items strcasestr pattern m.items (start m) in
        IsLinked m'
        × IsComplete m'
        × IsShown m'
        × (entries m'.items ≡ matching m.items)
        × (m'.marked_idx ≡ negsuc 0)
  unmarked_filter m tall =
      let (linked, none_yet, top, selected, marked, height) = start-Grown m in
      let empty : IsComplete (start m) = record {
        found = λ i x at named.
            absurd (no_item i x (ap (λ (xs : List MenuItem). get_elem? xs i) (sym none_yet) ∙ at));
      } in
      let r = filter_items-Grown m.items (start m) linked empty in
      (
        r.linked,
        r.complete,
        at_zero (filter_items strcasestr pattern m.items (start m)) (r.same_top ∙ top)
            (r.same_selected ∙ selected) (omega (arith, tall, r.same_height ∙ height)),
        r.all_entries ∙ ap (λ (xs : List MenuItem). entries xs ++ matching m.items) none_yet,
        r.same_marked ∙ marked,
      )

  IsLinked-marked : (m : Menu) (k : ℤ) → IsLinked m → IsLinked (record m { marked_idx = k })
  unfolding menu_find
  IsLinked-marked m k h = record {
    numbered = h.numbered;
    fresh = h.fresh;
    distinct = h.distinct;
    live = h.live;
  }

  -- Filtering a menu of some size returns a menu with the titles that match and their files, in their order;
  -- numbers and pointers are right, and the cursor is shown. Where an item is marked, the mark is on an item that
  -- has its file, or there is none with that file and no mark.
  pub menu_filter_pattern-IsFiltered :
      (m : Menu)
      → 0 < m.width
      → 0 < m.height
      → (m' : Menu) × (menu_filter_pattern strcasestr m pattern ≡ some m') × IsFiltered m m'
  unfolding menu_filter_pattern menu_new
  menu_filter_pattern-IsFiltered m wide tall =
      let m1 : Menu = filter_items strcasestr pattern m.items (start m) in
      let (linked, complete, shown, chosen, off) = unmarked_filter m tall in
      let fits = lt→ltb 0 m.width wide in
      let fits' = lt→ltb 0 m.height tall in
      elim (Option-cases (at_index m m.marked_idx)) [
        | inl e ↦ (
          m1,
          rw (fits, menu_filter_pattern, fits', e) refl,
          record { linked = linked; shown = shown; chosen = chosen; mark = rw e off },
        )
        | inr (mi, e) ↦
            let (k, done, marks) = menu_mark_item-MarksFile m1 mi.file linked complete off in
            (
              record m1 { marked_idx = k },
              rw (fits, menu_filter_pattern, fits', e) done,
              record {
                linked = IsLinked-marked m1 k linked;
                shown = shown;
                chosen = chosen;
                mark = rw e marks;
              },
            )
      ]
