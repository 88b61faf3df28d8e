-- ===== src/Menu/Deletion.antt =====
-- ui/curses/menu.cpp: deleting an item leaves no pointer to it.
use mocf.Base.{
  ℕ, zero, suc, ◌+◌, ◌-◌, ◌≡◌, ◌≢◌, refl, sym, ap, ◌∙◌, true, false, Option, none, some, List, [],
  ◌∷◌, inl, inr, Text, arith, is_empty, if◌then◌else◌, length, get_elem?, delete_at, Bool-cases,
  ltb, lt→ltb, get_elem?-delete_at, length-delete_at, lt_of_get_elem?,
}
use mocf.SearchTree.{eqv, find-erase, eqv_refl}
use mocf.SearchTree.Bytewise.{bytewise}
use mocf.Menu.Data.{MenuItem, Menu, menu_find}
use mocf.Menu.Items.{menu_renumber_items, menu_delete, menu_del_item, without_item, moved_up}
use mocf.Menu.Pointers.{IsLinked, menu_find-item_at}

-- Where the element `i` was before the element `idx` was deleted.
abbrev skipped : ℕ → ℕ → ℕ
skipped idx i = if ltb i idx then i else suc i

-- The items after a deletion, with their new numbers.
renumbered :
    (k : ℕ) (items : List MenuItem) (i : ℕ) (x : MenuItem)
    → get_elem? (menu_renumber_items k items) i ≡ some x
    → (y : MenuItem) × (get_elem? items i ≡ some y) × (x ≡ record y { num = k + i })
unfolding menu_renumber_items
renumbered k [] i x e = cc
renumbered k (y ∷ rest) zero x e = (
  y,
  refl,
  let q : record y { num = k } ≡ x = cc in
      sym q ∙ ap (λ (n : ℕ). record y { num = n }) (omega arith),
)
renumbered k (y ∷ rest) (suc i) x e =
    let (z, there, same) = renumbered (suc k) rest i x e in
    (z, there, same ∙ ap (λ (n : ℕ). record z { num = n }) (omega arith))

renumber_there :
    (k : ℕ) (items : List MenuItem) (i : ℕ) (y : MenuItem)
    → get_elem? items i ≡ some y
    → get_elem? (menu_renumber_items k items) i ≡ some (record y { num = k + i })
unfolding menu_renumber_items
renumber_there k [] i y e = cc
renumber_there k (x ∷ rest) zero y e =
    let q : x ≡ y = cc in
    ap (λ (z : MenuItem). some (record z { num = k })) q
    ∙ ap (λ (n : ℕ). some (record y { num = n })) (omega arith)
renumber_there k (x ∷ rest) (suc i) y e =
    renumber_there (suc k) rest i y e ∙ ap (λ (n : ℕ). some (record y { num = n })) (omega arith)

pub length-menu_renumber_items :
    (k : ℕ) (items : List MenuItem) → length (menu_renumber_items k items) ≡ length items
unfolding menu_renumber_items
length-menu_renumber_items k [] = refl
length-menu_renumber_items k (x ∷ rest) = ap suc (length-menu_renumber_items (suc k) rest)

delete_at-skipped :
    (items : List MenuItem) (idx i : ℕ)
    → get_elem? (delete_at items idx) i ≡ get_elem? items (skipped idx i)
delete_at-skipped items idx i = elim (Bool-cases (ltb i idx)) [
  | inl e ↦ rw (get_elem?-delete_at items idx i, e) refl
  | inr e ↦ rw (get_elem?-delete_at items idx i, e) refl
]

-- Each item of the shorter menu was there, and has only a new number.
was_there :
    (m : Menu) (mi : MenuItem) (i : ℕ) (x : MenuItem)
    → get_elem? (without_item m mi).items i ≡ some x
    → (y : MenuItem) × (get_elem? m.items (skipped mi.num i) ≡ some y)
      × (x.addr ≡ y.addr)
      × (x.num ≡ i)
was_there m mi i x e =
    let (y, there, same) = renumbered 0 (delete_at m.items mi.num) i x e in
    (
      y,
      sym (delete_at-skipped m.items mi.num i) ∙ there,
      ap (λ (z : MenuItem). z.addr) same,
      ap (λ (z : MenuItem). z.num) same ∙ omega arith,
    )

-- Each other item is still there.
still_there :
    (m : Menu) (mi : MenuItem) (i : ℕ) (y : MenuItem)
    → get_elem? m.items i ≡ some y
    → i ≢ mi.num
    → (j : ℕ) × (get_elem? (without_item m mi).items j ≡ some (record y { num = j }))
still_there m mi i y e ne =
    let j : ℕ = if ltb i mi.num then i else i - 1 in
    let back : skipped mi.num j ≡ i = ground arith in
    (
      j,
      renumber_there 0 (delete_at m.items mi.num) j y
            (delete_at-skipped m.items mi.num j ∙ ap (λ (k : ℕ). get_elem? m.items k) back ∙ e)
          ∙ ap (λ (n : ℕ). some (record y { num = n })) (omega arith),
    )

module _ (m : Menu) (mi : MenuItem) (h : IsLinked m) (there : get_elem? m.items mi.num ≡ some mi)
    (named : mi.file ≢ []) where
  pub find_after :
      (f : Text)
      → menu_find (moved_up m mi) f ≡ (if eqv bytewise f mi.file then none else menu_find m f)
  unfolding menu_find
  find_after f =
      let full : is_empty mi.file ≡ false = ground arith in
      rw full (find-erase bytewise f mi.file m.search_tree)

  moved_up-live :
      (f : Text) (a : ℕ)
      → menu_find (moved_up m mi) f ≡ some a
      → (f ≢ [])
        × ((i : ℕ) × (x : MenuItem) × (get_elem? (moved_up m mi).items i ≡ some x)
            × (x.addr ≡ a)
            × (x.file ≡ f))
  moved_up-live f a e = elim (Bool-cases (eqv bytewise f mi.file)) [
    | inl same ↦
        absurd
          (let z : ◌≡◌ {A = Option ℕ} none (some a) = ground (arith, find_after f, e, same) in cc)
    | inr other ↦
        let (full, target) = h.live f a (ground (arith, find_after f, e, other)) in
        let (i, y, at, addr, file) = target in
        let elsewhere : i ≢ mi.num = λ z.
          let one : some y ≡ some mi = sym at ∙ ap (λ (k : ℕ). get_elem? m.items k) z ∙ there in
          let it : y ≡ mi = cc in
          let name : f ≡ mi.file = sym file ∙ ap (λ (w : MenuItem). w.file) it in
          let w : eqv bytewise f mi.file ≡ true = rw name (eqv_refl bytewise mi.file) in cc in
        let (j, now) = still_there m mi i y at elsewhere in
        (full, (j, record y { num = j }, now, addr, file))
  ]

  pub moved_up-IsLinked : IsLinked (moved_up m mi)
  moved_up-IsLinked = record {
    numbered = λ i x e. (was_there m mi i x e).3;
    fresh = λ i x e.
        let (y, at, same, num) = was_there m mi i x e in
        omega (arith, same, h.fresh (skipped mi.num i) y at);
    distinct = λ i j x y e e' same.
        let (x', at, same', num) = was_there m mi i x e in
        let (y', at', same'', num') = was_there m mi j y e' in
        let one : skipped mi.num i ≡ skipped mi.num j =
          h.distinct (skipped mi.num i) (skipped mi.num j) x' y' at at'
            (sym same' ∙ same ∙ same'') in
        ground (arith, one);
    live = moved_up-live;
  }

-- The file that is found can be deleted: numbers and pointers stay right, there is one item less, the
-- file is not found any more, and all others are found where they were.
pub menu_del_item-IsLinked :
    (m : Menu) (f : Text) (a : ℕ)
    → IsLinked m
    → menu_find m f ≡ some a
    → (m' : Menu) × (menu_del_item m f ≡ some m')
      × IsLinked m'
      × (length m'.items + 1 ≡ length m.items)
      × ((g : Text) → menu_find m' g ≡ (if eqv bytewise g f then none else menu_find m g))
unfolding menu_del_item menu_delete
menu_del_item-IsLinked m f a h e =
    let (mi, at, file, same, there) = menu_find-item_at m f a h e in
    let named : mi.file ≢ [] = λ z. (h.live f a e).0 (sym file ∙ z) in
    let lt = lt_of_get_elem? m.items mi.num there in
    let len : length (moved_up m mi).items ≡ length m.items - 1 =
      length-menu_renumber_items 0 (delete_at m.items mi.num)
      ∙ length-delete_at m.items mi.num lt in
    (
      moved_up m mi,
      rw (e, at, lt→ltb mi.num (length m.items) lt) refl,
      moved_up-IsLinked m mi h there named,
      omega (arith, len, lt),
      λ g.
          find_after m mi h there named g
          ∙ ap (λ (k : Text). if eqv bytewise g k then none else menu_find m g) file,
    )
