-- ===== src/Menu/Pointers.antt =====
-- ui/curses/menu.cpp: the numbers of the items are their places, and no pointer of the search tree
-- dangles.
use mocf.Base.{
  ◌+◌, ℕ, zero, suc, ◌<◌, ◌≡◌, ◌≢◌, refl, sym, ap, ◌∙◌, true, false, Option, none, some, List, [],
  ◌∷◌, ◌++◌, inl, inr, Text, arith, length, get_elem?, Bool-cases, ◌==◌, get_elem?-append_left,
  old_or_last, get_elem?-append_here,
}
use mocf.SearchTree.{find, insert, eqv, find-insert}
use mocf.SearchTree.Bytewise.{bytewise, text_less_total}
use mocf.Playlist.Data.{FileType}
use mocf.Menu.Data.{
  MenuItem, Menu, new_menu_item, new_menu, file_name, item_at, menu_find, menu_add,
}

pub record IsLinked (m : Menu) : Type 0 where
  pub numbered : (i : ℕ) (mi : MenuItem) → get_elem? m.items i ≡ some mi → mi.num ≡ i
  pub fresh : (i : ℕ) (mi : MenuItem) → get_elem? m.items i ≡ some mi → mi.addr < m.next_addr
  pub distinct :
      (i j : ℕ) (x y : MenuItem)
      → get_elem? m.items i ≡ some x
      → get_elem? m.items j ≡ some y
      → x.addr ≡ y.addr
      → i ≡ j
  pub live :
      (f : Text) (a : ℕ)
      → menu_find m f ≡ some a
      → (f ≢ [])
        × ((i : ℕ) × (mi : MenuItem) × (get_elem? m.items i ≡ some mi)
            × (mi.addr ≡ a)
            × (mi.file ≡ f))

-- Keys that the map takes for one are equal.
eq_of_eqv : (f g : Text) → eqv bytewise f g ≡ true → f ≡ g
eq_of_eqv f g e = text_less_total f g (ground arith) (ground arith)

-- A pointer to an item that is there leads to that item.
item_at-get_elem? :
    (items : List MenuItem) (i : ℕ) (mi : MenuItem)
    → get_elem? items i ≡ some mi
    → ((j : ℕ) (y : MenuItem) → get_elem? items j ≡ some y → y.addr ≡ mi.addr → j ≡ i)
    → item_at mi.addr items ≡ some mi
item_at-get_elem? [] i mi e only = cc
item_at-get_elem? (x ∷ rest) zero mi e only = ground (arith, e)
item_at-get_elem? (x ∷ rest) (suc i) mi e only =
    let other : (x.addr == mi.addr) ≡ false = elim (Bool-cases (x.addr == mi.addr)) [
      | inl same ↦ absurd (let z : 0 ≡ suc i = only 0 x refl (ground arith) in omega arith)
      | inr e' ↦ e'
    ] in
    rw other (
      item_at-get_elem? rest i mi e
        (λ j y g same. let s : suc j ≡ suc i = only (suc j) y g same in omega arith))

-- What `menu_find` finds is an item of the menu, of that name, at the place of its number.
pub menu_find-item_at :
    (m : Menu) (f : Text) (a : ℕ)
    → IsLinked m
    → menu_find m f ≡ some a
    → (mi : MenuItem) × (item_at a m.items ≡ some mi)
      × (mi.file ≡ f)
      × (mi.addr ≡ a)
      × (get_elem? m.items mi.num ≡ some mi)
menu_find-item_at m f a h e =
    let (_, target) = h.live f a e in
    let (i, mi, there, same, file) = target in
    (
      mi,
      rw (sym same)
          (item_at-get_elem? m.items i mi there (λ j y g k. h.distinct j i y mi g there k)),
      file,
      same,
      ap (λ (k : ℕ). get_elem? m.items k) (h.numbered i mi there) ∙ there,
    )

-- A key of the search tree and the item it leads to.
abbrev Target : List MenuItem → Text → ℕ → Type 0
Target items f a =
    (f ≢ [])
    × ((i : ℕ) × (mi : MenuItem) × (get_elem? items i ≡ some mi) × (mi.addr ≡ a) × (mi.file ≡ f))

Target-append :
    (items : List MenuItem) (y : MenuItem) (f : Text) (a : ℕ)
    → Target items f a
    → Target (items ++ (y ∷ [])) f a
Target-append items y f a (named, (i, mi, there, same, file)) =
    (named, (i, mi, get_elem?-append_left items (y ∷ []) i there, same, file))

-- A menu with one item more, and its file in the tree.
abbrev pub appended : Menu → MenuItem → Option Text → Menu
appended m new file = record m {
  items = m.items ++ (new ∷ []);
  next_addr = m.next_addr + 1;
  search_tree = elim file [
    | none ↦ m.search_tree
    | some f ↦ insert bytewise f m.next_addr m.search_tree
  ];
}

module _ (m : Menu) (new : MenuItem) (h : IsLinked m) (new_num : new.num ≡ length m.items)
    (new_addr : new.addr ≡ m.next_addr) where
  appended-live :
      (file : Option Text)
      → new.file ≡ file_name file
      → file ≢ some []
      → (f : Text) (a : ℕ) → menu_find (appended m new file) f ≡ some a
      → Target (appended m new file).items f a
  unfolding menu_find
  appended-live none new_file named f a e = Target-append m.items new f a (h.live f a e)
  appended-live (some g) new_file named f a e = elim (Bool-cases (eqv bytewise f g)) [
    | inl same ↦
        let eq = eq_of_eqv f g same in
        let found : some m.next_addr ≡ some a =
          ground (arith, find-insert bytewise f g m.next_addr m.search_tree, e, same) in
        (
          λ z. named (ap some (sym eq ∙ z)),
          (
            length m.items,
            new,
            get_elem?-append_here m.items new [],
            ground (arith, found, new_addr),
            new_file ∙ sym eq,
          ),
        )
    | inr other ↦
        Target-append m.items new f a (
          h.live f a (ground (arith, find-insert bytewise f g m.next_addr m.search_tree, e, other)))
  ]

  -- An item with the next number and the next address, whose file is not the empty one.
  pub appended-IsLinked :
      (file : Option Text)
      → new.file ≡ file_name file
      → file ≢ some []
      → IsLinked (appended m new file)
  appended-IsLinked file new_file named = record {
    numbered = λ i mi e. elim (old_or_last m.items new i e) [
      | inl (p, q) ↦ ap (λ (z : MenuItem). z.num) q ∙ new_num ∙ sym p
      | inr old ↦ h.numbered i mi old
    ];
    fresh = λ i mi e. elim (old_or_last m.items new i e) [
      | inl (p, q) ↦ omega (arith, new_addr, ap (λ (z : MenuItem). z.addr) q)
      | inr old ↦ omega (arith, h.fresh i mi old)
    ];
    distinct = λ i j x y e e' same. elim (old_or_last m.items new i e) [
      | inl (p, q) ↦ elim (old_or_last m.items new j e') [
        | inl (p', q') ↦ p ∙ sym p'
        | inr old ↦
            absurd (omega (arith, same, new_addr, ap (λ (z : MenuItem). z.addr) q, h.fresh j y old))
      ]
      | inr old ↦ elim (old_or_last m.items new j e') [
        | inl (p', q') ↦
            absurd
              (omega (arith, same, new_addr, ap (λ (z : MenuItem). z.addr) q', h.fresh i x old))
        | inr old' ↦ h.distinct i j x y old old' same
      ]
    ];
    live = appended-live file new_file named;
  }

-- Adding an item, whose file name is not the empty one, keeps numbers and pointers right.
pub menu_add-IsLinked :
    (m : Menu) (title : Text) (kind : FileType) (file : Option Text)
    → IsLinked m
    → file ≢ some []
    → IsLinked (menu_add m title kind file).0
unfolding menu_add
menu_add-IsLinked m title kind file h named =
    appended-IsLinked m (new_menu_item m title kind file) h refl refl file refl named

-- A new menu is empty, and everything is right.
pub new_menu-IsLinked : (posx posy width height : ℕ) → IsLinked (new_menu posx posy width height)
unfolding menu_find find
new_menu-IsLinked posx posy width height = record {
  numbered = λ i mi e. cc;
  fresh = λ i mi e. cc;
  distinct = λ i j x y e e' same. cc;
  live = λ f a e. cc;
}
