-- ===== src/Menu/Swapping.antt =====
-- ui/curses/menu.cpp: two items change places, and the cursor and the mark go with their items.
use mocf.Base.{
  ℕ, ◌≡◌, ◌≢◌, refl, sym, ap, ◌∙◌, true, Option, none, some, [], ◌⊎◌, inl, inr, Text, arith,
  if◌then◌else◌, length, get_elem?, set, Option-cases, ltb, ◌==◌, lt→ltb, get_elem?-set, length-set,
  lt_of_get_elem?,
}
use mocf.Base.Int.{ℤ, pos, negsuc}
use mocf.Menu.Data.{MenuItem, Menu, menu_find}
use mocf.Menu.Items.{exchanged, at_index}
use mocf.Menu.Pointers.{IsLinked}

-- The place of an item before it changed places with another.
abbrev origin : ℕ → ℕ → ℕ → ℕ
origin i j k = if k == i then j else if k == j then i else k

abbrev pub addr_of : Option MenuItem → Option ℕ
addr_of none = none
addr_of (some mi) = some mi.addr

-- The address of the item at an index.
abbrev pub addr_at : Menu → ℤ → Option ℕ
addr_at m n = addr_of (at_index m n)

abbrev pub swapped : Menu → MenuItem → MenuItem → Menu
swapped m x y = record m {
  items = set (set m.items x.num (record y { num = x.num })) y.num (record x { num = y.num });
  selected_idx = exchanged x.num y.num m.selected_idx;
  marked_idx = exchanged x.num y.num m.marked_idx;
}

exchanged-pos : (i j n : ℕ) → exchanged i j (pos n) ≡ pos (origin i j n)
exchanged-pos i j n = ground arith

exchanged-negsuc : (i j n : ℕ) → exchanged i j (negsuc n) ≡ negsuc n
exchanged-negsuc i j n = ground arith

-- A number is one of two, or neither.
one_of : (i j k : ℕ) → (k ≡ i) ⊎ ((k ≡ j) ⊎ ((k ≢ i) × (k ≢ j)))
one_of i j k = ground arith

some_inj {ℓ} : {A : Type ℓ} {a b : A} → some a ≡ some b → a ≡ b
some_inj e = cc

module _ (m : Menu) (x y : MenuItem) (h : IsLinked m) (at_x : get_elem? m.items x.num ≡ some x)
    (at_y : get_elem? m.items y.num ≡ some y) (differ : x.addr ≢ y.addr) where
  places_differ : x.num ≢ y.num
  places_differ e =
      let one : some x ≡ some y = sym at_x ∙ ap (λ (k : ℕ). get_elem? m.items k) e ∙ at_y in
      let it : x ≡ y = cc in differ (ap (λ (w : MenuItem). w.addr) it)

  looked_up :
      (k : ℕ)
      → get_elem? (swapped m x y).items k ≡ (
          if k == y.num
          then some (record x { num = y.num })
          else if k == x.num
          then some (record y { num = x.num })
          else get_elem? m.items k)
  looked_up k =
      let lx = lt_of_get_elem? m.items x.num at_x in
      let ly = lt_of_get_elem? m.items y.num at_y in
      let fx = lt→ltb x.num (length m.items) lx in
      let fy : ltb y.num (length (set m.items x.num (record y { num = x.num }))) ≡ true =
        rw (length-set m.items x.num (record y { num = x.num }))
          (lt→ltb y.num (length m.items) ly) in
      rw
        (
          get_elem?-set (set m.items x.num (record y { num = x.num })) y.num k
              (record x { num = y.num }),
          fy,
          get_elem?-set m.items x.num k (record y { num = x.num }),
          fx,
        )
        refl

  at_first : get_elem? (swapped m x y).items x.num ≡ some (record y { num = x.num })
  at_first = ground (arith, looked_up x.num, places_differ)

  at_second : get_elem? (swapped m x y).items y.num ≡ some (record x { num = y.num })
  at_second = ground (arith, looked_up y.num)

  elsewhere :
      (k : ℕ) → k ≢ x.num → k ≢ y.num → get_elem? (swapped m x y).items k ≡ get_elem? m.items k
  elsewhere k nx ny = ground (arith, looked_up k)

  abbrev back : ℕ → ℕ
  back k = origin x.num y.num k

  first_back : (k : ℕ) → k ≡ x.num → back k ≡ y.num
  first_back k p = ground arith

  second_back : (k : ℕ) → k ≡ y.num → back k ≡ x.num
  second_back k p = ground (arith, places_differ)

  other_back : (k : ℕ) → k ≢ x.num → k ≢ y.num → back k ≡ k
  other_back k nx ny = ground arith

  -- Each item was at its origin, and has only a new number.
  was_there :
      (k : ℕ) (z : MenuItem)
      → get_elem? (swapped m x y).items k ≡ some z
      → (w : MenuItem) × (get_elem? m.items (back k) ≡ some w) × (z.addr ≡ w.addr) × (z.num ≡ k)
  was_there k z e = elim (one_of x.num y.num k) [
    | inl p ↦
        let it : z ≡ record y { num = x.num } =
          some_inj (sym e ∙ ap (λ (i : ℕ). get_elem? (swapped m x y).items i) p ∙ at_first) in
        (
          y,
          ap (λ (i : ℕ). get_elem? m.items i) (first_back k p) ∙ at_y,
          ap (λ (v : MenuItem). v.addr) it,
          ap (λ (v : MenuItem). v.num) it ∙ sym p,
        )
    | inr (inl p) ↦
        let it : z ≡ record x { num = y.num } =
          some_inj (sym e ∙ ap (λ (i : ℕ). get_elem? (swapped m x y).items i) p ∙ at_second) in
        (
          x,
          ap (λ (i : ℕ). get_elem? m.items i) (second_back k p) ∙ at_x,
          ap (λ (v : MenuItem). v.addr) it,
          ap (λ (v : MenuItem). v.num) it ∙ sym p,
        )
    | inr (inr (nx, ny)) ↦
        let same : get_elem? m.items k ≡ some z = sym (elsewhere k nx ny) ∙ e in
        (
          z,
          ap (λ (i : ℕ). get_elem? m.items i) (other_back k nx ny) ∙ same,
          refl,
          h.numbered k z same,
        )
  ]

  still_there :
      (k : ℕ) (w : MenuItem)
      → get_elem? m.items k ≡ some w
      → (z : MenuItem) × (get_elem? (swapped m x y).items (back k) ≡ some z)
        × (z.addr ≡ w.addr)
        × (z.file ≡ w.file)
  still_there k w e = elim (one_of x.num y.num k) [
    | inl p ↦
        let it : x ≡ w = some_inj (sym at_x ∙ sym (ap (λ (i : ℕ). get_elem? m.items i) p) ∙ e) in
        (
          record x { num = y.num },
          ap (λ (i : ℕ). get_elem? (swapped m x y).items i) (first_back k p) ∙ at_second,
          ap (λ (v : MenuItem). v.addr) it,
          ap (λ (v : MenuItem). v.file) it,
        )
    | inr (inl p) ↦
        let it : y ≡ w = some_inj (sym at_y ∙ sym (ap (λ (i : ℕ). get_elem? m.items i) p) ∙ e) in
        (
          record y { num = x.num },
          ap (λ (i : ℕ). get_elem? (swapped m x y).items i) (second_back k p) ∙ at_first,
          ap (λ (v : MenuItem). v.addr) it,
          ap (λ (v : MenuItem). v.file) it,
        )
    | inr (inr (nx, ny)) ↦ (
      w,
      ap (λ (i : ℕ). get_elem? (swapped m x y).items i) (other_back k nx ny)
          ∙ elsewhere k nx ny
          ∙ e,
      refl,
      refl,
    )
  ]

  swapped-live :
      (f : Text) (a : ℕ)
      → menu_find (swapped m x y) f ≡ some a
      → (f ≢ [])
        × ((i : ℕ) × (z : MenuItem) × (get_elem? (swapped m x y).items i ≡ some z)
            × (z.addr ≡ a)
            × (z.file ≡ f))
  unfolding menu_find
  swapped-live f a e =
      let (full, target) = h.live f a e in
      let (i, w, at, addr, file) = target in
      let (z, now, same, named) = still_there i w at in
      (full, (back i, z, now, same ∙ addr, named ∙ file))

  pub swapped-IsLinked : IsLinked (swapped m x y)
  swapped-IsLinked = record {
    numbered = λ i z e. (was_there i z e).3;
    fresh = λ i z e.
        let (w, at, same, num) = was_there i z e in omega (arith, same, h.fresh (back i) w at);
    distinct = λ i j z z' e e' same.
        let (w, at, same', num) = was_there i z e in
        let (w', at', same'', num') = was_there j z' e' in
        let one : back i ≡ back j =
          h.distinct (back i) (back j) w w' at at' (sym same' ∙ same ∙ same'') in
        ground (arith, one, places_differ);
    live = swapped-live;
  }

  -- An index that goes with its item leads to the same item, if to any.
  pub exchanged-addr_at : (n : ℤ) → addr_at (swapped m x y) (exchanged x.num y.num n) ≡ addr_at m n
  exchanged-addr_at (negsuc n) = ap (addr_at (swapped m x y)) (exchanged-negsuc x.num y.num n)
  exchanged-addr_at (pos n) = elim (Option-cases (get_elem? m.items n)) [
    | inl gone ↦
        let nx : n ≢ x.num = λ p.
          absurd (
            let z : none ≡ some x = sym gone ∙ ap (λ (i : ℕ). get_elem? m.items i) p ∙ at_x in
            cc) in
        let ny : n ≢ y.num = λ p.
          absurd (
            let z : none ≡ some y = sym gone ∙ ap (λ (i : ℕ). get_elem? m.items i) p ∙ at_y in
            cc) in
        ap (addr_at (swapped m x y)) (exchanged-pos x.num y.num n)
        ∙ ap (λ (i : ℕ). addr_of (get_elem? (swapped m x y).items i)) (other_back n nx ny)
        ∙ ap addr_of (elsewhere n nx ny)
    | inr (w, at) ↦
        let (z, now, same, named) = still_there n w at in
        ap (addr_at (swapped m x y)) (exchanged-pos x.num y.num n)
        ∙ ap addr_of now
        ∙ ap some same
        ∙ ap addr_of (sym at)
  ]
