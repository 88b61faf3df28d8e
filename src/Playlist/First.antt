-- ===== src/Playlist/First.antt =====
-- library/playlist.cpp: `plist_swap_first_fname`.
use mocf.Base.{
  ℕ, zero, suc, ◌≡◌, ◌≢◌, refl, sym, ap, ◌∙◌, true, false, Option, none, some, Text, if◌then◌else◌,
  ◌==◌, inl, inr, arith, get_elem?, set, Bool-cases, lt_of_get_elem?, get_elem?_of_lt,
}
use mocf.SearchTree.{
  eqv, find, insert, erase, find-insert, find-erase, eqv_refl, eqv_sym, eqv_congr,
}
use mocf.Playlist.Data.{Item, Plist, Host, plist_deleted}
use mocf.Playlist.Search.{plist_find_fname}
use mocf.Playlist.Order.{swap_first, plist_swap_first_fname, swap_items}
use mocf.Playlist.Tally.{IsCounted}
use mocf.Playlist.Index.{IsIndexed, Finds, plist_find_fname-Finds}
use mocf.Playlist.Moves.{
  exchange, AreDistinct, IsMoved, IsMoved-refl, swapped_list-IsMoved, exchanged, one_of,
}
use mocf.Playlist.Reindex.{moved-IsCounted}

some_inj {ℓ} : {A : Type ℓ} {a b : A} → some a ≡ some b → a ≡ b
some_inj e = cc

module _ (h : Host) (p : Plist) (fname : Text) (i : ℕ) (x y : Item) (v : IsIndexed h p)
    (d : AreDistinct h p.items) (at_0 : get_elem? p.items 0 ≡ some x)
    (at_i : get_elem? p.items i ≡ some y) (ne : 0 ≢ i)
    (named : eqv h.collation fname y.file ≡ true) where
  -- The playlist with the items 0 and `i` in each other's places.
  abbrev first_swapped : Plist
  first_swapped = record p {
    items = set (set p.items 0 y) i x;
    search_tree = insert h.collation x.file i (
        insert h.collation y.file 0
          (erase h.collation x.file (erase h.collation fname p.search_tree)));
  }

  differ : eqv h.collation y.file x.file ≡ false
  differ = elim (Bool-cases (eqv h.collation y.file x.file)) [
    | inl same ↦ absurd (ne (d 0 i x y at_0 at_i (eqv_sym h.collation x.file y.file ∙ same)))
    | inr e ↦ e
  ]

  at_head : get_elem? first_swapped.items 0 ≡ some y
  at_head = exchanged p.items 0 i x y at_0 at_i ne 0 ∙ at_i

  at_moved : get_elem? first_swapped.items i ≡ some x
  at_moved =
      exchanged p.items 0 i x y at_0 at_i ne i
      ∙ ap (λ (k : ℕ). get_elem? p.items k) (ground (arith, ne))
      ∙ at_0

  swap_first-first_swapped : swap_first h p fname i ≡ some first_swapped
  unfolding swap_first swap_items
  swap_first-first_swapped =
      let e : (0 == i) ≡ false = ground (arith, ne) in rw (at_0, at_i, e, at_head, at_moved) refl

  -- What the new tree finds.
  finds :
      (key : Text)
      → find h.collation key first_swapped.search_tree ≡ (
          if eqv h.collation key x.file
          then some i
          else if eqv h.collation key y.file
          then some 0
          else find h.collation key p.search_tree)
  finds key = ground (
    arith,
    find-insert h.collation key x.file i (
        insert h.collation y.file 0
          (erase h.collation x.file (erase h.collation fname p.search_tree))),
    find-insert h.collation key y.file 0
        (erase h.collation x.file (erase h.collation fname p.search_tree)),
    find-erase h.collation key x.file (erase h.collation fname p.search_tree),
    find-erase h.collation key fname p.search_tree,
    eqv_congr h.collation fname y.file key named,
    eqv_sym h.collation key fname,
    eqv_sym h.collation key y.file,
  )

  at_other : (k : ℕ) → k ≢ 0 → k ≢ i → get_elem? first_swapped.items k ≡ get_elem? p.items k
  at_other k n0 ni =
      exchanged p.items 0 i x y at_0 at_i ne k ∙ ap (λ (j : ℕ). get_elem? p.items j) (ground arith)

  first_swapped-found :
      (k : ℕ) (it : Item)
      → get_elem? first_swapped.items k ≡ some it
      → it.deleted ≡ false
      → find h.collation it.file first_swapped.search_tree ≡ some k
  first_swapped-found k it g present = elim (one_of 0 i k) [
    | inl z ↦
        let one : some it ≡ some y =
          sym g ∙ ap (λ (j : ℕ). get_elem? first_swapped.items j) z ∙ at_head in
        let is_y : it.file ≡ y.file = ap (λ (w : Item). w.file) (some_inj one) in
        ap (λ (f : Text). find h.collation f first_swapped.search_tree) is_y
        ∙ ground (arith, finds y.file, differ, eqv_refl h.collation y.file)
        ∙ ap some (sym z)
    | inr (inl z) ↦
        let one : some it ≡ some x =
          sym g ∙ ap (λ (j : ℕ). get_elem? first_swapped.items j) z ∙ at_moved in
        let is_x : it.file ≡ x.file = ap (λ (w : Item). w.file) (some_inj one) in
        ap (λ (f : Text). find h.collation f first_swapped.search_tree) is_x
        ∙ ground (arith, finds x.file, eqv_refl h.collation x.file)
        ∙ ap some (sym z)
    | inr (inr (n0, ni)) ↦
        let g' : get_elem? p.items k ≡ some it = sym (at_other k n0 ni) ∙ g in
        let not_x : eqv h.collation it.file x.file ≡ false =
          elim (Bool-cases (eqv h.collation it.file x.file)) [
            | inl same ↦ absurd (n0 (d k 0 it x g' at_0 same))
            | inr e ↦ e
          ] in
        let not_y : eqv h.collation it.file y.file ≡ false =
          elim (Bool-cases (eqv h.collation it.file y.file)) [
            | inl same ↦ absurd (ni (d k i it y g' at_i same))
            | inr e ↦ e
          ] in
        ground (arith, finds it.file, not_x, not_y, v.found k it g' present)
  ]

  first_swapped_sound :
      (key : Text) (n : ℕ)
      → find h.collation key first_swapped.search_tree ≡ some n
      → (it : Item) × (get_elem? first_swapped.items n ≡ some it)
        × (eqv h.collation key it.file ≡ true)
  first_swapped_sound key n e = elim (Bool-cases (eqv h.collation key x.file)) [
    | inl same ↦
        let q : i ≡ n = some_inj (ground (arith, finds key, same, e)) in
        (x, ap (λ (j : ℕ). get_elem? first_swapped.items j) (sym q) ∙ at_moved, same)
    | inr not_x ↦ elim (Bool-cases (eqv h.collation key y.file)) [
      | inl same ↦
          let q : 0 ≡ n = some_inj (ground (arith, finds key, not_x, same, e)) in
          (y, ap (λ (j : ℕ). get_elem? first_swapped.items j) (sym q) ∙ at_head, same)
      | inr not_y ↦
          let (it, g, same) = v.sound key n (ground (arith, finds key, not_x, not_y, e)) in
          let n0 : n ≢ 0 = λ z.
            let one : it ≡ x = some_inj (sym g ∙ ap (λ (j : ℕ). get_elem? p.items j) z ∙ at_0) in
            let w : eqv h.collation key x.file ≡ true =
              ap (λ (r : Item). eqv h.collation key r.file) (sym one) ∙ same in
            cc in
          let ni : n ≢ i = λ z.
            let one : it ≡ y = some_inj (sym g ∙ ap (λ (j : ℕ). get_elem? p.items j) z ∙ at_i) in
            let w : eqv h.collation key y.file ≡ true =
              ap (λ (r : Item). eqv h.collation key r.file) (sym one) ∙ same in
            cc in
          (it, at_other n n0 ni ∙ g, same)
    ]
  ]

  first_swapped-IsIndexed : IsIndexed h first_swapped
  first_swapped-IsIndexed = record { found = first_swapped-found; sound = first_swapped_sound }

  -- The file is found at the first place.
  first_swapped-first : y.deleted ≡ false → plist_find_fname h first_swapped fname ≡ some (some 0)
  unfolding plist_find_fname plist_deleted
  first_swapped-first present =
      let not_x : eqv h.collation fname x.file ≡ false =
        eqv_congr h.collation fname y.file x.file named ∙ differ in
      let hit : find h.collation fname first_swapped.search_tree ≡ some 0 =
        ground (arith, finds fname, not_x, named) in
      rw (hit, plist_find_fname, at_head, present) refl

-- What `plist_swap_first_fname` promises: the file, if it is found, changes places with the first item, and every
-- other item stays where it is.
pub record IsFirst (h : Host) (p : Plist) (fname : Text) (q : Plist) : Type 0 where
  pub counted : IsCounted q
  pub indexed : IsIndexed h q
  pub moved : IsMoved p.items q.items
  pub first :
      (found : Option ℕ) × (plist_find_fname h p fname ≡ some found)
      × (plist_find_fname h q fname ≡ some (elim found [ none ↦ none | some i ↦ some 0 ]))
      × ((k : ℕ)
          → get_elem? q.items k
            ≡ get_elem? p.items (elim found [ none ↦ k | some i ↦ exchange 0 i k ]))

-- On a list with right counters and tree, where no two items have one name, `plist_swap_first_fname` passes its
-- assertions; a file that is found changes places with the first item, where it is found then, every other item
-- stays where it is, and counters and tree stay right.
pub plist_swap_first_fname-IsFirst :
    (h : Host) (p : Plist) (fname : Text)
    → IsCounted p
    → IsIndexed h p
    → AreDistinct h p.items
    → (q : Plist) × (plist_swap_first_fname h p fname ≡ some q) × IsFirst h p fname q
unfolding plist_swap_first_fname
plist_swap_first_fname-IsFirst h p fname v w d =
    let (r, e, f) = plist_find_fname-Finds h p fname w in by_place r e f
  where
    same_place : (k : ℕ) → k ≡ exchange 0 0 k
    same_place k = ground arith

    by_place :
        (r : Option ℕ)
        → plist_find_fname h p fname ≡ some r
        → Finds h p fname r
        → (q : Plist) × (plist_swap_first_fname h p fname ≡ some q) × IsFirst h p fname q
    by_place none e f = (
      p,
      rw (e, plist_swap_first_fname) refl,
      record {
        counted = v;
        indexed = w;
        moved = IsMoved-refl p.items;
        first = (none, e, e, λ k. refl);
      },
    )
    by_place (some zero) e f = (
      p,
      rw (e, plist_swap_first_fname) refl,
      record {
        counted = v;
        indexed = w;
        moved = IsMoved-refl p.items;
        first = (some 0, e, e, λ k. ap (get_elem? p.items) (same_place k));
      },
    )
    by_place (some (suc i)) e (y, at_i, present, named) =
        let (x, at_0) =
          get_elem?_of_lt p.items 0 (omega (arith, lt_of_get_elem? p.items (suc i) at_i)) in
        let nz : (suc i == 0) ≡ false = ground arith in
        let ne : 0 ≢ suc i = λ z. absurd (omega arith) in
        let q : Plist = first_swapped h p fname (suc i) x y w d at_0 at_i ne named in
        (
          q,
          rw (e, plist_swap_first_fname, nz)
              (swap_first-first_swapped h p fname (suc i) x y w d at_0 at_i ne named),
          record {
            counted =
                moved-IsCounted p q v (swapped_list-IsMoved p.items 0 (suc i) x y at_0 at_i ne) refl
                  refl refl;
            indexed = first_swapped-IsIndexed h p fname (suc i) x y w d at_0 at_i ne named;
            moved = swapped_list-IsMoved p.items 0 (suc i) x y at_0 at_i ne;
            first = (
              some (suc i),
              e,
              first_swapped-first h p fname (suc i) x y w d at_0 at_i ne named present,
              exchanged p.items 0 (suc i) x y at_0 at_i ne,
            );
          },
        )
