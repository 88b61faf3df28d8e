-- ===== src/Playlist/SwapFiles.antt =====
-- library/playlist.cpp: `plist_swap_files`, and `plist_shuffle` of a good list.
use mocf.Base.{
  subst, ℕ, ◌≡◌, ◌≢◌, refl, ap, sym, ◌∙◌, true, false, Option, some, none, [], inl, inr, Text,
  if◌then◌else◌, arith, ◌==◌, get_elem?, set, Bool-cases, Option-cases,
}
use mocf.SearchTree.{eqv, find, insert, find-insert, find_congr, eqv_sym, eqv_congr}
use mocf.Playlist.Data.{Item, Plist, Host}
use mocf.Playlist.Order.{plist_swap_files, swap_found, swap_items, plist_shuffle, index_from}
use mocf.Playlist.Index.{IsIndexed}
use mocf.Playlist.Join.{IsGood}
use mocf.Playlist.Moves.{
  AreDistinct, IsMoved, IsMoved-refl, swapped_list-IsMoved, exchanged, exchange,
}
use mocf.Playlist.Reindex.{moved-IsCounted, reindexed-IsIndexed, shuffled}

-- What moving the items of a good list to other places gives.
pub record IsRearranged (h : Host) (p q : Plist) : Type 0 where
  pub good : IsGood h q
  pub moved : IsMoved p.items q.items

some_inj {ℓ} : {A : Type ℓ} {a b : A} → some a ≡ some b → a ≡ b
some_inj e = cc

module _ (h : Host) (p : Plist) (f1 f2 : Text) (i j : ℕ) (x y : Item) (v : IsGood h p)
    (hit_1 : find h.collation f1 p.search_tree ≡ some i)
    (hit_2 : find h.collation f2 p.search_tree ≡ some j) (at_i : get_elem? p.items i ≡ some x)
    (at_j : get_elem? p.items j ≡ some y) (named_1 : eqv h.collation f1 x.file ≡ true)
    (named_2 : eqv h.collation f2 y.file ≡ true) (ne : i ≢ j) where
  abbrev swapped : Plist
  swapped = record p {
    items = set (set p.items i y) j x;
    search_tree = insert h.collation f2 i (insert h.collation f1 j p.search_tree);
  }

  finds :
      (key : Text)
      → find h.collation key swapped.search_tree ≡ (
          if eqv h.collation key f2
          then some i
          else if eqv h.collation key f1
          then some j
          else find h.collation key p.search_tree)
  finds key = ground (
    arith,
    find-insert h.collation key f2 i (insert h.collation f1 j p.search_tree),
    find-insert h.collation key f1 j p.search_tree,
  )

  at : (k : ℕ) → get_elem? swapped.items k ≡ get_elem? p.items (exchange i j k)
  at k = exchanged p.items i j x y at_i at_j ne k

  at_named :
      (n m : ℕ) (it z : Item) (f : Text)
      → n ≡ m
      → get_elem? p.items n ≡ some it
      → get_elem? p.items m ≡ some z
      → eqv h.collation f z.file ≡ true
      → eqv h.collation it.file f ≡ true
  at_named n m it z f q g g' e =
      let one : it ≡ z = some_inj (sym g ∙ ap (λ (k : ℕ). get_elem? p.items k) q ∙ g') in
      ap (λ (w : Item). eqv h.collation w.file f) one ∙ eqv_sym h.collation z.file f ∙ e

  moved_found :
      (k n : ℕ) (it : Item)
      → exchange i j k ≡ n
      → get_elem? p.items n ≡ some it
      → find h.collation it.file p.search_tree ≡ some n
      → find h.collation it.file swapped.search_tree ≡ some k
  moved_found k n it q g f = elim (Bool-cases (eqv h.collation it.file f2)) [
    | inl is_2 ↦ ground (
      arith,
      finds it.file,
      is_2,
      find_congr h.collation it.file f2 p.search_tree is_2,
      hit_2,
      ne,
    )
    | inr not_2 ↦ elim (Bool-cases (eqv h.collation it.file f1)) [
      | inl is_1 ↦ ground (
        arith,
        finds it.file,
        is_1,
        not_2,
        find_congr h.collation it.file f1 p.search_tree is_1,
        hit_1,
        ne,
      )
      | inr not_1 ↦
          let ni : n ≢ i = λ z.
            let e : eqv h.collation it.file f1 ≡ true = at_named n i it x f1 z g at_i named_1 in
            cc in
          let nj : n ≢ j = λ z.
            let e : eqv h.collation it.file f2 ≡ true = at_named n j it y f2 z g at_j named_2 in
            cc in
          ground (arith, finds it.file, not_2, not_1, f, q, ni, nj)
    ]
  ]

  swapped-IsIndexed : IsIndexed h swapped
  swapped-IsIndexed = record {
    found = λ k it g present.
        let g' : get_elem? p.items (exchange i j k) ≡ some it = sym (at k) ∙ g in
        moved_found k (exchange i j k) it refl g' (v.indexed.found (exchange i j k) it g' present);
    sound = λ key n f. elim (Bool-cases (eqv h.collation key f2)) [
      | inl is_2 ↦
          let q : i ≡ n = some_inj (ground (arith, finds key, is_2, f)) in
          let e : exchange i j n ≡ j = ground (arith, q) in
          (
            y,
            at n ∙ ap (λ (k : ℕ). get_elem? p.items k) e ∙ at_j,
            eqv_congr h.collation key f2 y.file is_2 ∙ named_2,
          )
      | inr not_2 ↦ elim (Bool-cases (eqv h.collation key f1)) [
        | inl is_1 ↦
            let q : j ≡ n = some_inj (ground (arith, finds key, not_2, is_1, f)) in
            let e : exchange i j n ≡ i = ground (arith, q, ne) in
            (
              x,
              at n ∙ ap (λ (k : ℕ). get_elem? p.items k) e ∙ at_i,
              eqv_congr h.collation key f1 x.file is_1 ∙ named_1,
            )
        | inr not_1 ↦
            let f' : find h.collation key p.search_tree ≡ some n =
              ground (arith, finds key, not_2, not_1, f) in
            let (it, g, same) = v.indexed.sound key n f' in
            let ni : n ≢ i = λ z.
              let e : eqv h.collation it.file f1 ≡ true = at_named n i it x f1 z g at_i named_1 in
              let w : eqv h.collation key f1 ≡ true =
                eqv_congr h.collation key it.file f1 same ∙ e in
              cc in
            let nj : n ≢ j = λ z.
              let e : eqv h.collation it.file f2 ≡ true = at_named n j it y f2 z g at_j named_2 in
              let w : eqv h.collation key f2 ≡ true =
                eqv_congr h.collation key it.file f2 same ∙ e in
              cc in
            let e : exchange i j n ≡ n = ground (arith, ni, nj) in
            (it, at n ∙ ap (λ (k : ℕ). get_elem? p.items k) e ∙ g, same)
      ]
    ];
  }

  swapped-IsRearranged : IsRearranged h p swapped
  swapped-IsRearranged =
      let m = swapped_list-IsMoved p.items i j x y at_i at_j ne in
      record {
        good = record {
          counted = moved-IsCounted p swapped v.counted m refl refl refl;
          indexed = swapped-IsIndexed;
        };
        moved = m;
      }

  swap_found-swapped : swap_found h p f1 f2 (some i) (some j) ≡ some swapped
  unfolding swap_found swap_items
  swap_found-swapped = let e : (i == j) ≡ false = ground (arith, ne) in rw (at_i, at_j, e) refl

-- Where a list has a file: at the place of a live item of that name, if there is one, and else at one of a deleted
-- item, or nowhere.
pub record IsPlaceOf (h : Host) (p : Plist) (file : Text) (r : Option ℕ) : Type 0 where
  pub live_item :
      (n : ℕ) (it : Item)
      → get_elem? p.items n ≡ some it
      → it.deleted ≡ false
      → eqv h.collation file it.file ≡ true
      → r ≡ some n
  pub named :
      (n : ℕ)
      → r ≡ some n
      → (it : Item) × (get_elem? p.items n ≡ some it) × (eqv h.collation file it.file ≡ true)

find-IsPlaceOf :
    (h : Host) (p : Plist) (file : Text)
    → IsIndexed h p
    → IsPlaceOf h p file (find h.collation file p.search_tree)
find-IsPlaceOf h p file v = record {
  live_item =
      λ n it g live e. find_congr h.collation file it.file p.search_tree e ∙ v.found n it g live;
  named = λ n e. v.sound file n e;
}

-- Where an item comes from: two places change.
abbrev pub came_from : Option ℕ → Option ℕ → ℕ → ℕ
came_from none s k = k
came_from (some i) none k = k
came_from (some i) (some j) k = exchange i j k

same_place : (i k : ℕ) → k ≡ exchange i i k
same_place i k = ground arith

-- What `plist_swap_files` promises.
pub record AreSwapped (h : Host) (p : Plist) (file1 file2 : Text) (q : Plist) : Type 0 where
  pub place1 : Option ℕ
  pub place2 : Option ℕ
  pub is_place1 : IsPlaceOf h p file1 place1
  pub is_place2 : IsPlaceOf h p file2 place2
  pub swapped_items : (k : ℕ) → get_elem? q.items k ≡ get_elem? p.items (came_from place1 place2 k)
  pub rearranged : IsRearranged h p q

-- The two names are one: the tree finds what it found.
module _ (h : Host) (p : Plist) (f1 f2 : Text) (i : ℕ) (v : IsGood h p)
    (hit_1 : find h.collation f1 p.search_tree ≡ some i)
    (hit_2 : find h.collation f2 p.search_tree ≡ some i) where
  abbrev kept : Plist
  kept = record p { search_tree = insert h.collation f2 i (insert h.collation f1 i p.search_tree) }

  same_find :
      (key : Text) → find h.collation key kept.search_tree ≡ find h.collation key p.search_tree
  same_find key = ground (
    arith,
    find-insert h.collation key f2 i (insert h.collation f1 i p.search_tree),
    find-insert h.collation key f1 i p.search_tree,
    find_congr h.collation key f2 p.search_tree,
    find_congr h.collation key f1 p.search_tree,
    hit_1,
    hit_2,
  )

  kept-IsRearranged : IsRearranged h p kept
  kept-IsRearranged = record {
    good = record {
      counted = moved-IsCounted p kept v.counted (IsMoved-refl p.items) refl refl refl;
      indexed = record {
        found = λ k it g present. same_find it.file ∙ v.indexed.found k it g present;
        sound = λ key n f. v.indexed.sound key n (sym (same_find key) ∙ f);
      };
    };
    moved = IsMoved-refl p.items;
  }

module _ (h : Host) (p : Plist) (file1 file2 : Text) where
  none_first : (r : Option ℕ) → swap_found h p file1 file2 none r ≡ some p
  unfolding swap_found
  none_first r = refl

  none_second : (i : ℕ) → swap_found h p file1 file2 (some i) none ≡ some p
  unfolding swap_found
  none_second i = refl

  one_place :
      (i : ℕ) (x : Item)
      → get_elem? p.items i ≡ some x
      → swap_found h p file1 file2 (some i) (some i)
        ≡ some (record p {
          search_tree = insert h.collation file2 i (insert h.collation file1 i p.search_tree);
        })
  unfolding swap_found swap_items
  one_place i x g = let e : (i == i) ≡ true = ground arith in rw (g, e) refl

-- On a list with right counters and tree, `plist_swap_files` returns. Each file has as its place that of the live
-- item of its name, where there is one, and else that of a deleted item of its name, or none: where both have one,
-- the items there change places and every other item stays where it is; where one has none, no item moves. Counters
-- and tree stay right.
pub plist_swap_files-AreSwapped :
    (h : Host) (p : Plist) (file1 file2 : Text)
    → IsGood h p
    → (q : Plist) × (plist_swap_files h p file1 file2 ≡ some q) × AreSwapped h p file1 file2 q
unfolding plist_swap_files
plist_swap_files-AreSwapped h p file1 file2 v =
    elim (Option-cases (find h.collation file1 p.search_tree)) [
      | inl miss ↦ (
        p,
        rw miss (none_first h p file1 file2 _),
        swaps p none (find h.collation file2 p.search_tree) miss refl (λ k. refl) same,
      )
      | inr (i, hit_1) ↦ elim (Option-cases (find h.collation file2 p.search_tree)) [
        | inl miss ↦ (
          p,
          rw (hit_1, miss) (none_second h p file1 file2 i),
          swaps p (some i) none hit_1 miss (λ k. refl) same,
        )
        | inr (j, hit_2) ↦
            let (x, at_i, named_1) = v.indexed.sound file1 i hit_1 in
            let (y, at_j, named_2) = v.indexed.sound file2 j hit_2 in
            elim (Bool-cases (i == j)) [
              | inr e ↦
                  let ne : i ≢ j = ground arith in
                  let q =
                    swapped h p file1 file2 i j x y v hit_1 hit_2 at_i at_j named_1 named_2 ne in
                  (
                    q,
                    rw (hit_1, hit_2)
                        (swap_found-swapped h p file1 file2 i j x y v hit_1 hit_2 at_i at_j named_1
                          named_2 ne),
                    swaps q (some i) (some j) hit_1 hit_2 (exchanged p.items i j x y at_i at_j ne) (
                        swapped-IsRearranged h p file1 file2 i j x y v hit_1 hit_2 at_i at_j named_1
                          named_2 ne),
                  )
              | inl e ↦
                  let same_index : i ≡ j = ground arith in
                  let hit : find h.collation file2 p.search_tree ≡ some i =
                    hit_2 ∙ ap some (sym same_index) in
                  let q = kept h p file1 file2 i v hit_1 hit in
                  (
                    q,
                    rw (hit_1, hit) (one_place h p file1 file2 i x at_i),
                    swaps q (some i) (some i) hit_1 hit
                        (λ k. ap (get_elem? p.items) (same_place i k))
                        (kept-IsRearranged h p file1 file2 i v hit_1 hit),
                  )
            ]
      ]
    ]
  where
    same : IsRearranged h p p
    same = record { good = v; moved = IsMoved-refl p.items }

    swaps :
        (q : Plist) (r1 r2 : Option ℕ)
        → find h.collation file1 p.search_tree ≡ r1
        → find h.collation file2 p.search_tree ≡ r2
        → ((k : ℕ) → get_elem? q.items k ≡ get_elem? p.items (came_from r1 r2 k))
        → IsRearranged h p q
        → AreSwapped h p file1 file2 q
    swaps q r1 r2 e1 e2 at m = record {
      place1 = r1;
      place2 = r2;
      is_place1 = subst (IsPlaceOf h p file1) e1 (find-IsPlaceOf h p file1 v.indexed);
      is_place2 = subst (IsPlaceOf h p file2) e2 (find-IsPlaceOf h p file2 v.indexed);
      swapped_items = at;
      rearranged = m;
    }

-- `plist_shuffle` of a good list where no two items have one name.
pub plist_shuffle-IsRearranged :
    (h : Host) (rand : ℕ → ℕ) (p : Plist)
    → IsGood h p
    → AreDistinct h p.items
    → (q : Plist) × (plist_shuffle h rand p ≡ some q) × IsRearranged h p q
plist_shuffle-IsRearranged h rand p v d =
    let (items, e, m) = shuffled h rand p in
    let q : Plist = record p { items = items; search_tree = index_from h 0 items [] } in
    (
      q,
      e,
      record {
        good = record {
          counted = moved-IsCounted p q v.counted m refl refl refl;
          indexed = reindexed-IsIndexed h q (m.distinct h d) refl;
        };
        moved = m;
      },
    )
