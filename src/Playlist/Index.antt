-- ===== src/Playlist/Index.antt =====
-- library/playlist.cpp: the search tree finds exactly the items that are not deleted.
use mocf.Base.{
  ℕ, ◌≡◌, ap, true, false, Option, none, some, List, [], ◌∷◌, ◌++◌, inl, inr, Text, if◌then◌else◌,
  arith, ◌==◌, get_elem?, set, length, Bool-cases, Option-cases, get_elem?-set,
  get_elem?-append_one, lt_of_get_elem?,
}
use mocf.SearchTree.{Collation, Tree, eqv, find, insert, find-insert, find_congr, eqv_refl, eqv_sym}
use mocf.Playlist.Data.{Item, Plist, Host, plist_deleted}
use mocf.Playlist.Search.{plist_find_fname}

-- Every item that is not deleted is found by its file name, and every entry of the tree stands for
-- an item of its name.
pub record IsIndexed (h : Host) (p : Plist) : Type 0 where
  pub found :
      (i : ℕ) (it : Item)
      → get_elem? p.items i ≡ some it
      → it.deleted ≡ false
      → find h.collation it.file p.search_tree ≡ some i
  pub sound :
      (k : Text) (i : ℕ)
      → find h.collation k p.search_tree ≡ some i
      → (it : Item) × (get_elem? p.items i ≡ some it) × (eqv h.collation k it.file ≡ true)

-- What a search for `file` should return: the item of that name which is not deleted, if any.
abbrev pub Finds : Host → Plist → Text → Option ℕ → Type 0
Finds h p file none =
    (i : ℕ) (it : Item)
    → get_elem? p.items i ≡ some it
    → it.deleted ≡ false
    → eqv h.collation file it.file ≡ false
Finds h p file (some i) =
    (it : Item) × (get_elem? p.items i ≡ some it)
    × (it.deleted ≡ false)
    × (eqv h.collation file it.file ≡ true)

pub find_miss :
    (h : Host) (p : Plist) (file : Text)
    → IsIndexed h p
    → find h.collation file p.search_tree ≡ none
    → Finds h p file none
find_miss h p file v e i it g present =
    ground (arith, v.found i it g present, find_congr h.collation file it.file p.search_tree)

find_deleted :
    (h : Host) (p : Plist) (file : Text) (i : ℕ) (it : Item)
    → IsIndexed h p
    → find h.collation file p.search_tree ≡ some i
    → get_elem? p.items i ≡ some it
    → it.deleted ≡ true
    → Finds h p file none
find_deleted h p file i it v e g gone j it' g' present =
    ground (arith, v.found j it' g' present, find_congr h.collation file it'.file p.search_tree)

-- On a list whose search tree leads to every item that is not deleted, and only to items of the name,
-- `plist_find_fname` passes its assertion and finds the item of that name that is not deleted, if there is one.
pub plist_find_fname-Finds :
    (h : Host) (p : Plist) (file : Text)
    → IsIndexed h p
    → (r : Option ℕ) × (plist_find_fname h p file ≡ some r) × Finds h p file r
unfolding plist_find_fname plist_deleted
plist_find_fname-Finds h p file v = elim (Option-cases (find h.collation file p.search_tree)) [
  | inl miss ↦ (none, rw (miss, plist_find_fname), find_miss h p file v miss)
  | inr (i, hit) ↦
      let (it, g, same) = v.sound file i hit in
      elim (Bool-cases it.deleted) [
        | inl gone ↦ (none, ground arith, find_deleted h p file i it v hit g gone)
        | inr present ↦ (some i, ground arith, (it, g, present, same))
      ]
]

-- An item at the end under a name that no item has which is not deleted.
pub append-IsIndexed :
    (h : Host) (p q : Plist) (y : Item)
    → IsIndexed h p
    → Finds h p y.file none
    → q.items ≡ p.items ++ (y ∷ [])
    → q.search_tree ≡ insert h.collation y.file (length p.items) p.search_tree
    → IsIndexed h q
append-IsIndexed h p q y v absent e t = record { found = found'; sound = sound' }
  where
    c : Collation
    c = h.collation

    found' :
        (i : ℕ) (it : Item)
        → get_elem? q.items i ≡ some it
        → it.deleted ≡ false
        → find c it.file q.search_tree ≡ some i
    found' i it g present = ground (
      arith,
      ap (λ (xs : List Item). get_elem? xs i) e,
      ap (λ (m : Tree ℕ). find c it.file m) t,
      get_elem?-append_one p.items y i,
      find-insert c it.file y.file (length p.items) p.search_tree,
      eqv_refl c y.file,
      eqv_sym c y.file it.file,
      absent i it,
      v.found i it,
    )

    sound' :
        (k : Text) (i : ℕ)
        → find c k q.search_tree ≡ some i
        → (it : Item) × (get_elem? q.items i ≡ some it) × (eqv c k it.file ≡ true)
    sound' k i f = elim (Bool-cases (eqv c k y.file)) [
      | inl same ↦
          let last : i ≡ length p.items = ground (
            arith,
            ap (λ (m : Tree ℕ). find c k m) t,
            find-insert c k y.file (length p.items) p.search_tree,
          ) in
          (
            y,
            ground (
              arith,
              last,
              ap (λ (xs : List Item). get_elem? xs i) e,
              get_elem?-append_one p.items y i,
            ),
            same,
          )
      | inr differ ↦
          let old : find c k p.search_tree ≡ some i = ground (
            arith,
            ap (λ (m : Tree ℕ). find c k m) t,
            find-insert c k y.file (length p.items) p.search_tree,
          ) in
          let (it, g, same) = v.sound k i old in
          (
            it,
            ground (
              arith,
              ap (λ (xs : List Item). get_elem? xs i) e,
              get_elem?-append_one p.items y i,
              lt_of_get_elem? p.items i g,
            ),
            same,
          )
    ]

-- A change of one item that keeps its name and does not bring it back.
pub replace-IsIndexed :
    (h : Host) (p q : Plist) (num : ℕ) {x : Item} (y : Item)
    → IsIndexed h p
    → get_elem? p.items num ≡ some x
    → q.items ≡ set p.items num y
    → q.search_tree ≡ p.search_tree
    → y.file ≡ x.file
    → (y.deleted ≡ false → x.deleted ≡ false)
    → IsIndexed h q
replace-IsIndexed h p q num {x} y v gx e t same_file kept = record {
  found = found';
  sound = sound';
}
  where
    c : Collation
    c = h.collation

    at : (i : ℕ) → get_elem? q.items i ≡ (if i == num then some y else get_elem? p.items i)
    at i = ground (
      arith,
      ap (λ (xs : List Item). get_elem? xs i) e,
      get_elem?-set p.items num i y,
      lt_of_get_elem? p.items num gx,
    )

    found' :
        (i : ℕ) (it : Item)
        → get_elem? q.items i ≡ some it
        → it.deleted ≡ false
        → find c it.file q.search_tree ≡ some i
    found' i it g present = elim (Bool-cases (i == num)) [
      | inl here ↦
          let same : y ≡ it = ground (arith, at i) in
          rw (← same, same_file, t) (ground (arith, v.found num x gx (kept (ground (arith, same)))))
      | inr other ↦ rw t (v.found i it (ground (arith, at i)) present)
    ]

    sound' :
        (k : Text) (i : ℕ)
        → find c k q.search_tree ≡ some i
        → (it : Item) × (get_elem? q.items i ≡ some it) × (eqv c k it.file ≡ true)
    sound' k i f =
        let (it, g, same) = v.sound k i (rw (← t) f) in
        elim (Bool-cases (i == num)) [
          | inl here ↦
              let x-it : x ≡ it = ground arith in
              (y, ground (arith, at i), rw (same_file, x-it) same)
          | inr other ↦ (it, ground (arith, at i), same)
        ]
