-- ===== src/Playlist/Reindex.antt =====
-- library/playlist.cpp: the search tree that is built again from the items, and `plist_shuffle`.
use mocf.Base.{
  ℕ, zero, suc, ◌+◌, ◌-◌, ◌≡◌, refl, sym, ap, ◌∙◌, true, false, some, List, [], ◌∷◌, Text, ◌⊎◌, inl,
  inr, arith, get_elem?, length, Bool-cases,
}
use mocf.Base.Int.{pos}
use mocf.SearchTree.{Tree, eqv, find, insert, find-insert, eqv_refl}
use mocf.Playlist.Data.{Item, Plist, Host}
use mocf.Playlist.Order.{index_from, plist_shuffle}
use mocf.Playlist.Tally.{tally, live, timed, seconds, IsCounted}
use mocf.Playlist.Index.{IsIndexed}
use mocf.Playlist.Moves.{AreDistinct, IsMoved, shuffle_from-IsMoved}

-- A name that none of the items has keeps its entry.
index_from-other :
    (h : Host) (i : ℕ) (its : List Item) (tree : Tree ℕ) (key : Text)
    → ((k : ℕ) (x : Item) → get_elem? its k ≡ some x → eqv h.collation key x.file ≡ false)
    → find h.collation key (index_from h i its tree) ≡ find h.collation key tree
unfolding index_from
index_from-other h i [] tree key none_of = refl
index_from-other h i (it ∷ its) tree key none_of =
    index_from-other h (i + 1) its (insert h.collation it.file i tree) key
      (λ k x e. none_of (suc k) x e)
    ∙ ground (arith, find-insert h.collation key it.file i tree, none_of 0 it refl)

-- Each item is found by its name at its place.
index_from-found :
    (h : Host) (i : ℕ) (its : List Item) (tree : Tree ℕ)
    → AreDistinct h its
    → (k : ℕ) (x : Item) → get_elem? its k ≡ some x
    → find h.collation x.file (index_from h i its tree) ≡ some (i + k)
unfolding index_from
index_from-found h i [] tree d k x e = cc
index_from-found h i (it ∷ its) tree d zero x e =
    let other : (k : ℕ) (z : Item)
        → get_elem? its k ≡ some z
        → eqv h.collation x.file z.file ≡ false =
      λ k z g. elim (Bool-cases (eqv h.collation x.file z.file)) [
        | inl same ↦ absurd (let q : 0 ≡ suc k = d 0 (suc k) x z e g same in omega arith)
        | inr differ ↦ differ
      ] in
    let it_is : it ≡ x = cc in
    let file : it.file ≡ x.file = ap (λ (z : Item). z.file) it_is in
    let same : eqv h.collation x.file it.file ≡ true = rw file (eqv_refl h.collation x.file) in
    index_from-other h (i + 1) its (insert h.collation it.file i tree) x.file other
    ∙ ground (arith, find-insert h.collation x.file it.file i tree, same)
index_from-found h i (it ∷ its) tree d (suc k) x e =
    index_from-found h (i + 1) its (insert h.collation it.file i tree)
      (λ a b y z g g' same. let q : suc a ≡ suc b = d (suc a) (suc b) y z g g' same in omega arith)
      k x e
    ∙ ap (λ (n : ℕ). some n) (omega arith)

-- Each entry is of an item, or was there.
index_from_sound :
    (h : Host) (i : ℕ) (its : List Item) (tree : Tree ℕ) (key : Text) (n : ℕ)
    → find h.collation key (index_from h i its tree) ≡ some n
    → ((k : ℕ) × (x : Item) × (n ≡ i + k)
        × (get_elem? its k ≡ some x)
        × (eqv h.collation key x.file ≡ true))
      ⊎ (find h.collation key tree ≡ some n)
unfolding index_from
index_from_sound h i [] tree key n e = inr e
index_from_sound h i (it ∷ its) tree key n e =
    elim (index_from_sound h (i + 1) its (insert h.collation it.file i tree) key n e) [
      | inl (k, x, q, g, same) ↦ inl (suc k, x, omega (arith, q), g, same)
      | inr e' ↦ elim (Bool-cases (eqv h.collation key it.file)) [
        | inl same ↦
            let q : some i ≡ some n =
              ground (arith, find-insert h.collation key it.file i tree, same, e') in
            inl (0, it, ground (arith, q), refl, same)
        | inr differ ↦ inr (ground (arith, find-insert h.collation key it.file i tree, differ, e'))
      ]
    ]

-- A tree that is built again finds all items of different names.
pub reindexed-IsIndexed :
    (h : Host) (p : Plist)
    → AreDistinct h p.items
    → p.search_tree ≡ index_from h 0 p.items []
    → IsIndexed h p
unfolding find
reindexed-IsIndexed h p d e = record {
  found = λ i it g present.
      ap (find h.collation it.file) e
      ∙ index_from-found h 0 p.items [] d i it g
      ∙ ap (λ (n : ℕ). some n) (omega arith);
  sound = λ key n f.
      elim (index_from_sound h 0 p.items [] key n (sym (ap (find h.collation key) e) ∙ f)) [
        | inl (k, x, q, g, same) ↦
            (x, ap (λ (j : ℕ). get_elem? p.items j) (q ∙ omega arith) ∙ g, same)
        | inr none_left ↦ cc
      ];
}

-- Moving items keeps the counters right.
pub moved-IsCounted :
    (p q : Plist)
    → IsCounted p
    → IsMoved p.items q.items
    → q.not_deleted ≡ p.not_deleted
    → q.items_with_time ≡ p.items_with_time
    → q.total_time ≡ p.total_time
    → IsCounted q
moved-IsCounted p q v m e e' e'' = record {
  live_counted = e ∙ v.live_counted ∙ sym (m.same_tally live);
  timed_counted = e' ∙ v.timed_counted ∙ ap pos (sym (m.same_tally timed));
  time_counted = e'' ∙ v.time_counted ∙ sym (m.same_tally_ℤ seconds);
}

pub shuffled :
    (h : Host) (rand : ℕ → ℕ) (p : Plist)
    → (items : List Item) × (plist_shuffle h rand p
        ≡ some (record p { items = items; search_tree = index_from h 0 items [] }))
      × IsMoved p.items items
unfolding plist_shuffle
shuffled h rand p =
    let (items, e, m) = shuffle_from-IsMoved rand (length p.items - 1) p.items (ground arith) in
    (items, rw e refl, m)

-- Whatever `rand()` gives, `plist_shuffle` passes its assertions, changes nothing but the places of the
-- items (every weight has the same sum over them), and keeps the counters right.
pub plist_shuffle-IsCounted :
    (h : Host) (rand : ℕ → ℕ) (p : Plist)
    → IsCounted p
    → (q : Plist) × (plist_shuffle h rand p ≡ some q)
      × ((w : Item → ℕ) → tally w q.items ≡ tally w p.items)
      × IsCounted q
plist_shuffle-IsCounted h rand p v =
    let (items, e, m) = shuffled h rand p in
    let q : Plist = record p { items = items; search_tree = index_from h 0 items [] } in
    (q, e, m.same_tally, moved-IsCounted p q v m refl refl refl)

-- Where no two items have one name, deleted ones included, every item that is not deleted is found
-- after `plist_shuffle`.
pub plist_shuffle-IsIndexed :
    (h : Host) (rand : ℕ → ℕ) (p : Plist)
    → AreDistinct h p.items
    → (q : Plist) × (plist_shuffle h rand p ≡ some q) × IsIndexed h q
plist_shuffle-IsIndexed h rand p d =
    let (items, e, m) = shuffled h rand p in
    let q : Plist = record p { items = items; search_tree = index_from h 0 items [] } in
    (q, e, reindexed-IsIndexed h q (m.distinct h d) refl)
