-- ===== src/Playlist/Live.antt =====
-- library/playlist.cpp: which names the items that are not deleted have, counted over the items, and
-- `plist_add`.
use mocf.Base.{
  ℕ, zero, suc, ◌<◌, ◌≡◌, refl, ap, sym, ◌∙◌, true, false, some, none, List, [], ◌∷◌, ◌++◌, ◌⊎◌,
  inl, inr, Text, if◌then◌else◌, arith, ◌==◌, get_elem?, set, Bool-cases, get_elem?-set,
  lt_of_get_elem?,
}
use mocf.SearchTree.{eqv, find, find_congr, eqv_congr}
use mocf.Playlist.Data.{Item, Plist, Host, plist_deleted}
use mocf.Playlist.Search.{plist_find_fname}
use mocf.Playlist.Edit.{plist_add, new_item, plist_cat}
use mocf.Playlist.Tally.{unnamed, tally, live, dead, IsCounted, le-tally}
use mocf.Playlist.Counters.{plist_add-IsCounted}
use mocf.Playlist.Index.{IsIndexed, Finds, append-IsIndexed}
use mocf.Playlist.Join.{IsGood, IsNamed, Has, HasAll, plist_cat-Joined}
use mocf.Playlist.Moves.{AreDistinct}

-- 1 for a live item of that name.
abbrev pub named_live : Host → Text → Item → ℕ
named_live h file it = if it.deleted then 0 else if eqv h.collation file it.file then 1 else 0

pub exists_of_tally :
    (w : Item → ℕ) (xs : List Item)
    → 0 < tally w xs
    → (i : ℕ) × (it : Item) × (get_elem? xs i ≡ some it) × (0 < w it)
exists_of_tally w [] lt = absurd (omega arith)
exists_of_tally w (x ∷ xs) lt = elim split [
  | inl here ↦ (0, x, refl, here)
  | inr later ↦ let (i, it, g, p) = exists_of_tally w xs later in (suc i, it, g, p)
]
  where
    split : (0 < w x) ⊎ (0 < tally w xs)
    split = ground arith

pub Has-tally :
    (h : Host) (p : Plist) (file : Text) → 0 < tally (named_live h file) p.items → Has h p file
Has-tally h p file lt =
    let (i, it, g, pos) = exists_of_tally (named_live h file) p.items lt in
    (i, (it, g, ground (arith, pos), ground (arith, pos)))

pub tally-Has :
    (h : Host) (p : Plist) (file : Text) → Has h p file → 0 < tally (named_live h file) p.items
tally-Has h p file (i, (it, g, present, same)) =
    let one : named_live h file it ≡ 1 = rw (present, same) refl in
    omega (arith, one, le-tally (named_live h file) p.items i g)

-- A live item, where the counter is positive.
pub live_item :
    (p : Plist)
    → IsCounted p
    → 0 < p.not_deleted
    → (i : ℕ) × (it : Item) × (get_elem? p.items i ≡ some it) × (it.deleted ≡ false)
live_item p v lt =
    let (i, it, g, one) = exists_of_tally live p.items (omega (arith, v.live_counted)) in
    (i, it, g, ground (arith, one))

pub counted_of_Has :
    (h : Host) (p : Plist) (file : Text) → IsCounted p → Has h p file → 0 < p.not_deleted
counted_of_Has h p file v (i, (it, g, present, same)) =
    let one : live it ≡ 1 = rw present refl in
    omega (arith, one, le-tally live p.items i g, v.live_counted)

-- Names stay when items move, or when their shares in the count stay.
pub same-Has :
    (h : Host) (p q : Plist) (file : Text)
    → tally (named_live h file) q.items ≡ tally (named_live h file) p.items
    → Has h p file
    → Has h q file
same-Has h p q file e has = Has-tally h q file (omega (arith, tally-Has h p file has))

pub tally-IsNamed : (xs : List Item) → tally unnamed xs ≡ 0 → IsNamed xs
tally-IsNamed [] e = tt
tally-IsNamed (x ∷ xs) e = (λ present. ground arith, tally-IsNamed xs (omega arith))

-- The names of the items of a list, looked up.
pub HasAll-Has :
    (h : Host) (q : Plist) (its : List Item) (i : ℕ) (it : Item)
    → HasAll h q its
    → get_elem? its i ≡ some it
    → it.deleted ≡ false
    → Has h q it.file
HasAll-Has h q [] i it all g present = cc
HasAll-Has h q (x ∷ xs) zero it all g present =
    let same : x ≡ it = cc in
    let file : x.file ≡ it.file = ap (λ (z : Item). z.file) same in
    let live : x.deleted ≡ false = ap (λ (z : Item). z.deleted) same ∙ present in
    rw (← file) (all.0 live)
HasAll-Has h q (x ∷ xs) (suc i) it all g present = HasAll-Has h q xs i it all.1 g present

-- A name that is equivalent to one that is there.
pub eqv-Has :
    (h : Host) (q : Plist) (a b : Text) → eqv h.collation a b ≡ true → Has h q b → Has h q a
eqv-Has h q a b e (i, (it, g, present, same)) =
    (i, (it, g, present, eqv_congr h.collation a b it.file e ∙ same))

-- Two live items of one name are the same item.
pub same_place :
    (h : Host) (p : Plist) (i j : ℕ) (x y : Item)
    → IsIndexed h p
    → get_elem? p.items i ≡ some x
    → get_elem? p.items j ≡ some y
    → x.deleted ≡ false
    → y.deleted ≡ false
    → eqv h.collation x.file y.file ≡ true
    → i ≡ j
same_place h p i j x y v gx gy lx ly same = some_inj (
    sym (v.found i x gx lx)
    ∙ find_congr h.collation x.file y.file p.search_tree same
    ∙ v.found j y gy ly)
  where
    some_inj : {a b : ℕ} → some a ≡ some b → a ≡ b
    some_inj e = cc

-- `plist_add` of a name that a search does not find keeps counters and tree right.
pub plist_add-IsGood :
    (h : Host) (p : Plist) (file : Text)
    → IsGood h p
    → Finds h p file none
    → IsGood h (plist_add h p (some file)).0
unfolding plist_add
plist_add-IsGood h p file v absent = record {
  counted = plist_add-IsCounted h p (some file) v.counted;
  indexed =
      append-IsIndexed h p (plist_add h p (some file)).0 (new_item h (some file)) v.indexed absent
        refl refl;
}

-- Another item of the same name at one place.
pub set-AreDistinct :
    (h : Host) (xs : List Item) (num : ℕ) (x y : Item)
    → get_elem? xs num ≡ some x
    → y.file ≡ x.file
    → AreDistinct h xs
    → AreDistinct h (set xs num y)
set-AreDistinct h xs num x y g e d i j a b ga gb same =
    let (a', ga', ea) = before i a ga in
    let (b', gb', eb) = before j b gb in d i j a' b' ga' gb' (rw (ea, eb) same)
  where
    before :
        (i : ℕ) (a : Item)
        → get_elem? (set xs num y) i ≡ some a
        → (a' : Item) × (get_elem? xs i ≡ some a') × (a'.file ≡ a.file)
    before i a ga = elim (Bool-cases (i == num)) [
      | inl here ↦
          let at : some y ≡ some a =
            ground (arith, get_elem?-set xs num i y, lt_of_get_elem? xs num g) in
          let is_a : y ≡ a = cc in (x, ground arith, sym e ∙ ap (λ (z : Item). z.file) is_a)
      | inr other ↦ (a, ground (arith, get_elem?-set xs num i y), refl)
    ]

-- Where no item is deleted, no two items have one name.
pub live-AreDistinct :
    (h : Host) (p : Plist) → IsIndexed h p → tally dead p.items ≡ 0 → AreDistinct h p.items
live-AreDistinct h p v e i j x y gx gy same =
    same_place h p i j x y v gx gy (ground (arith, le-tally dead p.items i gx))
      (ground (arith, le-tally dead p.items j gy)) same

-- `plist_cat` to a list without items.
pub cat-fresh :
    (h : Host) (a b : Plist)
    → IsGood h a
    → a.items ≡ []
    → tally unnamed b.items ≡ 0
    → (q : Plist) × (plist_cat h a b ≡ some q)
      × IsGood h q
      × (tally unnamed q.items ≡ 0)
      × AreDistinct h q.items
      × ((file : Text) → Has h b file → Has h q file)
cat-fresh h a b v e named =
    let j = plist_cat-Joined h a b v (tally-IsNamed b.items named) in
    let items : j.result.items ≡ j.added = j.extends ∙ ap (λ (xs : List Item). xs ++ j.added) e in
    (
      j.result,
      j.returned,
      j.good,
      rw items j.added_named,
      live-AreDistinct h j.result j.good.indexed (rw items j.added_live),
      λ file (i, (it, g, present, same)).
          eqv-Has h j.result file it.file same
            (HasAll-Has h j.result b.items i it j.has_all g present),
    )

-- A live item is found by its name, and by any equivalent one.
pub plist_find_fname_at :
    (h : Host) (p : Plist) (file : Text) (i : ℕ) (it : Item)
    → IsIndexed h p
    → get_elem? p.items i ≡ some it
    → it.deleted ≡ false
    → eqv h.collation file it.file ≡ true
    → plist_find_fname h p file ≡ some (some i)
unfolding plist_find_fname plist_deleted
plist_find_fname_at h p file i it v g present same =
    let hit : find h.collation file p.search_tree ≡ some i =
      find_congr h.collation file it.file p.search_tree same ∙ v.found i it g present in
    rw (hit, plist_find_fname, g, present) refl
