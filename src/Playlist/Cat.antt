-- ===== src/Playlist/Cat.antt =====
-- library/playlist.cpp: `plist_cat` of any list.
use mocf.Base.{
  ◌≡◌, refl, Bool, true, false, not, ◌&&◌, ◌||◌, none, List, [], ◌∷◌, ◌⊎◌, inl, inr, is_empty,
  arith, Bool-cases, Option-cases,
}
use mocf.Playlist.Data.{Item, Plist, Host}
use mocf.Playlist.Edit.{cat_item, cat_items, plist_cat}
use mocf.Playlist.Join.{IsGood, IsNamed, Joined, plist_cat-Joined}

abbrev pub is_unnamed : Item → Bool
is_unnamed x = not x.deleted && is_empty x.file

-- There is a live item without a file name.
abbrev pub has_unnamed : List Item → Bool
has_unnamed [] = false
has_unnamed (x ∷ xs) = is_unnamed x || has_unnamed xs

pub named_item : (x : Item) → is_unnamed x ≡ false → x.deleted ≡ false → is_empty x.file ≡ false
named_item x e live = ground arith

pub unnamed_item : (x : Item) → is_unnamed x ≡ true → (x.deleted ≡ false) × (is_empty x.file ≡ true)
unnamed_item x e = (ground arith, ground arith)

pub either_false : (a b : Bool) → a || b ≡ false → (a ≡ false) × (b ≡ false)
either_false false b e = (refl, e)
either_false true b e = cc

pub later_true : (a b : Bool) → a || b ≡ true → a ≡ false → b ≡ true
later_true false b e f = e
later_true true b e f = cc

pub has_unnamed-IsNamed : (xs : List Item) → has_unnamed xs ≡ false → IsNamed xs
has_unnamed-IsNamed [] e = tt
has_unnamed-IsNamed (x ∷ xs) e =
    let both = either_false (is_unnamed x) (has_unnamed xs) e in
    (named_item x both.0, has_unnamed-IsNamed xs both.1)

cat_item_stops : (h : Host) (a : Plist) (x : Item) → is_unnamed x ≡ true → cat_item h a x ≡ none
unfolding cat_item
cat_item_stops h a x e = let (live, empty) = unnamed_item x e in rw (live, empty) refl

cat_items_stop :
    (h : Host) (a : Plist) (xs : List Item) → has_unnamed xs ≡ true → cat_items h a xs ≡ none
unfolding cat_items
cat_items_stop h a [] e = cc
cat_items_stop h a (x ∷ xs) e = elim (Bool-cases (is_unnamed x)) [
  | inl here ↦ rw (cat_item_stops h a x here) refl
  | inr there ↦
      let later = later_true (is_unnamed x) (has_unnamed xs) e there in
      elim (Option-cases (cat_item h a x)) [
        | inl stops ↦ rw stops refl
        | inr (a', goes) ↦ rw goes (cat_items_stop h a' xs later)
      ]
]

-- On a list `a` with right counters and tree, `plist_cat` stops at its assertion exactly where a live item of
-- `b` has no file name. Else the items of `a` stay where they are, others follow them, every live item of `b` is
-- there by its name, and the counters and the tree are right.
pub plist_cat-Joins :
    (h : Host) (a b : Plist)
    → IsGood h a
    → ((has_unnamed b.items ≡ false) × Joined h a b.items (plist_cat h a b))
      ⊎ ((has_unnamed b.items ≡ true) × (plist_cat h a b ≡ none))
unfolding plist_cat
plist_cat-Joins h a b v = elim (Bool-cases (has_unnamed b.items)) [
  | inl bad ↦ inr (bad, cat_items_stop h a b.items bad)
  | inr named ↦ inl (named, plist_cat-Joined h a b v (has_unnamed-IsNamed b.items named))
]
