-- ===== src/Playlist/Join.antt =====
-- library/playlist.cpp: `plist_cat`, and that every operation keeps both the counters and the tree.
use mathlib.Core.List.{append-nil, append_assoc}
use mocf.Base.{
  ℕ, ◌≡◌, refl, ap, sym, ◌∙◌, true, false, Option, none, some, List, [], ◌∷◌, ◌++◌, inl, inr, Text,
  is_empty, arith, get_elem?, length, Bool-cases, get_elem?-append_left, get_elem?-set,
  lt_of_get_elem?, set-append, get_elem?-append_here,
}
use mocf.SearchTree.{find, eqv_refl}
use mocf.Playlist.Data.{empty_plist, Item, Plist, Host, plist_deleted}
use mocf.Playlist.Search.{plist_find_fname}
use mocf.Playlist.Edit.{
  new_item, plist_add_from_item, plist_delete, deleted_at, cat_item, cat_items, plist_cat,
}
use mocf.Playlist.Tally.{IsCounted, tally, dead, unnamed, tally-append}
use mocf.Playlist.Counters.{
  plist_delete_returns, deleted_at-IsCounted, plist_add_from_item-IsCounted,
}
use mocf.Playlist.Index.{
  IsIndexed, Finds, plist_find_fname-Finds, append-IsIndexed, replace-IsIndexed,
}

pub record IsGood (h : Host) (p : Plist) : Type 0 where
  pub counted : IsCounted p
  pub indexed : IsIndexed h p

pub empty-IsGood : (h : Host) → IsGood h empty_plist
unfolding find
empty-IsGood h = record {
  counted = record { live_counted = refl; timed_counted = refl; time_counted = refl };
  indexed = record { found = λ i it g present. cc; sound = λ k i f. absurd (no_entry k i f) };
}
  where
    no_entry : (k : Text) (i : ℕ) → find h.collation k [] ≡ some i → ⊥
    no_entry k i f = cc

-- `plist_delete` of an item that is not deleted passes its assertions and keeps the counters and the
-- tree right, and afterwards a search for the item's file finds nothing.
pub plist_delete-IsGood :
    (h : Host) (p : Plist) (num : ℕ) (item : Item)
    → IsGood h p
    → get_elem? p.items num ≡ some item
    → item.deleted ≡ false
    → (q : Plist) × (plist_delete p num ≡ some q)
      × IsGood h q
      × (plist_find_fname h q item.file ≡ some none)
unfolding plist_find_fname plist_deleted
plist_delete-IsGood h p num item v g present = (
  deleted_at p num item,
  plist_delete_returns p num item v.counted g present,
  record {
    counted = deleted_at-IsCounted p num item v.counted g present;
    indexed =
        replace-IsIndexed h p (deleted_at p num item) num (record item { deleted = true }) v.indexed
          g refl refl refl (λ bad. cc);
  },
  ground (
    arith,
    v.indexed.found num item g present,
    get_elem?-set p.items num num (record item { deleted = true }),
    lt_of_get_elem? p.items num g,
  ),
)

-- `plist_add_from_item` of an item that is not deleted, under a name that a search does not find,
-- keeps the counters and the tree right.
pub add_from_item-IsGood :
    (h : Host) (p : Plist) (item : Item)
    → IsGood h p
    → item.deleted ≡ false
    → Finds h p item.file none
    → IsGood h (plist_add_from_item h p item).0
unfolding plist_add_from_item
add_from_item-IsGood h p item v present absent = record {
  counted = plist_add_from_item-IsCounted h p item v.counted present;
  indexed =
      append-IsIndexed h p _ item v.indexed absent
        (set-append p.items (new_item h (some item.file)) item) refl;
}

added_item :
    (h : Host) (p : Plist) (item : Item)
    → (plist_add_from_item h p item).0.items ≡ p.items ++ (item ∷ [])
unfolding plist_add_from_item
added_item h p item = set-append p.items (new_item h (some item.file)) item

-- Every live item of the list has a name.
abbrev pub IsNamed : List Item → Type 0
IsNamed [] = Unit
IsNamed (it ∷ its) = (it.deleted ≡ false → is_empty it.file ≡ false) × IsNamed its

-- A live item of that name is there.
abbrev pub Has : Host → Plist → Text → Type 0
Has h p file = (i : ℕ) × Finds h p file (some i)

-- Every live item of the list is there by its name.
abbrev pub HasAll : Host → Plist → List Item → Type 0
HasAll h p [] = Unit
HasAll h p (it ∷ its) = (it.deleted ≡ false → Has h p it.file) × HasAll h p its

-- What `plist_cat` makes of `a`: the items of `a` stay where they are, those of the other list are
-- there by their names, and the new playlist is good.
pub record Joined (h : Host) (a : Plist) (its : List Item) (r : Option Plist) : Type 0 where
  pub result : Plist
  pub returned : r ≡ some result
  pub good : IsGood h result
  pub added : List Item
  pub extends : result.items ≡ a.items ++ added
  pub added_live : tally dead added ≡ 0
  pub added_named : tally unnamed added ≡ 0
  pub has_all : HasAll h result its

-- A name that is there stays there when items are added behind the others.
Has-extend :
    (h : Host) (p q : Plist) (added : List Item) (file : Text)
    → q.items ≡ p.items ++ added
    → Has h p file
    → Has h q file
Has-extend h p q added file e (i, (it, g, present, same)) =
    (i, (it, rw e (get_elem?-append_left p.items added i g), present, same))

HasAll-extend :
    (h : Host) (p q : Plist) (added its : List Item)
    → q.items ≡ p.items ++ added
    → HasAll h p its
    → HasAll h q its
HasAll-extend h p q added [] e a = tt
HasAll-extend h p q added (it ∷ its) e a =
    (λ present. Has-extend h p q added it.file e (a.0 present), HasAll-extend h p q added its e a.1)

-- One round of the loop of `plist_cat`.
record JoinedOne (h : Host) (a : Plist) (item : Item) (r : Option Plist) : Type 0 where
  result : Plist
  returned : r ≡ some result
  good : IsGood h result
  added : List Item
  extends : result.items ≡ a.items ++ added
  added_live : tally dead added ≡ 0
  added_named : tally unnamed added ≡ 0
  has_it : item.deleted ≡ false → Has h result item.file

same_list :
    (h : Host) (a : Plist) (item : Item) {r : Option Plist}
    → IsGood h a
    → r ≡ some a
    → (item.deleted ≡ false → Has h a item.file)
    → JoinedOne h a item r
same_list h a item v e has = record {
  result = a;
  returned = e;
  good = v;
  added = [];
  extends = sym (append-nil a.items);
  added_live = refl;
  added_named = refl;
  has_it = has;
}

cat_item_deleted :
    (h : Host) (a : Plist) (item : Item) → item.deleted ≡ true → cat_item h a item ≡ some a
unfolding cat_item
cat_item_deleted h a item gone = ground arith

cat_item_live :
    (h : Host) (a : Plist) (item : Item) (r : Option ℕ)
    → item.deleted ≡ false
    → is_empty item.file ≡ false
    → plist_find_fname h a item.file ≡ some r
    → cat_item h a item ≡ some (elim r [ none ↦ (plist_add_from_item h a item).0 | some i ↦ a ])
unfolding cat_item
cat_item_live h a item r present named e = ground arith

cat_item-live :
    (h : Host) (a : Plist) (item : Item)
    → IsGood h a
    → item.deleted ≡ false
    → is_empty item.file ≡ false
    → (r : Option ℕ) → plist_find_fname h a item.file ≡ some r
    → Finds h a item.file r
    → JoinedOne h a item (cat_item h a item)
cat_item-live h a item v present named (some i) e f =
    same_list h a item v (cat_item_live h a item (some i) present named e) (λ _. (i, f))
cat_item-live h a item v present named none e f = record {
  result = (plist_add_from_item h a item).0;
  returned = cat_item_live h a item none present named e;
  good = add_from_item-IsGood h a item v present f;
  added = item ∷ [];
  extends = added_item h a item;
  added_live = rw present refl;
  added_named = rw (present, named) refl;
  has_it = λ _. (
    length a.items,
    (
      item,
      rw (added_item h a item) (get_elem?-append_here a.items item []),
      present,
      eqv_refl h.collation item.file,
    ),
  );
}

cat_item-JoinedOne :
    (h : Host) (a : Plist) (item : Item)
    → IsGood h a
    → (item.deleted ≡ false → is_empty item.file ≡ false)
    → JoinedOne h a item (cat_item h a item)
cat_item-JoinedOne h a item v named = elim (Bool-cases item.deleted) [
  | inl gone ↦ same_list h a item v (cat_item_deleted h a item gone) (λ present. cc)
  | inr present ↦
      let (r, e, f) = plist_find_fname-Finds h a item.file v.indexed in
      cat_item-live h a item v present (named present) r e f
]

cat_items-Joined :
    (h : Host) (a : Plist) (its : List Item)
    → IsGood h a
    → IsNamed its
    → Joined h a its (cat_items h a its)
unfolding cat_items
cat_items-Joined h a [] v n = record {
  result = a;
  returned = refl;
  good = v;
  added = [];
  extends = sym (append-nil a.items);
  added_live = refl;
  added_named = refl;
  has_all = tt;
}
cat_items-Joined h a (it ∷ its) v n =
    let one = cat_item-JoinedOne h a it v n.0 in
    let rest = cat_items-Joined h one.result its one.good n.1 in
    record {
      result = rest.result;
      returned = rw one.returned rest.returned;
      good = rest.good;
      added = one.added ++ rest.added;
      extends =
          rest.extends
          ∙ ap (λ (r : List Item). r ++ rest.added) one.extends
          ∙ append_assoc a.items one.added rest.added;
      added_live =
          omega (arith, tally-append dead one.added rest.added, one.added_live, rest.added_live);
      added_named =
          omega
            (arith, tally-append unnamed one.added rest.added, one.added_named, rest.added_named);
      has_all = (
        λ present.
            Has-extend h one.result rest.result rest.added it.file rest.extends
              (one.has_it present),
        rest.has_all,
      );
    }

-- `plist_cat` passes its assertions when the items of `b` that are not deleted have names: the items
-- of `a` stay where they are, the others follow them, every live item of `b` is there by its name,
-- and the counters and the tree are right.
pub plist_cat-Joined :
    (h : Host) (a b : Plist) → IsGood h a → IsNamed b.items → Joined h a b.items (plist_cat h a b)
unfolding plist_cat
plist_cat-Joined h a b v n = cat_items-Joined h a b.items v n
