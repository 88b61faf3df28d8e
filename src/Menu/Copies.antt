-- ===== src/Menu/Copies.antt =====
-- ui/curses/menu.cpp: `menu_add_from_item` adds a copy.
use mocf.Base.{
  Bool-cases, inl, inr, sym, ◌∙◌, old_or_last, ℕ, suc, ◌<◌, ◌≡◌, ◌≢◌, refl, ap, false, Option, none,
  some, List, [], ◌∷◌, ◌++◌, Text, arith, is_empty, if◌then◌else◌, get_elem?, ◌==◌,
}
use mocf.SearchTree.{find, insert, eqv, find-insert, eqv_refl}
use mocf.SearchTree.Bytewise.{bytewise}
use mocf.Menu.Data.{MenuItem, Menu, menu_add, new_menu_item, menu_find, file_name}
use mocf.Menu.Items.{copied_into, change_item, menu_add_from_item}
use mocf.Menu.Pointers.{IsLinked, appended, appended-IsLinked}

-- A change through the address of the last item, which no other item has.
change_item-append :
    (a : ℕ) (f : MenuItem → MenuItem) (xs : List MenuItem) (y : MenuItem)
    → y.addr ≡ a
    → ((i : ℕ) (x : MenuItem) → get_elem? xs i ≡ some x → x.addr < a)
    → change_item a f (xs ++ (y ∷ [])) ≡ xs ++ (f y ∷ [])
change_item-append a f [] y e below = ground (arith, e)
change_item-append a f (x ∷ xs) y e below =
    let lt = below 0 x refl in
    let other : (x.addr == a) ≡ false = ground (arith, lt) in
    rw other (
      ap (λ (r : List MenuItem). x ∷ r)
        (change_item-append a f xs y e (λ i z g. below (suc i) z g)))

abbrev pub added_file : MenuItem → Option Text
added_file mi = if is_empty mi.file then none else some mi.file

abbrev pub added : Menu → MenuItem → MenuItem
added m mi = copied_into (new_menu_item m mi.title mi.kind (added_file mi)) mi

pub menu_add_from_item-appended :
    (m : Menu) (mi : MenuItem)
    → IsLinked m
    → menu_add_from_item m mi ≡ appended m (added m mi) (added_file mi)
unfolding menu_add_from_item menu_add
menu_add_from_item-appended m mi h =
    ap (λ (r : List MenuItem). record (appended m (added m mi) (added_file mi)) { items = r })
      (change_item-append m.next_addr (λ dst. copied_into dst mi) m.items
        (new_menu_item m mi.title mi.kind (added_file mi)) refl h.fresh)

named_or_none : (t : Text) → (if is_empty t then none else some t) ≢ some []
named_or_none [] = λ e. cc
named_or_none (x ∷ t) = λ e. let z : ◌≡◌ {A = Text} (x ∷ t) [] = cc in cc

pub menu_add_from_item-IsLinked :
    (m : Menu) (mi : MenuItem) → IsLinked m → IsLinked (menu_add_from_item m mi)
menu_add_from_item-IsLinked m mi h =
    rw (menu_add_from_item-appended m mi h)
      (appended-IsLinked m (added m mi) h refl refl (added_file mi) refl (named_or_none mi.file))

-- Every item with a file is found by it.
pub record IsComplete (m : Menu) : Type 0 where
  pub found :
      (i : ℕ) (x : MenuItem)
      → get_elem? m.items i ≡ some x
      → is_empty x.file ≡ false
      → (a : ℕ) × (menu_find m x.file ≡ some a)

find_or_old :
    (f key : Text) (a : ℕ) (m : Menu) (o : ℕ)
    → find bytewise key m.search_tree ≡ some o
    → (r : ℕ) × (find bytewise key (insert bytewise f a m.search_tree) ≡ some r)
find_or_old f key a m o e = elim (Bool-cases (eqv bytewise key f)) [
  | inl same ↦ (a, ground (arith, find-insert bytewise key f a m.search_tree, same))
  | inr other ↦ (o, ground (arith, find-insert bytewise key f a m.search_tree, other, e))
]

find_new :
    (f : Text) (a : ℕ) (m : Menu) → find bytewise f (insert bytewise f a m.search_tree) ≡ some a
find_new f a m = ground (arith, find-insert bytewise f f a m.search_tree, eqv_refl bytewise f)

appended-found :
    (m : Menu) (new : MenuItem) (file : Option Text) (key : Text) (o : ℕ)
    → menu_find m key ≡ some o
    → (r : ℕ) × (menu_find (appended m new file) key ≡ some r)
unfolding menu_find
appended-found m new none key o e = (o, e)
appended-found m new (some f) key o e = find_or_old f key m.next_addr m o e

added-found :
    (m : Menu) (mi new : MenuItem)
    → is_empty mi.file ≡ false
    → (r : ℕ) × (menu_find (appended m new (added_file mi)) mi.file ≡ some r)
unfolding menu_find
added-found m mi new named = rw named (m.next_addr, find_new mi.file m.next_addr m)

-- The copy has the file.
pub added-file : (m : Menu) (mi : MenuItem) → (added m mi).file ≡ mi.file
added-file m mi = file_of mi.file
  where
    file_of : (t : Text) → file_name (if is_empty t then none else some t) ≡ t
    file_of [] = refl
    file_of (x ∷ t) = refl

pub menu_add_from_item-IsComplete :
    (m : Menu) (mi : MenuItem) → IsLinked m → IsComplete m → IsComplete (menu_add_from_item m mi)
menu_add_from_item-IsComplete m mi h c = rw (menu_add_from_item-appended m mi h) record {
  found = λ i x at named. elim (old_or_last m.items (added m mi) i at) [
    | inr old ↦
        let (o, e) = c.found i x old named in
        appended-found m (added m mi) (added_file mi) x.file o e
    | inl (_, last) ↦
        let same : x.file ≡ mi.file = ap (λ (z : MenuItem). z.file) last ∙ added-file m mi in
        let (r, e) = added-found m mi (added m mi) (ap is_empty (sym same) ∙ named) in
        (r, ap (menu_find (appended m (added m mi) (added_file mi))) same ∙ e)
  ];
}
