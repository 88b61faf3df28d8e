-- ===== src/Playlist/Tally.antt =====
-- library/playlist.cpp: what the counters of a playlist stand for, as sums over its items.
use mocf.Base.{
  ℕ, zero, suc, ◌+◌, ◌≤◌, ◌≡◌, ap, some, List, [], ◌∷◌, ◌++◌, if◌then◌else◌, is_empty, arith,
  get_elem?, set,
}
use mocf.Base.Int.{ℤ, pos, ◌+ℤ◌, eqb_ℤ, int_laws, +ℤ_assoc, parts_of_eq}
use mocf.Playlist.Data.{Item, Plist, minus_one, tags_time}

abbrev pub tally : (Item → ℕ) → List Item → ℕ
tally w [] = 0
tally w (x ∷ xs) = w x + tally w xs

abbrev pub tally_ℤ : (Item → ℤ) → List Item → ℤ
tally_ℤ w [] = pos 0
tally_ℤ w (x ∷ xs) = w x +ℤ tally_ℤ w xs

-- 1 for an item that is not deleted.
abbrev pub live : Item → ℕ
live it = if it.deleted then 0 else 1

-- 1 for a deleted item.
abbrev pub dead : Item → ℕ
dead it = if it.deleted then 1 else 0

-- 1 for a live item without a name.
abbrev pub unnamed : Item → ℕ
unnamed it = if it.deleted then 0 else if is_empty it.file then 1 else 0

-- 1 for an item that is not deleted and has its time.
abbrev pub timed : Item → ℕ
timed it = if it.deleted then 0 else if eqb_ℤ (tags_time it.tags) minus_one then 0 else 1

-- The time of such an item, and 0 of any other.
abbrev pub seconds : Item → ℤ
seconds it =
    if it.deleted
    then pos 0
    else if eqb_ℤ (tags_time it.tags) minus_one
    then pos 0
    else tags_time it.tags

-- The counters are right: `not_deleted`, `items_with_time` and `total_time`.
pub record IsCounted (p : Plist) : Type 0 where
  pub live_counted : p.not_deleted ≡ tally live p.items
  pub timed_counted : p.items_with_time ≡ pos (tally timed p.items)
  pub time_counted : p.total_time ≡ tally_ℤ seconds p.items

pub tally-set :
    (w : Item → ℕ) (xs : List Item) (i : ℕ) {x : Item} (y : Item)
    → get_elem? xs i ≡ some x
    → tally w (set xs i y) + w x ≡ tally w xs + w y
tally-set w [] i y e = cc
tally-set w (z ∷ xs) zero y e = ground arith
tally-set w (z ∷ xs) (suc i) y e = omega (arith, tally-set w xs i y e)

pub tally_ℤ-set :
    (w : Item → ℤ) (xs : List Item) (i : ℕ) {x : Item} (y : Item)
    → get_elem? xs i ≡ some x
    → tally_ℤ w (set xs i y) +ℤ w x ≡ tally_ℤ w xs +ℤ w y
tally_ℤ-set w [] i y e = cc
tally_ℤ-set w (z ∷ xs) zero {x} y e = rw (head e) (omega int_laws)
  where
    head : some z ≡ some x → z ≡ x
    head e = cc
tally_ℤ-set w (z ∷ xs) (suc i) {x} y e =
    rw (+ℤ_assoc (w z) (tally_ℤ w (set xs i y)) (w x), +ℤ_assoc (w z) (tally_ℤ w xs) (w y))
      (ap (λ (t : ℤ). w z +ℤ t) (tally_ℤ-set w xs i y e))

pub tally-append : (w : Item → ℕ) (xs ys : List Item) → tally w (xs ++ ys) ≡ tally w xs + tally w ys
tally-append w [] ys = omega arith
tally-append w (x ∷ xs) ys = omega (arith, tally-append w xs ys)

pub tally_ℤ-append :
    (w : Item → ℤ) (xs ys : List Item) → tally_ℤ w (xs ++ ys) ≡ tally_ℤ w xs +ℤ tally_ℤ w ys
tally_ℤ-append w [] ys = omega int_laws
tally_ℤ-append w (x ∷ xs) ys = rw (tally_ℤ-append w xs ys) (omega int_laws)

-- A change of one item keeps the counters right, if it moves each of them by as much as the item's
-- own share.
pub replace-IsCounted :
    (p q : Plist) (num : ℕ) {x : Item} (y : Item)
    → IsCounted p
    → get_elem? p.items num ≡ some x
    → q.items ≡ set p.items num y
    → q.not_deleted + live x ≡ p.not_deleted + live y
    → q.items_with_time +ℤ pos (timed x) ≡ p.items_with_time +ℤ pos (timed y)
    → q.total_time +ℤ seconds x ≡ p.total_time +ℤ seconds y
    → IsCounted q
replace-IsCounted p q num {x} y v g e hl ht hs = record {
  live_counted = rw e (omega (arith, tally-set live p.items num y g, hl, v.live_counted));
  timed_counted = rw e (
      omega
        (int_laws, parts_of_eq ht, parts_of_eq v.timed_counted, tally-set timed p.items num y g));
  time_counted = rw e (
      omega (
        int_laws,
        parts_of_eq hs,
        parts_of_eq v.time_counted,
        parts_of_eq (tally_ℤ-set seconds p.items num y g),
      ));
}

pub le-tally :
    (w : Item → ℕ) (xs : List Item) (i : ℕ) {x : Item} → get_elem? xs i ≡ some x → w x ≤ tally w xs
le-tally w [] i e = cc
le-tally w (z ∷ xs) zero e = ground arith
le-tally w (z ∷ xs) (suc i) e = omega (arith, le-tally w xs i e)
