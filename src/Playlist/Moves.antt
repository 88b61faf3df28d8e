-- ===== src/Playlist/Moves.antt =====
-- library/playlist.cpp: `plist_swap` and the first loop of `plist_shuffle` only move items.
use mocf.Base.{
  ℕ, zero, suc, ◌+◌, ◌%◌, ◌<◌, ◌≡◌, ◌≢◌, refl, sym, ap, ◌∙◌, true, some, List, if◌then◌else◌, ◌==◌,
  ◌⊎◌, inl, inr, arith, get_elem?, set, length, Bool-cases, get_elem?_of_lt, get_elem?-set,
  length-set, lt_of_get_elem?, lt→ltb, ltb,
}
use mocf.Base.Int.{ℤ, int_laws, parts_of_eq}
use mocf.SearchTree.{eqv}
use mocf.Playlist.Data.{Item, Host}
use mocf.Playlist.Order.{swap_items, shuffle_from}
use mocf.Playlist.Tally.{tally, tally_ℤ, tally-set, tally_ℤ-set}

-- No two items, deleted ones included, have one name.
abbrev pub AreDistinct : Host → List Item → Type 0
AreDistinct h xs =
    (i j : ℕ) (x y : Item)
    → get_elem? xs i ≡ some x
    → get_elem? xs j ≡ some y
    → eqv h.collation x.file y.file ≡ true
    → i ≡ j

-- Other places for the same items.
pub record IsMoved (xs ys : List Item) : Type 0 where
  pub same_length : length ys ≡ length xs
  pub same_tally : (w : Item → ℕ) → tally w ys ≡ tally w xs
  pub same_tally_ℤ : (w : Item → ℤ) → tally_ℤ w ys ≡ tally_ℤ w xs
  pub distinct : (h : Host) → AreDistinct h xs → AreDistinct h ys

pub IsMoved-refl : (xs : List Item) → IsMoved xs xs
IsMoved-refl xs = record {
  same_length = refl;
  same_tally = λ w. refl;
  same_tally_ℤ = λ w. refl;
  distinct = λ h d. d;
}

pub IsMoved-trans : {xs ys zs : List Item} → IsMoved xs ys → IsMoved ys zs → IsMoved xs zs
IsMoved-trans p q = record {
  same_length = q.same_length ∙ p.same_length;
  same_tally = λ w. q.same_tally w ∙ p.same_tally w;
  same_tally_ℤ = λ w. q.same_tally_ℤ w ∙ p.same_tally_ℤ w;
  distinct = λ h d. q.distinct h (p.distinct h d);
}

abbrev pub exchange : ℕ → ℕ → ℕ → ℕ
exchange a b k = if k == a then b else if k == b then a else k

pub one_of : (a b k : ℕ) → (k ≡ a) ⊎ ((k ≡ b) ⊎ ((k ≢ a) × (k ≢ b)))
one_of a b k = ground arith

module _ (items : List Item) (a b : ℕ) (x y : Item) (at_a : get_elem? items a ≡ some x)
    (at_b : get_elem? items b ≡ some y) (ne : a ≢ b) where
  abbrev pub swapped_list : List Item
  swapped_list = set (set items a y) b x

  looked_up :
      (k : ℕ)
      → get_elem? swapped_list k
        ≡ (if k == b then some x else if k == a then some y else get_elem? items k)
  looked_up k =
      let fa = lt→ltb a (length items) (lt_of_get_elem? items a at_a) in
      let fb : ltb b (length (set items a y)) ≡ true =
        rw (length-set items a y) (lt→ltb b (length items) (lt_of_get_elem? items b at_b)) in
      rw (get_elem?-set (set items a y) b k x, fb, get_elem?-set items a k y, fa) refl

  pub exchanged : (k : ℕ) → get_elem? swapped_list k ≡ get_elem? items (exchange a b k)
  exchanged k = elim (one_of a b k) [
    | inl p ↦
        let e : exchange a b k ≡ b = ground arith in
        let e' : get_elem? swapped_list k ≡ some y = ground (arith, looked_up k, p, ne) in
        e' ∙ sym at_b ∙ ap (λ (i : ℕ). get_elem? items i) (sym e)
    | inr (inl p) ↦
        let e : exchange a b k ≡ a = ground (arith, ne) in
        let e' : get_elem? swapped_list k ≡ some x = ground (arith, looked_up k, p) in
        e' ∙ sym at_a ∙ ap (λ (i : ℕ). get_elem? items i) (sym e)
    | inr (inr (na, nb)) ↦
        let e : exchange a b k ≡ k = ground arith in
        let e' : get_elem? swapped_list k ≡ get_elem? items k =
          ground (arith, looked_up k, na, nb) in
        e' ∙ ap (λ (i : ℕ). get_elem? items i) (sym e)
  ]

  between : get_elem? (set items a y) b ≡ some y
  between = ground (arith, get_elem?-set items a b y, ne, at_b)

  pub swapped_list-IsMoved : IsMoved items swapped_list
  swapped_list-IsMoved = record {
    same_length = length-set (set items a y) b x ∙ length-set items a y;
    same_tally =
        λ w. omega (arith, tally-set w items a y at_a, tally-set w (set items a y) b x between);
    same_tally_ℤ = λ w. omega (
      int_laws,
      parts_of_eq (tally_ℤ-set w items a y at_a),
      parts_of_eq (tally_ℤ-set w (set items a y) b x between),
    );
    distinct = λ h d i j z z' e e' same.
        let one : exchange a b i ≡ exchange a b j =
          d (exchange a b i) (exchange a b j) z z' (sym (exchanged i) ∙ e) (sym (exchanged j) ∙ e')
            same in
        ground (arith, one, ne);
  }

-- `plist_swap` returns in range, and only moves items.
pub swap_items-IsMoved :
    (items : List Item) (a b : ℕ)
    → a < length items
    → b < length items
    → (items' : List Item) × (swap_items items a b ≡ some items') × IsMoved items items'
unfolding swap_items
swap_items-IsMoved items a b la lb =
    let (x, at_a) = get_elem?_of_lt items a la in
    let (y, at_b) = get_elem?_of_lt items b lb in
    elim (Bool-cases (a == b)) [
      | inl e ↦ (items, rw (at_a, at_b, e) refl, IsMoved-refl items)
      | inr e ↦ (
        set (set items a y) b x,
        rw (at_a, at_b, e) refl,
        swapped_list-IsMoved items a b x y at_a at_b (ground arith),
      )
    ]

-- The first loop of `plist_shuffle` returns, whatever `rand()` gives.
pub shuffle_from-IsMoved :
    (rand : ℕ → ℕ) (i : ℕ) (items : List Item)
    → (i ≡ 0) ⊎ (i < length items)
    → (items' : List Item) × (shuffle_from rand i items ≡ some items') × IsMoved items items'
unfolding shuffle_from
shuffle_from-IsMoved rand zero items lt = (items, refl, IsMoved-refl items)
shuffle_from-IsMoved rand (suc i) items lt =
    let inside : suc i < length items = ground arith in
    let (swapped, e, m) =
      swap_items-IsMoved items (suc i) (rand (suc i) % (suc i + 1)) inside (omega arith) in
    let (items', e', m') =
      shuffle_from-IsMoved rand i swapped (inr (omega (arith, m.same_length))) in
    (items', rw e e', IsMoved-trans m m')
