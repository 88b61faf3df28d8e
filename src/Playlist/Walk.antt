-- ===== src/Playlist/Walk.antt =====
-- library/playlist.cpp: `plist_next`, `plist_prev` and `plist_last` stop at the nearest item that is
-- not deleted.
use mocf.Base.{
  ℕ, zero, suc, ◌+◌, ◌-◌, ◌≤◌, ◌<◌, ◌≡◌, refl, ap, sym, subst, ◌∙◌, true, false, Option, none, some,
  List, [], ◌∷◌, inl, inr, ◌⊎◌, arith, get_elem?, length, drop, Bool-cases, get_elem?-drop,
  lt_of_get_elem?, get_elem?_of_lt, is_empty, if◌then◌else◌,
}
use native.Mathlib.Decide.{ℕ_discrete, dec_lt}
use mocf.Playlist.Data.{Item, Plist}
use mocf.Playlist.Search.{next_from, plist_next, prev_below, plist_prev, last_from, plist_last}

-- The items from `n` on and before `m` are deleted.
abbrev pub AllDeleted : List Item → ℕ → ℕ → Type 0
AllDeleted items n m =
    (i : ℕ) (it : Item) → n ≤ i → i < m → get_elem? items i ≡ some it → it.deleted ≡ true

abbrev pub IsLive : List Item → ℕ → Type 0
IsLive items j = (it : Item) × (get_elem? items j ≡ some it) × (it.deleted ≡ false)

-- The first live item from `n` on, or `none` if there is none.
abbrev pub FirstFrom : List Item → ℕ → Option ℕ → Type 0
FirstFrom items n none = AllDeleted items n (length items)
FirstFrom items n (some j) = (n ≤ j) × IsLive items j × AllDeleted items n j

-- The last live item before `n`.
abbrev pub LastBefore : List Item → ℕ → Option ℕ → Type 0
LastBefore items n none = AllDeleted items 0 n
LastBefore items n (some j) = (j < n) × IsLive items j × AllDeleted items (j + 1) n

-- `next_from` runs over the items that are left, `off` of which are behind.
abbrev FirstOf : List Item → ℕ → Option ℕ → Type 0
FirstOf xs off none = (i : ℕ) (it : Item) → get_elem? xs i ≡ some it → it.deleted ≡ true
FirstOf xs off (some j) =
    (off ≤ j)
    × IsLive xs (j - off)
    × ((i : ℕ) (it : Item) → off + i < j → get_elem? xs i ≡ some it → it.deleted ≡ true)

FirstOf-cons :
    (x : Item) (xs : List Item) (off : ℕ) (r : Option ℕ)
    → x.deleted ≡ true
    → FirstOf xs (off + 1) r
    → FirstOf (x ∷ xs) off r
FirstOf-cons x xs off none gone f = first
  where
    first : (i : ℕ) (it : Item) → get_elem? (x ∷ xs) i ≡ some it → it.deleted ≡ true
    first zero it g = ground arith
    first (suc i) it g = f i it g
FirstOf-cons x xs off (some j) gone (le, (it, g, present), f) =
    (omega arith, (it, here, present), first)
  where
    shift : j - off ≡ suc (j - (off + 1))
    shift = omega arith

    here : get_elem? (x ∷ xs) (j - off) ≡ some it
    here = rw shift g

    first : (i : ℕ) (it : Item) → off + i < j → get_elem? (x ∷ xs) i ≡ some it → it.deleted ≡ true
    first zero it lt g = ground arith
    first (suc i) it lt g = f i it (omega arith) g

next_gone :
    (x : Item) (xs : List Item) (off : ℕ)
    → x.deleted ≡ true
    → next_from (x ∷ xs) off ≡ next_from xs (off + 1)
unfolding next_from
next_gone x xs off gone = ground arith

next_here :
    (x : Item) (xs : List Item) (off : ℕ) → x.deleted ≡ false → next_from (x ∷ xs) off ≡ some off
unfolding next_from
next_here x xs off present = ground arith

FirstOf-here :
    (x : Item) (xs : List Item) (off : ℕ) → x.deleted ≡ false → FirstOf (x ∷ xs) off (some off)
FirstOf-here x xs off present = (omega arith, (x, here, present), λ i it lt g. absurd (omega arith))
  where
    start : off - off ≡ 0
    start = omega arith

    here : get_elem? (x ∷ xs) (off - off) ≡ some x
    here = rw start refl

next_nil : (off : ℕ) → next_from [] off ≡ none
unfolding next_from
next_nil off = refl

next_from-FirstOf : (xs : List Item) (off : ℕ) → FirstOf xs off (next_from xs off)
next_from-FirstOf [] off = rw (next_nil off) (λ i it g. cc)
next_from-FirstOf (x ∷ xs) off = elim (Bool-cases x.deleted) [
  | inl gone ↦
      rw (next_gone x xs off gone)
        (FirstOf-cons x xs off (next_from xs (off + 1)) gone (next_from-FirstOf xs (off + 1)))
  | inr present ↦ rw (next_here x xs off present) (FirstOf-here x xs off present)
]

FirstFrom-of :
    (items : List Item) (n : ℕ) (r : Option ℕ) → FirstOf (drop n items) n r → FirstFrom items n r
FirstFrom-of items n none f = λ i it le lt g.
    f (i - n) it
      (get_elem?-drop n items (i - n) ∙ ap (λ (k : ℕ). get_elem? items k) (back i le) ∙ g)
  where
    back : (i : ℕ) → n ≤ i → n + (i - n) ≡ i
    back i le = omega arith
FirstFrom-of items n (some j) (le, (it, g, present), f) = (le, (it, here, present), first)
  where
    back : (i : ℕ) → n ≤ i → n + (i - n) ≡ i
    back i le = omega arith

    here : get_elem? items j ≡ some it
    here =
        ap (λ (k : ℕ). get_elem? items k) (sym (back j le))
        ∙ sym (get_elem?-drop n items (j - n))
        ∙ g

    first : AllDeleted items n j
    first i it le lt g =
        f (i - n) it (omega (arith, back i le))
          (get_elem?-drop n items (i - n) ∙ ap (λ (k : ℕ). get_elem? items k) (back i le) ∙ g)

-- `plist_next` returns the first item after `num` that is not deleted (the first of all at -1), and
-- -1 when there is none.
pub plist_next-FirstFrom :
    (p : Plist) (num : ℕ)
    → FirstFrom p.items 0 (plist_next p none)
      × FirstFrom p.items (num + 1) (plist_next p (some num))
unfolding plist_next
plist_next-FirstFrom p num = (
  FirstFrom-of p.items 0 (next_from p.items 0) (next_from-FirstOf p.items 0),
  FirstFrom-of p.items (num + 1) (next_from (drop (num + 1) p.items) (num + 1))
      (next_from-FirstOf (drop (num + 1) p.items) (num + 1)),
)

LastBefore-suc :
    (items : List Item) (n : ℕ) (it : Item) (r : Option ℕ)
    → get_elem? items n ≡ some it
    → it.deleted ≡ true
    → LastBefore items n r
    → LastBefore items (suc n) r
LastBefore-suc items n it none g gone l = λ i it' lo hi g'. elim (ℕ_discrete i n) [
  | yes e ↦ ground (arith, ap (λ (k : ℕ). get_elem? items k) e)
  | no ne ↦ l i it' lo (omega arith) g'
]
LastBefore-suc items n it (some j) g gone (lt, live, l) = (
  omega arith,
  live,
  λ i it' lo hi g'. elim (ℕ_discrete i n) [
    | yes e ↦ ground (arith, ap (λ (k : ℕ). get_elem? items k) e)
    | no ne ↦ l i it' lo (omega arith) g'
  ],
)

prev_below-LastBefore :
    (items : List Item) (n : ℕ)
    → n ≤ length items
    → (r : Option ℕ) × (prev_below items n ≡ some r) × LastBefore items n r
unfolding prev_below
prev_below-LastBefore items zero le = (none, refl, λ i it lo hi g. absurd (omega arith))
prev_below-LastBefore items (suc n) le =
    let (it, g) = get_elem?_of_lt items n le in
    let (r, e, l) = prev_below-LastBefore items n (omega arith) in
    elim (Bool-cases it.deleted) [
      | inl gone ↦ (r, ground arith, LastBefore-suc items n it r g gone l)
      | inr present ↦ (
        some n,
        ground arith,
        (omega arith, (it, g, present), λ i it' lo hi g'. absurd (omega arith)),
      )
    ]

-- `plist_prev` reads no item past the end, and returns the last item before `num` that is not
-- deleted, or -1 when there is none; at -1 it returns -1.
pub plist_prev-LastBefore :
    (p : Plist) (num : ℕ)
    → num ≤ length p.items
    → (plist_prev p none ≡ some none)
      × ((r : Option ℕ) × (plist_prev p (some num) ≡ some r) × LastBefore p.items num r)
unfolding plist_prev
plist_prev-LastBefore p num le = (refl, prev_below-LastBefore p.items num le)

-- Only the item `i` is the last live one before `j`, if the items between are deleted.
only_live :
    (items : List Item) (i j : ℕ) (it : Item) (r : Option ℕ)
    → get_elem? items i ≡ some it
    → it.deleted ≡ false
    → FirstFrom items (i + 1) (some j)
    → LastBefore items j r
    → r ≡ some i
only_live items i j it none g present (lt, _, between) before =
    absurd (ground (arith, before i it (omega arith) (omega arith) g))
only_live items i j it (some k) g present (lt, _, between) (klt, (kt, gk, k_present), after) =
    elim (dec_lt i k) [
      | yes above ↦ absurd (ground (arith, between k kt (omega arith) klt gk))
      | no le ↦ elim (dec_lt k i) [
        | yes below ↦ absurd (ground (arith, after i it (omega arith) (omega arith) g))
        | no ge ↦ let same : k ≡ i = omega arith in ap some same
      ]
    ]

-- Going on and back: from an item that is not deleted, where `plist_next` finds another, `plist_prev` leads back
-- from there.
pub plist_prev-plist_next :
    (p : Plist) (i j : ℕ)
    → IsLive p.items i
    → plist_next p (some i) ≡ some j
    → plist_prev p (some j) ≡ some (some i)
plist_prev-plist_next p i j (it, g, present) e =
    let first : FirstFrom p.items (i + 1) (some j) = rw e at (plist_next-FirstFrom p i).1 in
    let (jt, gj, _) = first.1 in
    let lt = lt_of_get_elem? p.items j gj in
    let (r, back, before) = (plist_prev-LastBefore p j (omega arith)).1 in
    back ∙ ap some (only_live p.items i j it r g present first before)

-- What `plist_last` returns over the first `n` items: behind it all are deleted, and it is live
-- itself unless it is the item 0.
abbrev pub LastOf : List Item → ℕ → ℕ → Type 0
LastOf items n j = (j < n) × (IsLive items j ⊎ (j ≡ 0)) × AllDeleted items (j + 1) n

last_from-LastOf :
    (items : List Item) (i : ℕ)
    → i < length items
    → (j : ℕ) × (last_from items i ≡ some j) × LastOf items (suc i) j
unfolding last_from
last_from-LastOf items zero lt =
    (0, refl, (omega arith, inr refl, λ i it lo hi g. absurd (omega arith)))
last_from-LastOf items (suc i) lt =
    let (it, g) = get_elem?_of_lt items (suc i) lt in
    let (j, e, (jlt, live, after)) = last_from-LastOf items i (omega arith) in
    elim (Bool-cases it.deleted) [
      | inl gone ↦ (
        j,
        ground arith,
        (
          omega arith,
          live,
          λ k kt lo hi gk. elim (ℕ_discrete k (suc i)) [
            | yes same ↦ ground (arith, ap (λ (k : ℕ). get_elem? items k) same)
            | no other ↦ after k kt lo (omega arith) gk
          ],
        ),
      )
      | inr present ↦ (
        suc i,
        ground arith,
        (omega arith, inl (it, g, present), λ k kt lo hi gk. absurd (omega arith)),
      )
    ]

-- A live item is no deleted one.
zero_of_all :
    (items : List Item) (n j : ℕ) → j < n → IsLive items j ⊎ (j ≡ 0) → AllDeleted items 0 n → j ≡ 0
zero_of_all items n j lt (inr e) all = e
zero_of_all items n j lt (inl (it, g, present)) all =
    absurd (ground (arith, all j it (omega arith) lt g))

abbrev pub LastResult : List Item → Option ℕ → Type 0
LastResult items r =
    ((items ≡ []) × (r ≡ none))
    ⊎ ((j : ℕ) × (r ≡ some j)
        × LastOf items (length items) j
        × (AllDeleted items 0 (length items) → j ≡ 0))

last_of_items :
    (xs : List Item) → LastResult xs (if is_empty xs then none else last_from xs (length xs - 1))
last_of_items [] = inl (refl, refl)
last_of_items (x ∷ xs) =
    let n : ℕ = suc (length xs) - 1 in
    let bound : suc n ≡ suc (length xs) = omega arith in
    let (j, e, l) = last_from-LastOf (x ∷ xs) n (omega arith) in
    let l' : LastOf (x ∷ xs) (suc (length xs)) j = subst (λ (k : ℕ). LastOf (x ∷ xs) k j) bound l in
    inr (j, e, l', λ all. zero_of_all (x ∷ xs) (suc (length xs)) j l'.0 l'.1 all)

-- `plist_last` returns -1 exactly when there are no items. Otherwise all items behind the one that
-- it returns are deleted, and that one is live or the first: it is the first item, although that
-- is deleted, when all are.
pub plist_last-LastResult : (p : Plist) → LastResult p.items (plist_last p)
unfolding plist_last
plist_last-LastResult p = last_of_items p.items
