-- ===== src/Playlist/Names.antt =====
-- library/playlist.cpp: `plist_find_del_fname`.
use mocf.Base.{
  ℕ, ◌+◌, ◌<◌, ◌≡◌, refl, ap, sym, ◌∙◌, true, false, Option, none, some, List, [], ◌∷◌, inl, inr,
  ◌⊎◌, Text, arith, get_elem?, length, drop, Bool-cases, get_elem?-drop, drop-drop, subst,
}
use mocf.Playlist.Data.{Item, Plist, plist_deleted}
use mocf.Playlist.Search.{has_name, chosen, better_item, find_del_from, plist_find_del_fname}

-- Among the first `i` items: no item of the name, or the item `j`, such that those before it are deleted,
-- and those behind it only count if it is deleted itself.
abbrev pub IsBest : Plist → Text → ℕ → Option ℕ → Type 0
IsBest p file i none =
    (k : ℕ) (x : Item) → k < i → get_elem? p.items k ≡ some x → has_name file x ≡ false
IsBest p file i (some j) =
    (y : Item) × (j < i)
    × (get_elem? p.items j ≡ some y)
    × (has_name file y ≡ true)
    × ((k : ℕ) (x : Item)
        → k < i
        → get_elem? p.items k ≡ some x
        → has_name file x ≡ true
        → (k ≡ j) ⊎ (((k < j) × (x.deleted ≡ true)) ⊎ ((j < k) × (y.deleted ≡ false))))

some_inj {ℓ} : {A : Type ℓ} {a b : A} → some a ≡ some b → a ≡ b
some_inj e = cc

-- A number below `i + 1`.
below_suc : (k i : ℕ) → k < i + 1 → (k < i) ⊎ (k ≡ i)
below_suc k i h = ground arith

module _ (p : Plist) (file : Text) (i : ℕ) (it : Item) (at : get_elem? p.items i ≡ some it) where
  same_item : (k : ℕ) (x : Item) → k ≡ i → get_elem? p.items k ≡ some x → x ≡ it
  same_item k x q e = some_inj (sym e ∙ ap (λ (n : ℕ). get_elem? p.items n) q ∙ at)

  -- An item of another name changes nothing.
  other-IsBest :
      (r : Option ℕ) → has_name file it ≡ false → IsBest p file i r → IsBest p file (i + 1) r
  other-IsBest none differ b = λ k x lt e. elim (below_suc k i lt) [
    | inl less ↦ b k x less e
    | inr q ↦ ap (has_name file) (same_item k x q e) ∙ differ
  ]
  other-IsBest (some j) differ (y, inside, g, named, all) = (
    y,
    omega arith,
    g,
    named,
    λ k x lt e n. elim (below_suc k i lt) [
      | inl less ↦ all k x less e n
      | inr q ↦
          absurd
            (let z : true ≡ false = sym n ∙ ap (has_name file) (same_item k x q e) ∙ differ in cc)
    ],
  )

  chosen-IsBest :
      (r : Option ℕ)
      → has_name file it ≡ true
      → IsBest p file i r
      → (r' : Option ℕ) × (chosen p i r ≡ some r') × IsBest p file (i + 1) r'
  unfolding chosen plist_deleted
  chosen-IsBest none same b = (
    some i,
    refl,
    (
      it,
      omega arith,
      at,
      same,
      λ k x lt e n. elim (below_suc k i lt) [
        | inl less ↦ absurd (let z : true ≡ false = sym n ∙ b k x less e in cc)
        | inr q ↦ inl q
      ],
    ),
  )
  chosen-IsBest (some j) same (y, inside, g, named, all) = elim (Bool-cases y.deleted) [
    | inl gone ↦ (
      some i,
      rw (g, gone) refl,
      (
        it,
        omega arith,
        at,
        same,
        λ k x lt e n. elim (below_suc k i lt) [
          | inr q ↦ inl q
          | inl less ↦ inr (
              inl (
                less,
                elim (all k x less e n) [
                  | inl q ↦
                      let one : x ≡ y =
                        some_inj (sym e ∙ ap (λ (m : ℕ). get_elem? p.items m) q ∙ g) in
                      ap (λ (z : Item). z.deleted) one ∙ gone
                  | inr (inl (_, d)) ↦ d
                  | inr (inr (_, d)) ↦ absurd (let z : true ≡ false = sym gone ∙ d in cc)
                ],
              ))
        ],
      ),
    )
    | inr live ↦ (
      some j,
      rw (g, live) refl,
      (
        y,
        omega arith,
        g,
        named,
        λ k x lt e n. elim (below_suc k i lt) [
          | inl less ↦ all k x less e n
          | inr q ↦ inr (inr (omega (arith, q, inside), live))
        ],
      ),
    )
  ]

  better_item-IsBest :
      (r : Option ℕ)
      → IsBest p file i r
      → (r' : Option ℕ) × (better_item p file i it r ≡ some r') × IsBest p file (i + 1) r'
  unfolding better_item
  better_item-IsBest r b = elim (Bool-cases (has_name file it)) [
    | inr differ ↦ (r, rw differ refl, other-IsBest r differ b)
    | inl same ↦ let (r', e, b') = chosen-IsBest r same b in (r', rw same e, b')
  ]

find_del_from-IsBest :
    (p : Plist) (file : Text) (i : ℕ) (its : List Item) (r : Option ℕ)
    → drop i p.items ≡ its
    → i + length its ≡ length p.items
    → IsBest p file i r
    → (r' : Option ℕ) × (find_del_from p file i its r ≡ some r') × IsBest p file (length p.items) r'
unfolding find_del_from
find_del_from-IsBest p file i [] r e len b =
    (r, refl, subst (λ (n : ℕ). IsBest p file n r) (omega (arith, len)) b)
find_del_from-IsBest p file i (it ∷ its) r e len b =
    let at : get_elem? p.items i ≡ some it =
      ap (λ (k : ℕ). get_elem? p.items k) (omega arith)
      ∙ sym (get_elem?-drop i p.items 0)
      ∙ ap (λ (xs : List Item). get_elem? xs 0) e in
    let (r', step, b') = better_item-IsBest p file i it at r b in
    let behind : drop (i + 1) p.items ≡ its = sym (drop-drop i 1 p.items) ∙ ap (drop 1) e in
    let (r'', run, b'') =
      find_del_from-IsBest p file (i + 1) its r' behind (omega (arith, len)) b' in
    (r'', rw step run, b'')

-- `plist_find_del_fname` returns -1 where no item has the name, and otherwise the first that is not
-- deleted, or the last of them where all are.
pub plist_find_del_fname-IsBest :
    (p : Plist) (file : Text)
    → (r : Option ℕ) × (plist_find_del_fname p file ≡ some r) × IsBest p file (length p.items) r
unfolding plist_find_del_fname
plist_find_del_fname-IsBest p file =
    find_del_from-IsBest p file 0 p.items none refl (omega arith) (λ k x lt e. absurd (omega arith))
