-- ===== src/Playlist/Common.antt =====
-- library/playlist.cpp: `plist_remove_common_items`.
use mathlib.Core.List.{append_assoc}
use mocf.Base.{
  ◌⊎◌, ℕ, ◌+◌, ◌≡◌, refl, ap, sym, ◌∙◌, subst, Bool, true, false, Option, none, some, List, [], ◌∷◌,
  ◌++◌, inl, inr, if◌then◌else◌, is_empty, get_elem?, set, length, length-append, Bool-cases,
  set-append_here, get_elem?-append_here,
}
use mocf.Playlist.Data.{Item, Plist, Host}
use mocf.Playlist.Search.{plist_find_fname}
use mocf.Playlist.Edit.{
  plist_delete, deleted_at, remove_common, remove_common_from, plist_remove_common_items,
}
use mocf.Playlist.Counters.{plist_delete_returns}
use mocf.Playlist.Index.{IsIndexed, Finds, plist_find_fname-Finds}
use mocf.Playlist.Join.{IsGood, IsNamed, plist_delete-IsGood}
use mocf.Playlist.Cat.{
  is_unnamed, has_unnamed, named_item, unnamed_item, later_true, has_unnamed-IsNamed,
}

-- Whether a search finds the file.
abbrev pub is_found : Option (Option ℕ) → Bool
is_found (some (some i)) = true
is_found _ = false

-- What should become of an item: it is deleted where the other list has its file.
abbrev pub cleaned : Host → Plist → Item → Item
cleaned h b x = record x {
  deleted = if x.deleted then true else is_found (plist_find_fname h b x.file);
}

abbrev pub all_cleaned : Host → Plist → List Item → List Item
all_cleaned h b [] = []
all_cleaned h b (x ∷ rest) = cleaned h b x ∷ all_cleaned h b rest

some_inj {ℓ} : {A : Type ℓ} {a b : A} → some a ≡ some b → a ≡ b
some_inj e = cc

module _ (h : Host) (b : Plist) (w : IsIndexed h b) where
  round_cleans :
      (a : Plist) (done : List Item) (x : Item) (rest : List Item)
      → IsGood h a
      → a.items ≡ done ++ (x ∷ rest)
      → (x.deleted ≡ false → is_empty x.file ≡ false)
      → (q : Plist) × (remove_common h a b (length done) ≡ some q)
        × IsGood h q
        × (q.items ≡ done ++ (cleaned h b x ∷ rest))
  unfolding remove_common
  round_cleans a done x rest v e named = elim (Bool-cases x.deleted) [
    | inl gone ↦
        let same : x ≡ cleaned h b x = rw gone refl in
        (a, rw (at_end, gone) refl, v, e ∙ ap (λ (z : Item). done ++ (z ∷ rest)) same)
    | inr live ↦ by_search live (plist_find_fname-Finds h b x.file w)
  ]
    where
      at_end : get_elem? a.items (length done) ≡ some x
      at_end =
          ap (λ (xs : List Item). get_elem? xs (length done)) e ∙ get_elem?-append_here done x rest

      by_search :
          x.deleted ≡ false
          → (r : Option ℕ) × (plist_find_fname h b x.file ≡ some r) × Finds h b x.file r
          → (q : Plist) × (remove_common h a b (length done) ≡ some q)
            × IsGood h q
            × (q.items ≡ done ++ (cleaned h b x ∷ rest))
      by_search live (none, f, _) =
          let same : x ≡ cleaned h b x = rw (live, f) refl in
          (
            a,
            rw (at_end, live, named live, f) refl,
            v,
            e ∙ ap (λ (z : Item). done ++ (z ∷ rest)) same,
          )
      by_search live (some j, f, _) =
          let q : Plist = deleted_at a (length done) x in
          let gives : plist_delete a (length done) ≡ some q =
            plist_delete_returns a (length done) x v.counted at_end live in
          let (q', e', good, _) = plist_delete-IsGood h a (length done) x v at_end live in
          let same : record x { deleted = true } ≡ cleaned h b x = rw (live, f) refl in
          (
            q,
            rw (at_end, live, named live, f) gives,
            subst (IsGood h) (some_inj (sym e' ∙ gives)) good,
            ap (λ (xs : List Item). set xs (length done) (record x { deleted = true })) e
                ∙ set-append_here done x (record x { deleted = true }) rest
                ∙ ap (λ (z : Item). done ++ (z ∷ rest)) same,
          )

  loop_cleans :
      (a : Plist) (done rest : List Item)
      → IsGood h a
      → a.items ≡ done ++ rest
      → IsNamed rest
      → (q : Plist) × (remove_common_from h a b (length done) (length rest) ≡ some q)
        × IsGood h q
        × (q.items ≡ done ++ all_cleaned h b rest)
  unfolding remove_common_from
  loop_cleans a done [] v e named = (a, refl, v, e)
  loop_cleans a done (x ∷ rest) v e named =
      let (p, step, v', e') = round_cleans a done x rest v e named.0 in
      let longer : length (done ++ (cleaned h b x ∷ [])) ≡ length done + 1 =
        length-append done (cleaned h b x ∷ []) in
      let (q, run, v'', e'') =
        loop_cleans p (done ++ (cleaned h b x ∷ [])) rest v'
          (e' ∙ sym (append_assoc done (cleaned h b x ∷ []) rest)) named.1 in
      (
        q,
        rw step (ap (λ (n : ℕ). remove_common_from h p b n (length rest)) (sym longer) ∙ run),
        v'',
        e'' ∙ append_assoc done (cleaned h b x ∷ []) (all_cleaned h b rest),
      )

  stops_here :
      (a : Plist) (done : List Item) (x : Item) (rest : List Item)
      → a.items ≡ done ++ (x ∷ rest)
      → is_unnamed x ≡ true
      → remove_common h a b (length done) ≡ none
  unfolding remove_common
  stops_here a done x rest e bad =
      let at_end : get_elem? a.items (length done) ≡ some x =
        ap (λ (xs : List Item). get_elem? xs (length done)) e ∙ get_elem?-append_here done x rest in
      let (live, empty) = unnamed_item x bad in rw (at_end, live, empty) refl

  loop_stops :
      (a : Plist) (done rest : List Item)
      → IsGood h a
      → a.items ≡ done ++ rest
      → has_unnamed rest ≡ true
      → remove_common_from h a b (length done) (length rest) ≡ none
  unfolding remove_common_from
  loop_stops a done [] v e bad = cc
  loop_stops a done (x ∷ rest) v e bad = elim (Bool-cases (is_unnamed x)) [
    | inl here ↦ rw (stops_here a done x rest e here) refl
    | inr there ↦
        let (p, step, v', e') = round_cleans a done x rest v e (named_item x there) in
        let longer : length (done ++ (cleaned h b x ∷ [])) ≡ length done + 1 =
          length-append done (cleaned h b x ∷ []) in
        let run =
          loop_stops p (done ++ (cleaned h b x ∷ [])) rest v'
            (e' ∙ sym (append_assoc done (cleaned h b x ∷ []) rest))
            (later_true (is_unnamed x) (has_unnamed rest) bad there) in
        rw step (ap (λ (n : ℕ). remove_common_from h p b n (length rest)) (sym longer) ∙ run)
  ]

-- On a list `a` with right counters and tree, where the tree of `b` finds its live items,
-- `plist_remove_common_items` stops at its assertion exactly where a live item of `a` has no file name. Else it
-- deletes exactly the live items whose files `b` has, changes nothing else in the list, and keeps counters and
-- tree right.
pub plist_remove_common_items-IsGood :
    (h : Host) (a b : Plist)
    → IsGood h a
    → IsIndexed h b
    → ((has_unnamed a.items ≡ false)
        × ((q : Plist) × (plist_remove_common_items h a b ≡ some q)
            × IsGood h q
            × (q.items ≡ all_cleaned h b a.items)))
      ⊎ ((has_unnamed a.items ≡ true) × (plist_remove_common_items h a b ≡ none))
unfolding plist_remove_common_items
plist_remove_common_items-IsGood h a b v w = elim (Bool-cases (has_unnamed a.items)) [
  | inl bad ↦ inr (bad, loop_stops h b w a [] a.items v refl bad)
  | inr named ↦
      inl (named, loop_cleans h b w a [] a.items v refl (has_unnamed-IsNamed a.items named))
]
