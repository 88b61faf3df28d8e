-- ===== src/Playlist/Without.antt =====
-- library/playlist.cpp: what `plist_delete` leaves of a list when the file is found.
use mocf.Base.{
  ℕ, ◌≤◌, ◌≡◌, refl, ap, sym, ◌∙◌, true, false, some, none, inl, inr, Text, arith, ◌==◌, get_elem?,
  length, Bool-cases, get_elem?-set, lt_of_get_elem?, length-set,
}
use mocf.SearchTree.{eqv, eqv_sym, eqv_congr}
use mocf.Playlist.Data.{Item, Plist, Host}
use mocf.Playlist.Edit.{deleted_at}
use mocf.Playlist.Tally.{unnamed, tally, tally-set}
use mocf.Playlist.Index.{Finds}
use mocf.Playlist.Join.{IsGood, Has}
use mocf.Playlist.Moves.{AreDistinct}
use mocf.Playlist.Live.{same_place, set-AreDistinct}

some_inj {ℓ} : {A : Type ℓ} {a b : A} → some a ≡ some b → a ≡ b
some_inj e = cc

-- What a list is without a file.
pub record IsWithout (h : Host) (file : Text) (p q : Plist) : Type 0 where
  pub good : IsGood h q
  pub keeps : (name : Text) → eqv h.collation file name ≡ false → Has h p name → Has h q name
  pub gone : (name : Text) → Has h q name → Has h p name × (eqv h.collation file name ≡ false)
  pub named : tally unnamed q.items ≤ tally unnamed p.items
  pub distinct : AreDistinct h p.items → AreDistinct h q.items
  pub same_length : length q.items ≡ length p.items

module _ (h : Host) (file : Text) (p : Plist) (v : IsGood h p) where
  pub absent-IsWithout : Finds h p file none → IsWithout h file p p
  absent-IsWithout absent = record {
    good = v;
    keeps = λ name differ has. has;
    gone = λ name has. (has, unlike name has);
    named = omega arith;
    distinct = λ d. d;
    same_length = refl;
  }
    where
      unlike : (name : Text) → Has h p name → eqv h.collation file name ≡ false
      unlike name (j, (it, g, present, same)) = ground (
        arith,
        absent j it g present,
        eqv_congr h.collation name it.file file same,
        eqv_sym h.collation file name,
        eqv_sym h.collation file it.file,
      )

  module _ (i : ℕ) (item : Item) (at : get_elem? p.items i ≡ some item)
      (present : item.deleted ≡ false) (same : eqv h.collation file item.file ≡ true) where
    elsewhere :
        (j : ℕ) → (j == i) ≡ false → get_elem? (deleted_at p i item).items j ≡ get_elem? p.items j
    elsewhere j ne = ground (arith, get_elem?-set p.items i j (record item { deleted = true }), ne)

    here : get_elem? (deleted_at p i item).items i ≡ some (record item { deleted = true })
    here = ground (
      arith,
      get_elem?-set p.items i i (record item { deleted = true }),
      lt_of_get_elem? p.items i at,
    )

    -- A live item of another name stands elsewhere, and a live item that stands elsewhere has another name.
    other_place :
        (name : Text) (j : ℕ) (it : Item)
        → eqv h.collation file name ≡ false
        → get_elem? p.items j ≡ some it
        → eqv h.collation name it.file ≡ true
        → (j == i) ≡ false
    other_place name j it differ g e = elim (Bool-cases (j == i)) [
      | inr ne ↦ ne
      | inl z ↦
          let q : j ≡ i = ground arith in
          let one : it ≡ item = some_inj (sym g ∙ ap (λ (k : ℕ). get_elem? p.items k) q ∙ at) in
          let e' : eqv h.collation name item.file ≡ true =
            ap (λ (w : Item). eqv h.collation name w.file) (sym one) ∙ e in
          ground (
            arith,
            eqv_congr h.collation name item.file file e',
            eqv_sym h.collation file name,
            eqv_sym h.collation file item.file,
          )
    ]

    other_name :
        (name : Text) (j : ℕ) (it : Item)
        → get_elem? p.items j ≡ some it
        → it.deleted ≡ false
        → eqv h.collation name it.file ≡ true
        → (j == i) ≡ false
        → eqv h.collation file name ≡ false
    other_name name j it g live e ne = elim (Bool-cases (eqv h.collation file name)) [
      | inr differ ↦ differ
      | inl z ↦
          let e' : eqv h.collation item.file it.file ≡ true =
            sym (eqv_congr h.collation file item.file it.file same)
            ∙ eqv_congr h.collation file name it.file z
            ∙ e in
          let q : i ≡ j = same_place h p i j item it v.indexed at g present live e' in
          absurd (ground arith)
    ]

    gone' :
        (name : Text)
        → Has h (deleted_at p i item) name
        → Has h p name × (eqv h.collation file name ≡ false)
    gone' name (j, (it, g, live, e)) = elim (Bool-cases (j == i)) [
      | inl z ↦
          let q : j ≡ i = ground arith in
          let one : it ≡ record item { deleted = true } =
            some_inj (sym g ∙ ap (λ (k : ℕ). get_elem? (deleted_at p i item).items k) q ∙ here) in
          let w : it.deleted ≡ true = ap (λ (w : Item). w.deleted) one in
          absurd (let z : true ≡ false = sym w ∙ live in cc)
      | inr ne ↦
          let g' : get_elem? p.items j ≡ some it = sym (elsewhere j ne) ∙ g in
          ((j, (it, g', live, e)), other_name name j it g' live e ne)
    ]

    fewer_unnamed : tally unnamed (deleted_at p i item).items ≤ tally unnamed p.items
    fewer_unnamed = omega (arith, tally-set unnamed p.items i (record item { deleted = true }) at)

    pub deleted-IsWithout :
        IsGood h (deleted_at p i item) → IsWithout h file p (deleted_at p i item)
    deleted-IsWithout good = record {
      good = good;
      keeps = λ name differ (j, (it, g, live, e)).
          (j, (it, elsewhere j (other_place name j it differ g e) ∙ g, live, e));
      gone = gone';
      named = fewer_unnamed;
      distinct = set-AreDistinct h p.items i item (record item { deleted = true }) at refl;
      same_length = length-set p.items i (record item { deleted = true });
    }
