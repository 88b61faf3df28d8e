-- ===== src/Playlist/Counters.antt =====
-- library/playlist.cpp: every operation keeps the counters of a playlist right.
use mocf.Base.{
  ℕ, ◌+◌, ◌<◌, ◌≡◌, refl, ap, sym, ◌∙◌, true, false, Option, some, List, [], ◌∷◌, map, ◌++◌, Text,
  arith, get_elem?, set-append,
}
use mocf.Base.Int.{ℤ, pos, ◌+ℤ◌, ◌-ℤ◌, int_laws, parts_of_eq, +ℤ_zero, +ℤ_right_comm}
use mocf.Playlist.Data.{FileTags, Item, Plist, Host, tags_time}
use mocf.Playlist.Edit.{
  new_item, plist_add, plist_add_from_item, plist_delete, plist_set_item_time, plist_set_tags,
  plist_discard_tags, count_time, uncount_time, deleted_at, retagged, tags_or_new, discard_item,
}
use mocf.Playlist.Tally.{
  tally, tally_ℤ, live, timed, seconds, IsCounted, le-tally, tally-append, tally_ℤ-append,
  replace-IsCounted,
}

-- The counters without an item's time, and with it.
uncount_time_lem :
    (p : Plist) (x : Item)
    → x.deleted ≡ false
    → ((uncount_time (tags_time x.tags) p).items_with_time +ℤ pos (timed x) ≡ p.items_with_time)
      × ((uncount_time (tags_time x.tags) p).total_time +ℤ seconds x ≡ p.total_time)
unfolding ◌+ℤ◌ ◌-ℤ◌
uncount_time_lem p x e = ground arith

count_time_lem :
    (p : Plist) (x : Item)
    → x.deleted ≡ false
    → ((count_time (tags_time x.tags) p).items_with_time ≡ p.items_with_time +ℤ pos (timed x))
      × ((count_time (tags_time x.tags) p).total_time ≡ p.total_time +ℤ seconds x)
unfolding ◌+ℤ◌
count_time_lem p x e = ground arith

module _ (p : Plist) (num : ℕ) (item : Item) (v : IsCounted p) where
  -- `plist_delete` passes its assertions on an item that is not deleted.
  pub plist_delete_returns :
      get_elem? p.items num ≡ some item
      → item.deleted ≡ false
      → plist_delete p num ≡ some (deleted_at p num item)
  unfolding plist_delete
  plist_delete_returns g present =
      let positive : 0 < p.not_deleted = ground (arith, le-tally live p.items num g) in
      ground (arith, positive)

  pub deleted_at-IsCounted :
      get_elem? p.items num ≡ some item → item.deleted ≡ false → IsCounted (deleted_at p num item)
  deleted_at-IsCounted g present =
      let positive : 0 < p.not_deleted = ground (arith, le-tally live p.items num g) in
      let uncounted = uncount_time_lem p item present in
      replace-IsCounted p (deleted_at p num item) num (record item { deleted = true }) v g refl
        (ground (arith, positive)) (uncounted.0 ∙ sym (+ℤ_zero p.items_with_time))
        (uncounted.1 ∙ sym (+ℤ_zero p.total_time))

-- New tags on an item that is not deleted keep the counters right.
pub retagged-IsCounted :
    (p : Plist) (num : ℕ) (item : Item) (tags : FileTags)
    → IsCounted p
    → get_elem? p.items num ≡ some item
    → item.deleted ≡ false
    → IsCounted (retagged p num item tags)
retagged-IsCounted p num item tags v g present =
    let y : Item = record item { tags = some tags } in
    let p' = uncount_time (tags_time item.tags) p in
    let uncounted = uncount_time_lem p item present in
    let counted = count_time_lem p' y present in
    replace-IsCounted p (retagged p num item tags) num y v g refl (ground arith)
      (ap (λ (t : ℤ). t +ℤ pos (timed item)) counted.0
        ∙ +ℤ_right_comm p'.items_with_time (pos (timed y)) (pos (timed item))
        ∙ ap (λ (t : ℤ). t +ℤ pos (timed y)) uncounted.0)
      (ap (λ (t : ℤ). t +ℤ seconds item) counted.1
        ∙ +ℤ_right_comm p'.total_time (seconds y) (seconds item)
        ∙ ap (λ (t : ℤ). t +ℤ seconds y) uncounted.1)

-- `plist_set_item_time` and `plist_set_tags`, on an item that is not deleted, keep the counters right.
pub plist_set-IsCounted :
    (p : Plist) (num : ℕ) (item : Item) (time : ℤ) (tags : FileTags)
    → IsCounted p
    → get_elem? p.items num ≡ some item
    → item.deleted ≡ false
    → ((q : Plist) × (plist_set_item_time p num time ≡ some q) × IsCounted q)
      × ((q : Plist) × (plist_set_tags p num tags ≡ some q) × IsCounted q)
unfolding plist_set_item_time plist_set_tags
plist_set-IsCounted p num item time tags v g present = (
  (
    retagged p num item (record (tags_or_new item.tags) { time = time; filled_time = true }),
    rw g,
    retagged-IsCounted p num item _ v g present,
  ),
  (retagged p num item tags, rw g, retagged-IsCounted p num item tags v g present),
)

-- An item at the end.
append-IsCounted :
    (p q : Plist) (y : Item)
    → IsCounted p
    → q.items ≡ p.items ++ (y ∷ [])
    → q.not_deleted ≡ p.not_deleted + live y
    → q.items_with_time ≡ p.items_with_time +ℤ pos (timed y)
    → q.total_time ≡ p.total_time +ℤ seconds y
    → IsCounted q
append-IsCounted p q y v e hl ht hs = record {
  live_counted = rw e (omega (arith, hl, v.live_counted, tally-append live p.items (y ∷ [])));
  timed_counted = rw e (
      omega (
        int_laws,
        parts_of_eq ht,
        parts_of_eq v.timed_counted,
        tally-append timed p.items (y ∷ []),
      ));
  time_counted = rw e (
      omega (
        int_laws,
        parts_of_eq hs,
        parts_of_eq v.time_counted,
        parts_of_eq (tally_ℤ-append seconds p.items (y ∷ [])),
      ));
}

-- `plist_add`, and `plist_add_from_item` of an item that is not deleted, keep the counters right.
pub plist_add-IsCounted :
    (h : Host) (p : Plist) (name : Option Text) → IsCounted p → IsCounted (plist_add h p name).0
unfolding plist_add
plist_add-IsCounted h p name v =
    append-IsCounted p _ (new_item h name) v refl refl (sym (+ℤ_zero p.items_with_time))
      (sym (+ℤ_zero p.total_time))

pub plist_add_from_item-IsCounted :
    (h : Host) (p : Plist) (item : Item)
    → IsCounted p
    → item.deleted ≡ false
    → IsCounted (plist_add_from_item h p item).0
unfolding plist_add_from_item
plist_add_from_item-IsCounted h p item v present =
    let counted = count_time_lem p item present in
    append-IsCounted p _ item v (set-append p.items (new_item h (some item.file)) item)
      (ground arith) counted.0 counted.1

-- `plist_discard_tags` keeps the counters right: no item has its time then.
pub plist_discard_tags-IsCounted : (p : Plist) → IsCounted p → IsCounted (plist_discard_tags p)
unfolding plist_discard_tags
plist_discard_tags-IsCounted p v = record {
  live_counted = v.live_counted ∙ same_live p.items;
  timed_counted = ap pos (no_timed p.items);
  time_counted = no_seconds p.items;
}
  where
    same_live : (xs : List Item) → tally live xs ≡ tally live (map discard_item xs)
    same_live [] = refl
    same_live (x ∷ xs) = ground (arith, same_live xs)

    no_timed : (xs : List Item) → 0 ≡ tally timed (map discard_item xs)
    no_timed [] = refl
    no_timed (x ∷ xs) = ground (arith, no_timed xs)

    no_seconds : (xs : List Item) → pos 0 ≡ tally_ℤ seconds (map discard_item xs)
    no_seconds [] = refl
    no_seconds (x ∷ xs) =
        let head : seconds (discard_item x) ≡ pos 0 = ground arith in
        rw (head, ← no_seconds xs) (sym (+ℤ_zero (pos 0)))
