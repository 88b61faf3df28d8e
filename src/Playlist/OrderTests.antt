-- ===== src/Playlist/OrderTests.antt =====
-- library/playlist.cpp: moving two files, and a shuffle that hides one.
use mocf.Base.{
  ℕ, zero, suc, ◌≡◌, ◌∙◌, sym, ap, refl, true, false, Bool, none, some, List, [], ◌∷◌, Text, ◌>>=◌,
}
use mocf.Base.Int.{pos, ◌+ℤ◌}
use mocf.SearchTree.{find, insert, eqv}
use mocf.SearchTree.Bytewise.{bytewise, text_less}
use mocf.Playlist.Data.{no_tags, sound, Item, Plist, Host, plist_deleted}
use mocf.Playlist.Search.{plist_find_fname}
use mocf.Playlist.Order.{
  plist_shuffle, shuffle_from, swap_items, index_from, plist_swap_first_fname,
}
use mocf.Playlist.Tally.{IsCounted, tally}
use mocf.Playlist.Index.{IsIndexed}
use mocf.Playlist.Moves.{AreDistinct}
use mocf.Playlist.Reindex.{reindexed-IsIndexed, plist_shuffle-IsCounted, plist_shuffle-IsIndexed}
use mocf.Playlist.First.{IsFirst, plist_swap_first_fname-IsFirst}

abbrev host : Host
host = record {
  collation = bytewise;
  file_type = λ f. sound;
  get_mtime = λ f. pos 5;
  can_read_file = λ f. true;
}

abbrev song : Text → Bool → Item
song name gone = record {
  file = name;
  kind = sound;
  title_file = [];
  title_tags = [];
  tags = some (record no_tags { time = pos 60; filled_time = true });
  deleted = gone;
  mtime = pos 5;
  queue_pos = pos 0;
}

abbrev a : Text
a = b'a' ∷ []

abbrev b : Text
b = b'b' ∷ []

abbrev songs : List Item
songs = song a false ∷ song b false ∷ []

abbrev two : Plist
two = record {
  not_deleted = 2;
  items = songs;
  total_time = pos 120;
  items_with_time = pos 2;
  search_tree = index_from host 0 songs [];
}

differ :
    (x y : Item)
    → song a false ≡ x
    → song b false ≡ y
    → (eqv bytewise x.file y.file ≡ false) × (eqv bytewise y.file x.file ≡ false)
unfolding text_less
differ x y p q =
    let fx : x.file ≡ a = ap (λ (z : Item). z.file) (sym p) in
    let fy : y.file ≡ b = ap (λ (z : Item). z.file) (sym q) in
    (
      ap (λ (f : Text). eqv bytewise f y.file) fx ∙ ap (λ (f : Text). eqv bytewise a f) fy,
      ap (λ (f : Text). eqv bytewise f x.file) fy ∙ ap (λ (f : Text). eqv bytewise b f) fx,
    )

two-AreDistinct : AreDistinct host songs
two-AreDistinct zero zero x y e e' same = refl
two-AreDistinct zero (suc zero) x y e e' same =
    let p : song a false ≡ x = cc in
    let q : song b false ≡ y = cc in let z : false ≡ true = sym (differ x y p q).0 ∙ same in cc
two-AreDistinct (suc zero) zero x y e e' same =
    let p : song a false ≡ y = cc in
    let q : song b false ≡ x = cc in let z : false ≡ true = sym (differ y x p q).1 ∙ same in cc
two-AreDistinct (suc zero) (suc zero) x y e e' same = refl
two-AreDistinct zero (suc (suc j)) x y e e' same = cc
two-AreDistinct (suc zero) (suc (suc j)) x y e e' same = cc
two-AreDistinct (suc (suc i)) j x y e e' same = cc

two-IsCounted : IsCounted two
unfolding ◌+ℤ◌
two-IsCounted = record { live_counted = refl; timed_counted = refl; time_counted = refl }

two-IsIndexed : IsIndexed host two
two-IsIndexed = reindexed-IsIndexed host two two-AreDistinct refl

plist_shuffle-IsCounted_example :
    (q : Plist) × (plist_shuffle host (λ i. 4) two ≡ some q)
    × ((w : Item → ℕ) → tally w q.items ≡ tally w two.items)
    × IsCounted q
plist_shuffle-IsCounted_example = plist_shuffle-IsCounted host (λ i. 4) two two-IsCounted

plist_shuffle-IsIndexed_example :
    (q : Plist) × (plist_shuffle host (λ i. 4) two ≡ some q) × IsIndexed host q
plist_shuffle-IsIndexed_example = plist_shuffle-IsIndexed host (λ i. 4) two two-AreDistinct

plist_swap_first_fname-IsFirst_example :
    (q : Plist) × (plist_swap_first_fname host two b ≡ some q) × IsFirst host two b q
plist_swap_first_fname-IsFirst_example =
    plist_swap_first_fname-IsFirst host two b two-IsCounted two-IsIndexed two-AreDistinct

-- `a` was deleted and added again.
abbrev again : Plist
again = record two {
  not_deleted = 1;
  total_time = pos 60;
  items_with_time = pos 1;
  items = song a true ∷ song a false ∷ [];
  search_tree = (a, 1) ∷ [];
}

-- It is found before a shuffle that exchanges the two items, and not after it.
hidden :
    (plist_find_fname host again a ≡ some (some 1))
    × ((plist_shuffle host (λ i. 0) again >>= λ q. plist_find_fname host q a) ≡ some none)
unfolding plist_find_fname find insert text_less plist_deleted plist_shuffle shuffle_from swap_items
    index_from
hidden = (refl, refl)
