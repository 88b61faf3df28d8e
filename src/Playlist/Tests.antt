-- ===== src/Playlist/Tests.antt =====
-- library/playlist.cpp on a playlist of three files, of which one is deleted.
use mocf.Base.{
  ◌⊎◌, ℕ, ◌≡◌, refl, true, false, Option, none, some, [], ◌∷◌, Text, get_elem?, length, length,
}
use mocf.Base.Int.{ℤ, pos, ◌+ℤ◌}
use mocf.SearchTree.{find, insert}
use mocf.SearchTree.Bytewise.{bytewise, text_less}
use mocf.Playlist.Data.{no_tags, sound, Item, Plist, Host, empty_plist, minus_one, plist_deleted}
use mocf.Playlist.Search.{
  plist_find_fname, plist_next, plist_prev, plist_last, plist_find_del_fname, plist_get_position,
  next_from, prev_below, last_from, find_del_from, better_item, chosen,
}
use mocf.Playlist.Edit.{
  plist_add_from_item, plist_delete, deleted_at, plist_cat, plist_remove_common_items,
}
use mocf.Playlist.Index.{Finds, find_miss, plist_find_fname-Finds}
use mocf.Playlist.Join.{IsGood, plist_delete-IsGood, add_from_item-IsGood, Joined, empty-IsGood}
use mocf.Playlist.Cat.{has_unnamed, plist_cat-Joins}
use mocf.Playlist.Order.{plist_swap_files}
use mocf.Playlist.SwapFiles.{AreSwapped, plist_swap_files-AreSwapped}
use mocf.Playlist.Common.{all_cleaned, plist_remove_common_items-IsGood}
use mocf.Playlist.Names.{IsBest, plist_find_del_fname-IsBest}
use mocf.Playlist.Walk.{plist_prev-plist_next}

abbrev host : Host
host = record {
  collation = bytewise;
  file_type = λ f. sound;
  get_mtime = λ f. pos 5;
  can_read_file = λ f. true;
}

abbrev song : Text → ℤ → Item
song name time = record {
  file = name;
  kind = sound;
  title_file = [];
  title_tags = [];
  tags = some (record no_tags { time = time; filled_time = true });
  deleted = false;
  mtime = pos 5;
  queue_pos = pos 0;
}

abbrev file_b : Text
file_b = b'b' ∷ []

abbrev file_a : Text
file_a = b'a' ∷ []

abbrev file_c : Text
file_c = b'c' ∷ []

abbrev one_song : Plist
one_song = (plist_add_from_item host empty_plist (song file_b (pos 60))).0

abbrev two_songs : Plist
two_songs = (plist_add_from_item host one_song (song file_a minus_one)).0

abbrev three_songs : Plist
three_songs = (plist_add_from_item host two_songs (song file_c (pos 90))).0

one_song-IsGood : IsGood host one_song
unfolding find
one_song-IsGood =
    add_from_item-IsGood host empty_plist (song file_b (pos 60)) (empty-IsGood host) refl
      (find_miss host empty_plist file_b (empty-IsGood host).indexed refl)

two_songs-IsGood : IsGood host two_songs
unfolding find insert text_less plist_add_from_item
two_songs-IsGood =
    add_from_item-IsGood host one_song (song file_a minus_one) one_song-IsGood refl
      (find_miss host one_song file_a one_song-IsGood.indexed refl)

three_songs-IsGood : IsGood host three_songs
unfolding find insert text_less plist_add_from_item
three_songs-IsGood =
    add_from_item-IsGood host two_songs (song file_c (pos 90)) two_songs-IsGood refl
      (find_miss host two_songs file_c two_songs-IsGood.indexed refl)

-- `b` is deleted.
abbrev gap : Plist
gap = deleted_at three_songs 1 (song file_a minus_one)

three_times : three_songs.total_time ≡ pos 150
unfolding plist_add_from_item ◌+ℤ◌
three_times = refl

walk_over_gap :
    (plist_next gap (some 0) ≡ some 2)
    × (plist_prev gap (some 2) ≡ some (some 0))
    × (plist_last gap ≡ some 2)
    × (plist_find_fname host gap file_a ≡ some none)
    × (plist_find_del_fname gap file_a ≡ some (some 1))
    × (plist_get_position gap 2 ≡ some 2)
unfolding plist_add_from_item plist_next next_from plist_prev prev_below plist_last last_from
    plist_find_fname plist_find_del_fname find_del_from better_item chosen plist_get_position find
    insert text_less plist_deleted
walk_over_gap = (refl, refl, refl, refl, refl, refl)

plist_find_fname-Finds_example :
    (r : Option ℕ) × (plist_find_fname host three_songs file_c ≡ some r)
    × Finds host three_songs file_c r
plist_find_fname-Finds_example =
    plist_find_fname-Finds host three_songs file_c three_songs-IsGood.indexed

second_is_a : get_elem? three_songs.items 1 ≡ some (song file_a minus_one)
unfolding plist_add_from_item
second_is_a = refl

third_is_c : get_elem? three_songs.items 2 ≡ some (song file_c (pos 90))
unfolding plist_add_from_item
third_is_c = refl

plist_delete-IsGood_example :
    (q : Plist) × (plist_delete three_songs 2 ≡ some q)
    × IsGood host q
    × (plist_find_fname host q file_c ≡ some none)
plist_delete-IsGood_example =
    plist_delete-IsGood host three_songs 2 (song file_c (pos 90)) three_songs-IsGood third_is_c refl

plist_cat-Joins_example :
    ((has_unnamed three_songs.items ≡ false)
      × Joined host two_songs three_songs.items (plist_cat host two_songs three_songs))
    ⊎ ((has_unnamed three_songs.items ≡ true) × (plist_cat host two_songs three_songs ≡ none))
plist_cat-Joins_example = plist_cat-Joins host two_songs three_songs two_songs-IsGood

-- Both files are there.
plist_swap_files-AreSwapped_example :
    (q : Plist) × (plist_swap_files host three_songs file_a file_b ≡ some q)
    × AreSwapped host three_songs file_a file_b q
plist_swap_files-AreSwapped_example =
    plist_swap_files-AreSwapped host three_songs file_a file_b three_songs-IsGood

plist_prev-plist_next_example : plist_prev gap (some 2) ≡ some (some 0)
unfolding plist_add_from_item plist_next next_from
plist_prev-plist_next_example =
    plist_prev-plist_next gap 0 2 (song file_b (pos 60), refl, refl) refl

plist_remove_common_items-IsGood_example :
    ((has_unnamed three_songs.items ≡ false)
      × ((q : Plist) × (plist_remove_common_items host three_songs one_song ≡ some q)
          × IsGood host q
          × (q.items ≡ all_cleaned host one_song three_songs.items)))
    ⊎ ((has_unnamed three_songs.items ≡ true)
        × (plist_remove_common_items host three_songs one_song ≡ none))
plist_remove_common_items-IsGood_example =
    plist_remove_common_items-IsGood host three_songs one_song three_songs-IsGood
      one_song-IsGood.indexed

plist_find_del_fname-IsBest_example :
    (r : Option ℕ) × (plist_find_del_fname gap file_a ≡ some r)
    × IsBest gap file_a (length gap.items) r
plist_find_del_fname-IsBest_example = plist_find_del_fname-IsBest gap file_a
