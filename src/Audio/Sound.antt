-- ===== src/Audio/Sound.antt =====
-- audio/audio.cpp: the invariant of the three lists, and the helpers on one list.
use mocf.Base.{
  ℕ, ◌<◌, ◌≡◌, refl, sym, ◌∙◌, false, Option, some, none, [], ◌∷◌, Text, is_empty, arith, length,
}
use mocf.Playlist.Data.{Plist, Host}
use mocf.Playlist.Search.{plist_find_fname}
use mocf.Playlist.Edit.{plist_add, new_item, deleted_at}
use mocf.Playlist.Tally.{unnamed, tally, tally-append}
use mocf.Playlist.Index.{Finds, plist_find_fname-Finds}
use mocf.Playlist.Counters.{plist_delete_returns}
use mocf.Playlist.Join.{IsGood, Has, empty-IsGood, plist_delete-IsGood}
use mocf.Playlist.Moves.{AreDistinct}
use mocf.Playlist.Without.{IsWithout, absent-IsWithout, deleted-IsWithout}
use mocf.Playlist.Live.{plist_add-IsGood}
use mocf.Audio.Data.{Audio, start}
use mocf.Audio.Lists.{add_new, delete_found}

-- The lists have right counters and trees, and their live items have names. No two items of the shuffled
-- list have one name, and unless it has no items, every file of the playlist is on it.
pub record AreSound (h : Host) (playlist shuffled queue : Plist) : Type 0 where
  pub playlist_good : IsGood h playlist
  pub playlist_named : tally unnamed playlist.items ≡ 0
  pub shuffled_good : IsGood h shuffled
  pub shuffled_named : tally unnamed shuffled.items ≡ 0
  pub shuffled_distinct : AreDistinct h shuffled.items
  pub covers : 0 < length shuffled.items → (file : Text) → Has h playlist file → Has h shuffled file
  pub queue_good : IsGood h queue
  pub queue_named : tally unnamed queue.items ≡ 0

-- Another queue.
pub queue-AreSound :
    {h : Host} {playlist shuffled queue : Plist} (q : Plist)
    → AreSound h playlist shuffled queue
    → IsGood h q
    → tally unnamed q.items ≡ 0
    → AreSound h playlist shuffled q
queue-AreSound q v good named = record {
  playlist_good = v.playlist_good;
  playlist_named = v.playlist_named;
  shuffled_good = v.shuffled_good;
  shuffled_named = v.shuffled_named;
  shuffled_distinct = v.shuffled_distinct;
  covers = v.covers;
  queue_good = good;
  queue_named = named;
}

-- Another playlist, of no more names.
pub playlist-AreSound :
    {h : Host} {playlist shuffled queue : Plist} (p : Plist)
    → AreSound h playlist shuffled queue
    → IsGood h p
    → tally unnamed p.items ≡ 0
    → ((file : Text) → Has h p file → Has h playlist file)
    → AreSound h p shuffled queue
playlist-AreSound p v good named fewer = record {
  playlist_good = good;
  playlist_named = named;
  shuffled_good = v.shuffled_good;
  shuffled_named = v.shuffled_named;
  shuffled_distinct = v.shuffled_distinct;
  covers = λ lt file has. v.covers lt file (fewer file has);
  queue_good = v.queue_good;
  queue_named = v.queue_named;
}

-- The invariant of the state.
abbrev pub IsSound : Host → Audio → Type 0
IsSound h s = AreSound h s.playlist s.shuffled_plist s.queue

pub empty-AreDistinct : (h : Host) → AreDistinct h []
empty-AreDistinct h i j x y e e' same = cc

some_inj {ℓ} : {A : Type ℓ} {a b : A} → some a ≡ some b → a ≡ b
some_inj e = cc

pub start-IsSound : (h : Host) → IsSound h start
start-IsSound h = record {
  playlist_good = empty-IsGood h;
  playlist_named = refl;
  shuffled_good = empty-IsGood h;
  shuffled_named = refl;
  shuffled_distinct = empty-AreDistinct h;
  covers = λ lt. absurd (omega arith);
  queue_good = empty-IsGood h;
  queue_named = refl;
}

-- `plist_add` of a file that is not there.
add_new-none :
    (h : Host) (file : Text) (p : Plist)
    → plist_find_fname h p file ≡ some none
    → add_new h file p ≡ some (plist_add h p (some file)).0
unfolding add_new
add_new-none h file p e = rw e refl

add_new-some :
    (h : Host) (file : Text) (p : Plist) (i : ℕ)
    → plist_find_fname h p file ≡ some (some i)
    → add_new h file p ≡ some p
unfolding add_new
add_new-some h file p i e = rw e refl

add-named :
    (h : Host) (file : Text) (p : Plist)
    → tally unnamed p.items ≡ 0
    → is_empty file ≡ false
    → tally unnamed (plist_add h p (some file)).0.items ≡ 0
unfolding plist_add
add-named h file p named e =
    let new : unnamed (new_item h (some file)) ≡ 0 = rw e refl in
    omega (arith, named, new, tally-append unnamed p.items (new_item h (some file) ∷ []))

pub add_new-IsGood :
    (h : Host) (file : Text) (p : Plist)
    → IsGood h p
    → tally unnamed p.items ≡ 0
    → is_empty file ≡ false
    → (q : Plist) × (add_new h file p ≡ some q) × IsGood h q × (tally unnamed q.items ≡ 0)
add_new-IsGood h file p v named e = by_search (plist_find_fname-Finds h p file v.indexed)
  where
    by_search :
        (r : Option ℕ) × (plist_find_fname h p file ≡ some r) × Finds h p file r
        → (q : Plist) × (add_new h file p ≡ some q) × IsGood h q × (tally unnamed q.items ≡ 0)
    by_search (none, f, absent) = (
      (plist_add h p (some file)).0,
      add_new-none h file p f,
      plist_add-IsGood h p file v absent,
      add-named h file p named e,
    )
    by_search (some i, f, _) = (p, add_new-some h file p i f, v, named)

-- `plist_find_fname` and `plist_delete` leave the list without the file.
pub delete_found-IsWithout :
    (h : Host) (file : Text) (p : Plist)
    → IsGood h p
    → (q : Plist) × (delete_found h file p ≡ some q) × IsWithout h file p q
unfolding delete_found
delete_found-IsWithout h file p v = by_search (plist_find_fname-Finds h p file v.indexed)
  where
    by_search :
        (r : Option ℕ) × (plist_find_fname h p file ≡ some r) × Finds h p file r
        → (q : Plist) × (delete_found h file p ≡ some q) × IsWithout h file p q
    by_search (none, f, absent) = (p, rw (f, delete_found) refl, absent-IsWithout h file p v absent)
    by_search (some i, f, (item, g, present, same)) =
        let (q, e, good, _) = plist_delete-IsGood h p i item v g present in
        let w = plist_delete_returns p i item v.counted g present in
        let one : q ≡ deleted_at p i item = some_inj (sym e ∙ w) in
        (
          deleted_at p i item,
          rw (f, delete_found) w,
          deleted-IsWithout h file p v i item g present same (rw (← one) good),
        )
