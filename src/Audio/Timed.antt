-- ===== src/Audio/Timed.antt =====
-- audio/audio.cpp: `audio_plist_set_time` and `audio_get_ftime`.
use mocf.Base.{
  ℕ, ◌≡◌, refl, sym, ◌∙◌, true, false, Option, some, none, Text, if◌then◌else◌, arith, get_elem?,
  set, get_elem?-set, lt_of_get_elem?, Bool-cases, inl, inr,
}
use mocf.Base.Int.{ℤ, eqb_ℤ, eq_of_parts}
use mocf.SearchTree.{eqv}
use mocf.Playlist.Data.{Item, Plist, Host, minus_one, FileTags}
use mocf.Playlist.Search.{plist_find_fname}
use mocf.Playlist.Edit.{plist_set_item_time, retagged, tags_or_new, get_item_time}
use mocf.Playlist.Tally.{unnamed, tally, tally-set, IsCounted, replace-IsCounted}
use mocf.Playlist.Counters.{retagged-IsCounted}
use mocf.Playlist.Index.{Finds, replace-IsIndexed, plist_find_fname-Finds}
use mocf.Playlist.Join.{IsGood}
use mocf.Playlist.Live.{named_live, same-Has, plist_find_fname_at}
use mocf.Audio.Data.{Audio}
use mocf.Audio.Lists.{audio_plist_set_time, set_time_at, audio_get_ftime, time_of}
use mocf.Audio.Sound.{IsSound, playlist-AreSound}

-- What `audio_get_ftime` makes of a time, where the file has not changed.
time_known :
    (time mtime : ℤ)
    → (if eqb_ℤ time minus_one then minus_one else if eqb_ℤ mtime mtime then time else minus_one)
      ≡ time
time_known time mtime =
    let same : eqb_ℤ mtime mtime ≡ true = ground arith in
    elim (Bool-cases (eqb_ℤ time minus_one)) [
      | inl e ↦ rw e (eq_of_parts minus_one time (ground arith))
      | inr e ↦ rw (e, same) refl
    ]

-- A good list with the same names at the same places.
record IsRelabelled (h : Host) (p q : Plist) : Type 0 where
  good : IsGood h q
  same_unnamed : tally unnamed q.items ≡ tally unnamed p.items
  same_names : (file : Text) → tally (named_live h file) q.items ≡ tally (named_live h file) p.items

relabelled :
    (h : Host) (p q : Plist) (num : ℕ) {x : Item} (y : Item)
    → IsGood h p
    → get_elem? p.items num ≡ some x
    → q.items ≡ set p.items num y
    → q.search_tree ≡ p.search_tree
    → y.file ≡ x.file
    → y.deleted ≡ x.deleted
    → IsCounted q
    → IsRelabelled h p q
relabelled h p q num {x} y v g e t same_file same_deleted counted = record {
  good = record {
    counted = counted;
    indexed =
        replace-IsIndexed h p q num y v.indexed g e t same_file (λ live. sym same_deleted ∙ live);
  };
  same_unnamed =
      let w : unnamed y ≡ unnamed x = rw (same_file, same_deleted) refl in
      rw e (omega (arith, w, tally-set unnamed p.items num y g));
  same_names = λ file.
      let w : named_live h file y ≡ named_live h file x = rw (same_file, same_deleted) refl in
      rw e (omega (arith, w, tally-set (named_live h file) p.items num y g));
}

-- The item with its new time and the file's time of change.
abbrev timed_item : Host → Text → ℤ → Item → Item
timed_item h file time item = record item {
  tags = some (record (tags_or_new item.tags) { time = time; filled_time = true });
  mtime = h.get_mtime file;
}

module _ (h : Host) (file : Text) (time : ℤ) (p : Plist) (i : ℕ) (item : Item) (v : IsGood h p)
    (at : get_elem? p.items i ≡ some item) (present : item.deleted ≡ false) where
  abbrev new_tags : FileTags
  new_tags = record (tags_or_new item.tags) { time = time; filled_time = true }

  abbrev timed_list : Plist
  timed_list = record (retagged p i item new_tags) {
    items = set (retagged p i item new_tags).items i (timed_item h file time item);
  }

  at_new :
      get_elem? (retagged p i item new_tags).items i ≡ some (record item { tags = some new_tags })
  at_new = ground (
    arith,
    get_elem?-set p.items i i (record item { tags = some new_tags }),
    lt_of_get_elem? p.items i at,
  )

  set_time_at-timed_list : set_time_at h file time p i ≡ some timed_list
  unfolding set_time_at plist_set_item_time
  set_time_at-timed_list = rw (at, at_new) refl

  retagged-IsRelabelled : IsRelabelled h p (retagged p i item new_tags)
  retagged-IsRelabelled =
      relabelled h p (retagged p i item new_tags) i (record item { tags = some new_tags }) v at refl
        refl refl refl (retagged-IsCounted p i item new_tags v.counted at present)

  timed_list-IsRelabelled : IsRelabelled h p timed_list
  timed_list-IsRelabelled =
      let r = retagged-IsRelabelled in
      let r' : IsRelabelled h (retagged p i item new_tags) timed_list =
        relabelled h (retagged p i item new_tags) timed_list i (timed_item h file time item) r.good
          at_new refl refl refl refl
          (replace-IsCounted (retagged p i item new_tags) timed_list i (timed_item h file time item)
            r.good.counted at_new refl refl refl refl) in
      record {
        good = r'.good;
        same_unnamed = r'.same_unnamed ∙ r.same_unnamed;
        same_names = λ name. r'.same_names name ∙ r.same_names name;
      }

  at_timed : get_elem? timed_list.items i ≡ some (timed_item h file time item)
  at_timed = ground (
    arith,
    get_elem?-set (retagged p i item new_tags).items i i (timed_item h file time item),
    lt_of_get_elem? (retagged p i item new_tags).items i at_new,
  )

  -- The time is read back as long as the file does not change.
  time_of-timed_list : time_of h file timed_list i ≡ some time
  unfolding time_of get_item_time
  time_of-timed_list = rw (at_timed, time_known time (h.get_mtime file)) refl

  -- The file is found where it was.
  found_timed :
      eqv h.collation file item.file ≡ true → plist_find_fname h timed_list file ≡ some (some i)
  found_timed same =
      plist_find_fname_at h timed_list file i (timed_item h file time item)
        timed_list-IsRelabelled.good.indexed at_timed present same

-- `audio_plist_set_time` returns, changes nothing but the playlist and keeps the invariant, and while the
-- file does not change, `audio_get_ftime` then gives the time that was set, or -1 where the file is not
-- on the playlist.
pub audio_plist_set_time-audio_get_ftime :
    (h : Host) (s : Audio) (file : Text) (time : ℤ)
    → IsSound h s
    → (found : Option ℕ) × (q : Plist) × (plist_find_fname h s.playlist file ≡ some found)
      × (audio_plist_set_time h file time s ≡ some (record s { playlist = q }))
      × IsSound h (record s { playlist = q })
      × (audio_get_ftime h file (record s { playlist = q })
          ≡ some (elim found [ none ↦ minus_one | some i ↦ time ]))
unfolding audio_plist_set_time audio_get_ftime
audio_plist_set_time-audio_get_ftime h s file time v =
    by_place (plist_find_fname-Finds h s.playlist file v.playlist_good.indexed)
  where
    by_place :
        (r : Option ℕ) × (plist_find_fname h s.playlist file ≡ some r) × Finds h s.playlist file r
        → (found : Option ℕ) × (q : Plist) × (plist_find_fname h s.playlist file ≡ some found)
          × (audio_plist_set_time h file time s ≡ some (record s { playlist = q }))
          × IsSound h (record s { playlist = q })
          × (audio_get_ftime h file (record s { playlist = q })
              ≡ some (elim found [ none ↦ minus_one | some i ↦ time ]))
    by_place (none, e, f) = (none, s.playlist, e, rw (e, audio_plist_set_time) refl, v, rw e refl)
    by_place (some i, e, (item, at, present, same)) =
        let good = v.playlist_good in
        let q : Plist = timed_list h file time s.playlist i item good at present in
        let r = timed_list-IsRelabelled h file time s.playlist i item good at present in
        (
          some i,
          q,
          e,
          rw (e, set_time_at-timed_list h file time s.playlist i item good at present) refl,
          playlist-AreSound q v r.good (r.same_unnamed ∙ v.playlist_named)
              (λ name has. same-Has h q s.playlist name (sym (r.same_names name)) has),
          rw (found_timed h file time s.playlist i item good at present same)
              (time_of-timed_list h file time s.playlist i item good at present),
        )
