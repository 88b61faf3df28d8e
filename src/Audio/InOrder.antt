-- ===== src/Audio/InOrder.antt =====
-- audio/audio.cpp: with the option AutoNext alone, the playing thread plays an item and goes on to the next.
use mocf.Base.{
  ℕ, suc, ◌+◌, ◌≤◌, ◌≡◌, refl, ap, sym, ◌∙◌, Bool, true, false, Option, some, none, List, [], ◌∷◌,
  ◌++◌, ◌⊎◌, inl, inr, Text, if◌then◌else◌, is_empty, arith, Bool-cases, get_elem?, drop, drop-drop,
  get_elem?-drop, ltb,
}
use mocf.SearchTree.{eqv_refl}
use mocf.Playlist.Data.{Item, Host}
use mocf.Playlist.Search.{plist_find_fname, plist_next, next_from}
use mocf.Playlist.Edit.{plist_get_file}
use mocf.Playlist.Live.{plist_find_fname_at, counted_of_Has}
use mocf.Playlist.Tally.{unnamed, tally}
use mocf.Playlist.Join.{IsGood}
use mocf.Audio.Data.{Options, Audio, Event, player, current, loop_test, past_player, the_playlist}
use mocf.Audio.Go.{
  go_to_another_file, go_in_list, choose_list, find_current, go_by_request, go_forward,
}
use mocf.Audio.Control.{
  next_file, test_loop, start_file, finish_file, step_from, thread_step, thread_steps,
}
use mocf.Audio.Ready.{live_named}
use mocf.Audio.Taken.{file_at}

-- The files of the live items.
abbrev pub live_files : List Item → List Text
live_files [] = []
live_files (it ∷ its) = if it.deleted then live_files its else it.file ∷ live_files its

-- The files that `player` was called for, the first one first.
abbrev pub played : List Event → List Text
played [] = []
played (player file next ∷ es) = played es ++ (file ∷ [])
played (_ ∷ es) = played es

-- The next live item, and the files that are left.
pub next_live :
    (items xs : List Item) (off : ℕ)
    → drop off items ≡ xs
    → ((next_from xs off ≡ none) × (live_files xs ≡ []))
      ⊎ ((j : ℕ) × (it : Item) × (next_from xs off ≡ some j)
          × (off ≤ j)
          × (get_elem? items j ≡ some it)
          × (it.deleted ≡ false)
          × (live_files xs ≡ it.file ∷ live_files (drop (j + 1) items)))
unfolding next_from
next_live items [] off e = inl (refl, refl)
next_live items (x ∷ xs) off e =
    let behind : drop (off + 1) items ≡ xs = sym (drop-drop off 1 items) ∙ ap (drop 1) e in
    elim (Bool-cases x.deleted) [
      | inr live ↦
          let at : get_elem? items off ≡ some x =
            ap (λ (k : ℕ). get_elem? items k) (omega arith)
            ∙ sym (get_elem?-drop off items 0)
            ∙ ap (λ (ys : List Item). get_elem? ys 0) e in
          inr (off, x, rw live refl, omega arith, at, live, rw (live, behind) refl)
      | inl gone ↦ elim (next_live items xs (off + 1) behind) [
        | inl (f, l) ↦ inl (rw (gone, f) refl, rw (gone, l) refl)
        | inr (j, it, f, le, g, live, l) ↦
            inr (j, it, rw (gone, f) refl, omega (arith, le), g, live, rw (gone, l) refl)
      ]
    ]

-- The thread at the test of its loop, without requests.
abbrev pub at_item : Audio → Option ℕ → Text → List Event → Audio
at_item s i fname events = record s {
  thread = loop_test;
  curr_plist = the_playlist;
  curr_playing = i;
  curr_playing_fname = fname;
  before_queue_fname = [];
  started_playing_in_queue = false;
  stop_playing = false;
  play_next = false;
  play_prev = false;
  events = events;
}

-- AutoNext without Shuffle and Repeat.
abbrev pub auto_next_only : Bool → Options
auto_next_only return = record {
  shuffle = false;
  auto_next = true;
  repeat = false;
  queue_next_song_return = return;
}

module _ (h : Host) (rand : ℕ → ℕ → ℕ) (b : Bool) (s : Audio) (v : IsGood h s.playlist)
    (named : tally unnamed s.playlist.items ≡ 0) (no_queue : s.queue.not_deleted ≡ 0) where
  abbrev o : Options
  o = auto_next_only b

  module _ (i : ℕ) (it : Item) (at : get_elem? s.playlist.items i ≡ some it)
      (present : it.deleted ≡ false) (fname : Text) (events : List Event) where
    abbrev played_event : Event
    played_event = player it.file (next_file s.playlist (some i))

    -- Past `player` for the item `i`, with the index `r`.
    abbrev past : Option ℕ → Audio
    past r = record (at_item s r it.file (played_event ∷ events)) { thread = past_player }

    found : plist_find_fname h s.playlist it.file ≡ some (some i)
    found =
        plist_find_fname_at h s.playlist it.file i it v.indexed at present
          (eqv_refl h.collation it.file)

    some_live : ltb 0 s.playlist.not_deleted ≡ true
    some_live = ground (
      arith,
      counted_of_Has h s.playlist it.file v.counted
          (i, (it, at, present, eqv_refl h.collation it.file)),
    )

    -- The next item follows.
    go_on :
        go_to_another_file h rand o (past (some i)) ≡ some (past (plist_next s.playlist (some i)))
    unfolding go_to_another_file go_in_list choose_list find_current go_by_request go_forward
        current
    go_on = by_next (plist_next s.playlist (some i)) refl
      where
        no_q : ltb 0 s.queue.not_deleted ≡ false
        no_q = ground (arith, no_queue)

        by_next :
            (r : Option ℕ)
            → plist_next s.playlist (some i) ≡ r
            → go_to_another_file h rand o (past (some i)) ≡ some (past r)
        by_next none e = rw (no_q, found, some_live, e, go_forward) refl
        by_next (some j) e = rw (no_q, found, some_live, e, go_forward) refl

    file_here : plist_get_file s.playlist i ≡ it.file
    file_here = file_at s.playlist i it at

    has_name : is_empty it.file ≡ false
    has_name = sym (ap is_empty file_here) ∙ live_named s.playlist named i (it, at, present)

    -- Four steps play the item and go on.
    pub plays_one :
        (n : ℕ)
        → thread_steps h rand o (suc (suc (suc (suc n)))) (at_item s (some i) fname events)
          ≡ thread_steps h rand o n
              (at_item s (plist_next s.playlist (some i)) it.file (played_event ∷ events))
    unfolding thread_steps thread_step step_from test_loop start_file finish_file current
    plays_one n = rw (file_here, has_name, go_on) refl
