-- ===== src/Audio/AllPlayed.antt =====
-- audio/audio.cpp: with the option AutoNext alone, the whole playlist is played.
use mathlib.Core.List.{append_assoc, append-nil}
use mocf.Base.{
  ℕ, zero, suc, ◌+◌, ◌*◌, ◌≤◌, ◌≡◌, refl, ap, sym, ◌∙◌, Bool, true, false, Option, some, none, List,
  [], ◌∷◌, ◌++◌, ◌⊎◌, inl, inr, Text, arith, Bool-cases, get_elem?, length, drop, lt_of_get_elem?,
  ltb, ◌>>=◌,
}
use mocf.SearchTree.{eqv_refl}
use mocf.Playlist.Data.{Item, Plist, Host}
use mocf.Playlist.Search.{plist_next}
use mocf.Playlist.Live.{counted_of_Has}
use mocf.Playlist.Tally.{unnamed, tally}
use mocf.Playlist.Join.{IsGood}
use mocf.Audio.Data.{Options, Audio, Event, player, exited, start, player_reset}
use mocf.Audio.Control.{
  next_file, test_loop, step_from, thread_step, thread_steps, leave_loop, audio_play, audio_stop,
  choose_first, play_in_order, first_file,
}
use mocf.Audio.InOrder.{live_files, played, next_live, at_item, auto_next_only, plays_one}

-- Without an item, the loop ends.
ends :
    (h : Host) (rand : ℕ → ℕ → ℕ) (o : Options) (s : Audio) (fname : Text) (events : List Event)
    → thread_steps h rand o 1 (at_item s none fname events)
      ≡ some (leave_loop (at_item s none fname events))
unfolding thread_steps thread_step step_from test_loop
ends h rand o s fname events = refl

-- The steps of the thread for the files: four for each, and one to end.
abbrev pub steps_for : List Text → ℕ
steps_for [] = 1
steps_for (file ∷ files) = suc (suc (suc (suc (steps_for files))))

pub steps_for_lem : (files : List Text) → steps_for files ≡ 4 * length files + 1
steps_for_lem [] = refl
steps_for_lem (file ∷ files) = omega (arith, steps_for_lem files)

-- What a thread that plays the files, and no others, leaves.
pub record HasPlayed (s : Audio) (files : List Text) (r : Option Audio) : Type 0 where
  pub result : Audio
  pub returned : r ≡ some result
  pub over : result.thread ≡ exited
  pub same_lists : (result.playlist ≡ s.playlist) × (result.queue ≡ s.queue)
  pub files_played : played result.events ≡ played s.events ++ files

module _ (h : Host) (rand : ℕ → ℕ → ℕ) (b : Bool) (s : Audio) (v : IsGood h s.playlist)
    (named : tally unnamed s.playlist.items ≡ 0) (no_queue : s.queue.not_deleted ≡ 0) where
  abbrev Plays : Option ℕ → List Text → Type 0
  Plays i files =
      (fname : Text) (events : List Event)
      → HasPlayed (at_item s i fname events) files
          (thread_steps h rand (auto_next_only b) (steps_for files) (at_item s i fname events))

  none-Plays : Plays none []
  none-Plays fname events = record {
    result = leave_loop (at_item s none fname events);
    returned = ends h rand (auto_next_only b) s fname events;
    over = refl;
    same_lists = (refl, refl);
    files_played = sym (append-nil (played events));
  }

  some-Plays :
      (i : ℕ) (it : Item) (r : Option ℕ) (files : List Text)
      → get_elem? s.playlist.items i ≡ some it
      → it.deleted ≡ false
      → plist_next s.playlist (some i) ≡ r
      → Plays r files
      → Plays (some i) (it.file ∷ files)
  some-Plays i it r files at present e rest fname events =
      let event : Event = player it.file (next_file s.playlist (some i)) in
      let q = rest it.file (event ∷ events) in
      record {
        result = q.result;
        returned =
            plays_one h rand b s v named no_queue i it at present fname events (steps_for files)
            ∙ ap
                (λ (r : Option ℕ).
                  thread_steps h rand (auto_next_only b) (steps_for files)
                    (at_item s r it.file (event ∷ events)))
                e
            ∙ q.returned;
        over = q.over;
        same_lists = q.same_lists;
        files_played = q.files_played ∙ append_assoc (played events) (it.file ∷ []) files;
      }

  from-Plays :
      (k i : ℕ) (it : Item)
      → length s.playlist.items ≤ i + k
      → get_elem? s.playlist.items i ≡ some it
      → it.deleted ≡ false
      → Plays (some i) (it.file ∷ live_files (drop (i + 1) s.playlist.items))
  unfolding plist_next
  from-Plays zero i it le at present = absurd (omega (arith, lt_of_get_elem? s.playlist.items i at))
  from-Plays (suc k) i it le at present =
      elim (next_live s.playlist.items (drop (i + 1) s.playlist.items) (i + 1) refl) [
        | inl (f, l) ↦ rw l (some-Plays i it none [] at present f none-Plays)
        | inr (j, jt, f, lt, g, live, l) ↦ rw l (
            some-Plays i it (some j) (jt.file ∷ live_files (drop (j + 1) s.playlist.items)) at
              present f (from-Plays k j jt (omega arith) g live))
      ]

  -- From the first live item on.
  first_live :
      ((plist_next s.playlist none ≡ none) × (live_files s.playlist.items ≡ []))
      ⊎ ((j : ℕ) × (it : Item) × (plist_next s.playlist none ≡ some j)
          × (get_elem? s.playlist.items j ≡ some it)
          × (it.deleted ≡ false)
          × (live_files s.playlist.items ≡ it.file ∷ live_files (drop (j + 1) s.playlist.items)))
  unfolding plist_next
  first_live = elim (next_live s.playlist.items s.playlist.items 0 refl) [
    | inl q ↦ inl q
    | inr (j, it, f, _, g, live, l) ↦ inr (j, it, f, g, live, l)
  ]

  all-Plays : Plays (plist_next s.playlist none) (live_files s.playlist.items)
  all-Plays = elim first_live [
    | inl (f, l) ↦ rw (f, l) none-Plays
    | inr (j, it, f, g, live, l) ↦
        rw (f, l) (from-Plays (length s.playlist.items) j it (omega arith) g live)
  ]

-- The state at start-up, with a playlist.
abbrev pub loaded : Plist → Audio
loaded p = record start { playlist = p }

module _ (h : Host) (rand : ℕ → ℕ → ℕ) (b : Bool) (p : Plist) (v : IsGood h p)
    (named : tally unnamed p.items ≡ 0) where
  first_of : first_file h [] p ≡ some (plist_next p none)
  unfolding first_file
  first_of = elim (Bool-cases (ltb 0 p.not_deleted)) [
    | inl e ↦ rw e refl
    | inr e ↦ elim (first_live h rand b (loaded p) v named refl) [
      | inl (f, l) ↦ rw (e, f) refl
      | inr (j, it, f, g, live, l) ↦ absurd (
          let c =
            counted_of_Has h p it.file v.counted (j, (it, g, live, eqv_refl h.collation it.file)) in
          ground arith)
    ]
  ]

  starts :
      audio_play h rand (auto_next_only b) [] (loaded p)
      ≡ some (
          at_item
            (record (loaded p) { play_thread_running = true })
            (plist_next p none)
            []
            (player_reset ∷ []))
  unfolding audio_play audio_stop choose_first play_in_order
  starts = rw first_of refl

-- With AutoNext, without Shuffle and Repeat and with an empty queue, `audio_play("")` plays every file of the
-- playlist that is not deleted, once each and in order, and the thread then ends: after four steps for
-- each file and one more.
pub audio_play-HasPlayed :
    (h : Host) (rand : ℕ → ℕ → ℕ) (b : Bool) (p : Plist)
    → IsGood h p
    → tally unnamed p.items ≡ 0
    → HasPlayed (loaded p) (live_files p.items) (
        audio_play h rand (auto_next_only b) [] (loaded p)
        >>= thread_steps h rand (auto_next_only b) (4 * length (live_files p.items) + 1))
audio_play-HasPlayed h rand b p v named =
    let s : Audio = record (loaded p) { play_thread_running = true } in
    let q = all-Plays h rand b s v named refl [] (player_reset ∷ []) in
    record {
      result = q.result;
      returned =
          ap
            (λ (n : ℕ).
              audio_play h rand (auto_next_only b) [] (loaded p)
              >>= thread_steps h rand (auto_next_only b) n)
            (sym (steps_for_lem (live_files p.items)))
          ∙ ap
              (λ (r : Option Audio).
                r >>= thread_steps h rand (auto_next_only b) (steps_for (live_files p.items)))
              (starts h rand b p v named)
          ∙ q.returned;
      over = q.over;
      same_lists = q.same_lists;
      files_played = q.files_played;
    }
