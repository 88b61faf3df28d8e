-- ===== src/Audio/Choosing.antt =====
-- audio/audio.cpp: the shuffled list, and the choice of a list in `go_to_another_file`.
use mocf.Base.{
  ℕ, suc, ◌<◌, ◌≡◌, refl, sym, ◌∙◌, true, false, ◌&&◌, Option, some, List, [], ◌∷◌, inl, inr, Text,
  is_empty, arith, length, Bool-cases, ltb, ◌==◌,
}
use mocf.SearchTree.{eqv_refl}
use mocf.Playlist.Data.{empty_plist, Item, Plist, Host}
use mocf.Playlist.Tally.{unnamed, tally}
use mocf.Playlist.Join.{empty-IsGood, IsGood, Has}
use mocf.Playlist.Moves.{AreDistinct}
use mocf.Playlist.First.{plist_swap_first_fname-IsFirst}
use mocf.Playlist.Live.{cat-fresh, live_item, named_live, same-Has, counted_of_Has}
use mocf.Playlist.SwapFiles.{plist_shuffle-IsRearranged}
use mocf.Audio.Data.{Options, Audio, current, the_playlist, the_shuffled}
use mocf.Audio.Go.{fill_shuffled, put_first, put_current_first, make_shuffled, choose_list}
use mocf.Audio.Sound.{AreSound, IsSound, empty-AreDistinct}

-- Another shuffled list.
pub shuffled-AreSound :
    {h : Host} {playlist shuffled queue : Plist} (p : Plist)
    → AreSound h playlist shuffled queue
    → IsGood h p
    → tally unnamed p.items ≡ 0
    → AreDistinct h p.items
    → ((file : Text) → Has h playlist file → Has h p file)
    → AreSound h playlist p queue
shuffled-AreSound p v good named d covers = record {
  playlist_good = v.playlist_good;
  playlist_named = v.playlist_named;
  shuffled_good = good;
  shuffled_named = named;
  shuffled_distinct = d;
  covers = λ lt file has. covers file has;
  queue_good = v.queue_good;
  queue_named = v.queue_named;
}

-- No shuffled list.
pub cleared-AreSound :
    {h : Host} {playlist shuffled queue : Plist}
    → AreSound h playlist shuffled queue
    → AreSound h playlist empty_plist queue
cleared-AreSound {h} v = record {
  playlist_good = v.playlist_good;
  playlist_named = v.playlist_named;
  shuffled_good = empty-IsGood h;
  shuffled_named = refl;
  shuffled_distinct = empty-AreDistinct h;
  covers = λ lt. absurd (omega arith);
  queue_good = v.queue_good;
  queue_named = v.queue_named;
}

module _ (h : Host) (rand : ℕ → ℕ → ℕ) (s : Audio) (v : IsSound h s) where
  -- A shuffled copy of the playlist.
  pub fill_shuffled-AreSound :
      s.shuffled_plist.items ≡ []
      → (q : Plist) × (fill_shuffled h rand s
          ≡ some (record s { shuffled_plist = q; shuffles = suc s.shuffles }))
        × AreSound h s.playlist q s.queue
        × ((file : Text) → Has h s.playlist file → Has h q file)
  unfolding fill_shuffled
  fill_shuffled-AreSound e =
      let (j, joins, good, named, d, all) =
        cat-fresh h s.shuffled_plist s.playlist v.shuffled_good e v.playlist_named in
      let (q, shuffles, r) = plist_shuffle-IsRearranged h (rand s.shuffles) j good d in
      let covers : (file : Text) → Has h s.playlist file → Has h q file =
        λ file has. same-Has h j q file (r.moved.same_tally (named_live h file)) (all file has) in
      (
        q,
        rw (joins, shuffles) refl,
        shuffled-AreSound q v r.good (r.moved.same_tally unnamed ∙ named) (r.moved.distinct h d)
            covers,
        covers,
      )

  pub put_first-AreSound :
      (fname : Text)
      → (q : Plist) × (put_first h fname s ≡ some (record s { shuffled_plist = q }))
        × AreSound h s.playlist q s.queue
  unfolding put_first
  put_first-AreSound fname =
      let (q, e, w) =
        plist_swap_first_fname-IsFirst h s.shuffled_plist fname v.shuffled_good.counted
          v.shuffled_good.indexed v.shuffled_distinct in
      (
        q,
        rw e refl,
        record {
          playlist_good = v.playlist_good;
          playlist_named = v.playlist_named;
          shuffled_good = record { counted = w.counted; indexed = w.indexed };
          shuffled_named = w.moved.same_tally unnamed ∙ v.shuffled_named;
          shuffled_distinct = w.moved.distinct h v.shuffled_distinct;
          covers = λ lt file has.
              same-Has h s.shuffled_plist q file (w.moved.same_tally (named_live h file))
                (v.covers (omega (arith, w.moved.same_length)) file has);
          queue_good = v.queue_good;
          queue_named = v.queue_named;
        },
      )

  -- The shuffled list has no items when it is made.
  no_shuffled :
      0 < s.playlist.not_deleted → s.shuffled_plist.not_deleted ≡ 0 → s.shuffled_plist.items ≡ []
  no_shuffled lt e =
      let (i, it, g, present) = live_item s.playlist v.playlist_good.counted lt in
      by_items it.file s.shuffled_plist.items refl
        (i, (it, g, present, eqv_refl h.collation it.file))
    where
      by_items :
          (file : Text) (xs : List Item)
          → s.shuffled_plist.items ≡ xs
          → Has h s.playlist file
          → s.shuffled_plist.items ≡ []
      by_items file [] e' has = e'
      by_items file (x ∷ xs) e' has =
          let some_items : 0 < length s.shuffled_plist.items = rw e' (omega arith) in
          let c =
            counted_of_Has h s.shuffled_plist file v.shuffled_good.counted
              (v.covers some_items file has) in
          absurd (omega arith)

  put_current_first-AreSound :
      (q : Plist) × (put_current_first h s ≡ some (record s { shuffled_plist = q }))
      × AreSound h s.playlist q s.queue
  unfolding put_current_first
  put_current_first-AreSound = elim (Bool-cases (is_empty s.curr_playing_fname)) [
    | inl e ↦ (s.shuffled_plist, rw e refl, v)
    | inr e ↦ let (q, f, w) = put_first-AreSound s.curr_playing_fname in (q, rw e f, w)
  ]

-- Only the shuffled list, and the number of shuffles, change.
abbrev pub with_shuffled : Plist → ℕ → Audio → Audio
with_shuffled q n s = record s { shuffled_plist = q; shuffles = n }

make_shuffled-AreSound :
    (h : Host) (rand : ℕ → ℕ → ℕ) (s : Audio)
    → IsSound h s
    → (q : Plist) × (n : ℕ) × (make_shuffled h rand s ≡ some (with_shuffled q n s))
      × AreSound h s.playlist q s.queue
unfolding make_shuffled
make_shuffled-AreSound h rand s v =
    elim (Bool-cases (ltb 0 s.playlist.not_deleted && (s.shuffled_plist.not_deleted == 0))) [
      | inr e ↦ (s.shuffled_plist, s.shuffles, rw e refl, v)
      | inl e ↦
          let (q, fills, w, _) =
            fill_shuffled-AreSound h rand s v
              (no_shuffled h rand s v (ground arith) (ground arith)) in
          let (q', puts, w') =
            put_current_first-AreSound h rand (with_shuffled q (suc s.shuffles) s) w in
          (q', suc s.shuffles, rw (e, fills) puts, w')
    ]

-- The list that is played from is good.
pub record HasList (h : Host) (s : Audio) : Type 0 where
  pub list : Plist
  pub is_current : current s ≡ some list
  pub good : IsGood h list
  pub named : tally unnamed list.items ≡ 0

pub playlist-HasList :
    (h : Host) (s : Audio) → IsSound h s → HasList h (record s { curr_plist = the_playlist })
unfolding current
playlist-HasList h s v = record {
  list = s.playlist;
  is_current = refl;
  good = v.playlist_good;
  named = v.playlist_named;
}

pub shuffled-HasList :
    (h : Host) (s : Audio) → IsSound h s → HasList h (record s { curr_plist = the_shuffled })
unfolding current
shuffled-HasList h s v = record {
  list = s.shuffled_plist;
  is_current = refl;
  good = v.shuffled_good;
  named = v.shuffled_named;
}

-- What a choice of a list leaves.
pub record Chosen (h : Host) (o : Options) (s : Audio) (r : Option Audio) : Type 0 where
  pub result : Audio
  pub returned : r ≡ some result
  pub sound : IsSound h result
  pub has_list : HasList h result
  pub same_place : result.curr_playing ≡ s.curr_playing
  pub same_running : result.play_thread_running ≡ s.play_thread_running
  pub shuffled_list : o.shuffle ≡ true → result.curr_plist ≡ the_shuffled

pub choose_list-Chosen :
    (h : Host) (rand : ℕ → ℕ → ℕ) (o : Options) (s : Audio)
    → IsSound h s
    → Chosen h o s (choose_list h rand o s)
unfolding choose_list
choose_list-Chosen h rand o s v = elim (Bool-cases o.shuffle) [
  | inr e ↦ record {
    result = record s { curr_plist = the_playlist };
    returned = rw e refl;
    sound = v;
    has_list = playlist-HasList h s v;
    same_place = refl;
    same_running = refl;
    shuffled_list = λ e'. let z : true ≡ false = sym e' ∙ e in cc;
  }
  | inl e ↦
      let (q, n, f, w) = make_shuffled-AreSound h rand (record s { curr_plist = the_shuffled }) v in
      record {
        result = with_shuffled q n (record s { curr_plist = the_shuffled });
        returned = rw e f;
        sound = w;
        has_list = shuffled-HasList h (with_shuffled q n s) w;
        same_place = refl;
        same_running = refl;
        shuffled_list = λ e'. refl;
      }
]
