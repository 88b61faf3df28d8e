-- ===== src/Audio/Going.antt =====
-- audio/audio.cpp: `go_to_another_file` passes its assertions and keeps the invariant.
use mocf.Base.{
  Bool, ℕ, suc, ◌<◌, ◌≡◌, refl, ◌∙◌, true, false, ◌&&◌, ◌||◌, Option, some, none, ◌⊎◌, inl, inr,
  arith, Bool-cases, ltb,
}
use mocf.Playlist.Data.{Plist, Host, empty_plist}
use mocf.Playlist.Search.{plist_next, plist_prev, plist_last}
use mocf.Playlist.Edit.{plist_clear}
use mocf.Audio.Data.{Options, Audio, current, the_shuffled}
use mocf.Audio.Go.{fill_shuffled, go_to, go_back, go_around, go_forward, go_by_request, from}
use mocf.Audio.Sound.{AreSound, IsSound}
use mocf.Audio.Ready.{
  IsInList, IsPlayable, plist_next-IsPlayable, plist_prev-IsPlayable, plist_last-IsPlayable,
  from-IsInList,
}
use mocf.Audio.Choosing.{cleared-AreSound, HasList, fill_shuffled-AreSound}

-- What a move to another file leaves: the next index is ready, or, with the option Repeat, what it was.
pub record Gone (h : Host) (o : Options) (before : Option ℕ) (running : Bool) (r : Option Audio)
    : Type 0 where
  pub result : Audio
  pub returned : r ≡ some result
  pub sound : IsSound h result
  pub same_running : result.play_thread_running ≡ running
  pub list : Plist
  pub is_current : current result ≡ some list
  pub ready :
      IsPlayable list result.curr_playing ⊎ ((result.curr_playing ≡ before) × (o.repeat ≡ true))

-- The state with another index.
pub go_to-Gone :
    (h : Host) (o : Options) (s : Audio) (l : HasList h s) {before : Option ℕ} {r : Option Audio}
    (s' : Audio)
    → r ≡ some s'
    → IsSound h s'
    → current s' ≡ current s
    → IsPlayable l.list s'.curr_playing
    → s'.play_thread_running ≡ s.play_thread_running
    → Gone h o before s.play_thread_running r
go_to-Gone h o s l s' e v same p run = record {
  result = s';
  returned = e;
  sound = v;
  same_running = run;
  list = l.list;
  is_current = same ∙ l.is_current;
  ready = inl p;
}

module _ (h : Host) (rand : ℕ → ℕ → ℕ) (o : Options) (s : Audio) (v : IsSound h s) (l : HasList h s)
    (before : Option ℕ) where
  same_current : (i : Option ℕ) → current (go_to i s) ≡ current s
  unfolding current
  same_current i = refl

  go_back-Gone :
      (pos : Option ℕ)
      → IsInList l.list pos
      → 0 < l.list.not_deleted
      → Gone h o before s.play_thread_running (go_back o l.list pos s)
  unfolding go_back
  go_back-Gone pos inside lt =
      let (r, e, p) =
        plist_prev-IsPlayable l.list l.named (from s pos) (from-IsInList l.list s pos inside) in
      by_place r e p
    where
      by_place :
          (r : Option ℕ)
          → plist_prev l.list (from s pos) ≡ some r
          → IsPlayable l.list r
          → Gone h o before s.play_thread_running (go_back o l.list pos s)
      by_place (some i) e p =
          go_to-Gone h o s l (go_to (some i) s) (rw (e, go_back) refl) v (same_current (some i)) p
            refl
      by_place none e p = elim (Bool-cases o.repeat) [
        | inl w ↦
            go_to-Gone h o s l (go_to (plist_last l.list) s) (rw (e, go_back, w) refl) v
              (same_current (plist_last l.list))
              (plist_last-IsPlayable l.list l.named l.good.counted lt) refl
        | inr w ↦
            go_to-Gone h o s l (go_to none s) (rw (e, go_back, w) refl) v (same_current none) tt
              refl
      ]

  go_around_shuffled :
      (q : Plist) (n : ℕ)
      → o.shuffle ≡ true
      → s.curr_plist ≡ the_shuffled
      → fill_shuffled h rand (record s { shuffled_plist = empty_plist })
        ≡ some (record s { shuffled_plist = q; shuffles = n })
      → AreSound h s.playlist q s.queue
      → Gone h o before s.play_thread_running (go_around h rand o s)
  unfolding go_around plist_clear current
  go_around_shuffled q n e on fills w = record {
    result = record s { shuffled_plist = q; shuffles = n; curr_playing = plist_next q none };
    returned = rw (e, fills, on) refl;
    sound = w;
    same_running = refl;
    list = q;
    is_current = rw on refl;
    ready = inl (plist_next-IsPlayable q w.shuffled_named none);
  }

  go_around_in_order :
      o.shuffle ≡ false → Gone h o before s.play_thread_running (go_around h rand o s)
  unfolding go_around current
  go_around_in_order e =
      go_to-Gone h o s l (record s { curr_playing = plist_next l.list none })
        (rw (e, l.is_current) refl) v refl (plist_next-IsPlayable l.list l.named none) refl

  go_around-Gone :
      (o.shuffle ≡ true → s.curr_plist ≡ the_shuffled)
      → Gone h o before s.play_thread_running (go_around h rand o s)
  go_around-Gone on_shuffled = elim (Bool-cases o.shuffle) [
    | inr e ↦ go_around_in_order e
    | inl e ↦
        let (q, fills, w, _) =
          fill_shuffled-AreSound h rand (record s { shuffled_plist = empty_plist })
            (cleared-AreSound v) refl in
        go_around_shuffled q (suc s.shuffles) e (on_shuffled e) fills w
  ]

-- A call that computes to another.
pub same_call :
    {h : Host} {o : Options} {before : Option ℕ} {running : Bool} {r r' : Option Audio}
    → r ≡ r'
    → Gone h o before running r'
    → Gone h o before running r
same_call e g = record {
  result = g.result;
  returned = e ∙ g.returned;
  sound = g.sound;
  same_running = g.same_running;
  list = g.list;
  is_current = g.is_current;
  ready = g.ready;
}

pub as_before :
    {h : Host} {o : Options} {i j : Option ℕ} {b c : Bool} {r : Option Audio}
    → i ≡ j
    → b ≡ c
    → Gone h o i b r
    → Gone h o j c r
as_before e e' g = record {
  result = g.result;
  returned = g.returned;
  sound = g.sound;
  same_running = g.same_running ∙ e';
  list = g.list;
  is_current = g.is_current;
  ready = elim g.ready [ inl p ↦ inl p | inr (same, w) ↦ inr (same ∙ e, w) ];
}

-- Without a move, Repeat plays the same file again.
stayed :
    (h : Host) (o : Options) (s : Audio) {r : Option Audio}
    → IsSound h s
    → HasList h s
    → o.repeat ≡ true
    → r ≡ some s
    → Gone h o s.curr_playing s.play_thread_running r
stayed h o s v l e e' = record {
  result = s;
  returned = e';
  sound = v;
  same_running = refl;
  list = l.list;
  is_current = l.is_current;
  ready = inr (refl, e);
}

-- Without any, the list ends.
ended :
    (h : Host) (o : Options) (s : Audio) {r : Option Audio}
    → IsSound h s
    → HasList h s
    → r ≡ some (record s { curr_playing = none })
    → Gone h o s.curr_playing s.play_thread_running r
unfolding current
ended h o s v l e = go_to-Gone h o s l (record s { curr_playing = none }) e v refl tt refl

module _ (h : Host) (rand : ℕ → ℕ → ℕ) (o : Options) (s : Audio) (v : IsSound h s) (l : HasList h s)
    (on_shuffled : o.shuffle ≡ true → s.curr_plist ≡ the_shuffled) where
  none-HasList : HasList h (go_to none s)
  unfolding current
  none-HasList = record { list = l.list; is_current = l.is_current; good = l.good; named = l.named }

  at_the_end :
      (pos : Option ℕ)
      → plist_next l.list (from s pos) ≡ none
      → o.repeat ≡ true
      → go_forward h rand o l.list pos s ≡ go_around h rand o (go_to none s)
  unfolding go_forward
  at_the_end pos e w = rw (e, go_forward, w) refl

  go_forward-Gone :
      (pos : Option ℕ)
      → Gone h o s.curr_playing s.play_thread_running (go_forward h rand o l.list pos s)
  unfolding go_forward
  go_forward-Gone pos =
      by_place (plist_next l.list (from s pos)) refl
        (plist_next-IsPlayable l.list l.named (from s pos))
    where
      by_place :
          (r : Option ℕ)
          → plist_next l.list (from s pos) ≡ r
          → IsPlayable l.list r
          → Gone h o s.curr_playing s.play_thread_running (go_forward h rand o l.list pos s)
      by_place (some i) e p =
          go_to-Gone h o s l (go_to (some i) s) (rw (e, go_forward) refl) v
            (same_current h rand o s v l none (some i)) p refl
      by_place none e p = elim (Bool-cases o.repeat) [
        | inl w ↦
            same_call (at_the_end pos e w)
              (go_around-Gone h rand o (go_to none s) v none-HasList s.curr_playing on_shuffled)
        | inr w ↦
            go_to-Gone h o s l (go_to none s) (rw (e, go_forward, w) refl) v
              (same_current h rand o s v l none none) tt refl
      ]

  pub go_by_request-Gone :
      (pos : Option ℕ)
      → IsInList l.list pos
      → Gone h o s.curr_playing s.play_thread_running (go_by_request h rand o l.list pos s)
  unfolding go_by_request
  go_by_request-Gone pos inside = elim (Bool-cases (s.play_prev && ltb 0 l.list.not_deleted)) [
    | inl e ↦
        same_call (rw e refl) (go_back-Gone h rand o s v l s.curr_playing pos inside (ground arith))
    | inr e ↦ elim (Bool-cases ((s.play_next || o.auto_next) && ltb 0 l.list.not_deleted)) [
      | inl e' ↦ same_call (rw (e, e') refl) (go_forward-Gone pos)
      | inr e' ↦ elim (Bool-cases o.repeat) [
        | inl w ↦ stayed h o s v l w (rw (e, e', w) refl)
        | inr w ↦ ended h o s v l (rw (e, e', w) refl)
      ]
    ]
  ]
