-- ===== src/Audio/Playing.antt =====
-- audio/audio.cpp: `audio_play`.
use mocf.Base.{
  if_true, ℕ, suc, ◌≡◌, refl, ap, ◌∙◌, true, not, ◌&&◌, Option, some, none, inl, inr, Text,
  is_empty, arith, Bool-cases, ltb, ◌>>=◌,
}
use mocf.Playlist.Data.{Plist, Host, empty_plist}
use mocf.Playlist.Search.{plist_next}
use mocf.Playlist.Edit.{plist_clear}
use mocf.Playlist.Index.{IsIndexed, plist_find_fname-Finds}
use mocf.Audio.Data.{
  Options, Audio, current, call, player_reset, loop_test, the_playlist, the_shuffled, the_queue,
  server_queue_pop,
}
use mocf.Audio.Go.{fill_shuffled, put_first}
use mocf.Audio.Control.{first_file, play_shuffled, play_in_order, choose_first, audio_play}
use mocf.Audio.Sound.{AreSound, IsSound}
use mocf.Audio.Choosing.{
  cleared-AreSound, fill_shuffled-AreSound, put_first-AreSound, with_shuffled,
}
use mocf.Audio.Taken.{take_from_queue-IsTaken}
use mocf.Audio.Thread.{HasCurrent}
use mocf.Audio.Stopping.{IsWell, audio_stop-IsStopped}

-- A first file is chosen.
record Started (h : Host) (r : Option Audio) : Type 0 where
  result : Audio
  returned : r ≡ some result
  sound : IsSound h result
  has_current : HasCurrent result

first_file_returns :
    (h : Host) (fname : Text) (p : Plist)
    → IsIndexed h p
    → (i : Option ℕ) × (first_file h fname p ≡ some i)
unfolding first_file
first_file_returns h fname p v = elim (Bool-cases (is_empty fname)) [
  | inr e ↦
      let (r, f, _) = plist_find_fname-Finds h p fname v in
      (r, if_true (not (is_empty fname)) _ _ (ap not e) ∙ f)
  | inl e ↦ elim (Bool-cases (ltb 0 p.not_deleted)) [
    | inl c ↦ (plist_next p none, rw (e, c) refl)
    | inr c ↦ (none, rw (e, c) refl)
  ]
]

module _ (h : Host) (rand : ℕ → ℕ → ℕ) (fname : Text) where
  in_order-Started : (s : Audio) → IsSound h s → Started h (play_in_order h fname s)
  unfolding play_in_order current
  in_order-Started s v =
      let (i, e) = first_file_returns h fname s.playlist v.playlist_good.indexed in
      record {
        result = record s { curr_plist = the_playlist; curr_playing = i };
        returned = rw e refl;
        sound = v;
        has_current = (s.playlist, refl);
      }

  shuffled_put-Started :
      (s : Audio) (q q' : Plist) (n : ℕ)
      → fill_shuffled h rand (record s { shuffled_plist = empty_plist })
        ≡ some (with_shuffled q n s)
      → put_first h fname (with_shuffled q n s) ≡ some (with_shuffled q' n s)
      → AreSound h s.playlist q' s.queue
      → Started h (play_shuffled h rand fname s)
  unfolding play_shuffled plist_clear current
  shuffled_put-Started s q q' n e e' w =
      let (i, f) = first_file_returns h fname q' w.shuffled_good.indexed in
      record {
        result = record (with_shuffled q' n s) { curr_plist = the_shuffled; curr_playing = i };
        returned = rw (e, e', f) refl;
        sound = w;
        has_current = (q', refl);
      }

  shuffled-Started : (s : Audio) → IsSound h s → Started h (play_shuffled h rand fname s)
  shuffled-Started s v =
      let (q, e, w, _) =
        fill_shuffled-AreSound h rand (record s { shuffled_plist = empty_plist })
          (cleared-AreSound v) refl in
      let (q', e', w') = put_first-AreSound h rand (with_shuffled q (suc s.shuffles) s) w fname in
      shuffled_put-Started s q q' (suc s.shuffles) e e' w'

  choose_first-Started :
      (o : Options) (s : Audio) → IsSound h s → Started h (choose_first h rand o fname s)
  unfolding choose_first current
  choose_first-Started o s v = elim (Bool-cases (ltb 0 s.queue.not_deleted && is_empty fname)) [
    | inl e ↦
        let k = take_from_queue-IsTaken h s v (ground arith) in
        record {
          result = call (server_queue_pop k.item.file) (record s {
            curr_plist = the_queue;
            curr_playing = some k.num;
            queue = k.queue;
            started_playing_in_queue = true;
          });
          returned =
              if_true (ltb 0 s.queue.not_deleted && is_empty fname) _ _ e
              ∙ ap
                  (λ (r : Option Audio).
                    r >>= λ s'. some (record s' { started_playing_in_queue = true }))
                  k.returned;
          sound = k.sound;
          has_current = (k.queue, refl);
        }
    | inr e ↦ elim (Bool-cases o.shuffle) [
      | inl w ↦ as_started (rw (e, w) refl) (shuffled-Started s v)
      | inr w ↦ as_started (rw (e, w) refl) (in_order-Started s v)
    ]
  ]
    where
      as_started : {r r' : Option Audio} → r ≡ r' → Started h r' → Started h r
      as_started e g = record {
        result = g.result;
        returned = e ∙ g.returned;
        sound = g.sound;
        has_current = g.has_current;
      }

-- `audio_play` stops what is played, chooses a file and starts a thread for it, passes its assertions and
-- keeps the invariant.
pub audio_play-IsWell :
    (h : Host) (rand : ℕ → ℕ → ℕ) (o : Options) (fname : Text) (s : Audio)
    → IsWell h s
    → (s' : Audio) × (audio_play h rand o fname s ≡ some s') × IsWell h s' × (s'.thread ≡ loop_test)
unfolding audio_play current
audio_play-IsWell h rand o fname s w =
    let (stopped, e, d) = audio_stop-IsStopped h rand o s w in
    let g = choose_first-Started h rand fname o (call player_reset stopped) d.sound in
    (
      record g.result { play_thread_running = true; thread = loop_test },
      rw (e, g.returned) refl,
      record { sound = g.sound; listed = g.has_current; running = refl },
      refl,
    )
