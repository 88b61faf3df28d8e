-- ===== src/Audio/Another.antt =====
-- audio/audio.cpp: `go_to_another_file` passes its assertions and keeps the invariant.
use mocf.Base.{
  Bool, ℕ, ◌≡◌, refl, ◌∙◌, not, ◌&&◌, ◌||◌, Option, some, [], inl, inr, is_empty, arith, Bool-cases,
  ltb, ◌>>=◌,
}
use mocf.Playlist.Data.{Plist, Host}
use mocf.Audio.Data.{Options, Audio, current, call, server_queue_pop, the_queue}
use mocf.Audio.Go.{
  keep_fname, return_from_queue, choose_list, find_current, go_by_request, go_in_list,
  go_to_another_file,
}
use mocf.Audio.Sound.{IsSound}
use mocf.Audio.Ready.{find_current-IsInList}
use mocf.Audio.Choosing.{choose_list-Chosen}
use mocf.Audio.Going.{Gone, same_call, as_before, go_by_request-Gone}
use mocf.Audio.Taken.{take_from_queue-IsTaken}

-- The invariant does not read the rest of the state.
return_from_queue-IsSound :
    (h : Host) (o : Options) (s : Audio)
    → IsSound h s
    → IsSound h (return_from_queue o s)
      × ((return_from_queue o s).curr_playing ≡ s.curr_playing)
      × ((return_from_queue o s).play_thread_running ≡ s.play_thread_running)
return_from_queue-IsSound h o s v =
    elim (Bool-cases (not (is_empty s.before_queue_fname) && o.queue_next_song_return)) [
      | inl e ↦ rw e (v, refl, refl)
      | inr e ↦ rw e (v, refl, refl)
    ]

-- The file to come back to is forgotten.
forget :
    {h : Host} {o : Options} {before : Option ℕ} {running : Bool} {r : Option Audio}
    → Gone h o before running r
    → Gone h o before running (r >>= λ s. some (record s { before_queue_fname = [] }))
unfolding current
forget g = record {
  result = record g.result { before_queue_fname = [] };
  returned = rw g.returned refl;
  sound = g.sound;
  same_running = g.same_running;
  list = g.list;
  is_current = g.is_current;
  ready = g.ready;
}

module _ (h : Host) (rand : ℕ → ℕ → ℕ) (o : Options) (s : Audio) (v : IsSound h s) where
  go_in_list-chosen :
      (s1 : Audio) (pos : Option ℕ) (p : Plist)
      → choose_list h rand o (return_from_queue o s) ≡ some s1
      → current s1 ≡ some p
      → find_current h p s1 ≡ some pos
      → go_in_list h rand o s
        ≡ (go_by_request h rand o p pos s1 >>= λ s. some (record s { before_queue_fname = [] }))
  unfolding go_in_list
  go_in_list-chosen s1 pos p e e' e'' = rw (e, e', e'') refl

  go_in_list-Gone : Gone h o s.curr_playing s.play_thread_running (go_in_list h rand o s)
  go_in_list-Gone =
      let (v', same, run) = return_from_queue-IsSound h o s v in
      let c = choose_list-Chosen h rand o (return_from_queue o s) v' in
      let l = c.has_list in
      let (pos, f, inside) = find_current-IsInList h l.list c.result l.good.indexed in
      same_call (go_in_list-chosen c.result pos l.list c.returned l.is_current f) (
        forget (
          as_before (c.same_place ∙ same) (c.same_running ∙ run)
            (go_by_request-Gone h rand o c.result c.sound l c.shuffled_list pos inside)))

-- `go_to_another_file` passes its assertions, reads no item out of range, and keeps the invariant. The index
-- is -1 afterwards or that of an item with a file name in the current list, or, with the option Repeat,
-- what it was.
pub go_to_another_file-Gone :
    (h : Host) (rand : ℕ → ℕ → ℕ) (o : Options) (s : Audio)
    → IsSound h s
    → Gone h o s.curr_playing s.play_thread_running (go_to_another_file h rand o s)
unfolding go_to_another_file current
go_to_another_file-Gone h rand o s v =
    elim (Bool-cases (ltb 0 s.queue.not_deleted && (s.play_next || o.auto_next))) [
      | inr e ↦ same_call (rw e refl) (go_in_list-Gone h rand o s v)
      | inl e ↦
          let k = take_from_queue-IsTaken h (keep_fname s) v (ground arith) in
          record {
            result = call (server_queue_pop k.item.file) (record (keep_fname s) {
              curr_plist = the_queue;
              curr_playing = some k.num;
              queue = k.queue;
            });
            returned = rw e k.returned;
            sound = k.sound;
            same_running = refl;
            list = k.queue;
            is_current = refl;
            ready = inl k.playable;
          }
    ]
