-- ===== src/Audio/Taken.antt =====
-- audio/audio.cpp: the first file of the queue is taken to be played.
use mocf.Base.{
  ℕ, ◌+◌, ◌<◌, ◌≡◌, refl, ap, sym, ◌∙◌, true, false, Option, some, none, is_empty, arith, get_elem?,
  get_elem?-set, lt_of_get_elem?,
}
use mocf.Playlist.Data.{Item, Plist, Host}
use mocf.Playlist.Search.{plist_next}
use mocf.Playlist.Edit.{plist_get_file, deleted_at}
use mocf.Playlist.Tally.{unnamed, tally-set}
use mocf.Playlist.Counters.{plist_delete_returns}
use mocf.Playlist.Join.{plist_delete-IsGood}
use mocf.Playlist.Walk.{FirstFrom, plist_next-FirstFrom}
use mocf.Playlist.Live.{live_item}
use mocf.Audio.Data.{Audio, call, server_queue_pop, the_queue}
use mocf.Audio.Go.{take_from_queue}
use mocf.Audio.Sound.{AreSound, IsSound, queue-AreSound}
use mocf.Audio.Ready.{live_named}

some_inj {ℓ} : {A : Type ℓ} {a b : A} → some a ≡ some b → a ≡ b
some_inj e = cc

pub file_at :
    (p : Plist) (i : ℕ) (it : Item) → get_elem? p.items i ≡ some it → plist_get_file p i ≡ it.file
unfolding plist_get_file
file_at p i it g = rw (g, plist_get_file) refl

-- Taking the first file of the queue: it is live and has a name, leaves the queue, and its removal is
-- reported.
pub record IsTaken (h : Host) (s : Audio) (r : Option Audio) : Type 0 where
  pub num : ℕ
  pub item : Item
  pub at : get_elem? s.queue.items num ≡ some item
  pub first : plist_next s.queue none ≡ some num
  pub queue : Plist
  pub returned :
      r
      ≡ some (
          call
            (server_queue_pop item.file)
            (record s { curr_plist = the_queue; curr_playing = some num; queue = queue }))
  pub sound : AreSound h s.playlist s.shuffled_plist queue
  pub playable : is_empty (plist_get_file queue num) ≡ false
  pub fewer : queue.not_deleted + 1 ≡ s.queue.not_deleted
  pub same_file : plist_get_file queue num ≡ item.file

pub take_from_queue-IsTaken :
    (h : Host) (s : Audio) → IsSound h s → 0 < s.queue.not_deleted → IsTaken h s (take_from_queue s)
unfolding take_from_queue
take_from_queue-IsTaken h s v lt =
    by_first (plist_next s.queue none) refl (plist_next-FirstFrom s.queue 0).0
  where
    by_first :
        (r : Option ℕ)
        → plist_next s.queue none ≡ r
        → FirstFrom s.queue.items 0 r
        → IsTaken h s (take_from_queue s)
    by_first none e all =
        let (i, it, g, present) = live_item s.queue v.queue_good.counted lt in
        let gone : it.deleted ≡ true =
          all i it (omega arith) (lt_of_get_elem? s.queue.items i g) g in
        absurd (let z : true ≡ false = sym gone ∙ present in cc)
    by_first (some i) e (_, (it, g, present), _) =
        let w = plist_delete_returns s.queue i it v.queue_good.counted g present in
        let (q, e', good, _) = plist_delete-IsGood h s.queue i it v.queue_good g present in
        let one : q ≡ deleted_at s.queue i it = some_inj (sym e' ∙ w) in
        let at' : get_elem? (deleted_at s.queue i it).items i
            ≡ some (record it { deleted = true }) =
          ground (
            arith,
            get_elem?-set s.queue.items i i (record it { deleted = true }),
            lt_of_get_elem? s.queue.items i g,
          ) in
        let file_kept : plist_get_file (deleted_at s.queue i it) i ≡ it.file =
          file_at (deleted_at s.queue i it) i (record it { deleted = true }) at' in
        let file_there : plist_get_file s.queue i ≡ it.file = file_at s.queue i it g in
        let named = live_named s.queue v.queue_named i (it, g, present) in
        record {
          num = i;
          item = it;
          at = g;
          first = e;
          queue = deleted_at s.queue i it;
          returned = rw (e, take_from_queue, g, w) refl;
          sound = queue-AreSound (deleted_at s.queue i it) v (rw (← one) good) (
              omega (
                arith,
                v.queue_named,
                tally-set unnamed s.queue.items i (record it { deleted = true }) g,
              ));
          playable = ap is_empty (file_kept ∙ sym file_there) ∙ named;
          fewer = omega (arith, lt);
          same_file = file_kept;
        }
