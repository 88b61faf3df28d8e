-- ===== src/Audio/Changes.antt =====
-- audio/audio.cpp: the operations on the lists keep the invariant.
use mocf.Base.{◌≡◌, refl, sym, ◌∙◌, false, Option, some, Text, is_empty, arith}
use mocf.Playlist.Data.{Plist, Host, empty_plist}
use mocf.Playlist.Edit.{plist_clear}
use mocf.Playlist.Tally.{unnamed}
use mocf.Playlist.Join.{empty-IsGood}
use mocf.Playlist.SwapFiles.{plist_swap_files-AreSwapped}
use mocf.Playlist.Live.{named_live, same-Has}
use mocf.Audio.Data.{Audio}
use mocf.Audio.Lists.{
  audio_plist_add, audio_queue_add, audio_plist_clear, audio_queue_clear, audio_plist_delete,
  audio_queue_delete, audio_plist_move,
}
use mocf.Audio.Sound.{
  AreSound, IsSound, start-IsSound, empty-AreDistinct, queue-AreSound, playlist-AreSound,
  add_new-IsGood, delete_found-IsWithout,
}

-- What an operation on the lists leaves: it changes nothing else, and keeps the invariant.
pub record ListsChanged (h : Host) (s : Audio) (r : Option Audio) : Type 0 where
  pub new_playlist : Plist
  pub new_shuffled : Plist
  pub new_queue : Plist
  pub returned :
      r
      ≡ some
          (record s { playlist = new_playlist; shuffled_plist = new_shuffled; queue = new_queue })
  pub sound : AreSound h new_playlist new_shuffled new_queue

-- The operations on the lists pass their assertions and keep the invariant; the names that are added are
-- not empty.
module _ (h : Host) (s : Audio) (v : IsSound h s) where
  pub audio_plist_add-ListsChanged :
      (file : Text) → is_empty file ≡ false → ListsChanged h s (audio_plist_add h file s)
  unfolding audio_plist_add plist_clear
  audio_plist_add-ListsChanged file e =
      let (q, f, good, named) =
        add_new-IsGood h file s.playlist v.playlist_good v.playlist_named e in
      record {
        new_playlist = q;
        new_shuffled = empty_plist;
        new_queue = s.queue;
        returned = rw f refl;
        sound = record {
          playlist_good = good;
          playlist_named = named;
          shuffled_good = empty-IsGood h;
          shuffled_named = refl;
          shuffled_distinct = empty-AreDistinct h;
          covers = λ lt. absurd (omega arith);
          queue_good = v.queue_good;
          queue_named = v.queue_named;
        };
      }

  pub audio_queue_add-ListsChanged :
      (file : Text) → is_empty file ≡ false → ListsChanged h s (audio_queue_add h file s)
  unfolding audio_queue_add
  audio_queue_add-ListsChanged file e =
      let (q, f, good, named) = add_new-IsGood h file s.queue v.queue_good v.queue_named e in
      record {
        new_playlist = s.playlist;
        new_shuffled = s.shuffled_plist;
        new_queue = q;
        returned = rw f refl;
        sound = queue-AreSound q v good named;
      }

  pub audio_plist_clear-ListsChanged : ListsChanged h s (some (audio_plist_clear s))
  unfolding audio_plist_clear plist_clear
  audio_plist_clear-ListsChanged = record {
    new_playlist = empty_plist;
    new_shuffled = empty_plist;
    new_queue = s.queue;
    returned = refl;
    sound = queue-AreSound s.queue (start-IsSound h) v.queue_good v.queue_named;
  }

  pub audio_queue_clear-ListsChanged : ListsChanged h s (some (audio_queue_clear s))
  unfolding audio_queue_clear plist_clear
  audio_queue_clear-ListsChanged = record {
    new_playlist = s.playlist;
    new_shuffled = s.shuffled_plist;
    new_queue = empty_plist;
    returned = refl;
    sound = queue-AreSound empty_plist v (empty-IsGood h) refl;
  }

  pub audio_plist_delete-ListsChanged :
      (file : Text) → ListsChanged h s (audio_plist_delete h file s)
  unfolding audio_plist_delete
  audio_plist_delete-ListsChanged file =
      let (p, e, w) = delete_found-IsWithout h file s.playlist v.playlist_good in
      let (q, e', w') = delete_found-IsWithout h file s.shuffled_plist v.shuffled_good in
      record {
        new_playlist = p;
        new_shuffled = q;
        new_queue = s.queue;
        returned = rw (e, e') refl;
        sound = record {
          playlist_good = w.good;
          playlist_named = omega (arith, w.named, v.playlist_named);
          shuffled_good = w'.good;
          shuffled_named = omega (arith, w'.named, v.shuffled_named);
          shuffled_distinct = w'.distinct v.shuffled_distinct;
          covers = λ lt name has.
              let (was, differ) = w.gone name has in
              w'.keeps name differ (v.covers (omega (arith, w'.same_length)) name was);
          queue_good = v.queue_good;
          queue_named = v.queue_named;
        };
      }

  pub audio_queue_delete-ListsChanged :
      (file : Text) → ListsChanged h s (audio_queue_delete h file s)
  unfolding audio_queue_delete
  audio_queue_delete-ListsChanged file =
      let (q, e, w) = delete_found-IsWithout h file s.queue v.queue_good in
      record {
        new_playlist = s.playlist;
        new_shuffled = s.shuffled_plist;
        new_queue = q;
        returned = rw e refl;
        sound = queue-AreSound q v w.good (omega (arith, w.named, v.queue_named));
      }

  pub audio_plist_move-ListsChanged :
      (file1 file2 : Text) → ListsChanged h s (audio_plist_move h file1 file2 s)
  unfolding audio_plist_move
  audio_plist_move-ListsChanged file1 file2 =
      let (q, e, r) = plist_swap_files-AreSwapped h s.playlist file1 file2 v.playlist_good in
      record {
        new_playlist = q;
        new_shuffled = s.shuffled_plist;
        new_queue = s.queue;
        returned = rw e refl;
        sound =
            playlist-AreSound q v r.rearranged.good
              (r.rearranged.moved.same_tally unnamed ∙ v.playlist_named)
              (λ name has.
                same-Has h q s.playlist name
                  (sym (r.rearranged.moved.same_tally (named_live h name))) has);
      }
