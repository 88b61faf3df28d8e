-- ===== src/Audio/Lists.antt =====
-- audio/audio.cpp: the operations on the playlist, its shuffled copy and the queue.
use mocf.Base.{ℕ, Option, none, some, Text, if◌then◌else◌, ◌>>=◌, get_elem?, set}
use mocf.Base.Int.{ℤ, eqb_ℤ}
use mocf.Playlist.Data.{Plist, Host, empty_plist, minus_one}
use mocf.Playlist.Search.{plist_find_fname}
use mocf.Playlist.Edit.{
  plist_add, plist_clear, plist_delete, plist_cat, plist_set_item_time, get_item_time,
}
use mocf.Playlist.Order.{plist_swap_files}
use mocf.Audio.Data.{Audio}

-- `plist_find_fname`, and `plist_add` where that finds nothing.
unfoldable pub add_new : Host → Text → Plist → Option Plist
add_new h file p = do
  found ← plist_find_fname h p file
  some (elim found [ none ↦ (plist_add h p (some file)).0 | some i ↦ p ])

-- `plist_find_fname`, and `plist_delete` where that finds the file.
unfoldable pub delete_found : Host → Text → Plist → Option Plist
delete_found h file p = do
  found ← plist_find_fname h p file
  elim found [ none ↦ some p | some i ↦ plist_delete p i ]

-- `audio_plist_add`
unfoldable pub audio_plist_add : Host → Text → Audio → Option Audio
audio_plist_add h file s = do
  playlist ← add_new h file s.playlist
  some (record s { shuffled_plist = plist_clear s.shuffled_plist; playlist = playlist })

-- `audio_queue_add`
unfoldable pub audio_queue_add : Host → Text → Audio → Option Audio
audio_queue_add h file s = do queue ← add_new h file s.queue; some (record s { queue = queue })

-- `audio_plist_clear` and `audio_queue_clear`
unfoldable pub audio_plist_clear : Audio → Audio
audio_plist_clear s = record s {
  shuffled_plist = plist_clear s.shuffled_plist;
  playlist = plist_clear s.playlist;
}

unfoldable pub audio_queue_clear : Audio → Audio
audio_queue_clear s = record s { queue = plist_clear s.queue }

-- `audio_plist_delete`
unfoldable pub audio_plist_delete : Host → Text → Audio → Option Audio
audio_plist_delete h file s = do
  playlist ← delete_found h file s.playlist
  shuffled ← delete_found h file s.shuffled_plist
  some (record s { playlist = playlist; shuffled_plist = shuffled })

-- `audio_queue_delete`
unfoldable pub audio_queue_delete : Host → Text → Audio → Option Audio
audio_queue_delete h file s = do
  queue ← delete_found h file s.queue
  some (record s { queue = queue })

-- The time of the item `i`, if it is known and the file is as old as it was then.
unfoldable pub time_of : Host → Text → Plist → ℕ → Option ℤ
time_of h file p i = do
  time ← get_item_time p i
  item ← get_elem? p.items i
  some (
      if eqb_ℤ time minus_one
      then minus_one
      else if eqb_ℤ item.mtime (h.get_mtime file)
      then time
      else minus_one)

-- `audio_get_ftime`
unfoldable pub audio_get_ftime : Host → Text → Audio → Option ℤ
audio_get_ftime h file s = do
  found ← plist_find_fname h s.playlist file
  elim found [ none ↦ some minus_one | some i ↦ time_of h file s.playlist i ]

-- `plist_set_item_time(&playlist, i, time); playlist.items[i].mtime = get_mtime(file);`
unfoldable pub set_time_at : Host → Text → ℤ → Plist → ℕ → Option Plist
set_time_at h file time p i = do
  timed ← plist_set_item_time p i time
  item ← get_elem? timed.items i
  some (record timed { items = set timed.items i (record item { mtime = h.get_mtime file }) })

-- `audio_plist_set_time`
unfoldable pub audio_plist_set_time : Host → Text → ℤ → Audio → Option Audio
audio_plist_set_time h file time s = do
  found ← plist_find_fname h s.playlist file
  playlist ← elim found [ none ↦ some s.playlist | some i ↦ set_time_at h file time s.playlist i ]
  some (record s { playlist = playlist })

-- `audio_plist_move`
unfoldable pub audio_plist_move : Host → Text → Text → Audio → Option Audio
audio_plist_move h file1 file2 s = do
  playlist ← plist_swap_files h s.playlist file1 file2
  some (record s { playlist = playlist })

-- `audio_queue_get_contents`
unfoldable pub audio_queue_get_contents : Host → Audio → Option Plist
audio_queue_get_contents h s = plist_cat h empty_plist s.queue
