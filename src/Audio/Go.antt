-- ===== src/Audio/Go.antt =====
-- audio/audio.cpp: `go_to_another_file`.
use mocf.Base.{
  ℕ, suc, false, not, ◌&&◌, ◌||◌, Option, none, some, [], Text, is_empty, if◌then◌else◌, ltb, ◌==◌,
  ◌>>=◌, get_elem?,
}
use mocf.Playlist.Data.{Plist, Host}
use mocf.Playlist.Search.{plist_find_fname, plist_next, plist_prev, plist_last}
use mocf.Playlist.Edit.{plist_count, plist_delete, plist_cat, plist_clear}
use mocf.Playlist.Order.{plist_shuffle, plist_swap_first_fname}
use mocf.Audio.Data.{
  Options, Audio, server_queue_pop, the_playlist, the_shuffled, the_queue, current, call,
}

-- Takes the first file of the queue to be played, as `go_to_another_file` and `audio_play` do. Without
-- such a file the code would read before the items.
unfoldable pub take_from_queue : Audio → Option Audio
take_from_queue s = do
  num ← plist_next s.queue none
  item ← get_elem? s.queue.items num
  queue ← plist_delete s.queue num
  some (
      call (server_queue_pop item.file)
        (record s { curr_plist = the_queue; curr_playing = some num; queue = queue }))

-- The file to come back to is kept when the first file of the queue follows a file of the playlist.
abbrev pub keep_fname : Audio → Audio
keep_fname s = record s {
  before_queue_fname =
      if is_empty s.before_queue_fname && not (is_empty s.curr_playing_fname)
      then s.curr_playing_fname
      else s.before_queue_fname;
}

-- `QueueNextSongReturn`: back to the file played before the queue.
abbrev pub return_from_queue : Options → Audio → Audio
return_from_queue o s =
    if not (is_empty s.before_queue_fname) && o.queue_next_song_return
    then record s { curr_playing_fname = s.before_queue_fname; before_queue_fname = [] }
    else s

-- `plist_cat(&shuffled_plist, &playlist); plist_shuffle(&shuffled_plist);`
unfoldable pub fill_shuffled : Host → (ℕ → ℕ → ℕ) → Audio → Option Audio
fill_shuffled h rand s = do
  joined ← plist_cat h s.shuffled_plist s.playlist
  shuffled ← plist_shuffle h (rand s.shuffles) joined
  some (record s { shuffled_plist = shuffled; shuffles = suc s.shuffles })

-- `plist_swap_first_fname(&shuffled_plist, fname)`
unfoldable pub put_first : Host → Text → Audio → Option Audio
put_first h fname s = do
  shuffled ← plist_swap_first_fname h s.shuffled_plist fname
  some (record s { shuffled_plist = shuffled })

-- A new shuffled list starts with the current file.
unfoldable pub put_current_first : Host → Audio → Option Audio
put_current_first h s =
    if is_empty s.curr_playing_fname then some s else put_first h s.curr_playing_fname s

-- The shuffled list is made when there is none.
unfoldable pub make_shuffled : Host → (ℕ → ℕ → ℕ) → Audio → Option Audio
make_shuffled h rand s =
    if ltb 0 (plist_count s.playlist) && (plist_count s.shuffled_plist == 0)
    then fill_shuffled h rand s >>= put_current_first h
    else some s

-- The choice of the list.
unfoldable pub choose_list : Host → (ℕ → ℕ → ℕ) → Options → Audio → Option Audio
choose_list h rand o s =
    if o.shuffle
    then make_shuffled h rand (record s { curr_plist = the_shuffled })
    else some (record s { curr_plist = the_playlist })

-- The place of the current file in the list, or of the file played before the queue.
unfoldable pub find_current : Host → Plist → Audio → Option (Option ℕ)
find_current h p s = do
  pos ← plist_find_fname h p s.curr_playing_fname
  elim pos [
    | some i ↦ some (some i)
    | none ↦
        if is_empty s.before_queue_fname
        then some none
        else plist_find_fname h p s.before_queue_fname
  ]

-- Where to go on from: -1 also when playing was started in the queue.
abbrev pub from : Audio → Option ℕ → Option ℕ
from s pos = if s.started_playing_in_queue then none else pos

abbrev pub go_to : Option ℕ → Audio → Audio
go_to i s = record s { curr_playing = i; started_playing_in_queue = false }

-- `play_prev`
unfoldable pub go_back : Options → Plist → Option ℕ → Audio → Option Audio
go_back o p pos s = do
  prev ← plist_prev p (from s pos)
  some (go_to (elim prev [ some i ↦ some i | none ↦ if o.repeat then plist_last p else none ]) s)

-- `Repeat` at the end of the list: the first item again, of a list shuffled anew.
unfoldable pub go_around : Host → (ℕ → ℕ → ℕ) → Options → Audio → Option Audio
go_around h rand o s = do
  s' ←
      if o.shuffle
      then fill_shuffled h rand (record s { shuffled_plist = plist_clear s.shuffled_plist })
      else some s
  p ← current s'
  some (record s' { curr_playing = plist_next p none })

-- `go_next`
unfoldable pub go_forward : Host → (ℕ → ℕ → ℕ) → Options → Plist → Option ℕ → Audio → Option Audio
go_forward h rand o p pos s = elim (plist_next p (from s pos)) [
  | some i ↦ some (go_to (some i) s)
  | none ↦ if o.repeat then go_around h rand o (go_to none s) else some (go_to none s)
]

-- The last choice, among the previous file, the next one, the same and none.
unfoldable pub go_by_request :
    Host → (ℕ → ℕ → ℕ) → Options → Plist → Option ℕ → Audio → Option Audio
go_by_request h rand o p pos s =
    if s.play_prev && ltb 0 (plist_count p)
    then go_back o p pos s
    else if (s.play_next || o.auto_next) && ltb 0 (plist_count p)
    then go_forward h rand o p pos s
    else if o.repeat
    then some s
    else some (record s { curr_playing = none })

-- The part of `go_to_another_file` that does not play from the queue.
unfoldable pub go_in_list : Host → (ℕ → ℕ → ℕ) → Options → Audio → Option Audio
go_in_list h rand o s = do
  s1 ← choose_list h rand o (return_from_queue o s)
  p ← current s1
  pos ← find_current h p s1
  s2 ← go_by_request h rand o p pos s1
  some (record s2 { before_queue_fname = [] })

-- `go_to_another_file`
unfoldable pub go_to_another_file : Host → (ℕ → ℕ → ℕ) → Options → Audio → Option Audio
go_to_another_file h rand o s =
    if ltb 0 (plist_count s.queue) && (s.play_next || o.auto_next)
    then take_from_queue (keep_fname s)
    else go_in_list h rand o s
