-- ===== src/Playlist/Data.antt =====
-- library/playlist.h: tags, items, and the playlist with its counters and its search tree.
use mocf.Base.{
  ℕ, Bool, true, false, not, ◌&&◌, Option, none, some, List, [], Text, is_empty, if◌then◌else◌,
  assert, ◌>>=◌, ◌>>◌, get_elem?,
}
use mocf.Base.Int.{ℤ, pos, negsuc, eqb_ℤ}
use mocf.SearchTree.{Collation, Tree}

-- -1, the value of an unknown time, track or year.
abbrev pub minus_one : ℤ
minus_one = negsuc 0

-- `struct file_tags`; the two flags of its mask `filled` are two fields.
pub record FileTags : Type 0 where
  pub title : Text
  pub artist : Text
  pub album : Text
  pub track : ℤ
  pub year : ℤ
  pub time : ℤ
  pub filled_comments : Bool
  pub filled_time : Bool
  pub real_format : Text
  pub unreadable : Bool

-- `file_tags()`, with the initial values of the fields.
abbrev pub no_tags : FileTags
no_tags = record {
  title = [];
  artist = [];
  album = [];
  track = minus_one;
  year = minus_one;
  time = minus_one;
  filled_comments = false;
  filled_time = false;
  real_format = [];
  unreadable = false;
}

pub data FileType : Type 0 where
  dir sound playlist theme other : FileType

-- `struct plist_item`.
pub record Item : Type 0 where
  pub file : Text
  pub kind : FileType
  pub title_file : Text
  pub title_tags : Text
  pub tags : Option FileTags
  pub deleted : Bool
  pub mtime : ℤ
  pub queue_pos : ℤ

-- `struct plist`.
pub record Plist : Type 0 where
  pub not_deleted : ℕ
  pub items : List Item
  pub total_time : ℤ
  pub items_with_time : ℤ
  pub search_tree : Tree ℕ

-- What the playlist asks of the rest of the system: the locale's `strcoll`, and the functions of
-- library/files.cpp that look at the file system.
pub record Host : Type 0 where
  pub collation : Collation
  pub file_type : Text → FileType
  pub get_mtime : Text → ℤ
  pub can_read_file : Text → Bool

-- `plist::plist()`
abbrev pub empty_plist : Plist
empty_plist = record {
  not_deleted = 0;
  items = [];
  total_time = pos 0;
  items_with_time = pos 0;
  search_tree = [];
}

-- The time in the tags, or -1.
abbrev pub tags_time : Option FileTags → ℤ
tags_time none = minus_one
tags_time (some t) = t.time

-- `tags && tags->time != -1`
abbrev pub has_time : Option FileTags → Bool
has_time tags = not (eqb_ℤ (tags_time tags) minus_one)

-- `plist_deleted`
unfoldable pub plist_deleted : Plist → ℕ → Option Bool
plist_deleted p num = do item ← get_elem? p.items num; some item.deleted

-- The comments in `tags_update`: `dst`, and `src`, from which they may be moved out.
update_comments : FileTags → FileTags → Bool → Option (FileTags × FileTags)
update_comments dst src move =
    if not dst.filled_comments && src.filled_comments then copied else some (dst, src)
  where
    src' : FileTags
    src' =
        if move
        then record src { title = []; artist = []; album = []; filled_comments = false }
        else src

    copied : Option (FileTags × FileTags)
    copied = do
      assert (is_empty dst.title && (is_empty dst.artist && is_empty dst.album))
      some (
        record dst {
          track = src.track;
          year = src.year;
          title = src.title;
          artist = src.artist;
          album = src.album;
          filled_comments = true;
        },
        src',
      )

-- The rest of `tags_update`: the time, the real format and the mark of an unreadable file.
update_others : FileTags → FileTags → FileTags
update_others dst src = record dst {
  time = if fresh then src.time else dst.time;
  filled_time = if fresh then true else dst.filled_time;
  real_format =
      if is_empty dst.real_format && not (is_empty src.real_format)
      then src.real_format
      else dst.real_format;
  unreadable = if src.unreadable then true else dst.unreadable;
}
  where
    fresh : Bool
    fresh = not dst.filled_time && src.filled_time

-- `tags_update`: `dst` and `src` afterwards.
unfoldable pub tags_update : FileTags → FileTags → Bool → Option (FileTags × FileTags)
unfolding update_comments update_others
tags_update dst src move = do
  both ← update_comments dst src move
  some (update_others both.0 both.1, both.1)
