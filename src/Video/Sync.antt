-- ===== src/Video/Sync.antt =====
-- server/src/video.c: `sync_media_directory` and the thread that watches the directory.
pub mod Names
pub mod Prune
pub mod Laws
use ott_server.Base.{
  Bool, List, Option, [], false, if◌then◌else◌, none, not, pos, some, true, ℕ, ◌&&◌, ◌==◌, ◌∷◌,
}
use ott_server.Cstr.{Bytes}
use ott_server.Db.Library.Statements.{Reply, Statement}
use ott_server.Db.Videos.{db_prune_missing_videos, db_upsert_video}
use ott_server.Video.Resume.{Growing, filename_list_add}
use ott_server.Video.Titles.{has_mp4_extension, make_title}

-- `if (ent->d_name[0] == '.') continue;` and the extension.
abbrev pub is_hidden : Bytes → Bool
is_hidden [] = false
is_hidden (c ∷ name) = c == b'.'

unfoldable pub is_media : Bytes → Bool
unfolding has_mp4_extension
is_media name = not (is_hidden name) && has_mp4_extension name

abbrev pub no_names : Growing Bytes
no_names = record { items = []; capacity = 0 }

module _ {Double Conn : Type 0} (run : Conn → Statement Double → Conn × Reply Double)
    (grants copies : ℕ → Bool) where
  -- What follows the calls for one name: `rest` goes on with the other entries.
  abbrev pub and_track :
      Conn
      → Option (Growing Bytes)
      → (Growing Bytes → Conn × Option (Growing Bytes))
      → Conn × Option (Growing Bytes)
  and_track db none rest = (db, none)
  and_track db (some files) rest = rest files

  abbrev pub after_upsert :
      Conn × Bool
      → Growing Bytes
      → Bytes
      → (Conn → Growing Bytes → Conn × Option (Growing Bytes))
      → Conn × Option (Growing Bytes)
  after_upsert (db, false) files name rest = (db, none)
  after_upsert (db, true) files name rest =
      and_track db (filename_list_add grants copies files name) (rest db)

  -- The loop over what readdir gives.
  unfoldable pub scan : Conn → Growing Bytes → List Bytes → Conn × Option (Growing Bytes)
  unfolding is_media make_title filename_list_add
  scan db files [] = (db, some files)
  scan db files (name ∷ entries) =
      let others = scan db files entries in
      let title = make_title name 256 in
      let tracked =
        after_upsert (db_upsert_video run db (some title) name none (pos 0)) files name
          (λ d f. scan d f entries) in
      if is_media name then tracked else others

  -- A failure of the removal of stale rows is only logged.
  abbrev pub prune : Conn × Option (Growing Bytes) → Conn × Bool
  prune (db, none) = (db, false)
  prune (db, some files) = ((db_prune_missing_videos run db files.items).0, true)

  -- `entries` is what opendir and readdir give for the media directory.
  unfoldable pub sync_media_directory : Conn → Option (List Bytes) → Conn × Bool
  unfolding scan
  sync_media_directory db none = (db, false)
  sync_media_directory db (some entries) = prune (scan db no_names entries)
