-- ===== src/Ffmpeg.antt =====
-- server/src/ffmpeg.c: the cache of thumbnails.
pub mod Laws
use mathlib.Core.Option
use ott_server.Base.{
  Bool, Option, false, if◌then◌else◌, leb, length, map, none, some, true, zero, ℕ, ◌&&◌, ◌++◌, ◌∷◌,
}
use ott_server.Cstr.{Bytes, codes, decimal, str_eq, truncated}
use ott_server.Server.Start.{ensured}
use ott_server.Utils.Files.{Mkdir, Tree, ensure_directory, made}

-- A regular file, with the time of its last change.
pub record File : Type 0 where
  pub contents : Bytes
  pub modified : ℕ

-- What stat finds for a path.
abbrev pub Disk : Type 0
Disk = Bytes → Option File

abbrev pub files_of : Disk → Bytes → Option Bytes
files_of disk path = Option.map (λ f. f.contents) (disk path)

unfoldable pub ffmpeg_initialize : Tree → (Bytes → Mkdir) → Bytes → Bool
unfolding ensure_directory
ffmpeg_initialize tree mkdir thumb_dir = ensure_directory tree mkdir thumb_dir

-- The child process that runs ffmpeg: it was not forked, its end was not seen, or it ended, with the
-- disk it left, its exit status, if it exited, and whether the thumbnail can then be unlinked.
pub data Process : Type 0 where
  not_forked : Process
  not_waited : Disk → Process
  process_ended : Disk → Option ℕ → Bool → Process

-- unlink, which removes the file or fails.
unfoldable pub unlink : Bool → Disk → Bytes → Disk
unfolding str_eq
unlink removes disk path = λ p. if removes && str_eq path p then none else disk p

-- "%s/%d.jpg"
unfoldable pub thumbnail_path : Bytes → ℕ → Bytes
unfolding decimal
thumbnail_path thumb_dir video_id = thumb_dir ++ b'/' ∷ (decimal video_id ++ codes ".jpg")

-- `thumb_stat.st_mtime >= video_stat.st_mtime`
abbrev pub is_fresh : Option File → File → Bool
is_fresh none video = false
is_fresh (some thumb) video = leb video.modified thumb.modified

-- The exit status 0 alone is a success; the thumbnail is unlinked after any other end.
abbrev pub finished : Disk → Bytes → Process → Disk × Bool
finished disk path not_forked = (disk, false)
finished disk path (not_waited after) = (after, false)
finished disk path (process_ended after (some zero) unlinks) = (after, true)
finished disk path (process_ended after _ unlinks) = (unlink unlinks after path, false)

-- `convert` runs ffmpeg on the path of a video and the path of its thumbnail.
module _ (convert : Disk → Bytes → Bytes → Process) where
  abbrev pub ensure_at : Disk → Bytes → Bytes → Option File → Disk × Bool
  ensure_at disk video_path path none = (disk, false)
  ensure_at disk video_path path (some video) =
      let made = finished disk path (convert disk video_path path) in
      if is_fresh (disk path) video then (disk, true) else made

  -- The disk afterwards, the path of the thumbnail, and whether 0 was returned.
  unfoldable pub ffmpeg_ensure_thumbnail : Disk → Bytes → ℕ → Bytes → ℕ → Disk × Bytes × Bool
  unfolding thumbnail_path unlink
  ffmpeg_ensure_thumbnail disk thumb_dir video_id video_path thumb_path_len =
      let path = thumbnail_path thumb_dir video_id in
      let (after, ensured) = ensure_at disk video_path path (disk video_path) in
      if leb thumb_path_len (length path)
      then (disk, truncated thumb_path_len path, false)
      else (after, path, ensured)
