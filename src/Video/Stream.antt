-- ===== src/Video/Stream.antt =====
-- server/src/video.c: the handlers of streams and thumbnails.
pub mod Laws
use ott_server.Auth.Session.{named}
use ott_server.Base.{
  Bool, Option, false, if◌then◌else◌, leb, length, none, pos, pos_part, some, suc, true, zero, ℕ, ℤ,
  ◌++◌, ◌+ℤ◌, ◌-ℤ◌, ◌∷◌,
}
use ott_server.Cstr.{Bytes, codes, decimal, decimal_ℤ, truncated}
use ott_server.Db.Library.Statements.{Reply, Statement}
use ott_server.Db.Videos.{db_get_video_by_id}
use ott_server.Ffmpeg.{Disk, Process, ffmpeg_ensure_thumbnail, files_of}
use ott_server.Http.{http_get_header, http_status_text}
use ott_server.Http.Response.{Files, http_send_file_response}
use ott_server.Router.{Context, router_get_param}
use ott_server.Router.Send.{fail, respond}
use ott_server.Video.Range.{end_at, parse_range_header}
use ott_server.Video.Titles.{parse_int}

-- PATH_MAX
abbrev pub path_max : ℕ
path_max = 4096

-- `build_header`: a buffer of `len` bytes.
unfoldable pub build_header : ℕ → Bytes → Option Bytes → Bytes
build_header len security none = truncated len security
build_header len security (some extra) = truncated len (security ++ extra)

-- The headers of a part of a file, in a buffer of 256 bytes.
unfoldable pub range_headers : ℤ → ℤ → ℕ → Bytes
range_headers start end_at file_size = truncated 256 (
    codes "Accept-Ranges: bytes\r\nContent-Range: bytes "
    ++ (decimal_ℤ start
        ++ (codes "-" ++ (decimal_ℤ end_at ++ (codes "/" ++ (decimal file_size ++ codes "\r\n"))))))

-- "%s/%s", in a buffer of PATH_MAX bytes.
abbrev pub media_path : Bytes → Bytes → Option Bytes
media_path media_dir filename =
    let path = media_dir ++ b'/' ∷ filename in
    if leb path_max (length path) then none else some path

-- A response of a file; a failure is only logged.
abbrev pub send_file : Files → Context → ℕ → Bytes → Bytes → ℕ → ℕ → Bytes → Context
send_file files ctx status content_type path offset size headers =
    (respond ctx (
      http_send_file_response files ctx.client status (http_status_text status) (some content_type)
        path offset size (some headers))).0

-- The part that a range header asks for, or 416.
abbrev pub send_range : Files → Context → Bytes → ℕ → Option (ℤ × ℤ) → Context
send_range files ctx path file_size none = fail ctx 416 (codes "Invalid range")
send_range files ctx path file_size (some (start, end_at)) =
    send_file files ctx 206 (codes "video/mp4") path (pos_part start)
      (pos_part ((end_at -ℤ start) +ℤ pos 1))
      (build_header 512 ctx.security_headers (some (range_headers start end_at file_size)))

abbrev pub send_video : Files → Context → Bytes → ℕ → Option Bytes → Context
send_video files ctx path file_size none =
    send_file files ctx 200 (codes "video/mp4") path 0 0
      (build_header 512 ctx.security_headers (some (codes "Accept-Ranges: bytes\r\n")))
send_video files ctx path file_size (some header) =
    send_range files ctx path file_size (parse_range_header header file_size)

-- `stat` and `S_ISREG`
abbrev pub stream_file : Files → Context → Bytes → Option Bytes → Context
stream_file files ctx path none = fail ctx 404 (codes "Video not found")
stream_file files ctx path (some contents) =
    send_video files ctx path (length contents) (http_get_header ctx.request (codes "Range"))

abbrev pub stream_path : Files → Context → Option Bytes → Context
stream_path files ctx none = fail ctx 500 (codes "Path too long")
stream_path files ctx (some path) = stream_file files ctx path (files path)

-- The video of a request, as all its handlers look it up: the id in the path, and the file name of
-- its row, in a buffer of 256 bytes.
pub data Named : Type 0 where
  no_id no_video : Named
  video_named : ℕ → Bytes → Named

abbrev pub named_of : ℕ → Option (Bytes × Bytes × Bytes × ℤ) → Named
named_of id none = no_video
named_of id (some (title, filename, description, duration)) = video_named id filename

module _ {Double Conn : Type 0} (run : Conn → Statement Double → Conn × Reply Double) where
  abbrev pub look_up : Conn → Option ℕ → Conn × Named
  look_up db none = (db, no_id)
  look_up db (some zero) = (db, no_id)
  look_up db (some (suc id)) =
      let (after, row) = db_get_video_by_id run db (suc id) 0 256 0 in
      (after, named_of (suc id) row)

  unfoldable pub requested_video : Conn → Context → Conn × Named
  unfolding router_get_param parse_int
  requested_video db ctx = look_up db (parse_int (router_get_param ctx (codes "id")))

  module _ (media_dir : Bytes) where
    abbrev pub stream_named : Files → Context → Named → Context
    stream_named files ctx no_id = fail ctx 400 (codes "Invalid video id")
    stream_named files ctx no_video = fail ctx 404 (codes "Video not found")
    stream_named files ctx (video_named id filename) =
        stream_path files ctx (media_path media_dir filename)

    unfoldable pub video_handle_stream : Files → Conn → Context → Conn × Context
    unfolding requested_video
    video_handle_stream files db ctx =
        let (after, named) = requested_video db ctx in
        if ctx.authenticated
        then (after, stream_named files ctx named)
        else (db, fail ctx 401 (codes "Unauthorized"))

    module _ (thumb_dir : Bytes) (convert : Disk → Bytes → Bytes → Process) where
      abbrev pub send_thumbnail : Context → Disk × Bytes × Bool → Disk × Context
      send_thumbnail ctx (disk, path, false) = (disk, fail ctx 500 (codes "Thumbnail error"))
      send_thumbnail ctx (disk, path, true) = (
        disk,
        send_file (files_of disk) ctx 200 (codes "image/jpeg") path 0 0
            (build_header 256 ctx.security_headers none),
      )

      abbrev pub thumbnail_at : Disk → Context → ℕ → Option Bytes → Disk × Context
      thumbnail_at disk ctx id none = (disk, fail ctx 500 (codes "Path too long"))
      thumbnail_at disk ctx id (some path) =
          send_thumbnail ctx (ffmpeg_ensure_thumbnail convert disk thumb_dir id path path_max)

      abbrev pub thumbnail_named : Disk → Context → Named → Disk × Context
      thumbnail_named disk ctx no_id = (disk, fail ctx 400 (codes "Invalid video id"))
      thumbnail_named disk ctx no_video = (disk, fail ctx 404 (codes "Video not found"))
      thumbnail_named disk ctx (video_named id filename) =
          thumbnail_at disk ctx id (media_path media_dir filename)

      unfoldable pub video_handle_thumbnail : Disk → Conn → Context → Conn × Disk × Context
      unfolding requested_video ffmpeg_ensure_thumbnail
      video_handle_thumbnail disk db ctx =
          let (after, named) = requested_video db ctx in
          let (left, answered) = thumbnail_named disk ctx named in
          if ctx.authenticated
          then (after, left, answered)
          else (db, disk, fail ctx 401 (codes "Unauthorized"))
