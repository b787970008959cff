-- ===== src/History/Guards.antt =====
-- The handlers of server/src/video.c and history.c without an authenticated user.
use ott_server.Base.{Bool, Option, false, refl, ℕ, ◌≡◌}
use ott_server.Cstr.{Bytes, codes}
use ott_server.Db.Library.Statements.{Reply, Statement}
use ott_server.Ffmpeg.{Disk, Process}
use ott_server.History.{history_handle_get, history_handle_update}
use ott_server.Http.Response.{Files}
use ott_server.Router.{Context}
use ott_server.Router.Send.{fail}
use ott_server.Video.Listing.{video_handle_list}
use ott_server.Video.Stream.{video_handle_stream, video_handle_thumbnail}

module _ {Double Conn : Type 0} (run : Conn → Statement Double → Conn × Reply Double)
    (format : Double → Bytes) (malloc : ℕ → ℕ → Bool) (grants : ℕ → Bool)
    (synced : Conn → Conn × Bool) (media_dir thumb_dir : Bytes)
    (convert : Disk → Bytes → Bytes → Process) (strtod : Bytes → Option (Double × Bytes))
    (is_negative : Double → Bool) where
  -- Without an authenticated user the handlers of videos and of history answer 401 and nothing else:
  -- they run no statement, do not read the media directory, and leave the disk alone.
  pub handlers_unauthenticated :
      (files : Files) (disk : Disk) (db : Conn) (ctx : Context)
      → ctx.authenticated ≡ false
      → let refused = fail ctx 401 (codes "Unauthorized") in
        (video_handle_list format malloc run grants synced db ctx ≡ (db, refused))
        × (video_handle_stream run media_dir files db ctx ≡ (db, refused))
        × (video_handle_thumbnail run media_dir thumb_dir convert disk db ctx ≡ (db, disk, refused))
        × (history_handle_get format malloc run db ctx ≡ (db, refused))
        × (history_handle_update run strtod is_negative db ctx ≡ (db, refused))
  unfolding video_handle_list video_handle_stream video_handle_thumbnail history_handle_get
      history_handle_update
  handlers_unauthenticated files disk db ctx guest =
      (rw guest refl, rw guest refl, rw guest refl, rw guest refl, rw guest refl)
