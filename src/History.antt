-- ===== src/History.antt =====
-- server/src/history.c: the handlers of watch history.
pub mod Laws
pub mod Rows
pub mod Guards
use ott_server.Base.{
  Bool, List, Option, [], false, if◌then◌else◌, none, some, true, ℕ, ◌&&◌, ◌++◌, ◌>>=◌, ◌∷◌,
}
use ott_server.Cstr.{Bytes, codes, decimal}
use ott_server.Db.Engine.{stored}
use ott_server.Db.Library.{Watch}
use ott_server.Db.Library.Statements.{Reply, Statement, history_rows, select_history, unprepared}
use ott_server.Db.Videos.{each_row}
use ott_server.Db.Watching.{db_update_watch_history}
use ott_server.Router.{Context}
use ott_server.Router.Send.{body_of, fail, reply}
use ott_server.ThreadPool.{started}
use ott_server.Utils.Builder.{StringBuilder, sb_append, sb_init}
use ott_server.Utils.Json.{json_get_double}
use ott_server.Utils.Pieces.{Piece, append_pieces, as_string, as_text}
use ott_server.Video.Listing.{comma_unless, stream_url, thumbnail_url}
use ott_server.Video.Stream.{Named, no_id, no_video, requested_video, video_named}

-- `format` is what printf prints for "%.3f".
module _ {Double : Type 0} (format : Double → Bytes) where
  -- One row of the history, and the calls that append it.
  unfoldable pub history_pieces : Bool → Watch Double × Bytes → List Piece
  history_pieces first (w, title) =
      as_text (
        comma_unless first
        ++ (codes "{\"videoId\":"
            ++ (decimal w.video_id
                ++ (codes ",\"position\":" ++ (format w.position ++ codes ",\"updatedAt\":")))))
      ∷ as_string w.updated_at
      ∷ as_text (codes ",\"title\":")
      ∷ as_string title
      ∷ as_text (codes ",\"thumbnailUrl\":")
      ∷ as_string (thumbnail_url w.video_id)
      ∷ as_text (codes ",\"streamUrl\":")
      ∷ as_string (stream_url w.video_id)
      ∷ as_text (codes "}")
      ∷ []

  module _ (malloc : ℕ → ℕ → Bool) where
    -- The builder and `first` after a row, and whether `error` stayed 0.
    abbrev pub row_appended :
        StringBuilder × Bool → Option StringBuilder → (StringBuilder × Bool) × Bool
    row_appended so_far none = (so_far, false)
    row_appended so_far (some sb) = ((sb, false), true)

    unfoldable pub append_history_row :
        StringBuilder × Bool → Watch Double × Bytes → (StringBuilder × Bool) × Bool
    unfolding history_pieces append_pieces
    append_history_row (sb, first) row =
        row_appended (sb, first) (append_pieces malloc sb (history_pieces first row))

    abbrev pub end_history : Context → Option StringBuilder → Context
    end_history ctx none = fail ctx 500 (codes "Allocation failed")
    end_history ctx (some sb) = reply ctx 200 sb.text none

    -- The rows are all there, and all were appended.
    abbrev pub send_history : Context → StringBuilder → Bool → Context
    send_history ctx sb false = fail ctx 500 (codes "Failed to read history")
    send_history ctx sb true = end_history ctx (sb_append malloc sb (codes "]}"))

    abbrev pub history_from : Context → StringBuilder → Reply Double → Context
    history_from ctx sb (history_rows rows ended) =
        let ((filled, first), all) = each_row append_history_row (sb, true) rows in
        send_history ctx filled (all && ended)
    history_from ctx sb unprepared = fail ctx 500 (codes "Failed to prepare history query")
    history_from ctx sb _ = fail ctx 500 (codes "Failed to read history")

    module _ {Conn : Type 0} (run : Conn → Statement Double → Conn × Reply Double) where
      abbrev pub read_history : Conn → Context → Option StringBuilder → Conn × Context
      read_history db ctx none = (db, fail ctx 500 (codes "Allocation failed"))
      read_history db ctx (some sb) =
          let (after, result) = run db (select_history ctx.user_id) in
          (after, history_from ctx sb result)

      unfoldable pub history_handle_get : Conn → Context → Conn × Context
      unfolding each_row append_history_row
      history_handle_get db ctx =
          let started = (do
            sb ← sb_init malloc 0 512
            sb_append malloc sb (codes "{\"history\":[")) in
          let answered = read_history db ctx started in
          if ctx.authenticated then answered else (db, fail ctx 401 (codes "Unauthorized"))

-- `is_negative` is the test `position < 0`, and `strtod` the C library's.
module _ {Double Conn : Type 0} (run : Conn → Statement Double → Conn × Reply Double)
    (strtod : Bytes → Option (Double × Bytes)) (is_negative : Double → Bool) where
  abbrev pub stored_position : Context → Conn × Bool → Conn × Context
  stored_position ctx (db, false) = (db, fail ctx 500 (codes "Failed to update history"))
  stored_position ctx (db, true) = (db, reply ctx 200 (codes "{\"status\":\"ok\"}") none)

  abbrev pub update_position : Conn → Context → ℕ → Option Double → Conn × Context
  update_position db ctx id none = (db, fail ctx 400 (codes "Invalid position"))
  update_position db ctx id (some position) =
      let stored = stored_position ctx (db_update_watch_history run db ctx.user_id id position) in
      if is_negative position then (db, fail ctx 400 (codes "Invalid position")) else stored

  abbrev pub update_from : Conn → Context → ℕ → Option Bytes → Conn × Context
  update_from db ctx id none = (db, fail ctx 400 (codes "Missing payload"))
  update_from db ctx id (some body) =
      update_position db ctx id (json_get_double strtod body (codes "position"))

  abbrev pub update_named : Context → Conn × Named → Conn × Context
  update_named ctx (db, no_id) = (db, fail ctx 400 (codes "Invalid video id"))
  update_named ctx (db, no_video) = (db, fail ctx 404 (codes "Video not found"))
  update_named ctx (db, video_named id filename) = update_from db ctx id (body_of ctx.request)

  unfoldable pub history_handle_update : Conn → Context → Conn × Context
  unfolding requested_video json_get_double
  history_handle_update db ctx =
      let answered = update_named ctx (requested_video run db ctx) in
      if ctx.authenticated then answered else (db, fail ctx 401 (codes "Unauthorized"))
