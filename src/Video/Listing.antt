-- ===== src/Video/Listing.antt =====
-- server/src/video.c: the list of videos, with the positions to resume at.
pub mod Rows
pub mod Positions
pub mod Stored
pub mod Resumed
pub mod Laws
use mathlib.Core.Option
use ott_server.Auth.Names.{trim_end}
use ott_server.Base.{
  Bool, List, Option, [], false, if◌then◌else◌, none, pos, pos_part, some, true, ℕ, ℤ, ◌++◌, ◌+ℤ◌,
  ◌+◌, ◌>>=◌, ◌∷◌,
}
use ott_server.Cstr.{Bytes, codes, decimal, decimal_ℤ, drop_spaces, truncated}
use ott_server.Db.Library.{Video, Watch}
use ott_server.Db.Library.Statements.{Reply, Statement}
use ott_server.Db.Videos.{Listing, db_query_videos, listed_all}
use ott_server.Db.Watching.{db_list_watch_history}
use ott_server.Http.Read.{cstr}
use ott_server.Router.{Context}
use ott_server.Router.Send.{fail, reply}
use ott_server.Utils.Builder.{StringBuilder, sb_append, sb_init}
use ott_server.Utils.Pieces.{Piece, append_pieces, as_string, as_text}
use ott_server.Video.Query.{page, query_get_param}
use ott_server.Video.Resume.{Entry, Growing, resume_map_add, resume_map_find}

abbrev pub no_positions : {Double : Type 0} → Growing (Entry Double)
no_positions = record { items = []; capacity = 0 }

-- `collect_resume`: the map with a further row, and whether 0 was returned.
module _ {Double : Type 0} (grants : ℕ → Bool) where
  abbrev pub grown :
      Growing (Entry Double) → Option (Growing (Entry Double)) → Growing (Entry Double) × Bool
  grown positions none = (positions, false)
  grown positions (some more) = (more, true)

  unfoldable pub collect_resume :
      Growing (Entry Double) → Watch Double → Growing (Entry Double) × Bool
  unfolding resume_map_add
  collect_resume positions w =
      grown positions (resume_map_add grants positions w.video_id w.position)

-- `trim_spaces`
unfoldable pub trim_spaces : Bytes → Bytes
unfolding trim_end drop_spaces
trim_spaces s = trim_end (drop_spaces s)

abbrev pub non_empty_term : Bytes → Option Bytes
non_empty_term [] = none
non_empty_term (c ∷ term) = some (c ∷ term)

-- The search term of a query string, in 128 bytes and without spaces at its ends; none if nothing is
-- left.
abbrev pub term_of : Option Bytes → Option Bytes
term_of none = none
term_of (some term) = non_empty_term (trim_spaces (cstr term))

unfoldable pub search_of : Bytes → Option Bytes
unfolding query_get_param trim_spaces
search_of query = term_of (query_get_param query (codes "q") 128)

-- `list_ctx_t`, without the context and the map.
pub record ListContext : Type 0 where
  pub builder : StringBuilder
  pub first : Bool
  pub emitted : ℕ

-- The addresses of the thumbnail and of the stream, in buffers of 128 bytes.
abbrev pub thumbnail_url : ℕ → Bytes
thumbnail_url id = truncated 128 (codes "/api/videos/" ++ (decimal id ++ codes "/thumbnail"))

abbrev pub stream_url : ℕ → Bytes
stream_url id = truncated 128 (codes "/api/videos/" ++ (decimal id ++ codes "/stream"))

abbrev pub comma_unless : Bool → Bytes
comma_unless first = if first then [] else codes ","

abbrev pub term_piece : Option Bytes → Piece
term_piece none = as_text (codes "null")
term_piece (some term) = as_string term

-- The end of the list: the page, whether there are more, and the search term.
unfoldable pub page_pieces : ℤ → ℤ → ℕ → Bool → Option Bytes → List Piece
page_pieces limit cursor emitted more term =
    as_text (
      codes "],\"cursor\":"
      ++ (decimal_ℤ cursor
          ++ (codes ",\"limit\":"
              ++ (decimal_ℤ limit
                  ++ (codes ",\"nextCursor\":"
                      ++ (decimal_ℤ (cursor +ℤ pos emitted)
                          ++ (codes ",\"hasMore\":"
                              ++ ((if more then codes "true" else codes "false")
                                  ++ codes ",\"query\":"))))))))
    ∷ term_piece term
    ∷ as_text (codes "}")
    ∷ []

-- `format` is what printf prints for "%.3f".
module _ {Double : Type 0} (format : Double → Bytes) where
  abbrev pub resume_text : Option Double → Bytes
  resume_text none = codes "0.000"
  resume_text (some position) = format position

  -- One video of the list, and the calls that append it.
  unfoldable pub video_pieces : Bool → List (Entry Double) → Video → List Piece
  unfolding resume_map_find
  video_pieces first history v =
      as_text (comma_unless first ++ (codes "{\"id\":" ++ (decimal v.id ++ codes ",\"title\":")))
      ∷ as_string v.title
      ∷ as_text (codes ",\"filename\":")
      ∷ as_string v.filename
      ∷ as_text (codes ",\"description\":")
      ∷ as_string (Option.get_or v.description [])
      ∷ as_text (codes ",\"duration\":" ++ decimal_ℤ v.duration)
      ∷ as_text (codes ",\"thumbnailUrl\":")
      ∷ as_string (thumbnail_url v.id)
      ∷ as_text (codes ",\"streamUrl\":")
      ∷ as_string (stream_url v.id)
      ∷ as_text (codes ",\"resumeSeconds\":" ++ resume_text (resume_map_find history v.id))
      ∷ as_text (codes "}")
      ∷ []

  module _ (malloc : ℕ → ℕ → Bool) where
    -- The caller's data after a row, and whether 0 was returned. After a failure the data are those
    -- before the row: the caller frees them.
    abbrev pub row_done : ListContext → Option StringBuilder → ListContext × Bool
    row_done list none = (list, false)
    row_done list (some sb) =
        (record { builder = sb; first = false; emitted = list.emitted + 1 }, true)

    unfoldable pub append_video_row : List (Entry Double) → ListContext → Video → ListContext × Bool
    unfolding video_pieces append_pieces
    append_video_row history list v =
        row_done list (append_pieces malloc list.builder (video_pieces list.first history v))

    -- The handler. `synced` is `sync_media_directory`, `grants` realloc's answers for the map.
    module _ {Conn : Type 0} (run : Conn → Statement Double → Conn × Reply Double)
        (grants : ℕ → Bool) (synced : Conn → Conn × Bool) where
      abbrev pub send_list : Context → Option StringBuilder → Context
      send_list ctx none = fail ctx 500 (codes "Allocation failed")
      send_list ctx (some sb) = reply ctx 200 sb.text none

      abbrev pub finish_list :
          Context → ℤ → ℤ → Option Bytes → Conn × ListContext × Option Bool → Conn × Context
      finish_list ctx limit cursor term (db, list, none) =
          (db, fail ctx 500 (codes "Failed to query videos"))
      finish_list ctx limit cursor term (db, list, some more) = (
        db,
        send_list ctx
            (append_pieces malloc list.builder (page_pieces limit cursor list.emitted more term)),
      )

      abbrev pub list_videos :
          Context
          → ℤ
          → ℤ
          → Option Bytes
          → Conn
          → List (Entry Double)
          → Option StringBuilder
          → Conn × Context
      list_videos ctx limit cursor term db history none =
          (db, fail ctx 500 (codes "Allocation failed"))
      list_videos ctx limit cursor term db history (some sb) = finish_list ctx limit cursor term (
          db_query_videos run db term (pos_part limit) (pos_part cursor) (append_video_row history)
            (record { builder = sb; first = true; emitted = 0 }))

      abbrev pub with_positions :
          Context → ℤ → ℤ → Option Bytes → Conn × Growing (Entry Double) × Listing → Conn × Context
      with_positions ctx limit cursor term (db, positions, listed_all) =
          list_videos ctx limit cursor term db positions.items
            (do sb ← sb_init malloc 0 512; sb_append malloc sb (codes "{\"videos\":["))
      with_positions ctx limit cursor term (db, positions, _) =
          (db, fail ctx 500 (codes "Failed to load history"))

      unfoldable pub video_handle_list : Conn → Context → Conn × Context
      unfolding page search_of collect_resume append_video_row append_pieces page_pieces
      video_handle_list db ctx =
          let (limit, cursor) = page ctx.request.query in
          let positions =
            db_list_watch_history run (synced db).0 ctx.user_id (collect_resume grants)
              no_positions in
          if ctx.authenticated
          then with_positions ctx limit cursor (search_of ctx.request.query) positions
          else (db, fail ctx 401 (codes "Unauthorized"))
