-- ===== src/Video/Listing/Laws.antt =====
-- The answer of `video_handle_list`: the page of the table that was asked for.
use ott_server.Base.{
  Bool, List, Option, drop, length, ltb, map, none, pos_part, take, true, ℕ, ℤ, ◌++◌, ◌+◌, ◌>>=◌,
  ◌≡◌, ◌⊎◌,
}
use ott_server.Cstr.{Bytes, codes}
use ott_server.Db.Library.{Library, Video, videos_where, watches_of}
use ott_server.Db.Library.Order.{Columns}
use ott_server.Db.Library.Statements.{Reply, Statement, matches}
use ott_server.Db.Videos.{Listing, each_row, like_pattern, with_description}
use ott_server.Router.{Context}
use ott_server.Router.Send.{fail, reply}
use ott_server.Utils.Pieces.Laws.{pieces_text}
use ott_server.Video.Listing.{collect_resume, no_positions, page_pieces}
use ott_server.Video.Listing.Rows.{videos_text}
use ott_server.Video.Resume.{Entry, Growing}

module _ {Double Conn : Type 0} (like : Bytes → Bytes → Bool) (sql : Columns Double)
    (run : Conn → Statement Double → Conn × Reply Double) (view : Conn → Library Double)
    (exists : Conn → ℕ → Bool) (clock : Conn → Bytes) (format : Double → Bytes)
    (malloc : ℕ → ℕ → Bool) (grants : ℕ → Bool) where
  -- The body of a page of the table: the videos on it, with the positions to resume at, and what
  -- comes after it.
  abbrev pub page_body : List Video → List (Entry Double) → ℤ → ℤ → Option Bytes → Bytes
  page_body videos history limit cursor term =
      let rows = videos_where (matches like (like_pattern term)) videos in
      let shown = map with_description (take (pos_part limit) (drop (pos_part cursor) rows)) in
      let more = ltb (pos_part cursor + pos_part limit) (length rows) in
      codes "{\"videos\":["
      ++ (videos_text format malloc history true shown
          ++ pieces_text (page_pieces limit cursor (length shown) more term))

  -- An answer is the page, with the positions that the history of the user holds, or an error 500.
  abbrev pub IsAnswer : Library Double → Context → ℤ → ℤ → Option Bytes → Context → Type 0
  IsAnswer l ctx limit cursor term after =
      ((positions : Growing (Entry Double)) × (each_row (collect_resume grants) no_positions
            (sql.newest (watches_of ctx.user_id l.watches))
          ≡ (positions, true))
        × (after ≡ reply ctx 200 (page_body l.videos positions.items limit cursor term) none))
      ⊎ ((message : Bytes) × (after ≡ fail ctx 500 message))
