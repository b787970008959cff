-- ===== src/Db/Watching.antt =====
-- server/src/db.c: the functions on watch history, over any engine.
pub mod Rows
pub mod Laws
use ott_server.Base.{Bool, Option, none, some, ℕ}
use ott_server.Db.Library.{Watch}
use ott_server.Db.Library.Statements.{
  Reply, Statement, position_row, select_watch, select_watches, upsert_watch, watch_rows,
}
use ott_server.Db.Videos.{Listing, each_row, is_completed, listing_of, not_listed}

abbrev pub position_of : {Double : Type 0} → Reply Double → Option Double
position_of (position_row position) = some position
position_of _ = none

module _ {Double Data : Type 0} where
  abbrev pub list_watches :
      (Data → Watch Double → Data × Bool) → Data → Reply Double → Data × Listing
  list_watches callback userdata (watch_rows rows ended) =
      let (collected, all) = each_row callback userdata rows in (collected, listing_of all ended)
  list_watches callback userdata _ = (userdata, not_listed)

module _ {Double Conn : Type 0} (run : Conn → Statement Double → Conn × Reply Double) where
  unfoldable pub db_update_watch_history : Conn → ℕ → ℕ → Double → Conn × Bool
  db_update_watch_history db user_id video_id position =
      let (after, result) = run db (upsert_watch user_id video_id position) in
      (after, is_completed result)

  unfoldable pub db_get_watch_history : Conn → ℕ → ℕ → Conn × Option Double
  db_get_watch_history db user_id video_id =
      let (after, result) = run db (select_watch user_id video_id) in (after, position_of result)

  unfoldable pub db_list_watch_history :
      {Data : Type 0}
      → Conn
      → ℕ
      → (Data → Watch Double → Data × Bool)
      → Data
      → Conn × Data × Listing
  unfolding each_row
  db_list_watch_history db user_id callback userdata =
      let (after, result) = run db (select_watches user_id) in
      let (collected, listing) = list_watches callback userdata result in
      (after, collected, listing)
