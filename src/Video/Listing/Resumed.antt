-- ===== src/Video/Listing/Resumed.antt =====
-- A stored position is the one to resume at.
use mathlib.Core.Option as Option
use ott_server.Base.{
  ==_refl, Bool, Option, ap, false, if◌then◌else◌, refl, some, subst, true, ℕ, ◌&&◌, ◌==◌, ◌∙◌, ◌≡◌,
}
use ott_server.Cstr.{Bytes}
use ott_server.Db.Engine.{stored}
use ott_server.Db.Library.{Library, Watch, find_watch, listed}
use ott_server.Db.Library.Keys.{IsKeyed}
use ott_server.Db.Library.Keys.Kept.{run-IsKeyed}
use ott_server.Db.Library.Order.{Columns, IsOrdered, kept}
use ott_server.Db.Library.Statements.{IsEngine, Reply, Statement, upsert_watch}
use ott_server.Db.Videos.{listed_all}
use ott_server.Db.Watching.{db_list_watch_history, db_update_watch_history}
use ott_server.Db.Watching.Laws.{db_update_watch_history_lem, watch_at}
use ott_server.Video.Listing.{collect_resume, no_positions}
use ott_server.Video.Listing.Stored.{db_list_watch_history-collect_resume, position_in}
use ott_server.Video.Resume.{Entry, Growing, resume_map_find}

module _ {Double Conn : Type 0} (like : Bytes → Bytes → Bool) (sql : Columns Double)
    (run : Conn → Statement Double → Conn × Reply Double) (view : Conn → Library Double)
    (exists : Conn → ℕ → Bool) (clock : Conn → Bytes) where
  -- Over an engine that does what SQL says or fails and that orders rows by updated_at, and with one
  -- row per user and video in the table: after a position of a user in a video was stored with
  -- success, if the history of the user is then listed to the end, the map that collect_resume
  -- builds finds this position for the video (zero, if it is a NaN), and for every other video the
  -- position that the table had for the user before, if it had one.
  pub update-list_positions :
      (grants : ℕ → Bool) (db : Conn) (user_id video_id : ℕ) (position : Double)
      (updated after : Conn) (positions : Growing (Entry Double)) (id : ℕ)
      → IsEngine like sql run view exists clock
      → IsOrdered sql
      → IsKeyed (view db).watches
      → db_update_watch_history run db user_id video_id position ≡ (updated, true)
      → db_list_watch_history run updated user_id (collect_resume grants) no_positions
        ≡ (after, positions, listed_all)
      → resume_map_find positions.items id ≡ (
          if video_id == id
          then some (kept sql position)
          else Option.map position_in (find_watch user_id id (view db).watches))
  unfolding db_update_watch_history
  update-list_positions grants db user_id video_id position updated after positions id law order
        keyed stored listed =
      let (videos, found) =
        db_update_watch_history_lem like sql run view exists clock db user_id video_id position
          updated true law stored in
      let still =
        subst (λ c. IsKeyed (view c).watches) (ap (λ q. q.0) stored)
          (run-IsKeyed like sql run view exists clock db (upsert_watch user_id video_id position)
            law keyed) in
      (db_list_watch_history-collect_resume like sql run view exists clock grants updated user_id id
        after positions law order still listed).1
      ∙ ap (Option.map position_in) (found user_id id)
      ∙ at_video (video_id == id) (find_watch user_id id (view db).watches)
    where
      at_video :
          (b : Bool) (o : Option (Watch Double))
          → Option.map position_in (
              if user_id == user_id && b
              then some (watch_at user_id video_id (kept sql position) (clock db))
              else o)
            ≡ (if b then some (kept sql position) else Option.map position_in o)
      at_video true o = rw (==_refl user_id) refl
      at_video false o = rw (==_refl user_id) refl
