-- ===== src/Db/Watching/Rows.antt =====
-- The rows that `db_list_watch_history` hands to its callback.
use mathlib.Core.Bool.{false≢true}
use ott_server.Base.{Bool, List, ap, false, inl, inr, refl, subst, sym, true, ℕ, ◌∙◌, ◌≡◌}
use ott_server.Cstr.{Bytes}
use ott_server.Db.Library.{Library, Watch, watches_of}
use ott_server.Db.Library.Order.{Columns, kept}
use ott_server.Db.Library.Statements.{
  IsEngine, Reply, Statement, completed, effect, history_rows, is_fault, position_row, returned,
  select_watches, unprepared, unstepped, video_rows, watch_rows,
}
use ott_server.Db.Videos.{each_row, listed_all, listing_of}
use ott_server.Db.Watching.{db_list_watch_history, list_watches}

module _ {Double Conn : Type 0} (like : Bytes → Bytes → Bool) (sql : Columns Double)
    (run : Conn → Statement Double → Conn × Reply Double) (view : Conn → Library Double)
    (exists : Conn → ℕ → Bool) (clock : Conn → Bytes) where
  -- Reading the history of a user changes nothing, and if it returns 0, the callback has taken all
  -- rows of the user.
  pub db_list_watch_history_lem :
      {Data : Type 0} (db : Conn) (user_id : ℕ) (callback : Data → Watch Double → Data × Bool)
      (userdata : Data)
      → IsEngine like sql run view exists clock
      → let (after, collected, result) = db_list_watch_history run db user_id callback userdata in
        (view after ≡ view db)
        × (result ≡ listed_all
            → each_row callback userdata (sql.newest (watches_of user_id (view db).watches))
              ≡ (collected, true))
  unfolding db_list_watch_history effect
  db_list_watch_history_lem {Data = Data} db user_id callback userdata law =
      elim (law db (select_watches user_id)) [
        | inl (kept, fault) ↦ (kept, λ e. faulty (run db (select_watches user_id)).1 fault e)
        | inr (tables, answer) ↦ (
          tables,
          λ e.
              complete (sql.newest (watches_of user_id (view db).watches))
                (run db (select_watches user_id)).1 answer e,
        )
      ]
    where
      full :
          (r : Data × Bool) (b : Bool)
          → listing_of r.1 b ≡ listed_all
          → (b ≡ true) × (r ≡ (r.0, true))
      full (c, true) true e = (refl, refl)
      full (c, true) false e = absurd cc
      full (c, false) b e = absurd cc

      faulty :
          (r : Reply Double)
          → is_fault r ≡ true
          → (list_watches callback userdata r).1 ≡ listed_all
          → each_row callback userdata (sql.newest (watches_of user_id (view db).watches))
            ≡ ((list_watches callback userdata r).0, true)
      faulty (watch_rows rows false) fault e =
          absurd (false≢true (full (each_row callback userdata rows) false e).0)
      faulty (watch_rows rows true) fault e = absurd (false≢true fault)
      faulty unprepared fault e = absurd cc
      faulty unstepped fault e = absurd cc
      faulty completed fault e = absurd cc
      faulty (returned id) fault e = absurd cc
      faulty (video_rows rows b) fault e = absurd cc
      faulty (position_row p) fault e = absurd cc
      faulty (history_rows rows b) fault e = absurd cc

      complete :
          (rows : List (Watch Double)) (r : Reply Double)
          → r ≡ watch_rows rows true
          → (list_watches callback userdata r).1 ≡ listed_all
          → each_row callback userdata rows ≡ ((list_watches callback userdata r).0, true)
      complete rows r answer e =
          subst
            (λ q. each_row callback userdata rows ≡ ((list_watches callback userdata q).0, true))
            (sym answer)
            (full (each_row callback userdata rows) true
              (ap (λ q. (list_watches callback userdata q).1) (sym answer) ∙ e)).1
