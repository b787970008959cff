-- ===== src/History/Laws.antt =====
-- What an update of the watch history stores.
use ott_server.Base.{
  Bool, Bool-cases, Option, arith, false, if◌then◌else◌, inl, inr, none, refl, some, suc, true,
  zero, ℕ, ℤ, ◌∙◌, ◌≡◌, ◌⊎◌,
}
use ott_server.Cstr.{Bytes, codes}
use ott_server.Db.Library.{Library}
use ott_server.Db.Library.Order.{Columns, kept}
use ott_server.Db.Library.Statements.{IsEngine, Reply, Statement, effect, select_video, watched}
use ott_server.Db.Videos.{db_get_video_by_id}
use ott_server.Db.Watching.{db_update_watch_history}
use ott_server.Db.Watching.Laws.{IsWatched, db_update_watch_history_lem}
use ott_server.History.{
  history_handle_update, stored_position, update_from, update_named, update_position,
}
use ott_server.Router.{Context, router_get_param}
use ott_server.Router.Send.{body_of, fail}
use ott_server.Utils.Json.{json_get_double}
use ott_server.Video.Stream.{
  Named, look_up, named_of, no_id, no_video, requested_video, video_named,
}
use ott_server.Video.Titles.{parse_int}

module _ {Double Conn : Type 0} (like : Bytes → Bytes → Bool) (sql : Columns Double)
    (run : Conn → Statement Double → Conn × Reply Double) (view : Conn → Library Double)
    (exists : Conn → ℕ → Bool) (clock : Conn → Bytes) (strtod : Bytes → Option (Double × Bytes))
    (is_negative : Double → Bool) where
  -- Looking a video up changes nothing, and finds only the id in the path.
  pub requested_video_lem :
      (db : Conn) (ctx : Context)
      → IsEngine like sql run view exists clock
      → (view (requested_video run db ctx).0 ≡ view db)
        × ((id : ℕ) (filename : Bytes)
            → (requested_video run db ctx).1 ≡ video_named id filename
            → parse_int (router_get_param ctx (codes "id")) ≡ some id)
  unfolding requested_video db_get_video_by_id effect
  requested_video_lem db ctx law = go (parse_int (router_get_param ctx (codes "id")))
    where
      read : (id : ℕ) → view (db_get_video_by_id run db id 0 256 0).0 ≡ view db
      read id = elim (law db (select_video id)) [
        | inl (kept, fault) ↦ kept
        | inr (tables, answer) ↦ tables
      ]

      named :
          (row : Option (Bytes × Bytes × Bytes × ℤ)) (k id : ℕ) (filename : Bytes)
          → named_of k row ≡ video_named id filename
          → some k ≡ some id
      named none k id filename e = absurd cc
      named (some (t, f, d, n)) k id filename e = ground arith

      go :
          (o : Option ℕ)
          → (view (look_up run db o).0 ≡ view db)
            × ((id : ℕ) (filename : Bytes)
                → (look_up run db o).1 ≡ video_named id filename
                → o ≡ some id)
      go none = (refl, λ id filename e. absurd cc)
      go (some zero) = (refl, λ id filename e. absurd cc)
      go (some (suc k)) = (read (suc k), λ id filename e. named _ (suc k) id filename e)

  -- What an update that changes the tables has stored, for a user who is authenticated: the
  -- position in the body, which is not negative, as SQLite reads it back, in the video of the path.
  abbrev pub IsUpdated : Library Double → Library Double → Context → Type 0
  IsUpdated l after ctx =
      (ctx.authenticated ≡ true)
      × (id : ℕ) × (parse_int (router_get_param ctx (codes "id")) ≡ some id)
      × (body : Bytes) × (body_of ctx.request ≡ some body)
      × (position : Double) × (json_get_double strtod body (codes "position") ≡ some position)
      × (is_negative position ≡ false)
      × (now : Bytes) × IsWatched l after ctx.user_id id (kept sql position) now

  update_from_lem :
      (db : Conn) (l : Library Double) (ctx : Context) (id : ℕ) (body : Option Bytes)
      → IsEngine like sql run view exists clock
      → view db ≡ l
      → ctx.authenticated ≡ true
      → parse_int (router_get_param ctx (codes "id")) ≡ some id
      → body_of ctx.request ≡ body
      → (view (update_from run strtod is_negative db ctx id body).0 ≡ l)
        ⊎ IsUpdated l (view (update_from run strtod is_negative db ctx id body).0) ctx
  update_from_lem db l ctx id none law same user path b = inl same
  update_from_lem db l ctx id (some body) law same user path b =
      go (json_get_double strtod body (codes "position")) refl
    where
      answered : (r : Conn × Bool) → (stored_position run strtod is_negative ctx r).0 ≡ r.0
      answered (c, true) = refl
      answered (c, false) = refl

      stored :
          (position : Double) (success : Bool) (after : Conn)
          → json_get_double strtod body (codes "position") ≡ some position
          → is_negative position ≡ false
          → (if success
              then IsWatched (view db) (view after) ctx.user_id id (kept sql position) (clock db)
              else view after ≡ view db)
          → (view after ≡ l) ⊎ IsUpdated l (view after) ctx
      stored position false after p n kept = inl (kept ∙ same)
      stored position true after p n watched =
          inr (user, id, path, body, b, position, p, n, clock db, rw (← same) watched)

      go :
          (o : Option Double)
          → json_get_double strtod body (codes "position") ≡ o
          → (view (update_position run strtod is_negative db ctx id o).0 ≡ l)
            ⊎ IsUpdated l (view (update_position run strtod is_negative db ctx id o).0) ctx
      go none p = inl same
      go (some position) p = elim (Bool-cases (is_negative position)) [
        | inl negative ↦ rw negative (inl same)
        | inr fine ↦
            let r = db_update_watch_history run db ctx.user_id id position in
            rw (fine, answered r)
              (stored position r.1 r.0 p fine (
                db_update_watch_history_lem like sql run view exists clock db ctx.user_id id
                  position r.0 r.1 law refl))
      ]

  -- Over an engine that does what SQL says or fails, the handler leaves the tables of videos and
  -- history as they are, or it has stored, for a user who is authenticated, the position in the
  -- body, which does not test as negative, in the video whose id the path has, and nothing else; a
  -- NaN, which passes the test, is stored as NULL and read back as zero.
  pub history_handle_update_lem :
      (db : Conn) (ctx : Context)
      → IsEngine like sql run view exists clock
      → let after = view (history_handle_update run strtod is_negative db ctx).0 in
        (after ≡ view db) ⊎ IsUpdated (view db) after ctx
  unfolding history_handle_update
  history_handle_update_lem db ctx law = decide ctx.authenticated refl
    where
      go :
          (r : Conn × Named)
          → view r.0 ≡ view db
          → ((id : ℕ) (filename : Bytes)
              → r.1 ≡ video_named id filename
              → parse_int (router_get_param ctx (codes "id")) ≡ some id)
          → ctx.authenticated ≡ true
          → (view (update_named run strtod is_negative ctx r).0 ≡ view db)
            ⊎ IsUpdated (view db) (view (update_named run strtod is_negative ctx r).0) ctx
      go (c, no_id) kept path user = inl kept
      go (c, no_video) kept path user = inl kept
      go (c, video_named id filename) kept path user =
          update_from_lem c (view db) ctx id (body_of ctx.request) law kept user
            (path id filename refl) refl

      answer : Bool → Conn × Context
      answer b =
          let answered = update_named run strtod is_negative ctx (requested_video run db ctx) in
          if b then answered else (db, fail ctx 401 (codes "Unauthorized"))

      decide :
          (b : Bool)
          → ctx.authenticated ≡ b
          → (view (answer b).0 ≡ view db) ⊎ IsUpdated (view db) (view (answer b).0) ctx
      decide true user =
          let (kept, path) = requested_video_lem db ctx law in
          go (requested_video run db ctx) kept path user
      decide false guest = inl refl
