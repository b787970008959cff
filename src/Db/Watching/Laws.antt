-- ===== src/Db/Watching/Laws.antt =====
-- The table of watch history after an update.
use mathlib.Core.Bool.{false≢true}
use ott_server.Base.{
  ==_iff, Bool, Bool-cases, List, Option, [], and_iff, ap₂, arith, false, if◌then◌else◌, inl, inr,
  none, refl, some, subst, true, ℕ, ◌&&◌, ◌==◌, ◌∷◌, ◌≡◌,
}
use ott_server.Cstr.{Bytes}
use ott_server.Db.Library.{Library, Video, Watch, find_video, find_watch, put_watch}
use ott_server.Db.Library.Order.{Columns, kept}
use ott_server.Db.Library.Statements.{
  IsEngine, Reply, Statement, completed, effect, history_rows, is_fault, position_row, returned,
  unprepared, unstepped, upsert_watch, video_rows, watch_rows, watched,
}
use ott_server.Db.Videos.{is_completed}
use ott_server.Db.Watching.{db_update_watch_history}

pub find_watch-put_watch :
    {Double : Type 0} (new : Watch Double) (watches : List (Watch Double)) (user video : ℕ)
    → find_watch user video (put_watch new watches) ≡ (
        if new.user_id == user && new.video_id == video
        then some new
        else find_watch user video watches)
unfolding find_watch put_watch
find_watch-put_watch new [] user video = refl
find_watch-put_watch new (w ∷ watches) user video =
    elim (Bool-cases (w.user_id == new.user_id && w.video_id == new.video_id)) [
      | inl same ↦
          let (users, videos) =
            (and_iff (w.user_id == new.user_id) (w.video_id == new.video_id)).0 same in
          rw same (
            at_key (w.user_id == user && w.video_id == video)
              (new.user_id == user && new.video_id == video)
              (ap₂ (λ a b. a == user && b == video) ((==_iff _ _).0 users) ((==_iff _ _).0 videos)))
      | inr other ↦
          rw (other, find_watch-put_watch new watches user video)
            (apart (w.user_id == user && w.video_id == video) refl
              (new.user_id == user && new.video_id == video) refl other)
    ]
  where
    at_key :
        (a b : Bool)
        → a ≡ b
        → (if b then some new else find_watch user video watches)
          ≡ (if b then some new else if a then some w else find_watch user video watches)
    at_key a true e = refl
    at_key a false e = rw e refl

    apart :
        (a : Bool)
        → (w.user_id == user && w.video_id == video) ≡ a
        → (b : Bool) → (new.user_id == user && new.video_id == video) ≡ b
        → (w.user_id == new.user_id && w.video_id == new.video_id) ≡ false
        → (if a then some w else if b then some new else find_watch user video watches)
          ≡ (if b then some new else if a then some w else find_watch user video watches)
    apart true e true f n =
        let (u1, v1) = (and_iff (w.user_id == user) (w.video_id == video)).0 e in
        let (u2, v2) = (and_iff (new.user_id == user) (new.video_id == video)).0 f in
        absurd (ground arith)
    apart true e false f n = refl
    apart false e b f n = refl

abbrev pub watch_at : {Double : Type 0} → ℕ → ℕ → Double → Bytes → Watch Double
watch_at user_id video_id position now = record {
  user_id = user_id;
  video_id = video_id;
  position = position;
  updated_at = now;
}

-- The history with the position of one user in one video: the videos are as before, and every other
-- pair of a user and a video has the row that it had.
abbrev pub IsWatched :
    {Double : Type 0} → Library Double → Library Double → ℕ → ℕ → Double → Bytes → Type 0
IsWatched l after user_id video_id position now =
    (after.videos ≡ l.videos)
    × ((user video : ℕ)
        → find_watch user video after.watches ≡ (
            if user_id == user && video_id == video
            then some (watch_at user_id video_id position now)
            else find_watch user video l.watches))

module _ {Double Conn : Type 0} (like : Bytes → Bytes → Bool) (sql : Columns Double)
    (run : Conn → Statement Double → Conn × Reply Double) (view : Conn → Library Double)
    (exists : Conn → ℕ → Bool) (clock : Conn → Bytes) where
  completed-fault : (r : Reply Double) → is_completed r ≡ true → is_fault r ≡ false
  completed-fault completed e = refl
  completed-fault unprepared e = absurd (false≢true e)
  completed-fault unstepped e = absurd (false≢true e)
  completed-fault (returned id) e = absurd (false≢true e)
  completed-fault (video_rows rows b) e = absurd (false≢true e)
  completed-fault (position_row p) e = absurd (false≢true e)
  completed-fault (watch_rows rows b) e = absurd (false≢true e)
  completed-fault (history_rows rows b) e = absurd (false≢true e)

  -- A failed update leaves the tables as they were, and one that succeeds stores the position, as it
  -- is read back.
  pub db_update_watch_history_lem :
      (db : Conn) (user_id video_id : ℕ) (position : Double) (after : Conn) (success : Bool)
      → IsEngine like sql run view exists clock
      → db_update_watch_history run db user_id video_id position ≡ (after, success)
      → (if success
          then IsWatched (view db) (view after) user_id video_id (kept sql position) (clock db)
          else view after ≡ view db)
  unfolding db_update_watch_history effect
  db_update_watch_history_lem db user_id video_id position after success law e =
      let statement = upsert_watch user_id video_id position in
      subst
        (λ q.
          if q.1
          then IsWatched (view db) (view q.0) user_id video_id (kept sql position) (clock db)
          else view q.0 ≡ view db)
        e
        (elim (law db statement) [
          | inl (kept, fault) ↦ failed (run db statement) kept fault
          | inr (tables, answer) ↦
              worked (run db statement) (exists db user_id) (find_video video_id (view db).videos)
                tables answer
        ])
    where
      failed :
          (r : Conn × Reply Double)
          → view r.0 ≡ view db
          → is_fault r.1 ≡ true
          → (if is_completed r.1
              then IsWatched (view db) (view r.0) user_id video_id (kept sql position) (clock db)
              else view r.0 ≡ view db)
      failed (c, completed) kept fault = absurd (false≢true fault)
      failed (c, unprepared) kept fault = kept
      failed (c, unstepped) kept fault = kept
      failed (c, returned id) kept fault = kept
      failed (c, video_rows rows b) kept fault = kept
      failed (c, position_row p) kept fault = kept
      failed (c, watch_rows rows b) kept fault = kept
      failed (c, history_rows rows b) kept fault = kept

      worked :
          (r : Conn × Reply Double) (user : Bool) (video : Option Video)
          → view r.0
            ≡ (watched
                (view db)
                (watch_at user_id video_id (kept sql position) (clock db))
                user
                video).0
          → r.1
            ≡ (watched
                (view db)
                (watch_at user_id video_id (kept sql position) (clock db))
                user
                video).1
          → (if is_completed r.1
              then IsWatched (view db) (view r.0) user_id video_id (kept sql position) (clock db)
              else view r.0 ≡ view db)
      worked r true (some v) tables answer =
          rw (answer, tables) (refl, λ u w. find_watch-put_watch _ (view db).watches u w)
      worked r true none tables answer = rw answer tables
      worked r false video tables answer = rw answer tables
