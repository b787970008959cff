-- ===== src/Db/Library/Statements.antt =====
-- The statements on videos and watch history that server/src/db.c and history.c prepare, with the
-- values bound to them, and what SQL says that each does to the tables of server/schema.sql.
use mathlib.Core.Option
use ott_server.Base.{
  Bool, List, Option, [], drop, false, if◌then◌else◌, none, not, some, take, true, ℕ, ℤ, ◌++◌, ◌+◌,
  ◌||◌, ◌∷◌, ◌≡◌, ◌⊎◌,
}
use ott_server.Cstr.{Bytes, str_eq}
use ott_server.Db.Library.{
  Library, Video, Watch, find_file, find_video, find_watch, keep_videos, listed, put_watch,
  set_video, titled, videos_where, watches_of,
}
use ott_server.Db.Library.Order.{Columns, kept}

pub data Statement (Double : Type 0) : Type 0 where
  select_videos : Statement Double
  page_videos : Option Bytes → ℕ → ℕ → Statement Double
  select_video : ℕ → Statement Double
  upsert_video : Bytes → Bytes → Option Bytes → ℤ → Statement Double
  delete_video : Bytes → Statement Double
  create_existing clear_existing prepare_existing : Statement Double
  add_existing : Bytes → Statement Double
  delete_missing : Statement Double
  upsert_watch : ℕ → ℕ → Double → Statement Double
  select_watch : ℕ → ℕ → Statement Double
  select_watches : ℕ → Statement Double
  select_history : ℕ → Statement Double

-- What the calls of SQLite for a statement give: sqlite3_prepare_v2 fails, the first sqlite3_step
-- (or sqlite3_exec) fails, it gives SQLITE_DONE, or rows, and whether SQLITE_DONE follows the last
-- of them, or another failure.
pub data Reply (Double : Type 0) : Type 0 where
  unprepared unstepped completed : Reply Double
  returned : ℕ → Reply Double
  video_rows : List Video → Bool → Reply Double
  position_row : Double → Reply Double
  watch_rows : List (Watch Double) → Bool → Reply Double
  history_rows : List (Watch Double × Bytes) → Bool → Reply Double

-- `like text pattern`: WHERE title LIKE ? OR filename LIKE ? OR IFNULL (description, '') LIKE ?
abbrev pub matches : (Bytes → Bytes → Bool) → Option Bytes → Video → Bool
matches like none v = true
matches like (some pattern) v =
    like v.title pattern || like v.filename pattern || like (Option.get_or v.description []) pattern

module _ {Double : Type 0} where
  abbrev pub video_reply : Option Video → Reply Double
  video_reply none = completed
  video_reply (some v) = video_rows (v ∷ []) true

  abbrev pub position_reply : Option (Watch Double) → Reply Double
  position_reply none = completed
  position_reply (some w) = position_row w.position

  -- A new row, with the next id, or an update of the row of this file; the counter of the ids
  -- advances in both cases.
  abbrev pub upserted_video :
      Library Double
      → Bytes
      → Bytes
      → Option Bytes
      → ℤ
      → Option Video
      → Library Double × Reply Double
  upserted_video l title name description duration none = (
    record l {
      videos =
          l.videos
          ++ record {
            id = l.next_video;
            title = title;
            filename = name;
            description = description;
            duration = duration;
          }
            ∷ [];
      next_video = l.next_video + 1;
    },
    returned l.next_video,
  )
  upserted_video l title name description duration (some v) = (
    record l {
      videos = set_video title name description duration l.videos;
      next_video = l.next_video + 1;
    },
    returned v.id,
  )

  -- temp_existing must be there; INSERT OR IGNORE leaves a name that is.
  abbrev pub cleared : Library Double → Option (List Bytes) → Library Double × Reply Double
  cleared l none = (l, unstepped)
  cleared l (some names) = (record l { existing = some [] }, completed)

  abbrev pub checked : Library Double → Option (List Bytes) → Library Double × Reply Double
  checked l none = (l, unprepared)
  checked l (some names) = (l, completed)

  abbrev pub added : Library Double → Bytes → Option (List Bytes) → Library Double × Reply Double
  added l name none = (l, unstepped)
  added l name (some names) =
      (record l { existing = some (if listed name names then names else name ∷ names) }, completed)

  abbrev pub pruned : Library Double → Option (List Bytes) → Library Double × Reply Double
  pruned l none = (l, unstepped)
  pruned l (some names) = (keep_videos (λ v. listed v.filename names) l, completed)

  -- FOREIGN KEY: the user and the video must be there.
  abbrev pub watched :
      Library Double → Watch Double → Bool → Option Video → Library Double × Reply Double
  watched l w true (some v) = (record l { watches = put_watch w l.watches }, completed)
  watched l w _ _ = (l, unstepped)

-- `like text pattern` is SQL's LIKE, `sql` orders rows and reads doubles back, `exists`
-- says whether a user is there, and `now` is CURRENT_TIMESTAMP.
module _ {Double : Type 0} (like : Bytes → Bytes → Bool) (sql : Columns Double) where
  unfoldable pub effect :
      (ℕ → Bool) → Bytes → Library Double → Statement Double → Library Double × Reply Double
  effect exists now l select_videos = (l, video_rows l.videos true)
  effect exists now l (page_videos pattern limit offset) =
      (l, video_rows (take limit (drop offset (videos_where (matches like pattern) l.videos))) true)
  effect exists now l (select_video id) = (l, video_reply (find_video id l.videos))
  effect exists now l (upsert_video title name description duration) =
      upserted_video l title name description duration (find_file name l.videos)
  effect exists now l (delete_video name) =
      (keep_videos (λ v. not (str_eq v.filename name)) l, completed)
  effect exists now l create_existing =
      (record l { existing = some (Option.get_or l.existing []) }, completed)
  effect exists now l clear_existing = cleared l l.existing
  effect exists now l prepare_existing = checked l l.existing
  effect exists now l (add_existing name) = added l name l.existing
  effect exists now l delete_missing = pruned l l.existing
  effect exists now l (upsert_watch user video position) =
      watched l
        (record {
          user_id = user;
          video_id = video;
          position = kept sql position;
          updated_at = now;
        })
        (exists user) (find_video video l.videos)
  effect exists now l (select_watch user video) =
      (l, position_reply (find_watch user video l.watches))
  effect exists now l (select_watches user) =
      (l, watch_rows (sql.newest (watches_of user l.watches)) true)
  effect exists now l (select_history user) =
      (l, history_rows (titled l.videos (sql.newest (watches_of user l.watches))) true)

-- A failure that leaves the tables as they are: the disk, a lock, memory.
abbrev pub is_fault : {Double : Type 0} → Reply Double → Bool
is_fault unprepared = true
is_fault unstepped = true
is_fault (video_rows rows false) = true
is_fault (watch_rows rows false) = true
is_fault (history_rows rows false) = true
is_fault _ = false

-- SQLite as documented: `view` gives the tables of a connection, `exists` its users and `clock` the
-- time that its next statement reads; each statement fails and leaves the tables alone, or does what
-- SQL says.
abbrev pub IsEngine :
    {Double Conn : Type 0}
    → (Bytes → Bytes → Bool)
    → Columns Double
    → (Conn → Statement Double → Conn × Reply Double)
    → (Conn → Library Double)
    → (Conn → ℕ → Bool)
    → (Conn → Bytes)
    → Type 0
IsEngine {Double} {Conn} like sql run view exists clock =
    (c : Conn) (s : Statement Double)
    → ((view (run c s).0 ≡ view c) × (is_fault (run c s).1 ≡ true))
      ⊎ ((view (run c s).0 ≡ (effect like sql (exists c) (clock c) (view c) s).0)
          × ((run c s).1 ≡ (effect like sql (exists c) (clock c) (view c) s).1))

-- The same of an engine that never fails.
abbrev pub IsFaultless :
    {Double Conn : Type 0}
    → (Bytes → Bytes → Bool)
    → Columns Double
    → (Conn → Statement Double → Conn × Reply Double)
    → (Conn → Library Double)
    → (Conn → ℕ → Bool)
    → (Conn → Bytes)
    → Type 0
IsFaultless {Double} {Conn} like sql run view exists clock =
    (c : Conn) (s : Statement Double)
    → (view (run c s).0 ≡ (effect like sql (exists c) (clock c) (view c) s).0)
      × ((run c s).1 ≡ (effect like sql (exists c) (clock c) (view c) s).1)
