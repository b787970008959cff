-- ===== src/Db/Videos.antt =====
-- server/src/db.c: the functions on videos, over any engine. The mutex makes each of them one step,
-- `db_prune_missing_videos` too.
pub mod Laws
use mathlib.Core.Option
use ott_server.Base.{
  Bool, List, Option, [], false, if◌then◌else◌, length, ltb, map, none, some, take, true, ℕ, ℤ,
  ◌&&◌, ◌++◌, ◌+◌, ◌==◌, ◌∷◌,
}
use ott_server.Cstr.{Bytes, truncated}
use ott_server.Db.Library.{Video}
use ott_server.Db.Library.Statements.{
  Reply, Statement, add_existing, clear_existing, completed, create_existing, delete_missing,
  delete_video, page_videos, prepare_existing, pruned, returned, select_video, select_videos,
  upsert_video, video_rows,
}

-- A row as the callbacks take it: id, title, filename, description and duration.
abbrev pub with_description : Video → Video
with_description v = record v { description = some (Option.get_or v.description []) }

module _ {Data Row : Type 0} (callback : Data → Row → Data × Bool) where
  -- What follows a callback: `rest` is the loop over the later rows, from its data.
  abbrev pub after_row : Data × Bool → (Data → Data × Bool) → Data × Bool
  after_row (userdata, true) rest = rest userdata
  after_row (userdata, false) rest = (userdata, false)

  -- The rows, until the callback does not return 0: the caller's data, and whether none did.
  unfoldable pub each_row : Data → List Row → Data × Bool
  each_row userdata [] = (userdata, true)
  each_row userdata (row ∷ rows) = after_row (callback userdata row) (λ d. each_row d rows)

-- What `db_list_videos` and `db_list_watch_history` return: 0, 1 if the callback stopped the loop,
-- or -1.
pub data Listing : Type 0 where
  listed_all stopped not_listed : Listing

-- The last code that sqlite3_step gave: a row if the callback stopped, else SQLITE_DONE or not.
abbrev pub listing_of : Bool → Bool → Listing
listing_of true true = listed_all
listing_of true false = not_listed
listing_of false ended = stopped

-- `"%" + term + "%"` in a buffer of 256 bytes.
abbrev pub like_pattern : Option Bytes → Option Bytes
like_pattern none = none
like_pattern (some []) = none
like_pattern (some (c ∷ term)) = some (b'%' ∷ take 253 (c ∷ term) ++ b'%' ∷ [])

module _ {Double Data : Type 0} where
  abbrev pub list_rows : (Data → Video → Data × Bool) → Data → Reply Double → Data × Listing
  list_rows callback userdata (video_rows rows ended) =
      let (collected, all) = each_row callback userdata (map with_description rows) in
      (collected, listing_of all ended)
  list_rows callback userdata _ = (userdata, not_listed)

  -- The rows up to the limit go to the callback; one more is only counted. If the callback stops,
  -- the rows before it are what was counted.
  abbrev pub query_rows :
      ℕ → (Data → Video → Data × Bool) → Data → Reply Double → Data × Option Bool
  query_rows limit callback userdata (video_rows rows ended) =
      let (collected, all) = each_row callback userdata (map with_description (take limit rows)) in
      (collected, if all && ended then some (ltb limit (length rows)) else none)
  query_rows limit callback userdata _ = (userdata, none)

-- The fields that a caller asks for: title, filename and description in buffers of these sizes, and
-- the duration; a size of 0 stands for a field that is not wanted.
abbrev pub fields_of :
    {Double : Type 0} → ℕ → ℕ → ℕ → Reply Double → Option (Bytes × Bytes × Bytes × ℤ)
fields_of title_len filename_len desc_len (video_rows (v ∷ rows) ended) = some (
  truncated title_len v.title,
  truncated filename_len v.filename,
  truncated desc_len (Option.get_or v.description []),
  v.duration,
)
fields_of title_len filename_len desc_len _ = none

-- SQLITE_ROW or SQLITE_DONE, and SQLITE_DONE alone.
abbrev pub is_row_or_done : {Double : Type 0} → Reply Double → Bool
is_row_or_done (returned id) = true
is_row_or_done completed = true
is_row_or_done _ = false

abbrev pub is_completed : {Double : Type 0} → Reply Double → Bool
is_completed completed = true
is_completed _ = false

module _ {Double Conn : Type 0} (run : Conn → Statement Double → Conn × Reply Double) where
  module _ {Data : Type 0} where
    unfoldable pub db_list_videos :
        Conn → (Data → Video → Data × Bool) → Data → Conn × Data × Listing
    unfolding each_row
    db_list_videos db callback userdata =
        let (after, result) = run db select_videos in
        let (collected, listing) = list_rows callback userdata result in (after, collected, listing)

    -- The caller's data, and if 0 was returned, whether there are more rows.
    unfoldable pub db_query_videos :
        Conn
        → Option Bytes
        → ℕ
        → ℕ
        → (Data → Video → Data × Bool)
        → Data
        → Conn × Data × Option Bool
    unfolding each_row
    db_query_videos db search_term limit offset callback userdata =
        if limit == 0
        then (db, userdata, none)
        else (let (after, result) =
              run db (page_videos (like_pattern search_term) (limit + 1) offset) in
            let (collected, more) = query_rows limit callback userdata result in
            (after, collected, more))

  unfoldable pub db_get_video_by_id :
      Conn → ℕ → ℕ → ℕ → ℕ → Conn × Option (Bytes × Bytes × Bytes × ℤ)
  db_get_video_by_id db video_id title_len filename_len desc_len =
      let (after, result) = run db (select_video video_id) in
      (after, fields_of title_len filename_len desc_len result)

  unfoldable pub db_upsert_video : Conn → Option Bytes → Bytes → Option Bytes → ℤ → Conn × Bool
  db_upsert_video db title filename description duration =
      let (after, result) =
        run db (upsert_video (Option.get_or title filename) filename description duration) in
      (after, is_row_or_done result)

  unfoldable pub db_delete_video_by_filename : Conn → Bytes → Conn × Bool
  db_delete_video_by_filename db filename =
      let (after, result) = run db (delete_video filename) in (after, is_completed result)

  -- The statement after one that succeeded.
  abbrev pub and_then : Conn × Reply Double → (Conn → Conn × Bool) → Conn × Bool
  and_then (after, completed) next = next after
  and_then (after, _) next = (after, false)

  -- The loop over the names; `count` names are there, and empty ones are skipped.
  unfoldable pub add_names : Conn → List Bytes → Conn × Bool
  add_names db [] = (db, true)
  add_names db ([] ∷ names) = add_names db names
  add_names db ((c ∷ name) ∷ names) =
      and_then (run db (add_existing (c ∷ name))) (λ d. add_names d names)

  abbrev pub then_delete : Conn × Bool → Conn × Bool
  then_delete (db, false) = (db, false)
  then_delete (db, true) = and_then (run db delete_missing) (λ d. (d, true))

  -- `done:` clears the table of names, whatever came before.
  unfoldable pub db_prune_missing_videos : Conn → List Bytes → Conn × Bool
  unfolding add_names
  db_prune_missing_videos db filenames =
      let (before, pruned) = and_then (run db create_existing) (λ a.
        and_then (run a clear_existing)
          (λ b. and_then (run b prepare_existing) (λ c. then_delete (add_names c filenames)))) in
      ((run before clear_existing).0, pruned)
