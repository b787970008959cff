-- ===== src/Db/Library.antt =====
-- server/schema.sql: the tables of videos and of watch history, as lists of rows in the order of
-- their insertion, without the columns `created_at` and the id of a history row, which no query
-- reads.
pub mod Statements
pub mod Order
pub mod Keys
pub mod Laws
use ott_server.Base.{
  Bool, List, Option, [], false, if◌then◌else◌, none, some, true, ℕ, ℤ, ◌&&◌, ◌==◌, ◌∷◌,
}
use ott_server.Cstr.{Bytes, str_eq}

-- videos; filename is UNIQUE.
pub record Video : Type 0 where
  pub id : ℕ
  pub title : Bytes
  pub filename : Bytes
  pub description : Option Bytes
  pub duration : ℤ

-- watch_history, for a type of doubles; a pair of a user and a video is UNIQUE, and both exist.
pub record Watch (Double : Type 0) : Type 0 where
  pub user_id : ℕ
  pub video_id : ℕ
  pub position : Double
  pub updated_at : Bytes

-- `next_video` is the counter behind AUTOINCREMENT; `existing` the rows of the connection's table
-- temp_existing, if it was created.
pub record Library (Double : Type 0) : Type 0 where
  pub videos : List Video
  pub next_video : ℕ
  pub watches : List (Watch Double)
  pub existing : Option (List Bytes)

unfoldable pub find_video : ℕ → List Video → Option Video
find_video id [] = none
find_video id (v ∷ videos) = let rest = find_video id videos in if v.id == id then some v else rest

unfoldable pub find_file : Bytes → List Video → Option Video
unfolding str_eq
find_file name [] = none
find_file name (v ∷ videos) =
    let rest = find_file name videos in if str_eq v.filename name then some v else rest

-- ON CONFLICT (filename) DO UPDATE
unfoldable pub set_video : Bytes → Bytes → Option Bytes → ℤ → List Video → List Video
unfolding str_eq
set_video title name description duration [] = []
set_video title name description duration (v ∷ videos) =
    let rest = set_video title name description duration videos in
    if str_eq v.filename name
    then record v { title = title; description = description; duration = duration } ∷ rest
    else v ∷ rest

-- A name among names.
unfoldable pub listed : Bytes → List Bytes → Bool
unfolding str_eq
listed name [] = false
listed name (n ∷ names) = let rest = listed name names in if str_eq n name then true else rest

-- The videos whose file names pass a test, in the order of the table.
unfoldable pub videos_where : (Video → Bool) → List Video → List Video
videos_where test [] = []
videos_where test (v ∷ videos) =
    let rest = videos_where test videos in if test v then v ∷ rest else rest

module _ {Double : Type 0} where
  unfoldable pub find_watch : ℕ → ℕ → List (Watch Double) → Option (Watch Double)
  find_watch user video [] = none
  find_watch user video (w ∷ watches) =
      let rest = find_watch user video watches in
      if w.user_id == user && w.video_id == video then some w else rest

  -- ON CONFLICT (user_id, video_id) DO UPDATE: in place, or a new row.
  unfoldable pub put_watch : Watch Double → List (Watch Double) → List (Watch Double)
  put_watch new [] = new ∷ []
  put_watch new (w ∷ watches) =
      let rest = put_watch new watches in
      if w.user_id == new.user_id && w.video_id == new.video_id then new ∷ watches else w ∷ rest

  unfoldable pub watches_of : ℕ → List (Watch Double) → List (Watch Double)
  watches_of user [] = []
  watches_of user (w ∷ watches) =
      let rest = watches_of user watches in if w.user_id == user then w ∷ rest else rest

  -- ON DELETE CASCADE: the history of the videos that are left.
  abbrev pub kept_watch : Watch Double → List (Watch Double) → Option Video → List (Watch Double)
  kept_watch w rest none = rest
  kept_watch w rest (some v) = w ∷ rest

  unfoldable pub cascade : List Video → List (Watch Double) → List (Watch Double)
  unfolding find_video
  cascade videos [] = []
  cascade videos (w ∷ watches) =
      let rest = cascade videos watches in kept_watch w rest (find_video w.video_id videos)

  -- A deletion that leaves the videos of a test.
  abbrev pub keep_videos : (Video → Bool) → Library Double → Library Double
  keep_videos test l =
      let videos = videos_where test l.videos in
      record l { videos = videos; watches = cascade videos l.watches }

  -- JOIN videos ON id = video_id: every row of a video that is there, with its title.
  abbrev pub with_title :
      Watch Double → List (Watch Double × Bytes) → Option Video → List (Watch Double × Bytes)
  with_title w rest none = rest
  with_title w rest (some v) = (w, v.title) ∷ rest

  unfoldable pub titled : List Video → List (Watch Double) → List (Watch Double × Bytes)
  unfolding find_video
  titled videos [] = []
  titled videos (w ∷ watches) =
      let rest = titled videos watches in with_title w rest (find_video w.video_id videos)
