-- ===== src/Tests/Media.antt =====
-- server/src/ffmpeg.c, and the streams of video.c, on concrete files.
use mathlib.Core.Option as Option
use ott_server.Base.{
  Bool, Option, [], arith, if◌then◌else◌, length, none, pos, refl, some, true, ℕ, ◌+◌, ◌-◌, ◌<◌,
  ◌==◌, ◌∷◌, ◌≡◌, ◌≢◌,
}
use ott_server.Cstr.{Bytes, codes, decimal, digits_onto, str_eq}
use ott_server.Db.Library.{Library, find_video, find_watch, put_watch, watches_of}
use ott_server.Db.Library.Keys.{IsKeyed}
use ott_server.Db.Library.Order.{
  bytes_leb, insert_newest, kept, newest_first, newest_first-IsOrdered,
}
use ott_server.Db.Library.Statements.{effect}
use ott_server.Db.Videos.{each_row, listed_all}
use ott_server.Db.Watching.{db_list_watch_history, db_update_watch_history}
use ott_server.Ffmpeg.{Disk, Process, ffmpeg_ensure_thumbnail, process_ended, thumbnail_path}
use ott_server.Ffmpeg.Laws.{IsEnsured, ffmpeg_ensure_thumbnail_failed, ffmpeg_ensure_thumbnail_lem}
use ott_server.Http.{http_status_text, request_init}
use ott_server.Http.Response.{Files, http_send_file_response}
use ott_server.Http.Socket.{Client}
use ott_server.Router.{Context}
use ott_server.Tests.Library.{
  alike, all_exist, always, columns, no_ffmpeg, noon, old_library, self, store, store-IsEngine,
  viewer, watched_library,
}
use ott_server.Tests.Utils.{chunks}
use ott_server.Video.Listing.{collect_resume, no_positions}
use ott_server.Video.Listing.Resumed.{update-list_positions}
use ott_server.Video.Listing.Stored.{position_in}
use ott_server.Video.Resume.{Entry, Growing, push, resume_map_add, resume_map_find, set_position}
use ott_server.Video.Stream.{build_header, range_headers}

-- A disk with a video and a thumbnail that is newer.
abbrev cached : Disk
cached path =
    if str_eq path (codes "m/1.mp4")
    then some (record { contents = codes "video"; modified = 5 })
    else if str_eq path (codes "t/1.jpg")
    then some (record { contents = codes "image"; modified = 6 })
    else none

ensured :
    ffmpeg_ensure_thumbnail no_ffmpeg cached (codes "t") 1 (codes "m/1.mp4") 4096
    ≡ (cached, codes "t/1.jpg", true)
unfolding ffmpeg_ensure_thumbnail thumbnail_path decimal digits_onto str_eq
ensured = refl

ffmpeg_ensure_thumbnail_lem_example :
    (codes "t/1.jpg" ≡ thumbnail_path (codes "t") 1)
    × (length (codes "t/1.jpg") < 4096)
    × IsEnsured no_ffmpeg cached (codes "m/1.mp4") (codes "t/1.jpg") cached
ffmpeg_ensure_thumbnail_lem_example =
    ffmpeg_ensure_thumbnail_lem no_ffmpeg cached (codes "t") 1 (codes "m/1.mp4") 4096 cached
      (codes "t/1.jpg") ensured

-- ffmpeg that leaves half an image and fails.
abbrev half_made : Disk → Bytes → Bytes → Process
half_made disk video_path path =
    process_ended (λ p. some (record { contents = codes "half"; modified = 7 })) (some 1) true

no_thumbnail : thumbnail_path (codes "u") 1 ≡ codes "u/1.jpg"
unfolding thumbnail_path decimal digits_onto
no_thumbnail = refl

absent_thumbnail : cached (thumbnail_path (codes "u") 1) ≡ none
unfolding thumbnail_path decimal digits_onto str_eq
absent_thumbnail = refl

one_not_zero : ◌≢◌ {A = Option ℕ} (some 1) (some 0)
one_not_zero = λ e. absurd (ground arith)

ffmpeg_ensure_thumbnail_failed_example :
    (ffmpeg_ensure_thumbnail half_made cached (codes "u") 1 (codes "m/1.mp4") 4096).0
      (thumbnail_path (codes "u") 1)
    ≡ none
ffmpeg_ensure_thumbnail_failed_example =
    ffmpeg_ensure_thumbnail_failed half_made cached (codes "u") 1 (codes "m/1.mp4") 4096 _ (some 1)
      (rw no_thumbnail (omega arith)) absent_thumbnail refl one_not_zero

abbrev media_files : Files
media_files path = if str_eq path (codes "m/old.mp4") then some (codes "video") else none

-- A user who asks for the bytes 1 to 3 of video 1.
abbrev range_context : Context
range_context = record viewer {
  client = record {
    received = [];
    accepts = 9999 ∷ 9999 ∷ 9999 ∷ 9999 ∷ 9999 ∷ [];
    transfer = chunks;
  };
  request = record request_init {
    headers = record { name = codes "range"; value = codes "bytes=1-3"; generation = 0 } ∷ [];
  };
}

abbrev range_sent : Client × Bool
range_sent =
    http_send_file_response media_files range_context.client 206 (http_status_text 206)
      (some (codes "video/mp4")) (codes "m/old.mp4") 1 (3 - 1 + 1)
      (some (build_header 512 [] (some (range_headers (pos 1) (pos 3) 5))))

abbrev one_position : Growing (Entry ℕ)
one_position = record { items = record { video_id = 1; position = 50 } ∷ []; capacity = 8 }

abbrev rewatched_library : Library ℕ
rewatched_library = record old_library {
  watches = record { user_id = 7; video_id = 1; position = 50; updated_at = codes "12:00" } ∷ [];
}

keyed : IsKeyed watched_library.watches
unfolding find_watch
keyed = (refl, tt)

position_stored : db_update_watch_history store watched_library 7 1 50 ≡ (rewatched_library, true)
unfolding db_update_watch_history effect find_video put_watch
position_stored = refl

positions_listed :
    db_list_watch_history store rewatched_library 7 (collect_resume always) no_positions
    ≡ (rewatched_library, one_position, listed_all)
unfolding db_list_watch_history effect newest_first insert_newest bytes_leb watches_of each_row
    collect_resume resume_map_add set_position push
positions_listed = refl

update-list_positions_example : resume_map_find one_position.items 1 ≡ (
    if 1 == 1
    then some (kept columns 50)
    else Option.map position_in (find_watch 7 1 watched_library.watches))
update-list_positions_example =
    update-list_positions alike columns store self all_exist noon always watched_library 7 1 50
      rewatched_library rewatched_library one_position 1 store-IsEngine newest_first-IsOrdered keyed
      position_stored positions_listed
