-- ===== src/Tests/Library.antt =====
-- server/src/db.c, video.c, history.c and ffmpeg.c over an engine that never fails, with natural
-- numbers for doubles.
use ott_server.Base.{
  Bool, List, Option, [], false, inr, length, ltb, map, none, pos, refl, some, true, ℕ, ◌&&◌, ◌==◌,
  ◌^◌, ◌∷◌, ◌≡◌, ◌⊎◌,
}
use ott_server.Cstr.{
  Bytes, clamp_long, codes, drop_spaces, read_digits, read_sign, split_at_last, split_on,
  starts_digit, starts_with, str_case_eq, str_eq, strtol,
}
use ott_server.Db.Library.{
  Library, Video, Watch, cascade, find_file, find_video, find_watch, listed, put_watch, set_video,
  videos_where,
}
use ott_server.Db.Library.Laws.{file_id}
use ott_server.Db.Library.Order.{Columns, bytes_leb, insert_newest, newest_first}
use ott_server.Db.Library.Statements.{IsEngine, IsFaultless, Reply, Statement, effect}
use ott_server.Db.Videos.{add_names, db_get_video_by_id, db_prune_missing_videos, db_upsert_video}
use ott_server.Db.Watching.{db_update_watch_history}
use ott_server.Ffmpeg.{Disk, Process, not_forked}
use ott_server.History.{history_handle_update}
use ott_server.History.Laws.{IsUpdated, history_handle_update_lem}
use ott_server.Http.{request_init}
use ott_server.Router.{Context, find_param, router_get_param}
use ott_server.Tests.Utils.{chunks}
use ott_server.Utils.Json.{json_get_double, key_pattern, skip_separators}
use ott_server.Video.Resume.{filename_list_add, push}
use ott_server.Video.Resume.Laws.{ids}
use ott_server.Video.Stream.{requested_video}
use ott_server.Video.Sync.{is_media, scan, sync_media_directory}
use ott_server.Video.Sync.Laws.{sync_media_directory_lem}
use ott_server.Video.Sync.Names.{IsSynced}
use ott_server.Video.Titles.{has_mp4_extension, make_title, parse_int}

abbrev pub alike : Bytes → Bytes → Bool
alike text pattern = starts_with (codes "%b") pattern

-- Natural numbers as doubles; 99 stands for NaN.
abbrev pub columns : Columns ℕ
columns = record { newest = newest_first; is_nan = λ d. d == 99; zero_double = 0 }

abbrev pub all_exist : Library ℕ → ℕ → Bool
all_exist l user = true

abbrev pub noon : Library ℕ → Bytes
noon l = codes "12:00"

abbrev pub self : Library ℕ → Library ℕ
self l = l

abbrev pub store : Library ℕ → Statement ℕ → Library ℕ × Reply ℕ
store l s = effect alike columns (all_exist l) (noon l) l s

pub store-IsEngine : IsEngine alike columns store self all_exist noon
store-IsEngine = λ c s. inr (refl, refl)

store-IsFaultless : IsFaultless alike columns store self all_exist noon
store-IsFaultless = λ c s. (refl, refl)

abbrev small_malloc : ℕ → ℕ → Bool
small_malloc calls size = ltb size (2 ^ 63)

abbrev pub always : ℕ → Bool
always n = true

abbrev in_step : Library ℕ → Library ℕ × Bool
in_step l = (l, true)

abbrev strtod : Bytes → Option (ℕ × Bytes)
strtod s = some (read_digits 0 s)

abbrev never_negative : ℕ → Bool
never_negative position = false

abbrev old_video : Video
old_video = record {
  id = 1;
  title = codes "old";
  filename = codes "old.mp4";
  description = none;
  duration = pos 0;
}

abbrev new_video : Video
new_video = record {
  id = 2;
  title = codes "b";
  filename = codes "b.mp4";
  description = none;
  duration = pos 0;
}

abbrev pub old_library : Library ℕ
old_library = record { videos = old_video ∷ []; next_video = 2; watches = []; existing = none }

abbrev guest : Context
guest = record {
  security_headers = [];
  client = record { received = []; accepts = []; transfer = chunks };
  request = request_init;
  authenticated = false;
  user_id = 0;
  username = [];
  session_token = [];
  params = [];
}

abbrev position_body : Bytes
position_body = codes "{\"position\":42}"

-- A user who asks for video 1.
abbrev pub viewer : Context
viewer = record guest {
  request = record request_init { body = some position_body; body_length = length position_body };
  authenticated = true;
  user_id = 7;
  params = record { key = codes "id"; value = codes "1" } ∷ [];
}

abbrev pub no_ffmpeg : Disk → Bytes → Bytes → Process
no_ffmpeg disk video_path path = not_forked

abbrev entries : List Bytes
entries = codes "b.mp4" ∷ codes "x.txt" ∷ codes ".h.mp4" ∷ []

synchronized :
    (sync_media_directory store always always old_library (some entries)).0.videos ≡ new_video ∷ []
unfolding sync_media_directory scan is_media has_mp4_extension split_at_last str_case_eq make_title
    filename_list_add push db_upsert_video db_prune_missing_videos add_names effect find_file
    set_video videos_where cascade find_video listed str_eq
synchronized = refl

sync_media_directory_lem_example :
    ((sync_media_directory store always always old_library (some entries)).1 ≡ true)
    × IsSynced
        (file_id (codes "b.mp4") old_library.videos)
        (is_media (codes "b.mp4") && listed (codes "b.mp4") entries)
        (file_id
          (codes "b.mp4")
          (sync_media_directory store always always old_library (some entries)).0.videos)
sync_media_directory_lem_example =
    sync_media_directory_lem alike columns store self all_exist noon always always old_library
      entries (codes "b.mp4") store-IsFaultless (λ k. refl) (λ k. refl)

abbrev pub watched_library : Library ℕ
watched_library = record old_library {
  watches = record { user_id = 7; video_id = 1; position = 42; updated_at = codes "12:00" } ∷ [];
}

stored_position :
    (history_handle_update store strtod never_negative old_library viewer).0 ≡ watched_library
unfolding history_handle_update requested_video router_get_param find_param parse_int strtol
    read_sign read_digits starts_digit clamp_long drop_spaces str_eq db_get_video_by_id effect
    find_video json_get_double key_pattern skip_separators split_on starts_with
    db_update_watch_history put_watch
stored_position = refl

history_handle_update_lem_example :
    ((history_handle_update store strtod never_negative old_library viewer).0 ≡ old_library)
    ⊎ IsUpdated alike columns store self all_exist noon strtod never_negative old_library
        (history_handle_update store strtod never_negative old_library viewer).0
        viewer
history_handle_update_lem_example =
    history_handle_update_lem alike columns store self all_exist noon strtod never_negative
      old_library viewer store-IsEngine

stored_watch : db_update_watch_history store old_library 7 1 42 ≡ (watched_library, true)
unfolding db_update_watch_history effect find_video put_watch
stored_watch = refl

abbrev unordered : List (Watch ℕ)
unordered =
    record { user_id = 7; video_id = 1; position = 1; updated_at = codes "09:59" }
    ∷ record { user_id = 7; video_id = 2; position = 2; updated_at = codes "10:01" }
    ∷ []

ordered : map (λ (w : Watch ℕ). w.video_id) (newest_first unordered) ≡ 2 ∷ 1 ∷ []
unfolding newest_first insert_newest bytes_leb
ordered = refl

nan_stored :
    (find_watch 7 1 (db_update_watch_history store old_library 7 1 99).0.watches)
    ≡ some (record { user_id = 7; video_id = 1; position = 0; updated_at = codes "12:00" })
unfolding db_update_watch_history effect find_video put_watch find_watch
nan_stored = refl

-- A callback that collects ids.
abbrev collect_id : List ℕ → Video → List ℕ × Bool
collect_id ids v = (v.id ∷ ids, true)

abbrev two_videos : Library ℕ
two_videos = record old_library { videos = old_video ∷ new_video ∷ []; next_video = 3 }
