-- ===== src/Video/Watcher.antt =====
-- server/src/video.c: the thread that watches the media directory.
pub mod Laws
use mathlib.Core.Option
use ott_server.Base.{
  Bool, Option, [], false, if◌then◌else◌, ltb, none, not, some, suc, true, zero, ℕ, ◌&&◌, ◌*◌, ◌==◌,
  ◌∷◌,
}
use ott_server.Cstr.{Bytes}
use ott_server.Video.Titles.{parse_int}

-- `media_watch_state_t`, without the thread and the server.
pub record MediaWatch : Type 0 where
  pub running : Bool
  pub stop : Bool
  pub last_mtime : ℕ
  pub interval_sec : ℕ

abbrev pub not_watching : MediaWatch
not_watching = record { running = false; stop = false; last_mtime = 0; interval_sec = 0 }

-- The value that the text of a variable gives, or the fallback.
abbrev pub int_or : ℕ → Option Bytes → Option ℕ → ℕ
int_or fallback none value = fallback
int_or fallback (some []) value = fallback
int_or fallback (some (c ∷ s)) value = Option.get_or value fallback

-- `getenv_int`, for what getenv gives; the value is parsed as `parse_int` does.
unfoldable pub getenv_int : Option Bytes → ℕ → ℕ
unfolding parse_int
getenv_int value fallback = int_or fallback value (parse_int value)

-- `dir_mtime`, for what stat gives: 0 if it fails.
abbrev pub dir_mtime : Option ℕ → ℕ
dir_mtime modified = Option.get_or modified 0

abbrev pub interval_of : ℕ → ℕ
interval_of seconds = if seconds == 0 then 2 else seconds

-- `thread_made` says whether pthread_create succeeds.
unfoldable pub start_media_watcher : Option Bytes → Option ℕ → Bool → MediaWatch → MediaWatch × Bool
unfolding getenv_int
start_media_watcher interval modified thread_made watch =
    if watch.running
    then (watch, true)
    else if thread_made
    then (
      record {
        running = true;
        stop = false;
        last_mtime = dir_mtime modified;
        interval_sec = interval_of (getenv_int interval 2);
      },
      true,
    )
    else (not_watching, false)

-- One round of `media_watch_loop`, without the sleep: `modified` is what stat gives before it,
-- `later` after it, and `sync` is `sync_media_directory`.
module _ {Conn : Type 0} (sync : Conn → Conn × Bool) where
  abbrev pub noted : MediaWatch → ℕ → Conn × Bool → Conn × MediaWatch
  noted watch later (db, true) = (db, record watch { last_mtime = later })
  noted watch later (db, false) = (db, watch)

  unfoldable pub media_watch_round : Option ℕ → Option ℕ → Conn → MediaWatch → Conn × MediaWatch
  media_watch_round modified later db watch =
      let current = dir_mtime modified in
      if watch.stop
      then (db, watch)
      else if ltb 0 current && not (current == watch.last_mtime)
      then noted watch (dir_mtime later) (sync db)
      else (db, watch)

-- The sleeps of 100 ms that a round ends with, while nobody asks the thread to stop.
abbrev pub sleep_slices : MediaWatch → ℕ
sleep_slices watch = watch.interval_sec * 10

-- `video_shutdown`, after the thread was joined.
unfoldable pub video_shutdown : MediaWatch → MediaWatch
video_shutdown watch = if watch.running then not_watching else watch

-- Rounds of the loop while the time of the last change stays the same.
module _ {Conn : Type 0} (sync : Conn → Conn × Bool) where
  unfoldable pub media_watch_rounds : ℕ → ℕ → Conn → MediaWatch → Conn × MediaWatch
  unfolding media_watch_round
  media_watch_rounds zero mtime db watch = (db, watch)
  media_watch_rounds (suc n) mtime db watch =
      let (after, next) = media_watch_round sync (some mtime) (some mtime) db watch in
      media_watch_rounds n mtime after next
