-- ===== src/Ffmpeg/Laws.antt =====
-- When a thumbnail is taken from the cache, and what is left of it.
use mathlib.Core.Bool.{false≢true}
use ott_server.Base.{
  Bool, Bool-cases, Option, ap, arith, false, if◌then◌else◌, inl, inr, leb, leb→le, length, none,
  refl, some, subst, suc, sym, true, zero, ℕ, ◌<◌, ◌≡◌, ◌≢◌, ◌≤◌, ◌⊎◌,
}
use ott_server.Cstr.{Bytes, str_eq_refl, truncated}
use ott_server.Ffmpeg.{
  Disk, File, Process, ensure_at, ffmpeg_ensure_thumbnail, finished, is_fresh, not_forked,
  not_waited, process_ended, thumbnail_path, unlink,
}

module _ (convert : Disk → Bytes → Bytes → Process) where
  -- What a disk must be after `ffmpeg_ensure_thumbnail` returned 0: the old one with a thumbnail no
  -- older than the video, or what ffmpeg left when it exited with 0.
  abbrev pub IsEnsured : Disk → Bytes → Bytes → Disk → Type 0
  IsEnsured disk video_path path after =
      ((after ≡ disk)
        × (thumb : File) × (video : File) × (disk path ≡ some thumb)
        × (disk video_path ≡ some video)
        × (video.modified ≤ thumb.modified))
      ⊎ ((unlinks : Bool) × (convert disk video_path path ≡ process_ended after (some 0) unlinks))

  finished_lem :
      (disk : Disk) (path : Bytes) (p : Process) (after : Disk)
      → finished disk path p ≡ (after, true)
      → (unlinks : Bool) × (p ≡ process_ended after (some 0) unlinks)
  finished_lem disk path not_forked after e = absurd (false≢true (ap (λ q. q.1) e))
  finished_lem disk path (not_waited d) after e = absurd (false≢true (ap (λ q. q.1) e))
  finished_lem disk path (process_ended d none u) after e = absurd (false≢true (ap (λ q. q.1) e))
  finished_lem disk path (process_ended d (some zero) u) after e =
      (u, ap (λ q. process_ended q (some 0) u) (ap (λ q. q.0) e))
  finished_lem disk path (process_ended d (some (suc n)) u) after e =
      absurd (false≢true (ap (λ q. q.1) e))

  ensure_at_lem :
      (disk : Disk) (video_path path : Bytes) (video : Option File) (after : Disk)
      → disk video_path ≡ video
      → ensure_at convert disk video_path path video ≡ (after, true)
      → IsEnsured disk video_path path after
  ensure_at_lem disk video_path path none after k e = absurd (false≢true (ap (λ q. q.1) e))
  ensure_at_lem disk video_path path (some video) after k e = go (disk path) refl e
    where
      go :
          (thumb : Option File)
          → disk path ≡ thumb
          → (if is_fresh thumb video
              then (disk, true)
              else finished disk path (convert disk video_path path))
            ≡ (after, true)
          → IsEnsured disk video_path path after
      go none t h = inr (finished_lem disk path (convert disk video_path path) after h)
      go (some thumb) t h = elim (Bool-cases (leb video.modified thumb.modified)) [
        | inl fresh ↦
            let same : ◌≡◌ {A = Disk × Bool} (disk, true) (after, true) = rw fresh at h in
            inl (sym (ap (λ q. q.0) same), thumb, video, t, k, leb→le _ _ fresh)
        | inr stale ↦
            let converted : finished disk path (convert disk video_path path) ≡ (after, true) =
              rw stale at h in
            inr (finished_lem disk path (convert disk video_path path) after converted)
      ]

  -- A thumbnail is ensured only at its path in the directory of thumbnails, and only if it is no
  -- older than the video, which leaves the disk as it was, or if ffmpeg exited with 0.
  pub ffmpeg_ensure_thumbnail_lem :
      (disk : Disk) (thumb_dir : Bytes) (video_id : ℕ) (video_path : Bytes) (size : ℕ)
      (after : Disk) (path : Bytes)
      → ffmpeg_ensure_thumbnail convert disk thumb_dir video_id video_path size
        ≡ (after, path, true)
      → (path ≡ thumbnail_path thumb_dir video_id)
        × (length path < size)
        × IsEnsured disk video_path path after
  unfolding ffmpeg_ensure_thumbnail
  ffmpeg_ensure_thumbnail_lem disk thumb_dir video_id video_path size after path e =
      let expected = thumbnail_path thumb_dir video_id in
      elim (Bool-cases (leb size (length expected))) [
        | inl long ↦
            let failed : ◌≡◌ {A = Disk × Bytes × Bool} (disk, truncated size expected, false)
                (after, path, true) =
              rw long at e in
            absurd (false≢true (ap (λ q. q.2) failed))
        | inr fits ↦
            let converted = ensure_at convert disk video_path expected (disk video_path) in
            let whole : ◌≡◌ {A = Disk × Bytes × Bool} (converted.0, expected, converted.1)
                (after, path, true) =
              rw fits at e in
            let here = ap (λ q. q.1) whole in
            let short : length expected < size = ground arith in
            (
              sym here,
              subst (λ q. length q < size) here short,
              rw (← here) (
                  ensure_at_lem disk video_path expected (disk video_path) after refl
                    (ap (λ q. (q.0, q.2)) whole)),
            )
      ]

  -- If there was no thumbnail, its path fits, ffmpeg ended in another way than with the exit status
  -- 0, and unlink succeeds, then there is none afterwards, whatever ffmpeg left at its path.
  pub ffmpeg_ensure_thumbnail_failed :
      (disk : Disk) (thumb_dir : Bytes) (video_id : ℕ) (video_path : Bytes) (size : ℕ) (left : Disk)
      (status : Option ℕ)
      → length (thumbnail_path thumb_dir video_id) < size
      → disk (thumbnail_path thumb_dir video_id) ≡ none
      → convert disk video_path (thumbnail_path thumb_dir video_id) ≡ process_ended left status true
      → status ≢ some 0
      → (ffmpeg_ensure_thumbnail convert disk thumb_dir video_id video_path size).0
          (thumbnail_path thumb_dir video_id)
        ≡ none
  unfolding ffmpeg_ensure_thumbnail unlink
  ffmpeg_ensure_thumbnail_failed disk thumb_dir video_id video_path size left status fits absent
        converted bad =
      let path = thumbnail_path thumb_dir video_id in
      let short : leb size (length path) ≡ false = ground arith in rw short (go (disk video_path))
    where
      removed :
          (status : Option ℕ)
          → status ≢ some 0
          → (finished disk (thumbnail_path thumb_dir video_id) (process_ended left status true)).0
              (thumbnail_path thumb_dir video_id)
            ≡ none
      removed none n = rw (str_eq_refl (thumbnail_path thumb_dir video_id)) refl
      removed (some zero) n = absurd (n refl)
      removed (some (suc k)) n = rw (str_eq_refl (thumbnail_path thumb_dir video_id)) refl

      go :
          (video : Option File)
          → (ensure_at convert disk video_path (thumbnail_path thumb_dir video_id) video).0
              (thumbnail_path thumb_dir video_id)
            ≡ none
      go none = absent
      go (some video) = rw (absent, converted) (removed status bad)
