-- ===== src/Video/Listing/Positions.antt =====
-- The positions to resume at, as they are collected from the history of a user.
use mathlib.Core.Bool.{false≢true}
use ott_server.Base.{
  Bool, List, Option, [], ap, if◌then◌else◌, none, refl, some, subst, sym, true, ℕ, ◌==◌, ◌∙◌, ◌∷◌,
  ◌≡◌,
}
use ott_server.Db.Library.{Watch}
use ott_server.Db.Videos.{after_row, each_row}
use ott_server.Video.Listing.{collect_resume, grown}
use ott_server.Video.Resume.{Entry, Growing, resume_map_add, resume_map_find}
use ott_server.Video.Resume.Laws.{IsMap, resume_map_add_lem}

-- The position of the last row of a video, or that from before.
abbrev pub last_position :
    {Double : Type 0} → ℕ → List (Watch Double) → Option Double → Option Double
last_position id [] before = before
last_position id (w ∷ rows) before =
    last_position id rows (if id == w.video_id then some w.position else before)

module _ {Double : Type 0} (grants : ℕ → Bool) (id : ℕ) where
  -- If a map starts with one entry per video and room for its entries, rows that are all collected
  -- leave such a map, in which every video has the position of its last row, or the one from before.
  pub each_row-collect_resume :
      (rows : List (Watch Double)) (start out : Growing (Entry Double))
      → IsMap start
      → each_row (collect_resume grants) start rows ≡ (out, true)
      → IsMap out
        × (resume_map_find out.items id ≡ last_position id rows (resume_map_find start.items id))
  unfolding each_row collect_resume
  each_row-collect_resume [] start out valid_map e =
      let same = ap (λ q. q.0) e in
      (subst IsMap same valid_map, ap (λ m. resume_map_find m.items id) (sym same))
  each_row-collect_resume (w ∷ rows) start out valid_map e =
      go (resume_map_add grants start w.video_id w.position) refl e
        (λ next v h. each_row-collect_resume rows next out v h)
    where
      go :
          (o : Option (Growing (Entry Double)))
          → resume_map_add grants start w.video_id w.position ≡ o
          → after_row
              (collect_resume grants)
              (grown grants start o)
              (λ m. each_row (collect_resume grants) m rows)
            ≡ (out, true)
          → ((next : Growing (Entry Double))
              → IsMap next
              → each_row (collect_resume grants) next rows ≡ (out, true)
              → IsMap out
                × (resume_map_find out.items id
                    ≡ last_position id rows (resume_map_find next.items id)))
          → IsMap out
            × (resume_map_find out.items id
                ≡ last_position id (w ∷ rows) (resume_map_find start.items id))
      go none k h later = absurd (false≢true (ap (λ q. q.1) h))
      go (some next) k h later =
          let (v, found) =
            resume_map_add_lem w.video_id w.position grants start next id valid_map k in
          let (whole, positions) = later next v h in
          (whole, positions ∙ ap (last_position id rows) found)
