-- ===== src/Video/Listing/Rows.antt =====
-- The text that the rows of a page append.
use mathlib.Core.Bool.{false≢true}
use ott_server.Base.{
  Bool, List, Option, [], ap, append-nil, append_assoc, arith, false, length, none, refl, some, sym,
  true, ℕ, ◌++◌, ◌+◌, ◌∷◌, ◌≡◌,
}
use ott_server.Cstr.{Bytes}
use ott_server.Db.Library.{Video}
use ott_server.Db.Videos.{after_row, each_row}
use ott_server.Server.Loop.Laws.{count}
use ott_server.Utils.Builder.{StringBuilder}
use ott_server.Utils.Builder.Laws.{IsBounded, IsBuilder}
use ott_server.Utils.Pieces.{append_pieces}
use ott_server.Utils.Pieces.Laws.{append_pieces_lem, pieces_text}
use ott_server.Video.Listing.{ListContext, append_video_row, row_done, video_pieces}
use ott_server.Video.Resume.{Entry}

module _ {Double : Type 0} (format : Double → Bytes) (malloc : ℕ → ℕ → Bool)
    (history : List (Entry Double)) where
  -- The videos of a list, with a comma between any two.
  unfoldable pub videos_text : Bool → List Video → Bytes
  videos_text first [] = []
  videos_text first (v ∷ rows) =
      pieces_text (video_pieces format first history v) ++ videos_text false rows

  -- Rows that are all appended add their texts in order, and are counted.
  pub each_row-append_video_row :
      (list : ListContext) (rows : List Video) (after : ListContext)
      → IsBounded malloc
      → IsBuilder list.builder
      → each_row (append_video_row format malloc history) list rows ≡ (after, true)
      → (after.builder.text ≡ list.builder.text ++ videos_text list.first rows)
        × (after.emitted ≡ list.emitted + length rows)
        × IsBuilder after.builder
  unfolding each_row append_video_row videos_text
  each_row-append_video_row list [] after b v e =
      let same = ap (λ q. q.0) e in rw (← same) (sym (append-nil list.builder.text), omega arith, v)
  each_row-append_video_row list (row ∷ rows) after b v e =
      go (append_pieces malloc list.builder (video_pieces format list.first history row)) refl e
        (λ next w h. each_row-append_video_row next rows after b w h)
    where
      go :
          (o : Option StringBuilder)
          → append_pieces malloc list.builder (video_pieces format list.first history row) ≡ o
          → after_row
              (append_video_row format malloc history)
              (row_done format malloc list o)
              (λ d. each_row (append_video_row format malloc history) d rows)
            ≡ (after, true)
          → ((next : ListContext)
              → IsBuilder next.builder
              → each_row (append_video_row format malloc history) next rows ≡ (after, true)
              → (after.builder.text ≡ next.builder.text ++ videos_text next.first rows)
                × (after.emitted ≡ next.emitted + length rows)
                × IsBuilder after.builder)
          → (after.builder.text ≡ list.builder.text ++ videos_text list.first (row ∷ rows))
            × (after.emitted ≡ list.emitted + length (row ∷ rows))
            × IsBuilder after.builder
      go none k h later = absurd (false≢true (ap (λ q. q.1) h))
      go (some sb) k h later =
          let (t1, v1) =
            append_pieces_lem malloc list.builder (video_pieces format list.first history row) sb b
              v k in
          let (t2, count, v2) =
            later (record { builder = sb; first = false; emitted = list.emitted + 1 }) v1 h in
          (
            rw (t2, t1)
                (append_assoc list.builder.text
                  (pieces_text (video_pieces format list.first history row))
                  (videos_text false rows)),
            omega (arith, count),
            v2,
          )
