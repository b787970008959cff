-- ===== src/Utils/Pieces.antt =====
-- Runs of calls of `sb_append` and `sb_append_json_string` (server/src/utils.c), as the handlers in
-- server/src/video.c and history.c make them: each call only if the one before it returned 0.
pub mod Laws
use ott_server.Base.{Bool, List, Option, [], some, ℕ, ◌>>=◌, ◌∷◌}
use ott_server.Cstr.{Bytes}
use ott_server.Utils.Builder.{StringBuilder, sb_append}
use ott_server.Utils.Json.{sb_append_json_string}

-- The text of a format, printed, or a string that is quoted.
pub data Piece : Type 0 where
  as_text as_string : Bytes → Piece

module _ (malloc : ℕ → ℕ → Bool) where
  abbrev pub append_piece : StringBuilder → Piece → Option StringBuilder
  append_piece sb (as_text text) = sb_append malloc sb text
  append_piece sb (as_string text) = sb_append_json_string malloc sb (some text)

  unfoldable pub append_pieces : StringBuilder → List Piece → Option StringBuilder
  append_pieces sb [] = some sb
  append_pieces sb (p ∷ ps) = do next ← append_piece sb p; append_pieces next ps
