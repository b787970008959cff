-- ===== src/History/Rows.antt =====
-- The answer of `history_handle_get`: the history of the user.
use ott_server.Base.{Bool, List, [], false, none, true, ℕ, ◌++◌, ◌>>=◌, ◌∷◌, ◌≡◌, ◌⊎◌}
use ott_server.Cstr.{Bytes, codes}
use ott_server.Db.Library.{Library, Watch}
use ott_server.History.{history_pieces}
use ott_server.Router.{Context}
use ott_server.Router.Send.{fail, reply}
use ott_server.Utils.Pieces.Laws.{pieces_text}

module _ {Double : Type 0} (format : Double → Bytes) (malloc : ℕ → ℕ → Bool) where
  -- The rows of a history, with a comma between any two.
  unfoldable pub history_text : Bool → List (Watch Double × Bytes) → Bytes
  history_text first [] = []
  history_text first (row ∷ rows) =
      pieces_text (history_pieces format first row) ++ history_text false rows

  -- The history of some rows, or an error 500.
  abbrev pub IsHistory : Context → List (Watch Double × Bytes) → Context → Type 0
  IsHistory ctx rows after =
      (after
        ≡ reply ctx 200 (codes "{\"history\":[" ++ (history_text true rows ++ codes "]}")) none)
      ⊎ ((message : Bytes) × (after ≡ fail ctx 500 message))
