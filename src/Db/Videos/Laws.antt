-- ===== src/Db/Videos/Laws.antt =====
-- What `db_query_videos` hands to its callback.
use mathlib.Core.Bool.{false≢true}
use ott_server.Base.{Bool, false, inl, inr, sym, ℕ, ◌∙◌, ◌≡◌}
use ott_server.Cstr.{Bytes}
use ott_server.Db.Library.{Library}
use ott_server.Db.Library.Order.{Columns}
use ott_server.Db.Library.Statements.{IsEngine, Reply, Statement, effect, is_fault}

module _ {Double Conn : Type 0} (like : Bytes → Bytes → Bool) (sql : Columns Double)
    (run : Conn → Statement Double → Conn × Reply Double) (view : Conn → Library Double)
    (exists : Conn → ℕ → Bool) (clock : Conn → Bytes) where
  -- A statement that did not fail did what SQL says.
  pub took_effect :
      (c : Conn) (s : Statement Double)
      → IsEngine like sql run view exists clock
      → is_fault (run c s).1 ≡ false
      → (view (run c s).0 ≡ (effect like sql (exists c) (clock c) (view c) s).0)
        × ((run c s).1 ≡ (effect like sql (exists c) (clock c) (view c) s).1)
  took_effect c s law fine = elim (law c s) [
    | inl (_, fault) ↦ absurd (false≢true (sym fine ∙ fault))
    | inr worked ↦ worked
  ]
