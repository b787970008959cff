-- ===== src/Video/Sync/Prune.antt =====
-- `db_prune_missing_videos` over an engine that never fails.
use mathlib.Core.Option
use ott_server.Base.{
  Bool, List, [], ap, false, if◌then◌else◌, none, refl, some, subst, sym, true, ℕ, ◌||◌, ◌∙◌, ◌∷◌,
  ◌≡◌,
}
use ott_server.Cstr.{Bytes, str_eq}
use ott_server.Db.Library.{Library, listed}
use ott_server.Db.Library.Laws.{file_id, file_id-videos_where, listed_added}
use ott_server.Db.Library.Order.{Columns}
use ott_server.Db.Library.Statements.{
  IsFaultless, Reply, Statement, add_existing, added, checked, clear_existing, cleared, completed,
  create_existing, delete_missing, effect, prepare_existing, pruned,
}
use ott_server.Db.Videos.{add_names, and_then, db_prune_missing_videos, then_delete}
use ott_server.Router.{non_empty}

module _ {Double Conn : Type 0} (like : Bytes → Bytes → Bool) (sql : Columns Double)
    (run : Conn → Statement Double → Conn × Reply Double) (view : Conn → Library Double)
    (exists : Conn → ℕ → Bool) (clock : Conn → Bytes) where
  and_then_done :
      (r : Conn × Reply Double) (next : Conn → Conn × Bool)
      → r.1 ≡ completed
      → and_then run r next ≡ next r.0
  and_then_done r next e = subst (λ x. and_then run (r.0, x) next ≡ next r.0) (sym e) refl

  -- The file names are in the table of names afterwards, and the videos are the same.
  abbrev Added : Conn → List Bytes → List Bytes → Type 0
  Added c names so_far =
      ((add_names run c names).1 ≡ true)
      × ((view (add_names run c names).0).videos ≡ (view c).videos)
      × (all : List Bytes) × ((view (add_names run c names).0).existing ≡ some all)
      × ((n : Bytes) → listed n all ≡ (listed n so_far || listed n (non_empty names)))

  or_assoc : (a b c : Bool) → ((a || b) || c) ≡ (a || (if b then true else c))
  or_assoc true b c = refl
  or_assoc false true c = refl
  or_assoc false false c = refl

  or_false : (a : Bool) → a ≡ (a || false)
  or_false true = refl
  or_false false = refl

  add_names_lem :
      (c : Conn) (names so_far : List Bytes)
      → IsFaultless like sql run view exists clock
      → (view c).existing ≡ some so_far
      → Added c names so_far
  unfolding add_names listed non_empty effect
  add_names_lem c [] so_far law e = (refl, refl, so_far, e, λ n. or_false (listed n so_far))
  add_names_lem c ([] ∷ names) so_far law e = add_names_lem c names so_far law e
  add_names_lem c ((d ∷ name) ∷ names) so_far law e =
      let (tables, answer) = law c (add_existing (d ∷ name)) in
      let ran = run c (add_existing (d ∷ name)) in
      let stored : added (view c) (d ∷ name) (view c).existing
          ≡ added (view c) (d ∷ name) (some so_far) =
        ap (added (view c) (d ∷ name)) e in
      let (success, videos, all, existing, names_are) =
        add_names_lem ran.0 names (if listed (d ∷ name) so_far then so_far else (d ∷ name) ∷ so_far)
          law (ap (λ l. l.existing) (tables ∙ ap (λ q. q.0) stored)) in
      rw (and_then_done ran (λ a. add_names run a names) (answer ∙ ap (λ q. q.1) stored)) (
        success,
        videos ∙ ap (λ l. l.videos) (tables ∙ ap (λ q. q.0) stored),
        all,
        existing,
        λ n.
            names_are n
            ∙ (ap (λ b. b || listed n (non_empty names)) (listed_added (d ∷ name) so_far n)
                ∙ or_assoc (listed n so_far) (str_eq (d ∷ name) n) (listed n (non_empty names))),
      )

  then_delete_added :
      (a : Conn × Bool)
      → a.1 ≡ true
      → then_delete run a ≡ and_then run (run a.0 delete_missing) (λ d. (d, true))
  then_delete_added a e =
      subst (λ x. then_delete run (a.0, x) ≡ and_then run (run a.0 delete_missing) (λ d. (d, true)))
        (sym e) refl

  pub db_prune_missing_videos_lem :
      (db : Conn) (names : List Bytes) (n : Bytes)
      → IsFaultless like sql run view exists clock
      → file_id n (view (db_prune_missing_videos run db names).0).videos
        ≡ (if listed n (non_empty names) then file_id n (view db).videos else none)
  unfolding db_prune_missing_videos effect listed
  db_prune_missing_videos_lem db names n law =
      let c1 = (run db create_existing).0 in
      let (t1, a1) = law db create_existing in
      let c2 = (run c1 clear_existing).0 in
      let (t2, a2) = law c1 clear_existing in
      let e1 : cleared (view c1) (view c1).existing
          ≡ cleared (view c1) (some (Option.get_or (view db).existing [])) =
        ap (cleared (view c1)) (ap (λ l. l.existing) t1) in
      let c3 = (run c2 prepare_existing).0 in
      let (t3, a3) = law c2 prepare_existing in
      let s2 : (view c2).existing ≡ some [] = ap (λ l. l.existing) (t2 ∙ ap (λ q. q.0) e1) in
      let e2 : checked (view c2) (view c2).existing ≡ checked (view c2) (some []) =
        ap (checked (view c2)) s2 in
      let s3 : view c3 ≡ view c2 = t3 ∙ ap (λ q. q.0) e2 in
      let a = add_names run c3 names in
      let (success, videos, all, existing, names_are) =
        add_names_lem c3 names [] law (ap (λ l. l.existing) s3 ∙ s2) in
      let c4 = (run a.0 delete_missing).0 in
      let (t4, a4) = law a.0 delete_missing in
      let e4 : pruned (view a.0) (view a.0).existing ≡ pruned (view a.0) (some all) =
        ap (pruned (view a.0)) existing in
      let s4 = t4 ∙ ap (λ q. q.0) e4 in
      let (t5, a5) = law c4 clear_existing in
      let e5 : cleared (view c4) (view c4).existing ≡ cleared (view c4) (some all) =
        ap (cleared (view c4)) (ap (λ l. l.existing) s4 ∙ existing) in
      let same : (view a.0).videos ≡ (view db).videos =
        videos
        ∙ (ap (λ l. l.videos) s3
            ∙ (ap (λ l. l.videos) (t2 ∙ ap (λ q. q.0) e1) ∙ ap (λ l. l.videos) t1)) in
      rw
        (
          and_then_done (run db create_existing) _ a1,
          and_then_done (run c1 clear_existing) _ (a2 ∙ ap (λ q. q.1) e1),
          and_then_done (run c2 prepare_existing) _ (a3 ∙ ap (λ q. q.1) e2),
          then_delete_added a success,
          and_then_done (run a.0 delete_missing) (λ d. (d, true)) (a4 ∙ ap (λ q. q.1) e4),
        )
        (ap (λ l. file_id n l.videos) (t5 ∙ ap (λ q. q.0) e5)
          ∙ (ap (λ l. file_id n l.videos) s4
              ∙ (file_id-videos_where (λ f. listed f all) (view a.0).videos n
                  ∙ (ap (λ b. if b then file_id n (view a.0).videos else none) (names_are n)
                      ∙ ap (λ vs. if listed n (non_empty names) then file_id n vs else none)
                          same))))
