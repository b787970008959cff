-- ===== src/Video/Listing/Stored.antt =====
-- The map of resume positions of `video_handle_list` against the table of watch history.
use mathlib.Core.Bool.{false≢true}
use mathlib.Core.List.{Memᴰ}
use mathlib.Core.List.Memᴰ.{cases_cons, head, not-nil, tail}
use mathlib.Core.Option as Option
use mathlib.Core.List.Permᴰ as Permᴰ
use mathlib.Core.Option.{some_inj}
use ott_server.Base.{
  ==_iff, Bool, Bool-cases, List, Option, [], ap, arith, false, if◌then◌else◌, inl, inr, none, refl,
  some, subst, sym, true, ℕ, ◌==◌, ◌∙◌, ◌∷◌, ◌≡◌, ◌⊎◌,
}
use ott_server.Cstr.{Bytes}
use ott_server.Db.Library.{Library, Watch, find_watch, watches_of}
use ott_server.Db.Library.Keys.{
  IsKeyed, find_watch-member, find_watch-some, member-watches_of, watches_of-member,
}
use ott_server.Db.Library.Order.{Columns, IsOrdered, kept, member-Perm}
use ott_server.Db.Library.Statements.{IsEngine, Reply, Statement}
use ott_server.Db.Videos.{listed_all}
use ott_server.Db.Watching.{db_list_watch_history}
use ott_server.Db.Watching.Rows.{db_list_watch_history_lem}
use ott_server.Video.Listing.{collect_resume, no_positions}
use ott_server.Video.Listing.Positions.{each_row-collect_resume, last_position}
use ott_server.Video.Resume.{Entry, Growing, resume_map_find}
use ott_server.Video.Resume.Laws.{IsMap}

module _ {Double : Type 0} where
  abbrev pub position_in : Watch Double → Double
  position_in w = w.position

  -- The only position of a video in the rows is its last one.
  last_position-only :
      (id : ℕ) (rows : List (Watch Double)) (before : Option Double) (position : Double)
      → ((w : Watch Double) → Memᴰ w rows → w.video_id ≡ id → w.position ≡ position)
      → (before ≡ some position) ⊎ ((w : Watch Double) × Memᴰ w rows × (w.video_id ≡ id))
      → last_position id rows before ≡ some position
  last_position-only id [] before position only (inl e) = e
  last_position-only id [] before position only (inr (w, m, e)) = absurd (not-nil m)
  last_position-only id (w ∷ rows) before position only there =
      last_position-only id rows (if id == w.video_id then some w.position else before) position
        (λ v m. only v (tail m))
        (elim (Bool-cases (id == w.video_id)) [
          | inl same ↦ inl (rw same (ap some (only w (head refl) (sym ((==_iff _ _).0 same)))))
          | inr other ↦ rw other (later other there)
        ])
    where
      later :
          (id == w.video_id) ≡ false
          → (before ≡ some position) ⊎ ((v : Watch Double) × Memᴰ v (w ∷ rows) × (v.video_id ≡ id))
          → (before ≡ some position) ⊎ ((v : Watch Double) × Memᴰ v rows × (v.video_id ≡ id))
      later other (inl e) = inl e
      later other (inr (v, m, e)) = elim (cases_cons m) [
        | inl this ↦
            absurd (false≢true (sym other ∙ (==_iff id w.video_id).1 (rw (← e, this) refl)))
        | inr m ↦ inr (v, m, e)
      ]

  last_position-none :
      (id : ℕ) (rows : List (Watch Double)) (before : Option Double)
      → ((w : Watch Double) → Memᴰ w rows → w.video_id ≡ id → ⊥)
      → last_position id rows before ≡ before
  last_position-none id [] before none_there = refl
  last_position-none id (w ∷ rows) before none_there =
      last_position-none id rows (if id == w.video_id then some w.position else before)
        (λ v m. none_there v (tail m))
      ∙ elim (Bool-cases (id == w.video_id)) [
        | inl same ↦ absurd (none_there w (head refl) (sym ((==_iff _ _).0 same)))
        | inr other ↦ rw other refl
      ]

  -- The rows of a user, in any order, have the position that is stored.
  last_position-stored :
      (sql : Columns Double) (user id : ℕ) (watches : List (Watch Double))
      → IsOrdered sql
      → IsKeyed watches
      → last_position id (sql.newest (watches_of user watches)) none
        ≡ Option.map position_in (find_watch user id watches)
  last_position-stored sql user id watches order keyed = go (find_watch user id watches) refl
    where
      row :
          (w : Watch Double)
          → Memᴰ w (sql.newest (watches_of user watches))
          → w.video_id ≡ id
          → find_watch user id watches ≡ some w
      row w m e =
          let (users, there) =
            watches_of-member user watches w
              (member-Perm w (order (watches_of user watches)).0 m) in
          subst (λ v. find_watch user v watches ≡ some w) e
            (subst (λ u. find_watch u w.video_id watches ≡ some w) users
              (find_watch-member watches w keyed there))

      go :
          (o : Option (Watch Double))
          → find_watch user id watches ≡ o
          → last_position id (sql.newest (watches_of user watches)) none ≡ Option.map position_in o
      go none e =
          last_position-none id (sql.newest (watches_of user watches)) none
            (λ w m v. apart (sym e ∙ row w m v))
        where
          apart : {w : Watch Double} → none ≡ some w → ⊥
          apart h = cc
      go (some w) e =
          let (users, videos, there) = find_watch-some user id watches w e in
          last_position-only id (sql.newest (watches_of user watches)) none w.position
            (λ v m h. ap position_in (some_inj.0 (sym (row v m h) ∙ e)))
            (inr (
              w,
              member-Perm w (Permᴰ.symm (order (watches_of user watches)).0)
                  (member-watches_of user watches w users there),
              videos,
            ))

module _ {Double Conn : Type 0} (like : Bytes → Bytes → Bool) (sql : Columns Double)
    (run : Conn → Statement Double → Conn × Reply Double) (view : Conn → Library Double)
    (exists : Conn → ℕ → Bool) (clock : Conn → Bytes) where
  -- Over an engine that does what SQL says or fails and that orders rows by updated_at, and
  -- with one row per user and video in the table: if the history of a user is listed to the end, the
  -- map that collect_resume builds from it has one entry per video and room for its entries, and
  -- finds for every video exactly the position that the table has for the user, if it has one.
  pub db_list_watch_history-collect_resume :
      (grants : ℕ → Bool) (db : Conn) (user_id id : ℕ) (after : Conn)
      (positions : Growing (Entry Double))
      → IsEngine like sql run view exists clock
      → IsOrdered sql
      → IsKeyed (view db).watches
      → db_list_watch_history run db user_id (collect_resume grants) no_positions
        ≡ (after, positions, listed_all)
      → IsMap positions
        × (resume_map_find positions.items id
            ≡ Option.map position_in (find_watch user_id id (view db).watches))
  unfolding resume_map_find
  db_list_watch_history-collect_resume grants db user_id id after positions law order keyed e =
      let (kept, complete) =
        db_list_watch_history_lem like sql run view exists clock db user_id (collect_resume grants)
          no_positions law in
      let (whole, found) =
        each_row-collect_resume grants id (sql.newest (watches_of user_id (view db).watches))
          no_positions positions (tt, omega arith)
          (complete (ap (λ q. q.2) e) ∙ ap (λ q. (q.1, true)) e) in
      (whole, found ∙ last_position-stored sql user_id id (view db).watches order keyed)
