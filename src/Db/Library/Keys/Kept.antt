-- ===== src/Db/Library/Keys/Kept.antt =====
-- Every statement keeps the key of the table of watch history.
use ott_server.Base.{
  ==_iff, Bool, Bool-cases, List, Option, [], and_iff, ap₂, arith, false, if◌then◌else◌, inl, inr,
  none, refl, some, subst, sym, true, ℕ, ◌&&◌, ◌==◌, ◌∙◌, ◌∷◌, ◌≡◌,
}
use ott_server.Cstr.{Bytes}
use ott_server.Db.Library.{
  Library, Video, Watch, cascade, find_file, find_video, find_watch, kept_watch, put_watch,
}
use ott_server.Db.Library.Keys.{IsKeyed}
use ott_server.Db.Library.Order.{Columns, kept}
use ott_server.Db.Library.Statements.{
  IsEngine, Reply, Statement, add_existing, added, checked, clear_existing, cleared,
  create_existing, delete_missing, delete_video, effect, page_videos, prepare_existing, pruned,
  select_history, select_video, select_videos, select_watch, select_watches, upsert_video,
  upsert_watch, upserted_video, watched,
}
use ott_server.Db.Watching.Laws.{find_watch-put_watch, watch_at}
use ott_server.Server.Routes.Laws.{apart}

key_swap : (a b c d : ℕ) → (a == b && c == d) ≡ false → (b == a && d == c) ≡ false
key_swap a b c d e = ap₂ (λ x y. x && y) (swap b a) (swap d c) ∙ e
  where
    swap : (x y : ℕ) → (x == y) ≡ (y == x)
    swap x y = ground arith

module _ {Double : Type 0} where
  put_watch-none :
      (new : Watch Double) (watches : List (Watch Double)) (user video : ℕ)
      → find_watch user video watches ≡ none
      → (new.user_id == user && new.video_id == video) ≡ false
      → find_watch user video (put_watch new watches) ≡ none
  put_watch-none new watches user video e apart =
      find_watch-put_watch new watches user video ∙ rw apart e

  put_watch-IsKeyed :
      (new : Watch Double) (watches : List (Watch Double))
      → IsKeyed watches
      → IsKeyed (put_watch new watches)
  unfolding find_watch put_watch
  put_watch-IsKeyed new [] keyed = (refl, tt)
  put_watch-IsKeyed new (w ∷ watches) (alone, keyed) =
      elim (Bool-cases (w.user_id == new.user_id && w.video_id == new.video_id)) [
        | inl same ↦
            let (users, videos) =
              (and_iff (w.user_id == new.user_id) (w.video_id == new.video_id)).0 same in
            rw same (
              (
                rw
                    (
                      ← (==_iff w.user_id new.user_id).0 users,
                      ← (==_iff w.video_id new.video_id).0 videos,
                    )
                    alone,
                keyed,
              ))
        | inr other ↦ rw other (
          put_watch-none new watches w.user_id w.video_id alone
              (key_swap w.user_id new.user_id w.video_id new.video_id other),
          put_watch-IsKeyed new watches keyed,
        )
      ]

  -- Rows that are left out take no key away from the others.
  cascade-none :
      (videos : List Video) (watches : List (Watch Double)) (user video : ℕ)
      → find_watch user video watches ≡ none
      → find_watch user video (cascade videos watches) ≡ none
  unfolding find_watch cascade
  cascade-none videos [] user video e = refl
  cascade-none videos (w ∷ watches) user video e =
      go (w.user_id == user && w.video_id == video) (find_video w.video_id videos) refl e
        (cascade-none videos watches user video)
    where
      go :
          (b : Bool) (v : Option Video)
          → (w.user_id == user && w.video_id == video) ≡ b
          → (if b then some w else find_watch user video watches) ≡ none
          → (find_watch user video watches ≡ none
              → find_watch user video (cascade videos watches) ≡ none)
          → find_watch user video (kept_watch w (cascade videos watches) v) ≡ none
      go true v h e later = absurd cc
      go false none h e later = later e
      go false (some v) h e later = rw h (later e)

  cascade-IsKeyed :
      (videos : List Video) (watches : List (Watch Double))
      → IsKeyed watches
      → IsKeyed (cascade videos watches)
  unfolding cascade
  cascade-IsKeyed videos [] keyed = tt
  cascade-IsKeyed videos (w ∷ watches) (alone, keyed) =
      go (find_video w.video_id videos) (cascade-IsKeyed videos watches keyed)
    where
      go :
          (v : Option Video)
          → IsKeyed (cascade videos watches)
          → IsKeyed (kept_watch w (cascade videos watches) v)
      go none rest = rest
      go (some v) rest = (cascade-none videos watches w.user_id w.video_id alone, rest)

  pub effect-IsKeyed :
      (like : Bytes → Bytes → Bool) (sql : Columns Double) (exists : ℕ → Bool) (now : Bytes)
      (l : Library Double) (s : Statement Double)
      → IsKeyed l.watches
      → IsKeyed (effect like sql exists now l s).0.watches
  unfolding effect
  effect-IsKeyed like sql exists now l select_videos keyed = keyed
  effect-IsKeyed like sql exists now l (page_videos p a b) keyed = keyed
  effect-IsKeyed like sql exists now l (select_video id) keyed = keyed
  effect-IsKeyed like sql exists now l (upsert_video t name d n) keyed =
      go (find_file name l.videos)
    where
      go : (v : Option Video) → IsKeyed (upserted_video l t name d n v).0.watches
      go none = keyed
      go (some v) = keyed
  effect-IsKeyed like sql exists now l (delete_video name) keyed = cascade-IsKeyed _ l.watches keyed
  effect-IsKeyed like sql exists now l create_existing keyed = keyed
  effect-IsKeyed like sql exists now l clear_existing keyed = go l.existing
    where
      go : (o : Option (List Bytes)) → IsKeyed (cleared l o).0.watches
      go none = keyed
      go (some names) = keyed
  effect-IsKeyed like sql exists now l prepare_existing keyed = go l.existing
    where
      go : (o : Option (List Bytes)) → IsKeyed (checked l o).0.watches
      go none = keyed
      go (some names) = keyed
  effect-IsKeyed like sql exists now l (add_existing name) keyed = go l.existing
    where
      go : (o : Option (List Bytes)) → IsKeyed (added l name o).0.watches
      go none = keyed
      go (some names) = keyed
  effect-IsKeyed like sql exists now l delete_missing keyed = go l.existing
    where
      go : (o : Option (List Bytes)) → IsKeyed (pruned l o).0.watches
      go none = keyed
      go (some names) = cascade-IsKeyed _ l.watches keyed
  effect-IsKeyed like sql exists now l (upsert_watch user video position) keyed =
      go (exists user) (find_video video l.videos)
    where
      go :
          (b : Bool) (v : Option Video)
          → IsKeyed (watched l (watch_at user video (kept sql position) now) b v).0.watches
      go true (some v) = put_watch-IsKeyed _ l.watches keyed
      go true none = keyed
      go false v = keyed
  effect-IsKeyed like sql exists now l (select_watch user video) keyed = keyed
  effect-IsKeyed like sql exists now l (select_watches user) keyed = keyed
  effect-IsKeyed like sql exists now l (select_history user) keyed = keyed

  -- Whatever a statement does or whether it fails, an engine keeps one row per user and video.
  pub run-IsKeyed :
      {Conn : Type 0} (like : Bytes → Bytes → Bool) (sql : Columns Double)
      (run : Conn → Statement Double → Conn × Reply Double) (view : Conn → Library Double)
      (exists : Conn → ℕ → Bool) (clock : Conn → Bytes) (db : Conn) (s : Statement Double)
      → IsEngine like sql run view exists clock
      → IsKeyed (view db).watches
      → IsKeyed (view (run db s).0).watches
  run-IsKeyed like sql run view exists clock db s law keyed = elim (law db s) [
    | inl (kept, fault) ↦ subst (λ l. IsKeyed l.watches) (sym kept) keyed
    | inr (tables, answer) ↦
        subst (λ l. IsKeyed l.watches) (sym tables)
          (effect-IsKeyed like sql (exists db) (clock db) (view db) s keyed)
  ]
