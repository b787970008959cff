-- ===== src/Db/Library/Keys.antt =====
-- server/src/db.c: the key of the table of watch history, a user and a video.
pub mod Kept
use mathlib.Core.List.{Memᴰ}
use mathlib.Core.List.Memᴰ.{cases_cons, head, not-nil, tail}
use mathlib.Core.Option.{some_inj}
use ott_server.Base.{
  ==_iff, ==_refl, Bool-cases, List, [], and_iff, if◌then◌else◌, inl, inr, none, refl, some, subst,
  sym, ℕ, ◌&&◌, ◌==◌, ◌∙◌, ◌∷◌, ◌≡◌,
}
use ott_server.Db.Library.{Watch, find_watch, watches_of}

module _ {Double : Type 0} where
  -- UNIQUE (user_id, video_id)
  abbrev pub IsKeyed : List (Watch Double) → Type 0
  IsKeyed [] = Unit
  IsKeyed (w ∷ watches) = (find_watch w.user_id w.video_id watches ≡ none) × IsKeyed watches

  pub find_watch-some :
      (user video : ℕ) (watches : List (Watch Double)) (w : Watch Double)
      → find_watch user video watches ≡ some w
      → (w.user_id ≡ user) × (w.video_id ≡ video) × Memᴰ w watches
  unfolding find_watch
  find_watch-some user video [] w e = absurd cc
  find_watch-some user video (v ∷ watches) w e =
      elim (Bool-cases (v.user_id == user && v.video_id == video)) [
        | inl same ↦
            let (users, videos) = (and_iff (v.user_id == user) (v.video_id == video)).0 same in
            let this = some_inj.0 (
              subst (λ t. (if t then some v else find_watch user video watches) ≡ some w) same e) in
            (
              rw (← this) ((==_iff _ _).0 users),
              rw (← this) ((==_iff _ _).0 videos),
              head (sym this),
            )
        | inr other ↦
            let (users, videos, there) = find_watch-some user video watches w (
              subst (λ t. (if t then some v else find_watch user video watches) ≡ some w) other
                e) in
            (users, videos, tail there)
      ]

  pub find_watch-member :
      (watches : List (Watch Double)) (w : Watch Double)
      → IsKeyed watches
      → Memᴰ w watches
      → find_watch w.user_id w.video_id watches ≡ some w
  unfolding find_watch
  find_watch-member [] w keyed m = absurd (not-nil m)
  find_watch-member (v ∷ watches) w (alone, keyed) (head e) =
      rw (e, ==_refl v.user_id, ==_refl v.video_id) refl
  find_watch-member (v ∷ watches) w (alone, keyed) (tail m) =
      let found = find_watch-member watches w keyed m in
      elim (Bool-cases (v.user_id == w.user_id && v.video_id == w.video_id)) [
        | inl same ↦
            let (users, videos) =
              (and_iff (v.user_id == w.user_id) (v.video_id == w.video_id)).0 same in
            let users : v.user_id ≡ w.user_id = (==_iff _ _).0 users in
            let videos : v.video_id ≡ w.video_id = (==_iff _ _).0 videos in
            absurd (none_some (sym (rw (← users, ← videos) alone) ∙ found))
        | inr other ↦ rw other found
      ]
    where
      none_some : {v : Watch Double} → none ≡ some v → ⊥
      none_some e = cc

  pub watches_of-member :
      (user : ℕ) (watches : List (Watch Double)) (w : Watch Double)
      → Memᴰ w (watches_of user watches)
      → (w.user_id ≡ user) × Memᴰ w watches
  unfolding watches_of
  watches_of-member user [] w m = absurd (not-nil m)
  watches_of-member user (v ∷ watches) w m = elim (Bool-cases (v.user_id == user)) [
    | inl same ↦
        elim (cases_cons (
          subst (λ t. Memᴰ w (if t then v ∷ watches_of user watches else watches_of user watches))
            same m)) [
              | inl e ↦ (rw e ((==_iff _ _).0 same), head e)
              | inr there ↦
                  let (users, old) = watches_of-member user watches w there in (users, tail old)
            ]
    | inr other ↦
        let (users, old) = watches_of-member user watches w (
          subst (λ t. Memᴰ w (if t then v ∷ watches_of user watches else watches_of user watches))
            other m) in
        (users, tail old)
  ]

  pub member-watches_of :
      (user : ℕ) (watches : List (Watch Double)) (w : Watch Double)
      → w.user_id ≡ user
      → Memᴰ w watches
      → Memᴰ w (watches_of user watches)
  unfolding watches_of
  member-watches_of user [] w e m = absurd (not-nil m)
  member-watches_of user (v ∷ watches) w e (head h) =
      rw ((==_iff v.user_id user).1 (rw (← h) e)) (head h)
  member-watches_of user (v ∷ watches) w e (tail m) =
      let there = member-watches_of user watches w e m in
      elim (Bool-cases (v.user_id == user)) [
        | inl same ↦ rw same (tail there)
        | inr other ↦ rw other there
      ]
