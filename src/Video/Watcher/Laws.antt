-- ===== src/Video/Watcher/Laws.antt =====
-- A change of the media directory is followed by a synchronization that succeeds, if one does.
use ott_server.Base.{
  Bool, ap, arith, false, if◌then◌else◌, ltb, lt→ltb, not, refl, some, subst, suc, sym, true, zero,
  ℕ, ◌&&◌, ◌+◌, ◌<◌, ◌==◌, ◌∙◌, ◌≡◌, ◌≢◌,
}
use ott_server.Video.Watcher.{MediaWatch, media_watch_round, media_watch_rounds, noted}

-- Synchronizations that fail, as many as the number says, before one that succeeds.
pub data Attempted {Conn : Type 0} (sync : Conn → Conn × Bool) : ℕ → Conn → Conn → Type 0 where
  succeeds : {db : Conn} → (sync db).1 ≡ true → Attempted sync zero db (sync db).0
  fails :
      {db after : Conn} {n : ℕ}
      → (sync db).1 ≡ false
      → Attempted sync n (sync db).0 after
      → Attempted sync (suc n) db after

second :
    {A : Type 0} (b c d : Bool) (x y z : A)
    → b ≡ false
    → c ≡ true
    → d ≡ false
    → (if b then x else if c && not d then y else z) ≡ y
second false true false x y z e f g = refl
second true c d x y z e f g = absurd cc
second false false d x y z e f g = absurd cc
second false true true x y z e f g = absurd cc

module _ {Conn : Type 0} (sync : Conn → Conn × Bool) (mtime : ℕ) where
  round_quiet :
      (db : Conn) (watch : MediaWatch)
      → watch.last_mtime ≡ mtime
      → media_watch_round sync (some mtime) (some mtime) db watch ≡ (db, watch)
  unfolding media_watch_round
  round_quiet db watch e = ground arith

  round_failed :
      (db : Conn) (watch : MediaWatch)
      → watch.stop ≡ false
      → 0 < mtime
      → watch.last_mtime ≢ mtime
      → (sync db).1 ≡ false
      → media_watch_round sync (some mtime) (some mtime) db watch ≡ ((sync db).0, watch)
  unfolding media_watch_round
  round_failed db watch go_on p n e =
      let changed : (mtime == watch.last_mtime) ≡ false = ground arith in
      second watch.stop (ltb 0 mtime) (mtime == watch.last_mtime) (db, watch)
        (noted sync watch mtime (sync db)) (db, watch) go_on (lt→ltb 0 mtime p) changed
      ∙ (subst (λ b. noted sync watch mtime ((sync db).0, b) ≡ ((sync db).0, watch)) (sym e) refl)

  round_succeeded :
      (db : Conn) (watch : MediaWatch)
      → watch.stop ≡ false
      → 0 < mtime
      → watch.last_mtime ≢ mtime
      → (sync db).1 ≡ true
      → media_watch_round sync (some mtime) (some mtime) db watch
        ≡ ((sync db).0, record watch { last_mtime = mtime })
  unfolding media_watch_round
  round_succeeded db watch go_on p n e =
      let changed : (mtime == watch.last_mtime) ≡ false = ground arith in
      second watch.stop (ltb 0 mtime) (mtime == watch.last_mtime) (db, watch)
        (noted sync watch mtime (sync db)) (db, watch) go_on (lt→ltb 0 mtime p) changed
      ∙ (subst
          (λ b.
            noted sync watch mtime ((sync db).0, b)
            ≡ ((sync db).0, record watch { last_mtime = mtime }))
          (sym e) refl)

  -- Without a change nothing is done.
  quiet :
      (n : ℕ) (db : Conn) (watch : MediaWatch)
      → watch.last_mtime ≡ mtime
      → media_watch_rounds sync n mtime db watch ≡ (db, watch)
  unfolding media_watch_rounds
  quiet zero db watch e = refl
  quiet (suc n) db watch e =
      ap (λ r. media_watch_rounds sync n mtime r.0 r.1) (round_quiet db watch e)
      ∙ quiet n db watch e

  -- After a change that stays, and while nobody stops the thread: if a synchronization succeeds
  -- after some that fail, each round until then tries one, that one ends the attempts, and any
  -- further rounds do nothing.
  pub media_watch_rounds_lem :
      (k n : ℕ) (db after : Conn) (watch : MediaWatch)
      → Attempted sync k db after
      → watch.stop ≡ false
      → 0 < mtime
      → watch.last_mtime ≢ mtime
      → media_watch_rounds sync (suc (k + n)) mtime db watch
        ≡ (after, record watch { last_mtime = mtime })
  unfolding media_watch_rounds
  media_watch_rounds_lem k n db _ watch (succeeds e) go_on p changed =
      ap (λ r. media_watch_rounds sync (0 + n) mtime r.0 r.1)
        (round_succeeded db watch go_on p changed e)
      ∙ quiet (0 + n) (sync db).0 (record watch { last_mtime = mtime }) refl
  media_watch_rounds_lem k n db after watch (fails {n = j} e later) go_on p changed =
      ap (λ r. media_watch_rounds sync (suc j + n) mtime r.0 r.1)
        (round_failed db watch go_on p changed e)
      ∙ (ap (λ m. media_watch_rounds sync m mtime (sync db).0 watch) {x = suc j + n}
            {y = suc (j + n)} (omega arith)
          ∙ media_watch_rounds_lem j n (sync db).0 after watch later go_on p changed)
