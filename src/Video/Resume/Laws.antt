-- ===== src/Video/Resume/Laws.antt =====
-- The map of resume positions holds the last position of each video, once.
use ott_server.Base.{
  ==_false, ==_iff, All, All-append, Bool, Bool-cases, List, Option, [], ap, arith, if◌then◌else◌,
  inl, inr, length, length-append, map, none, refl, some, ℕ, ◌++◌, ◌==◌, ◌∷◌, ◌≡◌, ◌≢◌, ◌≤◌,
}
use ott_server.Video.Resume.{
  Entry, Growing, keep_entry, next_capacity, push, resume_map_add, resume_map_find, set_or_push,
  set_position,
}

abbrev pub ids : {Double : Type 0} → List (Entry Double) → List ℕ
ids entries = map (λ e. e.video_id) entries

-- Every id occurs once at most.
abbrev pub IsDistinct : List ℕ → Type 0
IsDistinct [] = Unit
IsDistinct (k ∷ ks) = All (λ j. k ≢ j) ks × IsDistinct ks

-- Every video has one entry at most, and the array has room for its entries.
abbrev pub IsMap : {Double : Type 0} → Growing (Entry Double) → Type 0
IsMap entries = IsDistinct (ids entries.items) × (length entries.items ≤ entries.capacity)

push_lem :
    {A : Type 0} (grants : ℕ → Bool) (list : Growing A) (a : A) (out : Growing A)
    → length list.items ≤ list.capacity
    → push grants list a ≡ some out
    → (out.items ≡ list.items ++ a ∷ []) × (length out.items ≤ out.capacity)
unfolding push
push_lem grants list a out h e =
    let size = length-append list.items (a ∷ []) in
    elim (Bool-cases (length list.items == list.capacity)) [
      | inl full ↦ elim (Bool-cases (grants (next_capacity list.capacity))) [
        | inl granted ↦ (ground arith, ground arith)
        | inr denied ↦ absurd (cc (rw (full, denied) at e))
      ]
      | inr free ↦ (ground arith, ground arith)
    ]

module _ {Double : Type 0} (id : ℕ) (position : Double) where
  abbrev added : Entry Double
  added = record { video_id = id; position = position }

  -- The loop that finds no entry of the video, and the one that finds it.
  set_position-none :
      (entries : List (Entry Double))
      → set_position id position entries ≡ none
      → All (λ j. j ≢ id) (ids entries)
  unfolding set_position
  set_position-none [] e = tt
  set_position-none (x ∷ entries) e = elim (Bool-cases (x.video_id == id)) [
    | inl same ↦ absurd (cc (rw same at e))
    | inr other ↦ (
      (==_false x.video_id id).0 other,
      go (set_position id position entries) (set_position-none entries) (rw other at e),
    )
  ]
    where
      go :
          (rest : Option (List (Entry Double)))
          → (rest ≡ none → All (λ j. j ≢ id) (ids entries))
          → keep_entry x rest ≡ none
          → All (λ j. j ≢ id) (ids entries)
      go none k e' = k refl
      go (some rest) k e' = absurd cc

  find-set_position :
      (entries out : List (Entry Double)) (other : ℕ)
      → set_position id position entries ≡ some out
      → (resume_map_find out other
          ≡ (if other == id then some position else resume_map_find entries other))
        × (ids out ≡ ids entries)
  unfolding set_position resume_map_find
  find-set_position [] out other e = absurd cc
  find-set_position (x ∷ entries) out other e = elim (Bool-cases (x.video_id == id)) [
    | inl same ↦
        let found : some (added ∷ entries) ≡ some out = rw same at e in
        here out (ground arith) ((==_iff x.video_id id).0 same)
    | inr differ ↦
        go (set_position id position entries) (find-set_position entries) (rw differ at e)
          ((==_false x.video_id id).0 differ)
  ]
    where
      here :
          (new : List (Entry Double))
          → new ≡ added ∷ entries
          → x.video_id ≡ id
          → (resume_map_find new other ≡ (
              if other == id
              then some position
              else if x.video_id == other
              then some x.position
              else resume_map_find entries other))
            × (map (λ e. e.video_id) new ≡ x.video_id ∷ map (λ e. e.video_id) entries)
      here new k same = rw k (ground arith, ground arith)

      go :
          (rest : Option (List (Entry Double)))
          → ((out' : List (Entry Double)) (other' : ℕ)
              → rest ≡ some out'
              → (resume_map_find out' other'
                  ≡ (if other' == id then some position else resume_map_find entries other'))
                × (ids out' ≡ ids entries))
          → keep_entry x rest ≡ some out
          → x.video_id ≢ id
          → (resume_map_find out other ≡ (
              if other == id
              then some position
              else if x.video_id == other
              then some x.position
              else resume_map_find entries other))
            × (map (λ e. e.video_id) out ≡ x.video_id ∷ map (λ e. e.video_id) entries)
      go none k e' n = absurd cc
      go (some rest) k e' n =
          let (found, ids) = k rest other refl in
          let same : x ∷ rest ≡ out = ground arith in
          rw (← same) (ground arith, ap (◌∷◌ x.video_id) ids)

IsDistinct-push :
    (id : ℕ) (ks : List ℕ) → IsDistinct ks → All (λ j. j ≢ id) ks → IsDistinct (ks ++ id ∷ [])
IsDistinct-push id [] h n = (tt, tt)
IsDistinct-push id (k ∷ ks) h n =
    (All-append (λ j. k ≢ j) ks (id ∷ []) h.0 (n.0, tt), IsDistinct-push id ks h.1 n.1)

module _ {Double : Type 0} (id : ℕ) (position : Double) where
  find-push :
      (entries : List (Entry Double)) (other : ℕ)
      → All (λ j. j ≢ id) (ids entries)
      → resume_map_find (entries ++ added id position ∷ []) other
        ≡ (if other == id then some position else resume_map_find entries other)
  unfolding resume_map_find
  find-push [] other n = ground arith
  find-push (x ∷ entries) other n = rw (find-push entries other n.1) (ground (arith, n.0))

  ids-append :
      (entries : List (Entry Double))
      → ids (entries ++ added id position ∷ []) ≡ ids entries ++ id ∷ []
  ids-append [] = refl
  ids-append (x ∷ entries) = rw (ids-append entries)

  length-ids : (entries : List (Entry Double)) → length (ids entries) ≡ length entries
  length-ids [] = refl
  length-ids (x ∷ entries) = rw (length-ids entries)

  -- An addition that succeeds leaves a map in which the video has the new position and every other
  -- video what it had before, with one entry at most for each and room for all.
  pub resume_map_add_lem :
      (grants : ℕ → Bool) (entries out : Growing (Entry Double)) (other : ℕ)
      → IsMap entries
      → resume_map_add grants entries id position ≡ some out
      → IsMap out
        × (resume_map_find out.items other
            ≡ (if other == id then some position else resume_map_find entries.items other))
  unfolding resume_map_add
  resume_map_add_lem grants entries out other h e =
      go (set_position id position entries.items) refl e
    where
      go :
          (found : Option (List (Entry Double)))
          → set_position id position entries.items ≡ found
          → set_or_push grants entries (added id position) found ≡ some out
          → IsMap out
            × (resume_map_find out.items other
                ≡ (if other == id then some position else resume_map_find entries.items other))
      go none k e' =
          let (items, room) = push_lem grants entries (added id position) out h.1 e' in
          let absent = set_position-none id position entries.items k in
          (
            (
              rw (items, ids-append entries.items)
                  (IsDistinct-push id (ids entries.items) h.0 absent),
              room,
            ),
            rw items (find-push entries.items other absent),
          )
      go (some items) k e' =
          let (found, same) = find-set_position id position entries.items items other k in
          let kept : out ≡ record { items = items; capacity = entries.capacity } = ground arith in
          let size : length items ≡ length entries.items =
            rw (length-ids items, length-ids entries.items) at (ap length same) in
          rw kept ((rw same h.0, rw size h.1), found)
