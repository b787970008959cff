-- ===== src/Router/Match.antt =====
-- `path_matches` decides when a path is an instance of a route's pattern.
use mathlib.Core.Bool.{false≢true}
use ott_server.Base.{
  ==_iff, >>=-eq-some, Bool-cases, List, [], ap, append-nil, append_assoc, arith, drop,
  if◌then◌else◌, inl, inr, length, length-append, ltb, lt→ltb, none, refl, some, sym, take, ℕ, ◌++◌,
  ◌+◌, ◌<◌, ◌==◌, ◌↔◌, ◌∙◌, ◌∷◌, ◌≡◌, ◌≤◌, ◌⊎◌,
}
use ott_server.Cstr.{Bytes, str_eq, str_eq_iff, str_eq_refl}
use ott_server.Router.{Param, match_segments, param_slots, path_matches, segment_match, segments}

-- A segment of a pattern that stands for any one segment.
abbrev pub IsParam : Bytes → Type 0
IsParam [] = ⊥
IsParam (c ∷ name) = c ≡ b':'

-- The parameter that a pattern's segment binds.
abbrev bound : Bytes → Bytes → Param
bound route_seg path_seg = record { key = take 31 (drop 1 route_seg); value = take 255 path_seg }

-- A path's segments are an instance of a pattern's, with these parameters.
pub data Instance : List Bytes → List Bytes → List Param → Type 0 where
  done : Instance [] [] []
  literal :
      {seg : Bytes} {rs ps : List Bytes} {params : List Param}
      → ¬ IsParam seg
      → Instance rs ps params
      → Instance (seg ∷ rs) (seg ∷ ps) params
  param :
      {route_seg path_seg : Bytes} {rs ps : List Bytes} {params : List Param}
      → IsParam route_seg
      → Instance rs ps params
      → Instance (route_seg ∷ rs) (path_seg ∷ ps) (bound route_seg path_seg ∷ params)

segment_match_cases :
    (r p : Bytes) (before more : List Param)
    → segment_match r p before ≡ some more
    → ((¬ IsParam r) × (r ≡ p) × (more ≡ before))
      ⊎ (IsParam r × (more ≡ before ++ bound r p ∷ []) × (length before < param_slots))
unfolding segment_match
segment_match_cases [] p before more e =
    inl ((λ h. h), ground (arith, str_eq_iff [] p), ground (arith, str_eq_iff [] p))
segment_match_cases (c ∷ name) p before more e = elim (Bool-cases (c == b':')) [
  | inl colon ↦
      let (added, room) =
        slot (length before) (before ++ bound (c ∷ name) p ∷ []) more (rw colon at e) in
      inr ((==_iff c b':').0 colon, added, room)
  | inr other ↦
      let (same, kept) = literal_match (c ∷ name) p before more (rw other at e) in
      inl ((λ h. false≢true (sym other ∙ (==_iff c b':').1 h)), same, kept)
]
  where
    slot :
        (n : ℕ) (with_param out : List Param)
        → (if ltb n param_slots then some with_param else none) ≡ some out
        → (out ≡ with_param) × (n < param_slots)
    slot n with_param out h = ground arith

    literal_match :
        (seg q : Bytes) (kept out : List Param)
        → (if str_eq seg q then some kept else none) ≡ some out
        → (seg ≡ q) × (out ≡ kept)
    literal_match seg q kept out h = elim (Bool-cases (str_eq seg q)) [
      | inl same ↦ ((str_eq_iff seg q).0 same, ground arith)
      | inr differ ↦ absurd (ground arith)
    ]

segment_match_literal :
    (seg : Bytes) (before : List Param) → ¬ IsParam seg → segment_match seg seg before ≡ some before
unfolding segment_match
segment_match_literal [] before n = refl
segment_match_literal (c ∷ name) before n = elim (Bool-cases (c == b':')) [
  | inl colon ↦ absurd (n ((==_iff c _).0 colon))
  | inr other ↦ rw (other, str_eq_refl (c ∷ name))
]

segment_match_param :
    (r p : Bytes) (before : List Param)
    → IsParam r
    → length before < param_slots
    → segment_match r p before ≡ some (before ++ bound r p ∷ [])
unfolding segment_match
segment_match_param [] p before h room = absurd h
segment_match_param (c ∷ name) p before h room =
    rw ((==_iff c _).1 h, lt→ltb (length before) param_slots room)

-- Every match is an instance of the pattern, with at most eight parameters in the order of the path.
match_segments-Instance :
    (rs ps : List Bytes) (before out : List Param)
    → match_segments rs ps before ≡ some out
    → (params : List Param) × (out ≡ before ++ params) × Instance rs ps params
unfolding match_segments
match_segments-Instance [] [] before out e = ([], ground (arith, append-nil before), done)
match_segments-Instance [] (p ∷ ps) before out e = absurd cc
match_segments-Instance (r ∷ rs) [] before out e = absurd cc
match_segments-Instance (r ∷ rs) (p ∷ ps) before out e =
    let (more, e1, later) = >>=-eq-some (segment_match r p before) _ e in
    let (params, split, i) = match_segments-Instance rs ps more out later in
    elim (segment_match_cases r p before more e1) [
      | inl (n, same, kept) ↦ (params, rw (split, kept), rw (← same) (literal n i))
      | inr (h, added, _) ↦ (
        bound r p ∷ params,
        rw (split, added) (append_assoc before (bound r p ∷ []) params),
        param h i,
      )
    ]

match_segments-length :
    (rs ps : List Bytes) (before out : List Param)
    → match_segments rs ps before ≡ some out
    → length before ≤ param_slots
    → length out ≤ param_slots
unfolding match_segments
match_segments-length [] [] before out e h = ground arith
match_segments-length [] (p ∷ ps) before out e h = absurd cc
match_segments-length (r ∷ rs) [] before out e h = absurd cc
match_segments-length (r ∷ rs) (p ∷ ps) before out e h =
    let (more, e1, later) = >>=-eq-some (segment_match r p before) _ e in
    match_segments-length rs ps more out later (elim (segment_match_cases r p before more e1) [
      | inl (_, _, kept) ↦ omega (arith, ap length kept)
      | inr (_, added, room) ↦ omega (arith, ap length added, length-append before (bound r p ∷ []))
    ])

Instance-match_segments :
    {rs ps : List Bytes} {params : List Param} (before : List Param)
    → Instance rs ps params
    → length before + length params ≤ param_slots
    → match_segments rs ps before ≡ some (before ++ params)
unfolding match_segments
Instance-match_segments before done h = ground (arith, append-nil before)
Instance-match_segments before (literal {seg} n i) h =
    rw (segment_match_literal seg before n) (Instance-match_segments before i h)
Instance-match_segments before (param {route_seg} {path_seg} {params = q} n i) h =
    let b = bound route_seg path_seg in
    rw (segment_match_param route_seg path_seg before n (omega arith)) (
      Instance-match_segments (before ++ b ∷ []) i (omega (arith, length-append before (b ∷ [])))
      ∙ ap some (append_assoc before (b ∷ []) q))

-- `path_matches` succeeds exactly on the instances of a pattern with at most eight parameters, and
-- returns the bindings in the order of the path.
pub path_matches_iff :
    (route_path request_path : Bytes) (params : List Param)
    → (path_matches route_path request_path ≡ some params) ↔ (
        Instance (segments route_path) (segments request_path) params
        × (length params ≤ param_slots))
unfolding path_matches
path_matches_iff route_path request_path params = (
  (λ e.
      let (found, split, i) =
        match_segments-Instance (segments route_path) (segments request_path) [] params e in
      (
        rw split i,
        match_segments-length (segments route_path) (segments request_path) [] params e
            (omega arith),
      )),
  λ h. Instance-match_segments [] h.0 (omega (arith, h.1)),
)
