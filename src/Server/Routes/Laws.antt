-- ===== src/Server/Routes/Laws.antt =====
-- No request matches two routes of the table, so that their order does not matter.
use mathlib.Core.Bool.{false≢true}
use ott_server.Base.{
  Bool, Bool-cases, List, Option-cases, [], and_iff, arith, false, if◌then◌else◌, inl, inr, none,
  not, refl, some, subst, sym, true, ◌&&◌, ◌++◌, ◌==◌, ◌||◌, ◌∙◌, ◌∷◌, ◌≡◌, ◌≢◌, ◌⊎◌,
}
use ott_server.Cstr.{Bytes, split_all, str_eq, str_eq_iff}
use ott_server.Http.{Method, Request, delete, get, options, post, put_method, unknown}
use ott_server.Router.{Param, Route, method_eq, non_empty, path_matches, route_params, segments}
use ott_server.Router.Match.{Instance, IsParam, done, literal, param, path_matches_iff}
use ott_server.Server.Routes.{Handler, routes}

-- A segment of a pattern that is not a parameter.
abbrev is_literal : Bytes → Bool
is_literal [] = true
is_literal (c ∷ s) = not (c == b':')

-- Two patterns that no path is an instance of, as their segments tell.
abbrev pub apart : List Bytes → List Bytes → Bool
apart [] [] = false
apart [] (q ∷ qs) = true
apart (r ∷ rs) [] = true
apart (r ∷ rs) (q ∷ qs) =
    let rest = apart rs qs in
    if is_literal r && is_literal q && not (str_eq r q) then true else rest

literal_IsParam : (r : Bytes) → is_literal r ≡ true → ¬ IsParam r
literal_IsParam [] e h = h
literal_IsParam (c ∷ s) e h = ground arith

apart_head :
    (r q : Bytes) (rest : Bool)
    → (if is_literal r && is_literal q && not (str_eq r q) then true else rest) ≡ true
    → ((¬ IsParam r) × (¬ IsParam q) × (r ≢ q)) ⊎ (rest ≡ true)
apart_head r q rest e = go (is_literal r) (is_literal q) (str_eq r q) refl refl refl e
  where
    go :
        (a b c : Bool)
        → is_literal r ≡ a
        → is_literal q ≡ b
        → str_eq r q ≡ c
        → (if a && b && not c then true else rest) ≡ true
        → ((¬ IsParam r) × (¬ IsParam q) × (r ≢ q)) ⊎ (rest ≡ true)
    go true true false ea eb ec e' = inl (
      literal_IsParam r ea,
      literal_IsParam q eb,
      λ same. false≢true (sym ec ∙ (str_eq_iff r q).1 same),
    )
    go true true true ea eb ec e' = inr e'
    go true false c ea eb ec e' = inr e'
    go false b c ea eb ec e' = inr e'

apart_sound :
    {rs qs path : List Bytes} {a b : List Param}
    → apart rs qs ≡ true
    → Instance rs path a
    → ¬ Instance qs path b
apart_sound e done done = absurd cc
apart_sound {qs = q ∷ qs} e (literal {seg} {rs} n i) (literal m j) =
    elim (apart_head seg seg (apart rs qs) e) [
      | inl (_, _, differ) ↦ differ refl
      | inr later ↦ apart_sound later i j
    ]
apart_sound {qs = q ∷ qs} e (literal {seg} {rs} n i) (param m j) =
    elim (apart_head seg q (apart rs qs) e) [
      | inl (_, fixed, _) ↦ fixed m
      | inr later ↦ apart_sound later i j
    ]
apart_sound {qs = q ∷ qs} e (param {route_seg} {rs = rs} n i) (literal m j) =
    elim (apart_head route_seg q (apart rs qs) e) [
      | inl (fixed, _, _) ↦ fixed n
      | inr later ↦ apart_sound later i j
    ]
apart_sound {qs = q ∷ qs} e (param {route_seg} {rs = rs} n i) (param m j) =
    elim (apart_head route_seg q (apart rs qs) e) [
      | inl (fixed, _, _) ↦ fixed n
      | inr later ↦ apart_sound later i j
    ]
apart_sound {qs = []} e (literal n i) j = elim j [ ]
apart_sound {qs = []} e (param n i) j = elim j [ ]

-- Two routes that no request matches both of.
abbrev pub routes_apart : Route Handler → Route Handler → Bool
routes_apart r q = not (method_eq r.method q.method) || apart (segments r.path) (segments q.path)

method_eq_same :
    (a b m : Method) → method_eq a m ≡ true → method_eq b m ≡ true → method_eq a b ≡ true
unfolding method_eq
method_eq_same get get get e f = refl
method_eq_same post post post e f = refl
method_eq_same put_method put_method put_method e f = refl
method_eq_same delete delete delete e f = refl
method_eq_same options options options e f = refl
method_eq_same unknown unknown unknown e f = refl
method_eq_same _ _ _ e f = ground arith

-- A request that matches the first of two such routes does not match the second.
routes_apart_sound :
    (r q : Route Handler) (req : Request) (params : List Param)
    → routes_apart r q ≡ true
    → route_params r req ≡ some params
    → route_params q req ≡ none
unfolding route_params
routes_apart_sound r q req params e h = elim (Bool-cases (method_eq r.method req.method)) [
  | inr differ ↦ absurd (cc (rw differ at h))
  | inl same ↦ elim (Bool-cases (method_eq q.method req.method)) [
    | inr other ↦ rw other refl
    | inl also ↦ rw also (elim (Option-cases (path_matches q.path req.path)) [
      | inl missing ↦ missing
      | inr (found, f) ↦
          let methods = method_eq_same r.method q.method req.method same also in
          let paths : apart (segments r.path) (segments q.path) ≡ true = rw methods at e in
          let first = (path_matches_iff r.path req.path params).0 (rw same at h) in
          let second = (path_matches_iff q.path req.path found).0 f in
          absurd (apart_sound paths first.0 second.0)
    ])
  ]
]

-- Every route of the list is apart from those behind it.
abbrev apart_from : Route Handler → List (Route Handler) → Bool
apart_from r [] = true
apart_from r (q ∷ qs) = routes_apart r q && apart_from r qs

abbrev pairwise_apart : List (Route Handler) → Bool
pairwise_apart [] = true
pairwise_apart (r ∷ rs) = apart_from r rs && pairwise_apart rs

apart_from-member :
    (r q : Route Handler) (mid after : List (Route Handler))
    → apart_from r (mid ++ q ∷ after) ≡ true
    → routes_apart r q ≡ true
apart_from-member r q [] after h = ((and_iff (routes_apart r q) (apart_from r after)).0 h).0
apart_from-member r q (x ∷ mid) after h =
    apart_from-member r q mid after
      ((and_iff (routes_apart r x) (apart_from r (mid ++ q ∷ after))).0 h).1

pairwise_apart-member :
    (before mid after : List (Route Handler)) (r q : Route Handler)
    → pairwise_apart (before ++ r ∷ (mid ++ q ∷ after)) ≡ true
    → routes_apart r q ≡ true
pairwise_apart-member [] mid after r q h =
    apart_from-member r q mid after
      ((and_iff (apart_from r (mid ++ q ∷ after)) (pairwise_apart (mid ++ q ∷ after))).0 h).0
pairwise_apart-member (x ∷ before) mid after r q h =
    let rest = before ++ r ∷ (mid ++ q ∷ after) in
    pairwise_apart-member before mid after r q
      ((and_iff (apart_from x rest) (pairwise_apart rest)).0 h).1

pairwise_apart-routes : pairwise_apart routes ≡ true
unfolding method_eq non_empty split_all str_eq
pairwise_apart-routes = refl

-- A request that matches a route of the table matches none of those behind it, so that the first
-- route that matches is the only one.
pub routes_disjoint :
    (before mid after : List (Route Handler)) (r q : Route Handler) (req : Request)
    (params : List Param)
    → routes ≡ before ++ r ∷ (mid ++ q ∷ after)
    → route_params r req ≡ some params
    → route_params q req ≡ none
routes_disjoint before mid after r q req params split h =
    routes_apart_sound r q req params
      (pairwise_apart-member before mid after r q
        (subst (λ rs. pairwise_apart rs ≡ true) split pairwise_apart-routes))
      h
