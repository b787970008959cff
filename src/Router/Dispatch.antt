-- ===== src/Router/Dispatch.antt =====
-- `router_handle` runs the first route that matches, and answers 404 if there is none.
use ott_server.Base.{All, List, [], none, some, ◌++◌, ◌∷◌, ◌≡◌}
use ott_server.Http.{Request}
use ott_server.Router.{Context, Param, Route, find_route, route_params}
use ott_server.Router.Send.{router_handle}

module _ {Handler : Type 0} (req : Request) where
  find_route-append :
      (before after : List (Route Handler)) (r : Route Handler) (params : List Param)
      → All (λ (q : Route Handler). route_params q req ≡ none) before
      → route_params r req ≡ some params
      → find_route (before ++ r ∷ after) req ≡ some (r.handler, params)
  unfolding find_route
  find_route-append [] after r params h e = rw e
  find_route-append (q ∷ before) after r params h e =
      rw h.0 (find_route-append before after r params h.1 e)

module _ {Handler State : Type 0} (run : Handler → State → Context → State × Context) where
  -- The first route of the table that takes the request's method and path is run, once, with the
  -- parameters that its pattern binds, and no other.
  pub router_handle_first :
      (before after : List (Route Handler)) (r : Route Handler) (params : List Param) (s : State)
      (ctx : Context)
      → All (λ (q : Route Handler). route_params q ctx.request ≡ none) before
      → route_params r ctx.request ≡ some params
      → router_handle run (before ++ r ∷ after) s ctx
        ≡ run r.handler s (record ctx { params = params })
  unfolding router_handle
  router_handle_first before after r params s ctx h e =
      rw (find_route-append ctx.request before after r params h e)
