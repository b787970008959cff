-- ===== src/Router.antt =====
-- server/src/router.c and server/include/router.h: the request context, matching and dispatch.
pub mod Send
pub mod Match
pub mod Dispatch
use ott_server.Base.{
  Bool, List, Option, [], false, if◌then◌else◌, length, ltb, none, some, take, true, ℕ, ◌++◌, ◌==◌,
  ◌>>=◌, ◌∷◌,
}
use ott_server.Cstr.{Bytes, split_all, str_eq}
use ott_server.Http.{Method, Request, delete, get, options, post, put_method, unknown}
use ott_server.Http.Socket.{Client}

-- struct route_param
pub record Param : Type 0 where
  pub key : Bytes
  pub value : Bytes

-- `request_ctx_t`; `client` stands for the socket, `security_headers` for the server's.
pub record Context : Type 0 where
  pub security_headers : Bytes
  pub client : Client
  pub request : Request
  pub authenticated : Bool
  pub user_id : ℕ
  pub username : Bytes
  pub session_token : Bytes
  pub params : List Param

-- `route_entry_t`
pub record Route (Handler : Type 0) : Type 0 where
  pub method : Method
  pub path : Bytes
  pub handler : Handler

-- Slots of `params`, and the sizes of their strings.
abbrev pub param_slots : ℕ
param_slots = 8

-- `router_get_param`
unfoldable pub find_param : Bytes → List Param → Option Bytes
unfolding str_eq
find_param name [] = none
find_param name (p ∷ ps) = if str_eq p.key name then some p.value else find_param name ps

unfoldable pub router_get_param : Context → Bytes → Option Bytes
unfolding find_param
router_get_param ctx name = find_param name ctx.params

-- strtok_r (path, "/"): the parts between slashes that are not empty.
unfoldable pub non_empty : List Bytes → List Bytes
non_empty [] = []
non_empty ([] ∷ parts) = non_empty parts
non_empty ((c ∷ part) ∷ parts) = (c ∷ part) ∷ non_empty parts

abbrev pub segments : Bytes → List Bytes
segments path = non_empty (split_all b'/' (take 511 path))

-- The parameters with the new one, or those there were; none if the segments differ or no slot is
-- left.
unfoldable pub segment_match : Bytes → Bytes → List Param → Option (List Param)
unfolding str_eq
segment_match [] path_seg params = if str_eq [] path_seg then some params else none
segment_match (c ∷ name) path_seg params =
    if c == b':'
    then (if ltb (length params) param_slots
        then some (params ++ record { key = take 31 name; value = take 255 path_seg } ∷ [])
        else none)
    else if str_eq (c ∷ name) path_seg
    then some params
    else none

-- The loop of `path_matches` over the segments of both paths.
unfoldable pub match_segments : List Bytes → List Bytes → List Param → Option (List Param)
match_segments [] [] params = some params
match_segments (r ∷ rs) (p ∷ ps) params = do
  more ← segment_match r p params
  match_segments rs ps more
match_segments _ _ params = none

unfoldable pub path_matches : Bytes → Bytes → Option (List Param)
path_matches route_path request_path =
    match_segments (segments route_path) (segments request_path) []

unfoldable pub method_eq : Method → Method → Bool
method_eq get get = true
method_eq post post = true
method_eq put_method put_method = true
method_eq delete delete = true
method_eq options options = true
method_eq unknown unknown = true
method_eq _ _ = false

module _ {Handler : Type 0} where
  -- Whether a route takes the request, and with which parameters.
  unfoldable pub route_params : Route Handler → Request → Option (List Param)
  unfolding method_eq
  route_params r req = if method_eq r.method req.method then path_matches r.path req.path else none

  -- The loop of `router_handle`: the first route that matches; `rest` is what the others find.
  abbrev pub route_or :
      Handler → Option (Handler × List Param) → Option (List Param) → Option (Handler × List Param)
  route_or handler rest none = rest
  route_or handler rest (some params) = some (handler, params)

  unfoldable pub find_route : List (Route Handler) → Request → Option (Handler × List Param)
  find_route [] req = none
  find_route (r ∷ rs) req =
      let rest = find_route rs req in route_or r.handler rest (route_params r req)
