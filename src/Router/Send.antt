-- ===== src/Router/Send.antt =====
-- server/src/router.c: the JSON responses, and the dispatch with its 404.
use mathlib.Core.Option
use ott_server.Base.{
  Bool, List, Option, [], false, if◌then◌else◌, leb, length, none, some, ℕ, ◌++◌, ◌==◌, ◌∷◌,
}
use ott_server.Cstr.{Bytes, codes}
use ott_server.Http.{Request, http_status_text}
use ott_server.Http.Response.{http_send_response}
use ott_server.Http.Socket.{Client}
use ott_server.Router.{Context, Param, Route, find_route}

abbrev pub json_type : Option Bytes
json_type = some (codes "application/json")

-- `if (extra_headers && *extra_headers)`: the headers of the response, in 1024 bytes.
unfoldable pub combined_headers : Bytes → Option Bytes → Option Bytes
combined_headers base none = some base
combined_headers base (some []) = some base
combined_headers base (some (c ∷ s)) =
    if leb 1024 (length (base ++ c ∷ s)) then none else some (base ++ c ∷ s)

-- A response of the context's client; the context afterwards and whether 0 was returned.
abbrev pub respond : Context → Client × Bool → Context × Bool
respond ctx (client, sent) = (record ctx { client = client }, sent)

abbrev pub send_with : Context → ℕ → Bytes → Option Bytes → Context × Bool
send_with ctx status body none = (ctx, false)
send_with ctx status body (some headers) = respond ctx (
    http_send_response ctx.client status (http_status_text status) json_type (some body)
      (some headers))

unfoldable pub router_send_json : Context → ℕ → Option Bytes → Option Bytes → Context × Bool
router_send_json ctx status json_body extra_headers =
    send_with ctx status (Option.get_or json_body (codes "{}"))
      (combined_headers ctx.security_headers extra_headers)

abbrev pub error_body : Bytes → Bytes
error_body message = codes "{\"error\":\"" ++ (message ++ codes "\"}")

-- The message goes into a buffer of 512 bytes.
unfoldable pub router_send_json_error : Context → ℕ → Option Bytes → Context × Bool
router_send_json_error ctx status message =
    let body = error_body (Option.get_or message (codes "error")) in
    if leb 512 (length body) then (ctx, false) else router_send_json ctx status (some body) none

-- The responses: the context with the client that received them; the result of the call is not
-- looked at.
abbrev pub fail : Context → ℕ → Bytes → Context
fail ctx status message = (router_send_json_error ctx status (some message)).0

abbrev pub reply : Context → ℕ → Bytes → Option Bytes → Context
reply ctx status body headers = (router_send_json ctx status (some body) headers).0

-- The request's body, if there is one that is not empty.
abbrev pub body_of : Request → Option Bytes
body_of req = if req.body_length == 0 then none else req.body

-- `router_handle`, with the table and what runs a handler on the state and the context.
module _ {Handler State : Type 0} (run : Handler → State → Context → State × Context) where
  abbrev pub dispatch : State → Context → Option (Handler × List Param) → State × Context
  dispatch s ctx none = (
    s,
    (respond ctx (
        http_send_response ctx.client 404 (codes "Not Found") json_type
          (some (codes "{\"error\":\"Not Found\"}")) (some ctx.security_headers))).0,
  )
  dispatch s ctx (some (handler, params)) = run handler s (record ctx { params = params })

  unfoldable pub router_handle : List (Route Handler) → State → Context → State × Context
  router_handle routes s ctx =
      dispatch s (record ctx { params = [] }) (find_route routes ctx.request)
