-- ===== src/Server/Routes.antt =====
-- server/src/main.c: the table of routes.
pub mod Laws
pub mod Links
use ott_server.Base.{List, [], ◌∷◌}
use ott_server.Cstr.{Bytes, codes}
use ott_server.Http.{Method, get, post}
use ott_server.Router.{Route}

-- The handlers that the table names.
pub data Handler : Type 0 where
  call_login call_register call_logout call_me : Handler
  call_list call_stream call_thumbnail : Handler
  call_history_get call_history_update : Handler

abbrev pub entry : Method → Bytes → Handler → Route Handler
entry method path handler = record { method = method; path = path; handler = handler }

abbrev pub routes : List (Route Handler)
routes =
    entry post (codes "/api/auth/login") call_login
    ∷ entry post (codes "/api/auth/register") call_register
    ∷ entry post (codes "/api/auth/logout") call_logout
    ∷ entry get (codes "/api/auth/me") call_me
    ∷ entry get (codes "/api/videos") call_list
    ∷ entry get (codes "/api/videos/:id/stream") call_stream
    ∷ entry get (codes "/api/videos/:id/thumbnail") call_thumbnail
    ∷ entry get (codes "/api/history") call_history_get
    ∷ entry post (codes "/api/history/:id") call_history_update
    ∷ []
