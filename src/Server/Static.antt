-- ===== src/Server/Static.antt =====
-- server/src/main.c: `serve_static_file`, what it calls, and `choose_path`.
pub mod Laws
use ott_server.Base.{
  Bool, List, Option, [], false, if◌then◌else◌, leb, length, none, not, some, take, true, ℕ, ◌++◌,
  ◌==◌, ◌||◌, ◌∷◌,
}
use ott_server.Cstr.{Bytes, codes, split_at_last, split_on, str_case_eq, truncated}
use ott_server.Http.{http_status_text}
use ott_server.Http.Response.{http_send_file_response, http_send_response}
use ott_server.Http.Socket.{Client}
use ott_server.Router.Send.{error_body, json_type}
use ott_server.Utils.Files.{Node, Tree, contents_of, directory, file}

abbrev pub path_max : ℕ
path_max = 4096

-- `join_path`
unfoldable pub join_path : Bytes → Bytes → ℕ → Option Bytes
join_path base path len =
    let joined = base ++ b'/' ∷ path in if leb len (length joined) then none else some joined

-- The type for an extension, and for a path by what stands behind its last dot.
unfoldable pub mime_type : Bytes → Bytes
unfolding str_case_eq
mime_type ext =
    if str_case_eq ext (codes "html")
    then codes "text/html; charset=utf-8"
    else if str_case_eq ext (codes "css")
    then codes "text/css; charset=utf-8"
    else if str_case_eq ext (codes "js")
    then codes "application/javascript"
    else if str_case_eq ext (codes "json")
    then codes "application/json"
    else if str_case_eq ext (codes "png")
    then codes "image/png"
    else if str_case_eq ext (codes "jpg") || str_case_eq ext (codes "jpeg")
    then codes "image/jpeg"
    else if str_case_eq ext (codes "svg")
    then codes "image/svg+xml"
    else if str_case_eq ext (codes "ico")
    then codes "image/x-icon"
    else if str_case_eq ext (codes "mp4")
    then codes "video/mp4"
    else codes "application/octet-stream"

abbrev pub mime_type_behind : Option (Bytes × Bytes) → Bytes
mime_type_behind none = codes "application/octet-stream"
mime_type_behind (some (_, ext)) = mime_type ext

unfoldable pub mime_type_for_path : Bytes → Bytes
unfolding mime_type split_at_last
mime_type_for_path path = mime_type_behind (split_at_last b'.' path)

abbrev pub is_none {ℓ} : {A : Type ℓ} → Option A → Bool
is_none none = true
is_none (some a) = false

-- `is_safe_path`: no ".." anywhere.
unfoldable pub is_safe_path : Bytes → Bool
unfolding split_on
is_safe_path path = is_none (split_on (codes "..") path)

-- `send_json_error` to a client, whose message goes into a buffer of 512 bytes.
unfoldable pub send_json_error : Bytes → Client → ℕ → Bytes → Client × Bool
send_json_error security_headers client status message =
    let body = error_body message in
    if leb 512 (length body)
    then (client, false)
    else http_send_response client status (http_status_text status) json_type (some body)
        (some security_headers)

-- The path below the directory of static files, in 512 bytes.
unfoldable pub relative_path : Bytes → Bytes
relative_path [] = []
relative_path (c ∷ []) = if c == b'/' then codes "index.html" else c ∷ []
relative_path (c ∷ d ∷ s) = if c == b'/' then take 511 (d ∷ s) else take 511 (c ∷ d ∷ s)

module _ (tree : Tree) (static_dir : Bytes) (security_headers : Bytes) (client : Client) where
  -- What stat says of the full path.
  abbrev pub send_node : Bytes → Bytes → Option Node → Client × Bool
  send_node relative full none = send_json_error security_headers client 404 (codes "Not Found")
  send_node relative full (some directory) =
      send_json_error security_headers client 404 (codes "Not Found")
  send_node relative full (some (file _)) =
      http_send_file_response (λ path. contents_of (tree path)) client 200 (codes "OK")
        (some (mime_type_for_path relative)) full 0 0 (some security_headers)

  abbrev pub send_joined : Bytes → Option Bytes → Client × Bool
  send_joined relative none = send_json_error security_headers client 500 (codes "Path too long")
  send_joined relative (some full) = send_node relative full (tree full)

  unfoldable pub serve_static_file : Bytes → Client × Bool
  unfolding join_path
  serve_static_file [] = send_json_error security_headers client 404 (codes "Not Found")
  serve_static_file (c ∷ s) =
      let relative = relative_path (c ∷ s) in
      if is_safe_path (c ∷ s)
      then send_joined relative (join_path static_dir relative path_max)
      else send_json_error security_headers client 403 (codes "Forbidden")

-- `choose_path`: the variable, the first candidate that is usable, or the first one, in `len` bytes.
-- `ensures` says whether ensure_directory succeeds, `tree` what stat finds; the candidates are those
-- before the NULL.
module _ (tree : Tree) (ensures : Bytes → Bool) (ensure_dir : Bool) where
  unfoldable pub first_usable : List Bytes → Option Bytes
  first_usable [] = none
  first_usable (path ∷ paths) =
      let rest = first_usable paths in
      let usable = if ensure_dir then ensures path else not (is_none (tree path)) in
      if usable then some path else rest

  abbrev pub first_or_empty : List Bytes → Bytes
  first_or_empty [] = []
  first_or_empty (path ∷ paths) = path

  abbrev pub candidate : List Bytes → ℕ → Option Bytes → Bytes
  candidate candidates len none = truncated len (first_or_empty candidates)
  candidate candidates len (some path) = truncated len path

  unfoldable pub choose_path : Option Bytes → List Bytes → ℕ → Bytes
  unfolding first_usable
  choose_path (some (c ∷ s)) candidates len = truncated len (c ∷ s)
  choose_path _ candidates len = candidate candidates len (first_usable candidates)
