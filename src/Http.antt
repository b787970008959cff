-- ===== src/Http.antt =====
-- server/src/http.c and server/include/http.h: the request, its methods and the status texts.
pub mod Buffer
pub mod Socket
pub mod Read
pub mod Parse
pub mod Receive
pub mod Response
use ott_server.Base.{List, Option, [], if◌then◌else◌, leb, none, some, ℕ, ◌==◌, ◌∷◌}
use ott_server.Cstr.{Bytes, codes, str_case_eq, str_eq}

pub data Method : Type 0 where
  get post put_method delete options unknown : Method

unfoldable pub http_method_from_string : Bytes → Method
unfolding str_eq
http_method_from_string m =
    if str_eq m (codes "GET")
    then get
    else if str_eq m (codes "POST")
    then post
    else if str_eq m (codes "PUT")
    then put_method
    else if str_eq m (codes "DELETE")
    then delete
    else if str_eq m (codes "OPTIONS")
    then options
    else unknown

-- `name` and `value` point into the raw buffer. `generation` counts the reallocations that had
-- been made of it when the pointers were taken.
pub record Header : Type 0 where
  pub name : Bytes
  pub value : Bytes
  pub generation : ℕ

-- `body` is the C string behind the headers; `generation` counts the reallocations of the raw
-- buffer that the request holds.
pub record Request : Type 0 where
  pub method : Method
  pub path : Bytes
  pub query : Bytes
  pub http_version : Bytes
  pub headers : List Header
  pub body : Option Bytes
  pub body_length : ℕ
  pub raw_length : ℕ
  pub generation : ℕ

-- `request_init`
abbrev pub request_init : Request
request_init = record {
  method = unknown;
  path = [];
  query = [];
  http_version = [];
  headers = [];
  body = none;
  body_length = 0;
  raw_length = 0;
  generation = 0;
}

-- The loop of `http_get_header`.
unfoldable pub find_header : Bytes → List Header → Option Bytes
unfolding str_case_eq
find_header name [] = none
find_header name (h ∷ hs) = if str_case_eq h.name name then some h.value else find_header name hs

unfoldable pub http_get_header : Request → Bytes → Option Bytes
unfolding find_header
http_get_header req name = find_header name req.headers

unfoldable pub http_status_text : ℕ → Bytes
http_status_text status =
    if status == 200
    then codes "OK"
    else if status == 201
    then codes "Created"
    else if status == 204
    then codes "No Content"
    else if status == 206
    then codes "Partial Content"
    else if status == 400
    then codes "Bad Request"
    else if status == 401
    then codes "Unauthorized"
    else if status == 403
    then codes "Forbidden"
    else if status == 404
    then codes "Not Found"
    else if status == 405
    then codes "Method Not Allowed"
    else if status == 409
    then codes "Conflict"
    else if status == 416
    then codes "Range Not Satisfiable"
    else if leb 500 status
    then codes "Internal Server Error"
    else codes "OK"
