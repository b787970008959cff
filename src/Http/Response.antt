-- ===== src/Http/Response.antt =====
-- server/src/http.c: `http_send_response` and `http_send_file_response`.
pub mod Laws
pub mod Transfer
pub mod Files
use mathlib.Core.Option
use ott_server.Base.{
  Bool, List, Option, [], drop, false, if◌then◌else◌, leb, length, ltb, min, none, not, some, suc,
  take, true, zero, ℕ, ◌&&◌, ◌++◌, ◌+◌, ◌-◌, ◌==◌, ◌>>=◌, ◌||◌, ◌∷◌,
}
use ott_server.Cstr.{Bytes, codes, decimal}
use ott_server.Http.Read.{crlf}
use ott_server.Http.Socket.{Client, send_all}

-- sizeof (header)
abbrev pub header_size : ℕ
header_size = 2048

-- A further part of the header, if it fits behind what is there.
abbrev pub add_part : Bytes → Bytes → Option Bytes
add_part header part =
    if leb (header_size - length header) (length part) then none else some (header ++ part)

-- `if (p && *p)`: a part that may be null or empty.
abbrev pub add_optional : Bytes → Option Bytes → Option Bytes
add_optional header none = some header
add_optional header (some []) = some header
add_optional header (some (c ∷ s)) = add_part header (c ∷ s)

-- `if (offset + 2 >= sizeof (header)) return -1;` and the empty line.
abbrev pub close_header : Bytes → Option Bytes
close_header header = if leb header_size (length header + 2) then none else some (header ++ crlf)

-- The status line, `Connection` and `Content-Length`.
unfoldable pub status_lines : ℕ → Bytes → ℕ → Bytes
status_lines status status_text size =
    codes "HTTP/1.1 "
    ++ (decimal status
        ++ (codes " "
            ++ (status_text
                ++ (codes "\r\nConnection: close\r\nContent-Length: "
                    ++ (decimal size ++ codes "\r\n")))))

unfoldable pub content_type_line : Bytes → Bytes
content_type_line content_type = codes "Content-Type: " ++ (content_type ++ codes "\r\n")

-- A content type that is given, as its line.
abbrev pub typed : Option Bytes → Option Bytes
typed none = none
typed (some []) = none
typed (some (c ∷ s)) = some (content_type_line (c ∷ s))

unfoldable pub response_header : ℕ → Bytes → Option Bytes → ℕ → Option Bytes → Option Bytes
response_header status status_text content_type size extra_headers = do
  first ← add_part [] (status_lines status status_text size)
  second ← add_optional first (typed content_type)
  third ← add_optional second extra_headers
  close_header third

-- `send_all` of the header, and if that succeeds of the body.
unfoldable pub send_both : Client → Bytes → Bytes → Client × Bool
send_both client header body =
    let (headed, sent) = send_all client header in
    if sent then send_all headed body else (headed, false)

-- The response whose header could be written, or not.
abbrev pub send_built : Client → Option Bytes → Bytes → Client × Bool
send_built client none body = (client, false)
send_built client (some header) body = send_both client header body

-- The client afterwards, and whether the function returned 0.
unfoldable pub http_send_response :
    Client → ℕ → Bytes → Option Bytes → Option Bytes → Option Bytes → Client × Bool
http_send_response client status status_text content_type body extra_headers =
    let size = length (Option.get_or body []) in
    send_built client (response_header status status_text content_type size extra_headers)
      (Option.get_or body [])

-- What stat finds and read gives for a path: none if there is no such file.
abbrev pub Files : Type 0
Files = Bytes → Option Bytes

-- `length` 0 stands for the rest of the file, and so does a length beyond its end.
abbrev pub clamp_length : ℕ → ℕ → ℕ → ℕ
clamp_length file_size offset size =
    if size == 0 || ltb (file_size - offset) size then file_size - offset else size

unfoldable pub file_header : ℕ → Bytes → Option Bytes → ℕ → Option Bytes → Option Bytes
file_header status status_text content_type size extra_headers = do
  first ← add_part [] (
      status_lines status status_text size
      ++ content_type_line (Option.get_or content_type (codes "application/octet-stream")))
  second ← add_optional first extra_headers
  close_header second

-- `while (remaining > 0)` with read and `send_all`, from the position of the file on.
unfoldable pub read_loop : List ℕ → Client → Bytes → ℕ → Client × Bool
read_loop reads client content zero = (client, true)
read_loop [] client content (suc n) = (client, false)
read_loop (k ∷ reads) client content (suc n) =
    let got = take (min k (min 8192 (suc n))) content in
    let sent = send_all client got in
    let rest = read_loop reads sent.0 (drop (length got) content) (suc n - length got) in
    if length got == 0 then (client, false) else if sent.1 then rest else (sent.0, false)

-- The loop with sendfile: each call takes what a send would, and none is left behind the end.
unfoldable pub sendfile_loop : Client → Bytes → ℕ → Client × Bool
sendfile_loop client content n =
    let sent = send_all client (take n content) in (sent.0, sent.1 && leb n (length content))

-- `open`, `lseek`, and one of the loops.
unfoldable pub transfer_part : Client → Bytes → ℕ → ℕ → Client × Bool
unfolding read_loop sendfile_loop
transfer_part client contents offset n =
    let t = client.transfer in
    if not t.opens || (ltb 0 offset && not t.seeks)
    then (client, false)
    else if t.by_sendfile
    then sendfile_loop client (drop offset contents) n
    else read_loop t.reads client (drop offset contents) n

-- The header, if it could be written, and then the part.
abbrev pub send_headed : Client → Option Bytes → Bytes → ℕ → ℕ → Client × Bool
send_headed client none contents offset n = (client, false)
send_headed client (some header) contents offset n =
    let headed = send_all client header in
    if headed.1 then transfer_part headed.0 contents offset n else (headed.0, false)

-- The response for a file that exists.
abbrev pub send_contents :
    Client → ℕ → Bytes → Option Bytes → Option Bytes → ℕ → ℕ → Option Bytes → Client × Bool
send_contents client status status_text content_type none offset size extra_headers =
    (client, false)
send_contents client status status_text content_type (some contents) offset size extra_headers =
    let sent = clamp_length (length contents) offset size in
    if ltb (length contents) offset
    then (client, false)
    else send_headed client (file_header status status_text content_type sent extra_headers)
        contents offset sent

-- With a file that stays as it is between stat and the last read.
unfoldable pub http_send_file_response :
    Files → Client → ℕ → Bytes → Option Bytes → Bytes → ℕ → ℕ → Option Bytes → Client × Bool
unfolding transfer_part
http_send_file_response files client status status_text content_type path offset size
      extra_headers =
    send_contents client status status_text content_type (files path) offset size extra_headers
