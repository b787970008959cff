-- ===== src/Tests/Http.antt =====
-- server/src/http.c on concrete requests.
use ott_server.Base.{
  All, Bool, [], arith, false, if◌then◌else◌, length, min, none, refl, some, suc, true, zero, ℕ,
  ◌++◌, ◌+◌, ◌<◌, ◌∷◌, ◌≡◌, ◌≢◌, ◌≤◌,
}
use ott_server.Cstr.{Bytes, codes, decimal, digits_onto, split_on, str_eq}
use ott_server.Http.{Header, Request, get, post}
use ott_server.Http.Buffer.{initial_buffer, max_buffer}
use ott_server.Http.Parse.{header_slots, parse_head}
use ott_server.Http.Read.{crlf, make_room, ok, read_body, read_headers, receive, stuck}
use ott_server.Http.Receive.{content_length, http_parse_request, read_rest}
use ott_server.Http.Receive.Pointers.{
  IsReceived, http_parse_request_dangling, http_parse_request_ends, http_parse_request_limits,
}
use ott_server.Http.Response.{
  Files, content_type_line, file_header, http_send_file_response, http_send_response, read_loop,
  response_header, send_both, status_lines, transfer_part, typed,
}
use ott_server.Http.Response.Files.{http_send_file_response_lem}
use ott_server.Http.Response.Laws.{http_send_response_lem, optional_text}
use ott_server.Http.Socket.{Client, Incoming, send_all, send_loop}
use ott_server.Tests.Utils.{chunks}

abbrev always : ℕ → Bool
always n = true

abbrev hello : Incoming
hello =
    codes "GET /api/videos?q=a HTTP/1.1\r\nHost: x\r\n" ∷ codes "content-length: 2\r\n\r\nhi" ∷ []

abbrev hello_request : Request
hello_request = record {
  method = get;
  path = codes "/api/videos";
  query = codes "q=a";
  http_version = codes "HTTP/1.1";
  headers =
      record { name = codes "Host"; value = codes "x"; generation = 0 }
      ∷ record { name = codes "content-length"; value = codes "2"; generation = 0 }
      ∷ [];
  body = some (codes "hi");
  body_length = 2;
  raw_length = 62;
  generation = 0;
}

hello_parsed : http_parse_request always 100 none hello ≡ ok (hello_request, [])
unfolding http_parse_request read_headers read_rest read_body make_room receive split_on parse_head
    content_length
hello_parsed = refl

http_parse_request_ends_example : http_parse_request always 100 none hello ≢ stuck
http_parse_request_ends_example = http_parse_request_ends always 100 hello (omega arith)

http_parse_request_limits_example :
    (hello_request.body_length ≡ content_length hello_request)
    × (hello_request.body_length ≤ max_buffer)
    × (hello_request.raw_length < initial_buffer + hello_request.body_length)
    × (length hello_request.headers ≤ header_slots)
    × IsReceived hello [] hello_request
http_parse_request_limits_example =
    http_parse_request_limits always 100 hello (omega arith) hello_request [] hello_parsed

abbrev copies : ℕ → Bytes
copies zero = []
copies (suc n) = b'a' ∷ copies n

abbrev large : Incoming
large = codes "POST / HTTP/1.1\r\nContent-Length: 8192\r\n\r\n" ∷ copies 8192 ∷ []

abbrev large_request : Request
large_request = record {
  method = post;
  path = codes "/";
  query = [];
  http_version = codes "HTTP/1.1";
  headers = record { name = codes "Content-Length"; value = codes "8192"; generation = 0 } ∷ [];
  body = some (copies 8192);
  body_length = 8192;
  raw_length = 8233;
  generation = 1;
}

large_parsed : http_parse_request always 9000 none large ≡ ok (large_request, [])
unfolding http_parse_request read_headers read_rest read_body make_room receive split_on parse_head
    content_length
large_parsed = refl

http_parse_request_dangling_example :
    All (λ (h : Header). h.generation ≢ large_request.generation) large_request.headers
http_parse_request_dangling_example =
    http_parse_request_dangling always 9000 large (omega arith) large_request [] large_parsed
      (omega arith)

abbrev slow_client : Client
slow_client = record { received = []; accepts = 5 ∷ 500 ∷ 500 ∷ []; transfer = chunks }

abbrev answer : Bytes
answer = codes "HTTP/1.1 200 OK\r\nConnection: close\r\nContent-Length: 2\r\nX: y\r\n\r\nhi"

answered :
    http_send_response slow_client 200
      (codes "OK")
      none
      (some (codes "hi"))
      (some (codes "X: y\r\n"))
    ≡ (record { received = answer; accepts = []; transfer = chunks }, true)
unfolding http_send_response response_header status_lines decimal digits_onto send_both send_all
    send_loop
answered = refl

http_send_response_lem_example :
    answer
    ≡ slow_client.received
      ++ (status_lines 200 (codes "OK") (length (optional_text (some (codes "hi"))))
          ++ (optional_text (typed none)
              ++ (optional_text (some (codes "X: y\r\n"))
                  ++ (crlf ++ optional_text (some (codes "hi"))))))
http_send_response_lem_example =
    http_send_response_lem slow_client 200 (codes "OK") none (some (codes "hi"))
      (some (codes "X: y\r\n")) (record { received = answer; accepts = []; transfer = chunks })
      answered

abbrev part_client : Client
part_client = record slow_client { accepts = 5 ∷ 500 ∷ 500 ∷ 500 ∷ [] }

abbrev one_file : Files
one_file path = if str_eq path (codes "a") then some (codes "hello") else none

abbrev part_answer : Bytes
part_answer =
    codes "HTTP/1.1 206 P\r\nConnection: close\r\nContent-Length: 3\r\nContent-Type: t\r\n\r\nell"

part_sent :
    http_send_file_response one_file part_client 206
      (codes "P")
      (some (codes "t"))
      (codes "a")
      1
      3
      none
    ≡ (record { received = part_answer; accepts = []; transfer = chunks }, true)
unfolding http_send_file_response file_header status_lines content_type_line decimal digits_onto
    transfer_part read_loop send_all send_loop str_eq
part_sent = refl

http_send_file_response_lem_example :
    (before part rest : Bytes) × (one_file (codes "a") ≡ some (before ++ (part ++ rest)))
    × (length before ≡ 1)
    × (◌≡◌ {A = ℕ} 3 0 → rest ≡ [])
    × (0 < 3 → length part ≡ min 3 (length part + length rest))
    × (part_answer
        ≡ part_client.received
          ++ (status_lines 206 (codes "P") (length part)
              ++ (content_type_line (codes "t") ++ (optional_text none ++ (crlf ++ part)))))
http_send_file_response_lem_example =
    http_send_file_response_lem part_client 206 (codes "P") (some (codes "t")) 1 3 none
      (record { received = part_answer; accepts = []; transfer = chunks }) one_file (codes "a")
      part_sent

partly_sent :
    send_all (record { received = []; accepts = 2 ∷ 0 ∷ []; transfer = chunks }) (codes "hello")
    ≡ (record { received = codes "he"; accepts = []; transfer = chunks }, false)
unfolding send_all send_loop
partly_sent = refl
