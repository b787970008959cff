-- ===== src/Tests/Utils.antt =====
-- server/src/utils.c on concrete inputs.
use ott_server.Base.{
  Bool, [], arith, false, ltb, ltb→lt, lt→ltb, refl, some, true, ℕ, ◌++◌, ◌^◌, ◌∷◌, ◌≡◌,
}
use ott_server.Cstr.{codes, split_on, starts_with}
use ott_server.Http.Socket.{Transfer}
use ott_server.Utils.Base64.{base64url_encode, digit, encode_loop, encode_three, strip_padding}
use ott_server.Utils.Base64.Laws.{decode, decode-base64url_encode}
use ott_server.Utils.Builder.{StringBuilder, grow, sb_append, sb_reserve}
use ott_server.Utils.Builder.Laws.{IsBuilder, sb_append_lem, sb_append_total}
use ott_server.Utils.Json.{
  append_escaped, json_escape, json_get_string, key_pattern, quoted_value, read_json_string,
  sb_append_json_string, skip_separators,
}
use ott_server.Utils.Json.Quote.{quoted}
use ott_server.Utils.Json.RoundTrip.{json_get_string-quoted}

-- malloc and realloc grant every object up to PTRDIFF_MAX bytes.
abbrev heap : ℕ → ℕ → Bool
heap n size = ltb size (2 ^ 63)

abbrev small_builder : StringBuilder
small_builder = record { text = codes "ab"; capacity = 4; allocations = 1 }

abbrev grown_builder : StringBuilder
grown_builder = record { text = codes "abcdef"; capacity = 8; allocations = 2 }

appended : sb_append heap small_builder (codes "cdef") ≡ some grown_builder
unfolding sb_append sb_reserve grow
appended = refl

small_builder-IsBuilder : IsBuilder small_builder
small_builder-IsBuilder = record { room = omega arith; bounded = omega arith }

sb_append_lem_example : (codes "abcdef" ≡ codes "ab" ++ codes "cdef") × IsBuilder grown_builder
sb_append_lem_example =
    sb_append_lem heap small_builder (codes "cdef") grown_builder
      (λ n size e. ltb→lt size (2 ^ 63) e) small_builder-IsBuilder appended

sb_append_total_example :
    (sb : StringBuilder) × (sb_append heap small_builder (codes "cdef") ≡ some sb)
sb_append_total_example =
    sb_append_total heap small_builder (codes "cdef") (λ n size h. lt→ltb size (2 ^ 63) h)
      small_builder-IsBuilder (omega arith) (omega arith)

abbrev quoted_builder : StringBuilder
quoted_builder = record { text = codes "ab\"x\\n\""; capacity = 8; allocations = 2 }

quoted_text : sb_append_json_string heap small_builder (some (codes "x\n")) ≡ some quoted_builder
unfolding sb_append_json_string append_escaped json_escape sb_append sb_reserve grow
quoted_text = refl

json_get_string-quoted_example :
    json_get_string
      (codes "{"
        ++ ((b'"' ∷ (codes "q" ++ b'"' ∷ [])) ++ b':' ∷ (quoted (codes "a\"") ++ codes "}")))
      (codes "q")
      8
    ≡ some (codes "a\"")
json_get_string-quoted_example =
    json_get_string-quoted (codes "{") (codes "q") (codes "a\"") (codes "}") 8 (refl, tt)
      (omega arith) (omega arith, (omega arith, tt)) (omega arith)

login_name :
    json_get_string (codes "{\"username\": \"ann\"}") (codes "username") 33 ≡ some (codes "ann")
unfolding json_get_string key_pattern split_on starts_with skip_separators quoted_value
    read_json_string
login_name = refl

encoded : base64url_encode (codes "ab?") 8 ≡ some (codes "YWI_")
unfolding base64url_encode encode_loop encode_three digit strip_padding
encoded = refl

decode-base64url_encode_example : decode (codes "YWI_") ≡ codes "ab?"
decode-base64url_encode_example =
    decode-base64url_encode (codes "ab?") 8 (codes "YWI_")
      (omega arith, (omega arith, (omega arith, tt))) encoded

-- Files are read in pieces of two bytes.
abbrev pub chunks : Transfer
chunks = record { opens = true; seeks = true; by_sendfile = false; reads = 2 ∷ 2 ∷ 2 ∷ 2 ∷ [] }
