-- ===== src/Tests/Video.antt =====
-- server/src/video.c on concrete queries and ranges.
use ott_server.Base.{Bool, List, [], arith, negsuc, pos, refl, some, true, ℕ, ◌<◌, ◌∷◌, ◌≡◌, ◌≤◌}
use ott_server.Cstr.{
  Bytes, clamp_long, codes, drop_spaces, lookup, read_digits, read_sign, split_all, split_at,
  split_at_last, starts_digit, starts_with, str_eq, strtol,
}
use ott_server.Video.Query.{
  decode_loop, decoded_at, escape_at, find_pair, hex_value, page, query_get_int, query_get_param,
  to_int, url_decode_component,
}
use ott_server.Video.Query.Params.{build_query, query_get_param-build_query}
use ott_server.Video.Range.{parse_range_header}
use ott_server.Video.Range.Laws.{parse_range_header_bounds}
use ott_server.Video.Resume.{Entry, Growing, push, resume_map_add, set_position}
use ott_server.Video.Titles.{make_title, parse_int}

page_read : page (codes "limit=70&cursor=-3") ≡ (pos 50, pos 0)
unfolding page query_get_int query_get_param find_pair split_all split_at str_eq
    url_decode_component decode_loop decoded_at escape_at hex_value to_int strtol drop_spaces
    read_sign starts_digit read_digits clamp_long
page_read = refl

decoded : url_decode_component (codes "a+b%2Fc%zz") 128 ≡ some (codes "a b/c%zz")
unfolding url_decode_component decode_loop decoded_at escape_at hex_value
decoded = refl

range_read : parse_range_header (codes "bytes=2-99") 10 ≡ some (pos 2, pos 9)
unfolding parse_range_header starts_with split_at strtol drop_spaces read_sign starts_digit
    read_digits clamp_long
range_read = refl

-- An empty file and a suffix range: the range ends before it starts.
empty_read : parse_range_header (codes "bytes=-5") 0 ≡ some (pos 0, negsuc 0)
unfolding parse_range_header starts_with split_at strtol drop_spaces read_sign starts_digit
    read_digits clamp_long
empty_read = refl

parse_range_header_bounds_example :
    (first last : ℕ) × (pos 2 ≡ pos first) × (pos 9 ≡ pos last) × (first ≤ last) × (last < 10)
parse_range_header_bounds_example =
    parse_range_header_bounds (codes "bytes=2-99") 10 (pos 2) (pos 9) (omega arith) range_read

abbrev search : List (Bytes × Bytes)
search = (codes "limit", codes "5") ∷ (codes "q", codes "a&") ∷ []

query_get_param-build_query_example :
    query_get_param (build_query search) (codes "q") 128 ≡ lookup (codes "q") search
query_get_param-build_query_example =
    query_get_param-build_query (codes "q") 128 search (omega arith) (
      (
        ((refl, refl), ((refl, refl), ((refl, refl), ((refl, refl), ((refl, refl), tt))))),
        (omega arith, tt),
        omega arith,
      ),
      ((((refl, refl), tt), (omega arith, (omega arith, tt)), omega arith), tt),
    )

abbrev grants_all : ℕ → Bool
grants_all n = true

abbrev positions : Growing (Entry ℕ)
positions = record { items = record { video_id = 3; position = 10 } ∷ []; capacity = 8 }

abbrev more_positions : Growing (Entry ℕ)
more_positions = record {
  items = record { video_id = 3; position = 10 } ∷ record { video_id = 4; position = 20 } ∷ [];
  capacity = 8;
}

position_added : resume_map_add grants_all positions 4 20 ≡ some more_positions
unfolding resume_map_add push set_position
position_added = refl

titled : make_title (codes "media/green_hills-2.MP4") 256 ≡ codes "green hills 2"
unfolding make_title split_at_last
titled = refl

id_read : parse_int (some (codes "42")) ≡ some 42
unfolding parse_int strtol drop_spaces read_sign starts_digit read_digits clamp_long
id_read = refl
