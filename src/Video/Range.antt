-- ===== src/Video/Range.antt =====
-- server/src/video.c: `parse_range_header`.
pub mod Laws
use ott_server.Base.{
  Option, [], drop, if◌then◌else◌, leb_ℤ, ltb, ltb_ℤ, negsuc, none, pos, some, sub_ℕ, suc, zero, ℕ,
  ℤ, ◌||◌, ◌∷◌,
}
use ott_server.Cstr.{Bytes, codes, split_at, starts_with, strtol}

-- "bytes=-n": the last n bytes.
abbrev pub suffix_range : ℕ → ℤ → Option (ℤ × ℤ)
suffix_range file_size (negsuc n) = none
suffix_range file_size (pos zero) = none
suffix_range file_size (pos (suc n)) =
    let suffix = if ltb file_size (suc n) then file_size else suc n in
    some (sub_ℕ file_size suffix, sub_ℕ file_size 1)

-- An end that is given.
abbrev pub end_at : ℕ → ℤ → ℤ → Option (ℤ × ℤ)
end_at file_size start last =
    let bounded = if leb_ℤ (pos file_size) last then sub_ℕ file_size 1 else last in
    if ltb_ℤ last start then none else some (start, bounded)

-- What follows the dash: nothing, or the end.
abbrev pub end_range : ℕ → ℤ → Bytes → Option (ℤ × ℤ)
end_range file_size start [] = some (start, sub_ℕ file_size 1)
end_range file_size start (c ∷ s) = end_at file_size start (strtol (c ∷ s)).0

abbrev pub start_at : ℕ → Bytes → ℤ → Option (ℤ × ℤ)
start_at file_size after start =
    if ltb_ℤ start (pos 0) || leb_ℤ (pos file_size) start
    then none
    else end_range file_size start after

-- The range round its first dash; the start is read from the whole of `range`.
abbrev pub range_bounds : ℕ → Bytes → Option (Bytes × Bytes) → Option (ℤ × ℤ)
range_bounds file_size range none = none
range_bounds file_size range (some ([], after)) = suffix_range file_size (strtol after).0
range_bounds file_size range (some (c ∷ before, after)) = start_at file_size after (strtol range).0

-- The first and the last byte, of a header that is not null.
unfoldable pub parse_range_header : Bytes → ℕ → Option (ℤ × ℤ)
unfolding starts_with split_at
parse_range_header header file_size =
    let range = drop 6 header in
    if starts_with (codes "bytes=") header
    then range_bounds file_size range (split_at b'-' range)
    else none
