-- ===== src/Video/Titles.antt =====
-- server/src/video.c: the file names of videos and their titles, and the ids in paths.
use ott_server.Base.{
  Bool, Option, [], false, if◌then◌else◌, leb, map, none, pos, some, ℕ, ℤ, ◌==◌, ◌||◌, ◌∷◌,
}
use ott_server.Cstr.{Bytes, codes, int_max, split_at_last, str_case_eq, strtol, truncated}

-- `has_mp4_extension`: what stands behind the last dot, whatever its case.
abbrev pub is_mp4 : Option (Bytes × Bytes) → Bool
is_mp4 none = false
is_mp4 (some (_, ext)) = str_case_eq (b'.' ∷ ext) (codes ".mp4")

unfoldable pub has_mp4_extension : Bytes → Bool
unfolding split_at_last str_case_eq
has_mp4_extension name = is_mp4 (split_at_last b'.' name)

-- What stands behind the last separator, or before it; all if there is none.
abbrev pub behind_or_all : Bytes → Option (Bytes × Bytes) → Bytes
behind_or_all s none = s
behind_or_all s (some (_, rest)) = rest

abbrev pub before_or_all : Bytes → Option (Bytes × Bytes) → Bytes
before_or_all s none = s
before_or_all s (some (start, _)) = start

abbrev pub spaced : ℕ → ℕ
spaced c = if c == b'_' || c == b'-' then b' ' else c

-- The title that a name without its directory gives, and the file name in place of an empty one.
abbrev pub title_or : Bytes → Bytes → Bytes
title_or filename [] = filename
title_or filename (c ∷ s) = c ∷ s

-- `make_title`: the name, in 256 bytes, without its extension, and with spaces for `_` and `-`.
unfoldable pub make_title : Bytes → ℕ → Bytes
unfolding split_at_last
make_title filename len =
    let base = truncated 256 (behind_or_all filename (split_at_last b'/' filename)) in
    truncated len (title_or filename (map spaced (before_or_all base (split_at_last b'.' base))))

-- `parse_int` of video.c and history.c: a number in full from 0 to INT_MAX; none stands for -1.
abbrev pub int_of : ℤ × Bytes → Option ℕ
int_of (pos n, []) = if leb n int_max then some n else none
int_of _ = none

unfoldable pub parse_int : Option Bytes → Option ℕ
unfolding strtol
parse_int none = none
parse_int (some s) = int_of (strtol s)
