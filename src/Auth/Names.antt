-- ===== src/Auth/Names.antt =====
-- server/src/auth.c: `trim_whitespace` and `is_valid_username`; video.c has the former as
-- `trim_spaces`.
pub mod Laws
use ott_server.Base.{Bool, [], false, if◌then◌else◌, length, ltb, true, ℕ, ◌==◌, ◌||◌, ◌∷◌}
use ott_server.Cstr.{Bytes, drop_spaces, is_alnum, is_space}

abbrev pub keep_or_drop : ℕ → Bytes → Bytes
keep_or_drop c [] = if is_space c then [] else c ∷ []
keep_or_drop c (d ∷ s) = c ∷ d ∷ s

-- The loop over `end`: the text without the white space at its end.
unfoldable pub trim_end : Bytes → Bytes
trim_end [] = []
trim_end (c ∷ s) = keep_or_drop c (trim_end s)

unfoldable pub trim_whitespace : Bytes → Bytes
unfolding trim_end drop_spaces
trim_whitespace s = trim_end (drop_spaces s)

abbrev pub username_max_len : ℕ
username_max_len = 32

abbrev pub is_name_byte : ℕ → Bool
is_name_byte c = is_alnum c || c == b'-' || c == b'_' || c == b'.'

unfoldable pub all_name_bytes : Bytes → Bool
all_name_bytes [] = true
all_name_bytes (c ∷ s) = let rest = all_name_bytes s in if is_name_byte c then rest else false

unfoldable pub is_valid_username : Bytes → Bool
unfolding all_name_bytes
is_valid_username username =
    if ltb (length username) 3 || ltb username_max_len (length username)
    then false
    else all_name_bytes username
