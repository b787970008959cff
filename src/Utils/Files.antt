-- ===== src/Utils/Files.antt =====
-- server/src/utils.c: what it does with files, over what the operating system finds and answers.
use ott_server.Base.{
  Bool, Option, [], false, if◌then◌else◌, length, none, some, true, ℕ, ◌&&◌, ◌+◌, ◌==◌, ◌>>=◌, ◌||◌,
  ◌∷◌,
}
use ott_server.Cstr.{Bytes}

-- What stat finds at a path, with the contents of a file.
pub data Node : Type 0 where
  directory : Node
  file : Bytes → Node

abbrev pub Tree : Type 0
Tree = Bytes → Option Node

-- The files that can be read.
abbrev pub contents_of : Option Node → Option Bytes
contents_of none = none
contents_of (some directory) = none
contents_of (some (file contents)) = some contents

-- What mkdir returns: 0, -1 with EEXIST, or -1 with another error.
pub data Mkdir : Type 0 where
  made already_there not_made : Mkdir

abbrev pub is_made : Mkdir → Bool
is_made not_made = false
is_made _ = true

abbrev pub ensured_node : Option Node → Mkdir → Bool
ensured_node (some directory) answer = true
ensured_node (some (file contents)) answer = false
ensured_node none answer = is_made answer

unfoldable pub ensure_directory : Tree → (Bytes → Mkdir) → Bytes → Bool
ensure_directory tree mkdir path = ensured_node (tree path) (mkdir path)

-- `transferred` says whether fseek, ftell and fread succeed for a path, `malloc` whether a buffer is
-- granted.
unfoldable pub read_file : Tree → (Bytes → Bool) → (ℕ → Bool) → Bytes → Option Bytes
read_file tree transferred malloc path = do
  contents ← contents_of (tree path)
  if malloc (length contents + 1) && transferred path then some contents else none

abbrev pub is_newline : ℕ → Bool
is_newline c = c == b'\n' || c == b'\r'

abbrev pub keep_or_end : ℕ → Bytes → Bytes
keep_or_end c [] = if is_newline c then [] else c ∷ []
keep_or_end c (d ∷ s) = c ∷ d ∷ s

unfoldable pub trim_trailing_newline : Bytes → Bytes
trim_trailing_newline [] = []
trim_trailing_newline (c ∷ s) = keep_or_end c (trim_trailing_newline s)
