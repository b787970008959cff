-- ===== src/Video/Resume.antt =====
-- server/src/video.c: the map of resume positions and the list of file names.
pub mod Laws
use ott_server.Base.{
  Bool, List, Option, [], if◌then◌else◌, length, none, some, ℕ, ◌*◌, ◌++◌, ◌+◌, ◌==◌, ◌∷◌,
}
use ott_server.Cstr.{Bytes}

-- resume_entry_t, for a type of doubles; ids are the positive ids of the table.
pub record Entry (Double : Type 0) : Type 0 where
  pub video_id : ℕ
  pub position : Double

-- A growing array: resume_map_t and filename_list_t; its count is the length of `items`.
pub record Growing (A : Type 0) : Type 0 where
  pub items : List A
  pub capacity : ℕ

-- The capacity that is asked for when the array is full.
abbrev pub next_capacity : ℕ → ℕ
next_capacity capacity = if capacity == 0 then 8 else capacity * 2

-- `grants n` says whether realloc returns room for n elements.
module _ {A : Type 0} (grants : ℕ → Bool) where
  -- `if (count == capacity)` and the new element.
  unfoldable pub push : Growing A → A → Option (Growing A)
  push list a =
      let more = next_capacity list.capacity in
      if length list.items == list.capacity
      then (if grants more
          then some (record { items = list.items ++ a ∷ []; capacity = more })
          else none)
      else some (record { items = list.items ++ a ∷ []; capacity = list.capacity })

-- `filename_list_add`; `copies` says whether malloc returns room for the copy of a name.
unfoldable pub filename_list_add :
    (ℕ → Bool) → (ℕ → Bool) → Growing Bytes → Bytes → Option (Growing Bytes)
unfolding push
filename_list_add grants copies list name =
    if copies (length name + 1) then push grants list name else none

module _ {Double : Type 0} where
  -- The first loop of `resume_map_add`: the entries with the new position, or none of this id.
  abbrev pub keep_entry : Entry Double → Option (List (Entry Double)) → Option (List (Entry Double))
  keep_entry e none = none
  keep_entry e (some rest) = some (e ∷ rest)

  unfoldable pub set_position : ℕ → Double → List (Entry Double) → Option (List (Entry Double))
  set_position id position [] = none
  set_position id position (e ∷ entries) =
      let rest = set_position id position entries in
      if e.video_id == id
      then some (record { video_id = id; position = position } ∷ entries)
      else keep_entry e rest

  abbrev pub set_or_push :
      (ℕ → Bool)
      → Growing (Entry Double)
      → Entry Double
      → Option (List (Entry Double))
      → Option (Growing (Entry Double))
  set_or_push grants entries e none = push grants entries e
  set_or_push grants entries e (some items) =
      some (record { items = items; capacity = entries.capacity })

  unfoldable pub resume_map_add :
      (ℕ → Bool) → Growing (Entry Double) → ℕ → Double → Option (Growing (Entry Double))
  unfolding push set_position
  resume_map_add grants entries id position =
      set_or_push grants entries (record { video_id = id; position = position })
        (set_position id position entries.items)

  unfoldable pub resume_map_find : List (Entry Double) → ℕ → Option Double
  resume_map_find [] id = none
  resume_map_find (e ∷ entries) id =
      let rest = resume_map_find entries id in if e.video_id == id then some e.position else rest
