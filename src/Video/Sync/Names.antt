-- ===== src/Video/Sync/Names.antt =====
-- The names that `sync_media_directory` collects, and what becomes of the ids of files.
use mathlib.Core.Bool.{false≢true}
use ott_server.Base.{
  Bool, List, Option, [], ap, false, if◌then◌else◌, length, none, refl, some, sym, true, ℕ, ◌&&◌,
  ◌++◌, ◌+◌, ◌==◌, ◌∙◌, ◌∷◌, ◌≡◌,
}
use ott_server.Cstr.{Bytes, split_at_last, str_eq, str_eq_iff}
use ott_server.Db.Library.{listed}
use ott_server.Db.Library.Laws.{id_or}
use ott_server.Router.{non_empty}
use ott_server.Video.Resume.{Growing, filename_list_add, next_capacity, push}
use ott_server.Video.Sync.{is_media}
use ott_server.Video.Titles.{has_mp4_extension}

-- The entries that are videos.
unfoldable pub media_names : List Bytes → List Bytes
unfolding is_media
media_names [] = []
media_names (name ∷ entries) =
    let rest = media_names entries in if is_media name then name ∷ rest else rest

abbrev pub is_there : Option ℕ → Bool
is_there none = false
is_there (some id) = true

-- The id of a file that had the id `before`: it keeps it, or has one if the file is `there`.
abbrev pub IsScanned : Option ℕ → Bool → Option ℕ → Type 0
IsScanned (some id) there after = after ≡ some id
IsScanned none there after = is_there after ≡ there

-- The same, of a library without the files that are not there.
abbrev pub IsSynced : Option ℕ → Bool → Option ℕ → Type 0
IsSynced (some id) there after = after ≡ (if there then some id else none)
IsSynced none there after = is_there after ≡ there

pub IsScanned-step :
    (before : Option ℕ) (here rest : Bool) (next : ℕ) (after : Option ℕ)
    → IsScanned (id_or before (if here then some next else none)) rest after
    → IsScanned before (if here then true else rest) after
IsScanned-step (some id) here rest next after h = h
IsScanned-step none true rest next after h = ap is_there h
IsScanned-step none false rest next after h = h

pub IsScanned-prune :
    (before : Option ℕ) (there : Bool) (after : Option ℕ)
    → IsScanned before there after
    → IsSynced before there (if there then after else none)
IsScanned-prune (some id) true after h = h
IsScanned-prune (some id) false after h = refl
IsScanned-prune none true after h = h
IsScanned-prune none false after h = refl

pub filename_list_add_granted :
    (grants copies : ℕ → Bool) (files : Growing Bytes) (name : Bytes)
    → ((n : ℕ) → grants n ≡ true)
    → ((n : ℕ) → copies n ≡ true)
    → (more : Growing Bytes) × (filename_list_add grants copies files name ≡ some more)
      × (more.items ≡ files.items ++ name ∷ [])
unfolding filename_list_add push
filename_list_add_granted grants copies files name granted copied =
    rw (copied (length name + 1), granted (next_capacity files.capacity))
      (go (length files.items == files.capacity))
  where
    go :
        (b : Bool)
        → (more : Growing Bytes) × ((if b
              then (if true
                  then some (record {
                    items = files.items ++ name ∷ [];
                    capacity = next_capacity files.capacity;
                  })
                  else none)
              else some (record { items = files.items ++ name ∷ []; capacity = files.capacity }))
            ≡ some more)
          × (more.items ≡ files.items ++ name ∷ [])
    go true = (_, refl, refl)
    go false = (_, refl, refl)

pub listed-non_empty-media_names :
    (entries : List Bytes) (n : Bytes)
    → listed n (non_empty (media_names entries)) ≡ listed n (media_names entries)
unfolding listed non_empty media_names is_media has_mp4_extension split_at_last
listed-non_empty-media_names [] n = refl
listed-non_empty-media_names ([] ∷ entries) n = listed-non_empty-media_names entries n
listed-non_empty-media_names ((c ∷ name) ∷ entries) n =
    go (is_media (c ∷ name)) (listed-non_empty-media_names entries n)
  where
    go :
        (b : Bool)
        → listed n (non_empty (media_names entries)) ≡ listed n (media_names entries)
        → listed n (non_empty (if b then (c ∷ name) ∷ media_names entries else media_names entries))
          ≡ listed n (if b then (c ∷ name) ∷ media_names entries else media_names entries)
    go true h = ap (λ r. if str_eq (c ∷ name) n then true else r) h
    go false h = h

pub listed-media_names :
    (entries : List Bytes) (n : Bytes)
    → listed n (media_names entries) ≡ (is_media n && listed n entries)
unfolding listed media_names
listed-media_names [] n = go (is_media n)
  where
    go : (b : Bool) → false ≡ (b && false)
    go true = refl
    go false = refl
listed-media_names (name ∷ entries) n =
    go (is_media name) refl (str_eq name n) refl (is_media n) refl (listed-media_names entries n)
  where
    go :
        (a : Bool)
        → is_media name ≡ a
        → (b : Bool) → str_eq name n ≡ b
        → (c : Bool) → is_media n ≡ c
        → listed n (media_names entries) ≡ (c && listed n entries)
        → listed n (if a then name ∷ media_names entries else media_names entries)
          ≡ (c && (if b then true else listed n entries))
    go true e true k true g h = rw k refl
    go true e true k false g h =
        absurd (false≢true (sym g ∙ (ap is_media (sym ((str_eq_iff name n).0 k)) ∙ e)))
    go true e false k c g h = rw k h
    go false e true k true g h =
        absurd (false≢true (sym e ∙ (ap is_media ((str_eq_iff name n).0 k) ∙ g)))
    go false e true k false g h = h
    go false e false k c g h = h
