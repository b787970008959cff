-- ===== src/Db/Library/Laws.antt =====
-- Which videos have a row, under which id, after an update or a deletion.
use mathlib.Core.Bool.{false≢true}
use ott_server.Base.{
  Bool, Bool-cases, List, Option, [], ap, false, if◌then◌else◌, inl, inr, none, refl, some, sym,
  true, ℕ, ℤ, ◌++◌, ◌||◌, ◌∙◌, ◌∷◌, ◌≡◌,
}
use ott_server.Cstr.{Bytes, str_eq, str_eq_iff}
use ott_server.Db.Library.{Library, Video, find_file, listed, set_video, videos_where}
use ott_server.Db.Library.Statements.{upserted_video}

abbrev pub id_of : Option Video → Option ℕ
id_of none = none
id_of (some v) = some v.id

-- The id of the row of a file, if it has one.
abbrev pub file_id : Bytes → List Video → Option ℕ
file_id name videos = id_of (find_file name videos)

abbrev pub id_or : Option ℕ → Option ℕ → Option ℕ
id_or none other = other
id_or (some id) other = some id

id_of_cons :
    (b : Bool) (v w : Video) (r s : Option Video)
    → v.id ≡ w.id
    → id_of r ≡ id_of s
    → id_of (if b then some v else r) ≡ id_of (if b then some w else s)
id_of_cons true v w r s same rest = ap some same
id_of_cons false v w r s same rest = rest

pub file_id-set_video :
    (title name : Bytes) (description : Option Bytes) (duration : ℤ) (videos : List Video)
    (n : Bytes)
    → file_id n (set_video title name description duration videos) ≡ file_id n videos
unfolding find_file set_video
file_id-set_video title name description duration [] n = refl
file_id-set_video title name description duration (v ∷ videos) n =
    elim (Bool-cases (str_eq v.filename name)) [
      | inl same ↦ rw same (
          id_of_cons (str_eq v.filename n)
            (record v { title = title; description = description; duration = duration }) v _ _ refl
            (file_id-set_video title name description duration videos n))
      | inr other ↦ rw other (
          id_of_cons (str_eq v.filename n) v v _ _ refl
            (file_id-set_video title name description duration videos n))
    ]

pub file_id_append :
    (videos : List Video) (new : Video) (n : Bytes)
    → file_id n (videos ++ new ∷ [])
      ≡ id_or (file_id n videos) (if str_eq new.filename n then some new.id else none)
unfolding find_file
file_id_append [] new n = go (str_eq new.filename n)
  where
    go : (b : Bool) → id_of (if b then some new else none) ≡ (if b then some new.id else none)
    go true = refl
    go false = refl
file_id_append (v ∷ videos) new n = go (str_eq v.filename n) (file_id_append videos new n)
  where
    go :
        (b : Bool)
        → file_id n (videos ++ new ∷ [])
          ≡ id_or (file_id n videos) (if str_eq new.filename n then some new.id else none)
        → id_of (if b then some v else find_file n (videos ++ new ∷ []))
          ≡ id_or
              (id_of (if b then some v else find_file n videos))
              (if str_eq new.filename n then some new.id else none)
    go true h = refl
    go false h = h

pub file_id-videos_where :
    (keep : Bytes → Bool) (videos : List Video) (n : Bytes)
    → file_id n (videos_where (λ v. keep v.filename) videos)
      ≡ (if keep n then file_id n videos else none)
unfolding find_file videos_where
file_id-videos_where keep [] n = go (keep n)
  where
    go : (b : Bool) → ◌≡◌ {A = Option ℕ} none (if b then none else none)
    go true = refl
    go false = refl
file_id-videos_where keep (v ∷ videos) n = elim (Bool-cases (str_eq v.filename n)) [
  | inl same ↦
      let here = (str_eq_iff v.filename n).0 same in
      at_file (keep v.filename) refl same (ap keep here) (file_id-videos_where keep videos n)
  | inr other ↦ elsewhere (keep v.filename) other (keep n) (file_id-videos_where keep videos n)
]
  where
    at_file :
        (b : Bool)
        → keep v.filename ≡ b
        → str_eq v.filename n ≡ true
        → keep v.filename ≡ keep n
        → file_id n (videos_where (λ w. keep w.filename) videos)
          ≡ (if keep n then file_id n videos else none)
        → file_id n (
            if b
            then v ∷ videos_where (λ w. keep w.filename) videos
            else videos_where (λ w. keep w.filename) videos)
          ≡ (if keep n
              then id_of (if str_eq v.filename n then some v else find_file n videos)
              else none)
    at_file true e same k h = rw (same, (sym k ∙ e)) refl
    at_file false e same k h = let dropped = sym k ∙ e in h ∙ rw dropped refl

    elsewhere :
        (b : Bool)
        → str_eq v.filename n ≡ false
        → (kept : Bool)
        → file_id n (videos_where (λ w. keep w.filename) videos)
          ≡ (if kept then file_id n videos else none)
        → file_id n (
            if b
            then v ∷ videos_where (λ w. keep w.filename) videos
            else videos_where (λ w. keep w.filename) videos)
          ≡ (if kept
              then id_of (if str_eq v.filename n then some v else find_file n videos)
              else none)
    elsewhere true other kept h = rw other h
    elsewhere false other kept h = rw other h

-- The id of a file after the upsert of a file: the old one, and the next one for a new row.
pub file_id-upserted_video :
    {Double : Type 0} (l : Library Double) (title name : Bytes) (description : Option Bytes)
    (duration : ℤ) (n : Bytes)
    → file_id n
        (upserted_video l title name description duration (find_file name l.videos)).0.videos
      ≡ id_or (file_id n l.videos) (if str_eq name n then some l.next_video else none)
file_id-upserted_video l title name description duration n = go (find_file name l.videos) refl
  where
    go :
        (row : Option Video)
        → find_file name l.videos ≡ row
        → file_id n (upserted_video l title name description duration row).0.videos
          ≡ id_or (file_id n l.videos) (if str_eq name n then some l.next_video else none)
    go none e = file_id_append l.videos _ n
    go (some v) e =
        file_id-set_video title name description duration l.videos n
        ∙ there (file_id n l.videos) refl (str_eq name n) refl
      where
        there :
            (id : Option ℕ)
            → file_id n l.videos ≡ id
            → (b : Bool) → str_eq name n ≡ b
            → id ≡ id_or id (if b then some l.next_video else none)
        there (some i) k b h = refl
        there none k false h = refl
        there none k true h =
            let same = ap (λ m. file_id m l.videos) (sym ((str_eq_iff name n).0 h)) in
            absurd (cc (sym k ∙ (same ∙ ap id_of e)))

pub listed_added :
    (name : Bytes) (names : List Bytes) (n : Bytes)
    → listed n (if listed name names then names else name ∷ names)
      ≡ (listed n names || str_eq name n)
unfolding listed
listed_added name names n = elim (Bool-cases (listed name names)) [
  | inl there ↦ rw there (known (listed n names) refl (str_eq name n) refl there)
  | inr fresh ↦ rw fresh (either (str_eq name n) (listed n names))
]
  where
    known :
        (a : Bool)
        → listed n names ≡ a
        → (b : Bool) → str_eq name n ≡ b
        → listed name names ≡ true
        → a ≡ (a || b)
    known true k b e there = refl
    known false k false e there = refl
    known false k true e there =
        absurd
          (false≢true (sym k ∙ (ap (λ m. listed m names) (sym ((str_eq_iff name n).0 e)) ∙ there)))

    either : (a b : Bool) → (if a then true else b) ≡ (b || a)
    either true true = refl
    either true false = refl
    either false true = refl
    either false false = refl
