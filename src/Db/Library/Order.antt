-- ===== src/Db/Library/Order.antt =====
-- What SQLite does with the columns of watch_history: the order of updated_at, and doubles.
use mathlib.Core.Bool.{false≢true}
use mathlib.Core.List.{Permᴰ}
use mathlib.Core.List.Permᴰ.{cons, nil, swap, trans}
use mathlib.Core.List.Permᴰ as Permᴰ
use mathlib.Core.List.{Memᴰ}
use mathlib.Core.List.Memᴰ.{head, tail}
use ott_server.Base.{
  Bool, Bool-cases, List, [], arith, false, if◌then◌else◌, inl, inr, ltb, refl, sym, true, ◌==◌,
  ◌∙◌, ◌∷◌, ◌≡◌,
}
use ott_server.Cstr.{Bytes}
use ott_server.Db.Library.{Watch}

-- memcmp and then the lengths: the order of texts.
unfoldable pub bytes_leb : Bytes → Bytes → Bool
bytes_leb [] t = true
bytes_leb (c ∷ s) [] = false
bytes_leb (c ∷ s) (d ∷ t) = let rest = bytes_leb s t in if c == d then rest else ltb c d

bytes_leb_total : (s t : Bytes) → bytes_leb s t ≡ false → bytes_leb t s ≡ true
unfolding bytes_leb
bytes_leb_total [] t e = absurd (false≢true (sym e))
bytes_leb_total (c ∷ s) [] e = refl
bytes_leb_total (c ∷ s) (d ∷ t) e = let later = bytes_leb_total s t in ground arith

-- `newest` is ORDER BY updated_at DESC, which leaves the order of equal times open. A NaN that is
-- bound is stored as NULL, and sqlite3_column_double gives `zero` for it.
pub record Columns (Double : Type 0) : Type 0 where
  pub newest : List (Watch Double) → List (Watch Double)
  pub is_nan : Double → Bool
  pub zero_double : Double

-- What is read back of a double that was bound.
abbrev pub kept : {Double : Type 0} → Columns Double → Double → Double
kept sql d = if sql.is_nan d then sql.zero_double else d

module _ {Double : Type 0} where
  -- A row in front of others is no older than the next one.
  abbrev pub IsNewer : Watch Double → List (Watch Double) → Type 0
  IsNewer w [] = Unit
  IsNewer w (v ∷ rows) = bytes_leb v.updated_at w.updated_at ≡ true

  abbrev pub IsNewestFirst : List (Watch Double) → Type 0
  IsNewestFirst [] = Unit
  IsNewestFirst (w ∷ rows) = IsNewer w rows × IsNewestFirst rows

  -- The order gives the same rows, the newest first.
  abbrev pub IsOrdered : Columns Double → Type 0
  IsOrdered sql =
      (rows : List (Watch Double)) → Permᴰ (sql.newest rows) rows × IsNewestFirst (sql.newest rows)

  unfoldable pub insert_newest : Watch Double → List (Watch Double) → List (Watch Double)
  insert_newest w [] = w ∷ []
  insert_newest w (v ∷ rows) =
      let rest = insert_newest w rows in
      if bytes_leb v.updated_at w.updated_at then w ∷ v ∷ rows else v ∷ rest

  -- One such order.
  unfoldable pub newest_first : List (Watch Double) → List (Watch Double)
  newest_first [] = []
  newest_first (w ∷ rows) = insert_newest w (newest_first rows)

  insert_newest-Perm :
      (w : Watch Double) (rows : List (Watch Double)) → Permᴰ (insert_newest w rows) (w ∷ rows)
  unfolding insert_newest
  insert_newest-Perm w [] = Permᴰ.refl (w ∷ [])
  insert_newest-Perm w (v ∷ rows) =
      let rest = insert_newest-Perm w rows in
      elim (Bool-cases (bytes_leb v.updated_at w.updated_at)) [
        | inl newer ↦ rw newer (Permᴰ.refl (w ∷ v ∷ rows))
        | inr older ↦ rw older (trans (cons refl rest) (swap refl refl))
      ]

  insert_newest-IsNewestFirst :
      (w : Watch Double) (rows : List (Watch Double))
      → IsNewestFirst rows
      → IsNewestFirst (insert_newest w rows)
  unfolding insert_newest
  insert_newest-IsNewestFirst w [] sorted = (tt, tt)
  insert_newest-IsNewestFirst w (v ∷ rows) (next, sorted) =
      let rest = insert_newest-IsNewestFirst w rows sorted in
      elim (Bool-cases (bytes_leb v.updated_at w.updated_at)) [
        | inl newer ↦ rw newer (newer, (next, sorted))
        | inr older ↦
            rw older (behind rows next (bytes_leb_total v.updated_at w.updated_at older), rest)
      ]
    where
      behind :
          (others : List (Watch Double))
          → IsNewer v others
          → bytes_leb w.updated_at v.updated_at ≡ true
          → IsNewer v (insert_newest w others)
      behind [] next older = older
      behind (u ∷ others) next older = elim (Bool-cases (bytes_leb u.updated_at w.updated_at)) [
        | inl newer ↦ rw newer older
        | inr between ↦ rw between next
      ]

  pub newest_first-IsOrdered :
      (rows : List (Watch Double))
      → Permᴰ (newest_first rows) rows × IsNewestFirst (newest_first rows)
  unfolding newest_first
  newest_first-IsOrdered [] = (nil, tt)
  newest_first-IsOrdered (w ∷ rows) =
      let (perm, sorted) = newest_first-IsOrdered rows in
      (
        trans (insert_newest-Perm w (newest_first rows)) (cons refl perm),
        insert_newest-IsNewestFirst w (newest_first rows) sorted,
      )

  -- A reordering has the same members.
  pub member-Perm :
      {rows others : List (Watch Double)} (w : Watch Double)
      → Permᴰ rows others
      → Memᴰ w rows
      → Memᴰ w others
  member-Perm w nil m = elim m [ ]
  member-Perm w (cons e p) (head h) = head (h ∙ e)
  member-Perm w (cons e p) (tail m) = tail (member-Perm w p m)
  member-Perm w (swap e f) (head h) = tail (head (h ∙ e))
  member-Perm w (swap e f) (tail (head h)) = head (h ∙ f)
  member-Perm w (swap e f) (tail (tail m)) = tail (tail m)
  member-Perm w (trans p q) m = member-Perm w q (member-Perm w p m)
