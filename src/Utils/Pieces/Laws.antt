-- ===== src/Utils/Pieces/Laws.antt =====
-- What a run of appended pieces adds to the text of a builder.
use ott_server.Base.{
  >>=-eq-some, Bool, Bool-cases, List, [], append-nil, append_assoc, arith, inl, inr, some, ℕ, ◌++◌,
  ◌>>=◌, ◌∷◌, ◌≡◌,
}
use ott_server.Cstr.{Bytes}
use ott_server.Utils.Builder.{StringBuilder, sb_append, sb_init}
use ott_server.Utils.Builder.Laws.{IsBounded, IsBuilder, sb_append_lem}
use ott_server.Utils.Json.Quote.{quoted, sb_append_json_string_lem}
use ott_server.Utils.Pieces.{Piece, append_piece, append_pieces, as_string, as_text}

abbrev pub piece_text : Piece → Bytes
piece_text (as_text text) = text
piece_text (as_string text) = quoted text

abbrev pub pieces_text : List Piece → Bytes
pieces_text [] = []
pieces_text (p ∷ ps) = piece_text p ++ pieces_text ps

module _ (malloc : ℕ → ℕ → Bool) where
  append_piece_lem :
      (sb : StringBuilder) (p : Piece) (sb' : StringBuilder)
      → IsBounded malloc
      → IsBuilder sb
      → append_piece malloc sb p ≡ some sb'
      → (sb'.text ≡ sb.text ++ piece_text p) × IsBuilder sb'
  append_piece_lem sb (as_text text) sb' b v e = sb_append_lem malloc sb text sb' b v e
  append_piece_lem sb (as_string text) sb' b v e =
      sb_append_json_string_lem malloc sb text sb' b v e

  -- A run that succeeds appends every piece whole, in order, and keeps the builder's invariant.
  pub append_pieces_lem :
      (sb : StringBuilder) (ps : List Piece) (sb' : StringBuilder)
      → IsBounded malloc
      → IsBuilder sb
      → append_pieces malloc sb ps ≡ some sb'
      → (sb'.text ≡ sb.text ++ pieces_text ps) × IsBuilder sb'
  unfolding append_pieces
  append_pieces_lem sb [] sb' b v e = ground (arith, append-nil sb.text)
  append_pieces_lem sb (p ∷ ps) sb' b v e =
      let (next, e1, later) = >>=-eq-some (append_piece malloc sb p) _ e in
      let (t1, v1) = append_piece_lem sb p next b v e1 in
      let (t2, v2) = append_pieces_lem next ps sb' b v1 later in
      (rw (t2, t1) (append_assoc sb.text (piece_text p) (pieces_text ps)), v2)

  -- A new builder with its first text.
  pub sb_init-sb_append :
      (text : Bytes) (sb : StringBuilder)
      → IsBounded malloc
      → (do fresh ← sb_init malloc 0 512; sb_append malloc fresh text) ≡ some sb
      → (sb.text ≡ text) × IsBuilder sb
  unfolding sb_init
  sb_init-sb_append text sb b e = elim (Bool-cases (malloc 0 512)) [
    | inl granted ↦
        let fresh : StringBuilder = record { text = []; capacity = 512; allocations = 1 } in
        sb_append_lem malloc fresh text sb b (record { room = omega arith; bounded = omega arith })
          (rw granted at e)
    | inr denied ↦ absurd (cc (rw denied at e))
  ]
