-- ===== src/Utils/Json/Quote.antt =====
-- What `sb_append_json_string` writes.
use ott_server.Base.{
  >>=-eq-some, Bool, [], append-nil, append_assoc, arith, some, ℕ, ◌++◌, ◌∷◌, ◌≡◌,
}
use ott_server.Cstr.{Bytes, codes}
use ott_server.Utils.Builder.{StringBuilder, sb_append}
use ott_server.Utils.Builder.Laws.{IsBounded, IsBuilder, sb_append_lem}
use ott_server.Utils.Json.{append_escaped, json_escape, sb_append_json_string}

-- The bytes of a value, escaped.
abbrev pub escaped : Bytes → Bytes
escaped [] = []
escaped (c ∷ s) = json_escape c ++ escaped s

abbrev pub quoted : Bytes → Bytes
quoted s = b'"' ∷ (escaped s ++ b'"' ∷ [])

module _ (malloc : ℕ → ℕ → Bool) where
  append_escaped_lem :
      (sb : StringBuilder) (s : Bytes) (sb' : StringBuilder)
      → IsBounded malloc
      → IsBuilder sb
      → append_escaped malloc sb s ≡ some sb'
      → (sb'.text ≡ sb.text ++ escaped s) × IsBuilder sb'
  unfolding append_escaped
  append_escaped_lem sb [] sb' b v e = ground (arith, append-nil sb.text)
  append_escaped_lem sb (c ∷ s) sb' b v e =
      let (next, e1, later) = >>=-eq-some (sb_append malloc sb (json_escape c)) _ e in
      let (t1, v1) = sb_append_lem malloc sb (json_escape c) next b v e1 in
      let (t2, v2) = append_escaped_lem next s sb' b v1 later in
      (rw (t2, t1) (append_assoc sb.text (json_escape c) (escaped s)), v2)

  -- A successful call appends the value between quotes, escaped, and keeps the builder's invariant.
  pub sb_append_json_string_lem :
      (sb : StringBuilder) (value : Bytes) (sb' : StringBuilder)
      → IsBounded malloc
      → IsBuilder sb
      → sb_append_json_string malloc sb (some value) ≡ some sb'
      → (sb'.text ≡ sb.text ++ quoted value) × IsBuilder sb'
  unfolding sb_append_json_string
  sb_append_json_string_lem sb value sb' b v e =
      let (opened, e1, later) = >>=-eq-some (sb_append malloc sb (codes "\"")) _ e in
      let (filled, e2, last) = >>=-eq-some (append_escaped malloc opened value) _ later in
      let (t1, v1) = sb_append_lem malloc sb (codes "\"") opened b v e1 in
      let (t2, v2) = append_escaped_lem opened value filled b v1 e2 in
      let (t3, v3) = sb_append_lem malloc filled (codes "\"") sb' b v2 last in
      (rw (t3, t2, t1) (simp append_assoc), v3)
