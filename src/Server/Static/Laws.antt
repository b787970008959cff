-- ===== src/Server/Static/Laws.antt =====
-- Which files a static response depends on.
use ott_server.Base.{
  Bool, Bool-cases, Option, [], ap, append_assoc, arith, drop, false, if◌then◌else◌, inl, inr, leb,
  length, none, refl, some, sym, take, take-append-drop, true, ◌++◌, ◌==◌, ◌∙◌, ◌∷◌, ◌≡◌, ◌≢◌,
}
use ott_server.Cstr.{Bytes, codes, split_on, split_on_sound, starts_with, starts_with-append}
use ott_server.Http.Response.{http_send_file_response}
use ott_server.Http.Socket.{Client}
use ott_server.Server.Static.{
  is_none, is_safe_path, join_path, path_max, relative_path, send_joined, send_node,
  serve_static_file,
}
use ott_server.Utils.Files.{Node, Tree, directory, file}

split_on_found : (p a t : Bytes) → split_on p (a ++ (p ++ t)) ≢ none
unfolding split_on
split_on_found [] [] [] = unfold starts_with in λ e. absurd cc
split_on_found [] [] (x ∷ t) = unfold starts_with in λ e. absurd cc
split_on_found (y ∷ p) [] t = rw (starts_with-append (y ∷ p) t) (λ e. absurd cc)
split_on_found p (x ∷ a) t =
    go ([], drop (length p) (x ∷ (a ++ (p ++ t)))) (starts_with p (x ∷ (a ++ (p ++ t))))
      (split_on p (a ++ (p ++ t))) (split_on_found p a t)
  where
    go :
        (here : Bytes × Bytes) (b : Bool) (rest : Option (Bytes × Bytes))
        → rest ≢ none
        → (if b then some here else elim rest [ none ↦ none | some (c, d) ↦ some (x ∷ c, d) ])
          ≢ none
    go here true rest n = λ e. absurd cc
    go here false none n = absurd (n refl)
    go here false (some cd) n = λ e. absurd cc

-- What stands in a part of a text stands in the text.
is_safe_path_part :
    (pre part trail : Bytes)
    → is_safe_path (pre ++ (part ++ trail)) ≡ true
    → is_safe_path part ≡ true
unfolding is_safe_path
is_safe_path_part pre part trail h = go (split_on (codes "..") part) refl
  where
    missing : (found : Option (Bytes × Bytes)) → is_none found ≡ true → found ≡ none
    missing none k = refl
    missing (some ab) k = absurd cc

    go :
        (found : Option (Bytes × Bytes)) → split_on (codes "..") part ≡ found → is_none found ≡ true
    go none e = refl
    go (some (a, t)) e =
        let split = split_on_sound (codes "..") part a t e in
        let same : pre ++ (part ++ trail) ≡ (pre ++ a) ++ (codes ".." ++ (t ++ trail)) = rw split (
          ap (◌++◌ pre) (append_assoc a (codes ".." ++ t) trail)
          ∙ sym (append_assoc pre a (codes ".." ++ (t ++ trail)))) in
        absurd (
          split_on_found (codes "..") (pre ++ a) (t ++ trail)
            (rw (← same) (missing (split_on (codes "..") (pre ++ (part ++ trail))) h)))

relative_path_safe :
    (path : Bytes) → is_safe_path path ≡ true → is_safe_path (relative_path path) ≡ true
unfolding relative_path
relative_path_safe [] h = h
relative_path_safe (c ∷ []) h = elim (Bool-cases (c == b'/')) [
  | inl slash ↦ rw slash (unfold is_safe_path split_on starts_with in refl)
  | inr other ↦ rw other h
]
relative_path_safe (c ∷ d ∷ s) h = elim (Bool-cases (c == b'/')) [
  | inl slash ↦ rw slash (
      is_safe_path_part (c ∷ []) (take 511 (d ∷ s)) (drop 511 (d ∷ s))
        (rw (take-append-drop 511 (d ∷ s)) h))
  | inr other ↦ rw other (
      is_safe_path_part [] (take 511 (c ∷ d ∷ s)) (drop 511 (c ∷ d ∷ s))
        (rw (take-append-drop 511 (c ∷ d ∷ s)) h))
]

module _ (first second : Tree) (static_dir security_headers : Bytes) (client : Client) where
  send_joined_agree :
      (relative : Bytes) (joined : Option Bytes)
      → ((full : Bytes) → joined ≡ some full → first full ≡ second full)
      → send_joined first static_dir security_headers client relative joined
        ≡ send_joined second static_dir security_headers client relative joined
  send_joined_agree relative none h = refl
  send_joined_agree relative (some full) h = go (second full) (h full refl) refl
    where
      go :
          (node : Option Node)
          → first full ≡ node
          → second full ≡ node
          → send_node first static_dir security_headers client relative full (first full)
            ≡ send_node second static_dir security_headers client relative full (second full)
      go none e f = rw (e, f) refl
      go (some directory) e f = rw (e, f) refl
      go (some (file contents)) e f = rw (e, f) (unfold http_send_file_response in rw (e, f) refl)

  -- A static response depends on nothing but the files below the directory of static files: on two
  -- file systems that agree on every path below it without ".." every request is answered alike.
  pub serve_static_file_confined :
      (path : Bytes)
      → ((relative : Bytes)
          → is_safe_path relative ≡ true
          → first (static_dir ++ b'/' ∷ relative) ≡ second (static_dir ++ b'/' ∷ relative))
      → serve_static_file first static_dir security_headers client path
        ≡ serve_static_file second static_dir security_headers client path
  unfolding serve_static_file
  serve_static_file_confined [] h = refl
  serve_static_file_confined (c ∷ s) h = elim (Bool-cases (is_safe_path (c ∷ s))) [
    | inl safe ↦ rw safe (
        send_joined_agree (relative_path (c ∷ s))
          (join_path static_dir (relative_path (c ∷ s)) path_max)
          (λ full e. go full e (h (relative_path (c ∷ s)) (relative_path_safe (c ∷ s) safe))))
    | inr other ↦ rw other refl
  ]
    where
      go :
          (full : Bytes)
          → join_path static_dir (relative_path (c ∷ s)) path_max ≡ some full
          → first (static_dir ++ b'/' ∷ relative_path (c ∷ s))
            ≡ second (static_dir ++ b'/' ∷ relative_path (c ∷ s))
          → first full ≡ second full
      go full e same =
          unfold join_path in
          elim (Bool-cases (leb path_max (length (static_dir ++ b'/' ∷ relative_path (c ∷ s))))) [
            | inl long ↦ absurd (cc (rw long at e))
            | inr fits ↦
                let joined : some (static_dir ++ b'/' ∷ relative_path (c ∷ s)) ≡ some full =
                  rw fits at e in
                let found : static_dir ++ b'/' ∷ relative_path (c ∷ s) ≡ full = ground arith in
                rw (← found) same
          ]
