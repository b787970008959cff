-- ===== src/Db/Accounts/Laws.antt =====
-- What the functions on accounts do to the tables, over an engine that does what SQL says.
use mathlib.Core.Bool.{false≢true}
use ott_server.Auth.Password.{same_hash}
use ott_server.Base.{
  >>=-eq-some, Bool-cases, Option, [], ap, arith, if◌then◌else◌, inl, inr, length, ltb, none, refl,
  some, sym, true, ℕ, ℤ, ◌∙◌, ◌∷◌, ◌≡◌, ◌≢◌,
}
use ott_server.Cstr.{Bytes, str_eq}
use ott_server.Db.Accounts.{
  copy_blob, created, created_of, credentials_of, db_create_session, db_create_user,
  db_delete_session, db_get_session, db_get_user_credentials, db_get_username_by_id, is_done,
  session_of,
}
use ott_server.Db.Engine.{
  Answer, IsSqlite, Sql, add_user, credentials_answer, delete_session, find_id, find_session,
  find_user, insert_user, inserted, meaning, not_prepared, not_stepped, select_credentials,
  select_session, select_username, session_answer, stored, upsert_session,
}
use ott_server.Db.Engine.Laws.{find_session-put_session, find_session-without_session}
use ott_server.Db.Tables.{Session, Tables, User}

-- A blob is copied whole or not at all.
copy_blob_lem :
    (blob : Bytes) (dest_len : ℕ) (out : Bytes) → copy_blob blob dest_len ≡ some out → blob ≡ out
unfolding copy_blob
copy_blob_lem [] dest_len out e = absurd cc
copy_blob_lem (c ∷ blob) dest_len out e = elim (Bool-cases (ltb dest_len (length (c ∷ blob)))) [
  | inl long ↦ absurd (cc (rw long at e))
  | inr fits ↦ let same : some (c ∷ blob) ≡ some out = rw fits at e in ground arith
]

module _ {Conn : Type 0} (run : Conn → Sql → Conn × Answer) (view : Conn → Tables) where
  -- A statement that did not fail did what SQL says.
  effective :
      (c : Conn) (s : Sql)
      → IsSqlite run view
      → (run c s).1 ≢ not_prepared
      → (run c s).1 ≢ not_stepped
      → (view (run c s).0 ≡ (meaning (view c) s).0) × ((run c s).1 ≡ (meaning (view c) s).1)
  effective c s law p q = elim (law c s) [
    | inl (_, inl f) ↦ absurd (p f)
    | inl (_, inr f) ↦ absurd (q f)
    | inr worked ↦ worked
  ]

  -- Over an engine that does what SQL says or fails, a session that is stored with success is found under its token, and every other token has the
  -- session that it had.
  pub db_create_session_lem :
      (db : Conn) (token : Bytes) (user_id : ℕ) (expires_at : ℤ) (after : Conn) (other : Bytes)
      → IsSqlite run view
      → db_create_session run db token user_id expires_at ≡ (after, true)
      → find_session other (view after).sessions ≡ (
          if str_eq token other
          then some (record { token = token; user_id = user_id; expires_at = expires_at })
          else find_session other (view db).sessions)
  unfolding db_create_session meaning
  db_create_session_lem db token user_id expires_at after other law e =
      let success = ap (λ p. p.1) e in
      let (tables, answer) =
        effective db (upsert_session token user_id expires_at) law
          (λ f. absurd (false≢true (ap is_done (sym f) ∙ success)))
          (λ f. absurd (false≢true (ap is_done (sym f) ∙ success))) in
      rw (← ap (λ p. p.0) e)
        (rw tables (go (find_id user_id (view db).users) (ap is_done (sym answer) ∙ success)))
    where
      go :
          (user : Option User)
          → is_done
              (stored
                (view db)
                (record { token = token; user_id = user_id; expires_at = expires_at })
                user).1
            ≡ true
          → find_session other
              (stored
                (view db)
                (record { token = token; user_id = user_id; expires_at = expires_at })
                user).0.sessions
            ≡ (if str_eq token other
                then some (record { token = token; user_id = user_id; expires_at = expires_at })
                else find_session other (view db).sessions)
      go none h = absurd (false≢true h)
      go (some u) h =
          find_session-put_session
            (record { token = token; user_id = user_id; expires_at = expires_at })
            (view db).sessions other

  -- Over an engine that does what SQL says or fails, a deletion that succeeds leaves no session of the token, and every other session.
  pub db_delete_session_lem :
      (db : Conn) (token : Bytes) (after : Conn) (other : Bytes)
      → IsSqlite run view
      → db_delete_session run db token ≡ (after, true)
      → find_session other (view after).sessions
        ≡ (if str_eq token other then none else find_session other (view db).sessions)
  unfolding db_delete_session meaning
  db_delete_session_lem db token after other law e =
      let success = ap (λ p. p.1) e in
      let (tables, answer) =
        effective db (delete_session token) law
          (λ f. absurd (false≢true (ap is_done (sym f) ∙ success)))
          (λ f. absurd (false≢true (ap is_done (sym f) ∙ success))) in
      rw (← ap (λ p. p.0) e)
        (rw tables (find_session-without_session token (view db).sessions other))

  -- A session that is read is in the table, and reading changes nothing.
  pub db_get_session_lem :
      (db : Conn) (token : Bytes) (after : Conn) (user_id : ℕ) (expires_at : ℤ)
      → IsSqlite run view
      → db_get_session run db token ≡ (after, some (user_id, expires_at))
      → (view after ≡ view db)
        × (s : Session) × (find_session token (view db).sessions ≡ some s)
        × (s.user_id ≡ user_id)
        × (s.expires_at ≡ expires_at)
  unfolding db_get_session meaning
  db_get_session_lem db token after user_id expires_at law e =
      let found = ap (λ p. p.1) e in
      let (tables, answer) =
        effective db (select_session token) law (λ f. absurd (cc (ap session_of f)))
          (λ f. absurd (cc (ap session_of f))) in
      let (s, row, id, expiry) =
        go (find_session token (view db).sessions) refl (ap session_of (sym answer) ∙ found) in
      (rw (← ap (λ p. p.0) e) tables, s, row, id, expiry)
    where
      go :
          (row : Option Session)
          → find_session token (view db).sessions ≡ row
          → session_of (session_answer row) ≡ some (user_id, expires_at)
          → (s : Session) × (find_session token (view db).sessions ≡ some s)
            × (s.user_id ≡ user_id)
            × (s.expires_at ≡ expires_at)
      go none k h = absurd cc
      go (some s) k h = (s, k, ground arith, ground arith)

  -- Reading a name changes nothing, whether it succeeds or fails.
  pub db_get_username_by_id_lem :
      (db : Conn) (user_id len : ℕ)
      → IsSqlite run view
      → view (db_get_username_by_id run db user_id len).0 ≡ view db
  unfolding db_get_username_by_id meaning
  db_get_username_by_id_lem db user_id len law = elim (law db (select_username user_id)) [
    | inl (kept, _) ↦ kept
    | inr (kept, _) ↦ kept
  ]

  -- Credentials that are read are those of the user of this name, and reading changes nothing.
  pub db_get_user_credentials_lem :
      (db : Conn) (name : Bytes) (hash_len salt_len : ℕ) (after : Conn) (id : ℕ) (hash salt : Bytes)
      → IsSqlite run view
      → db_get_user_credentials run db name hash_len salt_len ≡ (after, some (id, hash, salt))
      → (view after ≡ view db)
        × (u : User) × (find_user name (view db).users ≡ some u)
        × (u.id ≡ id)
        × (u.password_hash ≡ hash)
        × (u.salt ≡ salt)
  unfolding db_get_user_credentials meaning
  db_get_user_credentials_lem db name hash_len salt_len after id hash salt law e =
      let found = ap (λ p. p.1) e in
      let (tables, answer) =
        effective db (select_credentials name) law
          (λ f. absurd (cc (ap (λ a. credentials_of a hash_len salt_len) f)))
          (λ f. absurd (cc (ap (λ a. credentials_of a hash_len salt_len) f))) in
      let (u, row, same_id, same_hash, same_salt) =
        go (find_user name (view db).users) refl
          (ap (λ a. credentials_of a hash_len salt_len) (sym answer) ∙ found) in
      (rw (← ap (λ p. p.0) e) tables, u, row, same_id, same_hash, same_salt)
    where
      go :
          (row : Option User)
          → find_user name (view db).users ≡ row
          → credentials_of (credentials_answer row) hash_len salt_len ≡ some (id, hash, salt)
          → (u : User) × (find_user name (view db).users ≡ some u)
            × (u.id ≡ id)
            × (u.password_hash ≡ hash)
            × (u.salt ≡ salt)
      go none k h = absurd cc
      go (some u) k h =
          let (h1, e1, later) = >>=-eq-some (copy_blob u.password_hash hash_len) _ h in
          let (s1, e2, last) = >>=-eq-some (copy_blob u.salt salt_len) _ later in
          let whole : ◌≡◌ {A = Option (ℕ × Bytes × Bytes)} (some (u.id, h1, s1))
              (some (id, hash, salt)) =
            last in
          (
            u,
            k,
            ground arith,
            copy_blob_lem u.password_hash hash_len h1 e1 ∙ ground arith,
            copy_blob_lem u.salt salt_len s1 e2 ∙ ground arith,
          )

  -- A user is created only under a name that is not there, with the next id.
  pub db_create_user_lem :
      (db : Conn) (name hash salt : Bytes) (after : Conn) (id : ℕ)
      → IsSqlite run view
      → db_create_user run db name hash salt ≡ (after, created id)
      → (find_user name (view db).users ≡ none)
        × (id ≡ (view db).next_user)
        × (view after ≡ add_user (view db) name hash salt)
  unfolding db_create_user meaning
  db_create_user_lem db name hash salt after id law e =
      let made = ap (λ p. p.1) e in
      let (tables, answer) =
        effective db (insert_user name hash salt) law (λ f. absurd (cc (ap created_of f)))
          (λ f. absurd (cc (ap created_of f))) in
      go (find_user name (view db).users) refl (ap created_of (sym answer) ∙ made)
        (ap view (sym (ap (λ p. p.0) e)) ∙ tables)
    where
      go :
          (row : Option User)
          → find_user name (view db).users ≡ row
          → created_of (inserted (view db) name hash salt row).1 ≡ created id
          → view after ≡ (inserted (view db) name hash salt row).0
          → (find_user name (view db).users ≡ none)
            × (id ≡ (view db).next_user)
            × (view after ≡ add_user (view db) name hash salt)
      go none k h t = (k, ground arith, t)
      go (some u) k h t = absurd cc
