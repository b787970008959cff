-- ===== src/Db/Engine/Laws.antt =====
-- What is found in the table of sessions after an update or a deletion.
use mathlib.Core.Bool.{false≢true}
use ott_server.Base.{
  Bool, Bool-cases, List, Option, [], ap, false, if◌then◌else◌, inl, inr, none, refl, some, sym,
  true, ◌∙◌, ◌∷◌, ◌≡◌, ◌≢◌,
}
use ott_server.Cstr.{Bytes, str_eq, str_eq_iff}
use ott_server.Db.Engine.{find_session, put_session, without_session}
use ott_server.Db.Tables.{Session}

differing : (a b : Bytes) → str_eq a b ≡ false → a ≢ b
differing a b h e = absurd (false≢true (sym h ∙ (str_eq_iff a b).1 e))

pub find_session-put_session :
    (new : Session) (sessions : List Session) (token : Bytes)
    → find_session token (put_session new sessions)
      ≡ (if str_eq new.token token then some new else find_session token sessions)
unfolding find_session put_session
find_session-put_session new [] token = refl
find_session-put_session new (s ∷ sessions) token = elim (Bool-cases (str_eq s.token new.token)) [
  | inl same ↦
      let equal = (str_eq_iff s.token new.token).0 same in
      rw same (go (str_eq new.token token) (ap (λ t. str_eq t token) equal))
  | inr other ↦
      rw (other, find_session-put_session new sessions token)
        (apart (str_eq s.token token) refl (str_eq new.token token) refl other)
]
  where
    go :
        (b : Bool)
        → str_eq s.token token ≡ b
        → (if b then some new else find_session token sessions) ≡ (
            if b
            then some new
            else if str_eq s.token token
            then some s
            else find_session token sessions)
    go true e = refl
    go false e = rw e refl

    apart :
        (a : Bool)
        → str_eq s.token token ≡ a
        → (b : Bool) → str_eq new.token token ≡ b
        → str_eq s.token new.token ≡ false
        → (if a then some s else if b then some new else find_session token sessions)
          ≡ (if b then some new else if a then some s else find_session token sessions)
    apart true e true f n = absurd (
        differing s.token new.token n
          ((str_eq_iff s.token token).0 e ∙ sym ((str_eq_iff new.token token).0 f)))
    apart true e false f n = refl
    apart false e b f n = refl

pub find_session-without_session :
    (gone : Bytes) (sessions : List Session) (token : Bytes)
    → find_session token (without_session gone sessions)
      ≡ (if str_eq gone token then none else find_session token sessions)
unfolding find_session without_session
find_session-without_session gone [] token = go (str_eq gone token)
  where
    go : (b : Bool) → ◌≡◌ {A = Option Session} none (if b then none else none)
    go true = refl
    go false = refl
find_session-without_session gone (s ∷ sessions) token = elim (Bool-cases (str_eq s.token gone)) [
  | inl same ↦
      let equal = (str_eq_iff s.token gone).0 same in
      rw same (
        find_session-without_session gone sessions token
        ∙ go (str_eq gone token) (ap (λ t. str_eq t token) equal))
  | inr other ↦
      rw (other, find_session-without_session gone sessions token)
        (apart (str_eq s.token token) refl (str_eq gone token) refl other)
]
  where
    go :
        (b : Bool)
        → str_eq s.token token ≡ b
        → (if b then none else find_session token sessions) ≡ (
            if b
            then none
            else if str_eq s.token token
            then some s
            else find_session token sessions)
    go true e = refl
    go false e = rw e refl

    apart :
        (a : Bool)
        → str_eq s.token token ≡ a
        → (b : Bool) → str_eq gone token ≡ b
        → str_eq s.token gone ≡ false
        → (if a then some s else if b then none else find_session token sessions)
          ≡ (if b then none else if a then some s else find_session token sessions)
    apart true e true f n = absurd (
        differing s.token gone n
          ((str_eq_iff s.token token).0 e ∙ sym ((str_eq_iff gone token).0 f)))
    apart true e false f n = refl
    apart false e b f n = refl
