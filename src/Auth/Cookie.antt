-- ===== src/Auth/Cookie.antt =====
-- server/src/auth.c: `parse_cookie`.
pub mod Laws
use ott_server.Auth.Names.{trim_end}
use ott_server.Base.{
  Option, [], if◌then◌else◌, length, none, some, suc, take, zero, ℕ, ◌+◌, ◌-◌, ◌==◌, ◌||◌, ◌∷◌,
}
use ott_server.Cstr.{Bytes, split_at, str_eq}
use ott_server.Http.Read.{Outcome, failed, ok, stuck}

-- `while (*p == ' ' || *p == ';') p++;`
unfoldable pub drop_separators : Bytes → Bytes
drop_separators [] = []
drop_separators (c ∷ s) =
    let rest = drop_separators s in if c == b' ' || c == b';' then rest else c ∷ s

-- Behind the value: at the end of the header, or at what follows the `;`.
abbrev pub continue : (Bytes → Outcome Bytes) → Option Bytes → Outcome Bytes
continue next none = failed
continue next (some rest) = next rest

-- What stands before the `;`, and behind it if there is one.
abbrev pub value_and_rest : Bytes → Option (Bytes × Bytes) → Bytes × Option Bytes
value_and_rest after none = (after, none)
value_and_rest after (some (value, rest)) = (value, some rest)

module _ (name : Bytes) (len : ℕ) where
  -- The value if the name is the one that is asked for, in `len` bytes and without white space at
  -- its end; or the search goes on.
  abbrev pub take_value : (Bytes → Outcome Bytes) → Bytes → Bytes × Option Bytes → Outcome Bytes
  take_value next key (value, rest) =
      if str_eq key name then ok (trim_end (take (len - 1) value)) else continue next rest

  abbrev pub at_pair : (Bytes → Outcome Bytes) → Option (Bytes × Bytes) → Outcome Bytes
  at_pair next none = failed
  at_pair next (some (key, after)) =
      take_value next key (value_and_rest after (split_at b';' after))

  -- The loop, whose fuel bounds its rounds.
  unfoldable pub cookie_loop : ℕ → Bytes → Outcome Bytes
  cookie_loop zero s = stuck
  cookie_loop (suc f) [] = failed
  cookie_loop (suc f) (c ∷ s) =
      at_pair (λ rest. cookie_loop f rest) (split_at b'=' (drop_separators (c ∷ s)))

  unfoldable pub parse_cookie : Bytes → Outcome Bytes
  unfolding cookie_loop
  parse_cookie header = if len == 0 then failed else cookie_loop (length header + 1) header
