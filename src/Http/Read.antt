-- ===== src/Http/Read.antt =====
-- server/src/http.c, the reading loops of `http_parse_request`.
pub mod Laws
use ott_server.Base.{
  Bool, Option, [], if◌then◌else◌, leb, length, none, some, suc, zero, ℕ, ◌++◌, ◌+◌, ◌-◌, ◌==◌, ◌∷◌,
}
use ott_server.Cstr.{Bytes, split_on}
use ott_server.Http.Buffer.{Growth, ensure_capacity, grown, max_buffer, refused, unfinished}
use ott_server.Http.Socket.{Incoming, recv}

pub data Outcome {ℓ} (A : Type ℓ) : Type ℓ where
  ok : A → Outcome A
  failed : Outcome A
  stuck : Outcome A

infixl 5 ◌>>=◌
abbrev pub ◌>>=◌ {ℓ κ} : {A : Type ℓ} {B : Type κ} → Outcome A → (A → Outcome B) → Outcome B
ok a >>= f = f a
failed >>= f = failed
stuck >>= f = stuck

abbrev pub or_fail {ℓ} : {A : Type ℓ} → Option A → Outcome A
or_fail none = failed
or_fail (some a) = ok a

-- The raw buffer with the bytes read so far, and the socket. `generation` counts reallocations.
pub record Buffered : Type 0 where
  pub bytes : Bytes
  pub capacity : ℕ
  pub generation : ℕ
  pub incoming : Incoming

-- The C string at the start of a buffer.
abbrev pub cstr : Bytes → Bytes
cstr [] = []
cstr (zero ∷ s) = []
cstr (suc c ∷ s) = suc c ∷ cstr s

abbrev pub crlf : Bytes
crlf = b'\r' ∷ b'\n' ∷ []

abbrev pub crlf_crlf : Bytes
crlf_crlf = b'\r' ∷ b'\n' ∷ b'\r' ∷ b'\n' ∷ []

-- The buffer after a growth.
unfoldable pub resized : Buffered → Growth → Outcome Buffered
resized b (grown c) = ok (record b {
  capacity = c;
  generation = if c == b.capacity then b.generation else b.generation + 1;
})
resized b refused = failed
resized b unfinished = stuck

-- Behind a recv: the end of the headers is there, or the buffer is at its limit, or again.
abbrev pub found_end :
    Buffered → Option (Bytes × Bytes) → Outcome (Buffered × Bytes) → Outcome (Buffered × Bytes)
found_end r (some (head, _)) again = ok (r, head)
found_end r none again = if leb max_buffer (length r.bytes) then failed else again

module _ (grants : ℕ → Bool) (owns : Bool) where
  -- `ensure_capacity`, with the pointers that it updates.
  unfoldable pub make_room : Buffered → ℕ → Outcome Buffered
  unfolding ensure_capacity resized
  make_room b required = resized b (ensure_capacity grants owns b.capacity required)

  -- One recv into the free part of the buffer.
  unfoldable pub receive : Buffered → Outcome (ℕ × Buffered)
  unfolding recv
  receive b = do
    (got, more) ← or_fail (recv (b.capacity - length b.bytes - 1) b.incoming)
    ok (length got, record b { bytes = b.bytes ++ got; incoming = more })

  -- `while (!header_end)`: the buffer, and the text before the first CRLFCRLF.
  unfoldable pub read_headers : ℕ → Buffered → Outcome (Buffered × Bytes)
  read_headers zero b = stuck
  read_headers (suc f) b = do
    roomy ← if leb b.capacity (length b.bytes + 1) then make_room b (length b.bytes + 1) else ok b
    (_, r) ← receive roomy
    let again = read_headers f r
    found_end r (split_on crlf_crlf (cstr r.bytes)) again

  -- `while (missing > 0)`
  unfoldable pub read_body : ℕ → ℕ → Buffered → Outcome Buffered
  read_body f zero b = ok b
  read_body zero (suc m) b = stuck
  read_body (suc f) (suc m) b = do (n, r) ← receive b; read_body f (suc m - n) r
