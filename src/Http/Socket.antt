-- ===== src/Http/Socket.antt =====
-- The client's socket as the handlers see it: recv, and `send_all` of server/src/http.c.
use ott_server.Base.{
  Bool, List, Option, [], ap, append-nil, append_assoc, arith, drop, false, if◌then◌else◌, leb,
  length, none, refl, some, suc, sym, take, take-append-drop, true, zero, ℕ, ◌++◌, ◌==◌, ◌↔◌, ◌∙◌,
  ◌∷◌, ◌≡◌,
}
use ott_server.Cstr.{Bytes}

-- What arrives, in the pieces in which it arrives; at the end of the list the peer has closed.
abbrev pub Incoming : Type 0
Incoming = List Bytes

-- recv into `room` bytes: none for a result of 0 or -1. A piece that is too long stays in part.
unfoldable pub recv : ℕ → Incoming → Option (Bytes × Incoming)
recv room [] = none
recv room (piece ∷ more) =
    if length (take room piece) == 0
    then none
    else some (take room piece, if leb (length piece) room then more else drop room piece ∷ more)

-- How files reach the socket: whether open and lseek succeed, whether sendfile is used, and how many
-- bytes each later read gives at most.
pub record Transfer : Type 0 where
  pub opens : Bool
  pub seeks : Bool
  pub by_sendfile : Bool
  pub reads : List ℕ

-- The client's end: what it has received, how many bytes each later send or sendfile will take, and
-- how files are transferred.
pub record Client : Type 0 where
  pub received : Bytes
  pub accepts : List ℕ
  pub transfer : Transfer

-- The loop of `send_all`; each send takes at least one byte or fails, and whether all was sent.
unfoldable pub send_loop : Transfer → List ℕ → Bytes → Bytes → Client × Bool
send_loop t ks received [] = (record { received = received; accepts = ks; transfer = t }, true)
send_loop t [] received (c ∷ s) =
    (record { received = received; accepts = []; transfer = t }, false)
send_loop t (zero ∷ ks) received (c ∷ s) =
    (record { received = received; accepts = ks; transfer = t }, false)
send_loop t (suc k ∷ ks) received (c ∷ s) = send_loop t ks (received ++ c ∷ take k s) (drop k s)

unfoldable pub send_all : Client → Bytes → Client × Bool
unfolding send_loop
send_all client buf = send_loop client.transfer client.accepts client.received buf

send_loop_lem :
    (t : Transfer) (ks : List ℕ) (received buf : Bytes) (client : Client) (complete : Bool)
    → send_loop t ks received buf ≡ (client, complete)
    → (sent rest : Bytes) × (buf ≡ sent ++ rest)
      × (client.received ≡ received ++ sent)
      × ((complete ≡ true) ↔ (rest ≡ []))
unfolding send_loop
send_loop_lem t ks received [] client complete e =
    ([], [], refl, ground (arith, append-nil received), ((λ _. refl), λ _. ground arith))
send_loop_lem t [] received (c ∷ s) client complete e = (
  [],
  c ∷ s,
  refl,
  ground (arith, append-nil received),
  ((λ d. absurd (ground arith)), λ d. absurd (cc)),
)
send_loop_lem t (zero ∷ ks) received (c ∷ s) client complete e = (
  [],
  c ∷ s,
  refl,
  ground (arith, append-nil received),
  ((λ d. absurd (ground arith)), λ d. absurd (cc)),
)
send_loop_lem t (suc k ∷ ks) received (c ∷ s) client complete e =
    let (sent, rest, split, got, all) =
      send_loop_lem t ks (received ++ c ∷ take k s) (drop k s) client complete e in
    (
      c ∷ (take k s ++ sent),
      rest,
      ap (◌∷◌ c) (
          sym (take-append-drop k s)
          ∙ ap (◌++◌ (take k s)) split
          ∙ sym (append_assoc (take k s) sent rest)),
      got ∙ append_assoc received (c ∷ take k s) sent,
      all,
    )

-- The client receives, behind what it had, a first part of the buffer, and the whole of it exactly
-- when `send_all` reports success.
pub send_all_lem :
    (client : Client) (buf : Bytes) (client' : Client) (complete : Bool)
    → send_all client buf ≡ (client', complete)
    → (sent rest : Bytes) × (buf ≡ sent ++ rest)
      × (client'.received ≡ client.received ++ sent)
      × ((complete ≡ true) ↔ (rest ≡ []))
unfolding send_all
send_all_lem client buf client' complete e =
    send_loop_lem client.transfer client.accepts client.received buf client' complete e
