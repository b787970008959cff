-- ===== src/Http/Response/Transfer.antt =====
-- What the loops with read and sendfile hand to the client.
use mathlib.Core.Bool.{false≢true}
use ott_server.Base.{
  Bool, List, Option, [], ap, append-nil, append_assoc, arith, drop, false, if◌then◌else◌, leb,
  length, length-take, ltb, min, none, not, refl, some, suc, sym, take, true, zero, ℕ, ◌&&◌, ◌++◌,
  ◌-◌, ◌==◌, ◌||◌, ◌∙◌, ◌∷◌, ◌≡◌, ◌≤◌,
}
use ott_server.Cstr.{Bytes}
use ott_server.Http.Response.{read_loop, send_headed, sendfile_loop, transfer_part}
use ott_server.Http.Response.Laws.{send_all_whole}
use ott_server.Http.Socket.{Client, send_all}

-- The part of a file that a response with this offset and length carries.
abbrev pub slice : Bytes → ℕ → ℕ → Bytes
slice contents offset size = take size (drop offset contents)

take_nil : (n : ℕ) → take {A = ℕ} n [] ≡ []
take_nil zero = refl
take_nil (suc n) = refl

take_split : (l n : ℕ) (xs : Bytes) → l ≤ n → take n xs ≡ take l xs ++ take (n - l) (drop l xs)
take_split zero n xs h = ap (λ k. take k xs) (omega arith)
take_split (suc l) zero xs h = absurd (omega arith)
take_split (suc l) (suc n) [] h = sym (take_nil (suc n - suc l))
take_split (suc l) (suc n) (x ∷ xs) h =
    ap (◌∷◌ x)
      (take_split l n xs (omega arith) ∙ ap (λ k. take l xs ++ take k (drop l xs)) (omega arith))

take-length : (m : ℕ) (xs : Bytes) → take (length (take m xs)) xs ≡ take m xs
take-length zero xs = refl
take-length (suc m) [] = refl
take-length (suc m) (x ∷ xs) = ap (◌∷◌ x) (take-length m xs)

read_loop_lem :
    (reads : List ℕ) (client : Client) (content : Bytes) (n : ℕ) (client' : Client)
    → read_loop reads client content n ≡ (client', true)
    → client'.received ≡ client.received ++ take n content
unfolding read_loop
read_loop_lem reads client content zero client' e =
    ap (λ q. q.0.received) (sym e) ∙ sym (append-nil client.received)
read_loop_lem [] client content (suc n) client' e = absurd (false≢true (ap (λ q. q.1) e))
read_loop_lem (k ∷ reads) client content (suc n) client' e =
    let got = take (min k (min 8192 (suc n))) content in
    go (length got == 0) (send_all client got) refl e (
      read_loop_lem reads (send_all client got).0 (drop (length got) content) (suc n - length got)
        client')
  where
    got : Bytes
    got = take (min k (min 8192 (suc n))) content

    part : take (suc n) content ≡ got ++ take (suc n - length got) (drop (length got) content)
    part =
        take_split (length got) (suc n) content
          (omega (arith, length-take (min k (min 8192 (suc n))) content))
        ∙ ap (λ p. p ++ take (suc n - length got) (drop (length got) content))
            (take-length (min k (min 8192 (suc n))) content)

    go :
        (none_read : Bool) (sent : Client × Bool)
        → send_all client got ≡ sent
        → (if none_read
            then (client, false)
            else if sent.1
            then read_loop reads
                (send_all client got).0
                (drop (length got) content)
                (suc n - length got)
            else ((send_all client got).0, false))
          ≡ (client', true)
        → (read_loop reads (send_all client got).0 (drop (length got) content) (suc n - length got)
              ≡ (client', true)
            → client'.received
              ≡ (send_all client got).0.received
                ++ take (suc n - length got) (drop (length got) content))
        → client'.received ≡ client.received ++ take (suc n) content
    go true sent k h later = absurd (false≢true (ap (λ q. q.1) h))
    go false (c, false) k h later = absurd (false≢true (ap (λ q. q.1) h))
    go false (c, true) k h later =
        later h
        ∙ (ap (λ q. q.0.received ++ take (suc n - length got) (drop (length got) content)) k
            ∙ (ap (λ r. r ++ take (suc n - length got) (drop (length got) content))
                  (send_all_whole client got c k)
                ∙ (append_assoc client.received got
                      (take (suc n - length got) (drop (length got) content))
                    ∙ ap (◌++◌ client.received) (sym part))))

transfer_part_lem :
    (client : Client) (contents : Bytes) (offset n : ℕ) (client' : Client)
    → transfer_part client contents offset n ≡ (client', true)
    → client'.received ≡ client.received ++ slice contents offset n
unfolding transfer_part sendfile_loop
transfer_part_lem client contents offset n client' e =
    go (not client.transfer.opens || (ltb 0 offset && not client.transfer.seeks))
      client.transfer.by_sendfile e
  where
    content : Bytes
    content = drop offset contents

    by_sendfile :
        (r : Client × Bool) (b : Bool)
        → send_all client (take n content) ≡ r
        → ◌≡◌ {A = Client × Bool} (r.0, r.1 && b) (client', true)
        → client'.received ≡ client.received ++ take n content
    by_sendfile (c, false) b k h = absurd (false≢true (ap (λ q. q.1) h))
    by_sendfile (c, true) b k h =
        ap (λ q. q.0.received) (sym h) ∙ send_all_whole client (take n content) c k

    go :
        (failed sendfile : Bool)
        → (if failed
            then (client, false)
            else if sendfile
            then sendfile_loop client content n
            else read_loop client.transfer.reads client content n)
          ≡ (client', true)
        → client'.received ≡ client.received ++ take n content
    go true sendfile h = absurd (false≢true (ap (λ q. q.1) h))
    go false true h = by_sendfile (send_all client (take n content)) (leb n (length content)) refl h
    go false false h = read_loop_lem client.transfer.reads client content n client' h

pub send_headed_lem :
    (client : Client) (header : Option Bytes) (contents : Bytes) (offset n : ℕ) (client' : Client)
    → send_headed client header contents offset n ≡ (client', true)
    → (h : Bytes) × (header ≡ some h)
      × (client'.received ≡ client.received ++ (h ++ slice contents offset n))
send_headed_lem client none contents offset n client' e = absurd (false≢true (ap (λ q. q.1) e))
send_headed_lem client (some h) contents offset n client' e =
    (h, refl, go (send_all client h) refl e)
  where
    go :
        (r : Client × Bool)
        → send_all client h ≡ r
        → (if r.1 then transfer_part r.0 contents offset n else (r.0, false)) ≡ (client', true)
        → client'.received ≡ client.received ++ (h ++ slice contents offset n)
    go (c, false) k e = absurd (false≢true (ap (λ q. q.1) e))
    go (c, true) k e =
        transfer_part_lem c contents offset n client' e
        ∙ (ap (λ r. r ++ slice contents offset n) (send_all_whole client h c k)
            ∙ append_assoc client.received h (slice contents offset n))

pub drop_all : (n : ℕ) (xs : Bytes) → length xs ≤ n → drop n xs ≡ []
drop_all n [] h = drop_nil n
  where
    drop_nil : (k : ℕ) → drop {A = ℕ} k [] ≡ []
    drop_nil zero = refl
    drop_nil (suc k) = refl
drop_all zero (x ∷ xs) h = absurd (omega arith)
drop_all (suc n) (x ∷ xs) h = drop_all n xs (omega arith)
