-- ===== src/Server/Listen.antt =====
-- server/src/main.c: the socket that main listens on, over the table of descriptors of the process.
pub mod Laws
use mathlib.Core.Option as Option
use ott_server.Base.{
  Bool, Option, false, if◌then◌else◌, map, none, not, some, true, ℕ, ◌%◌, ◌&&◌, ◌==◌, ◌^◌,
}

-- The status flags of a descriptor: O_NONBLOCK, and the rest.
pub record Flags : Type 0 where
  pub nonblocking : Bool
  pub others : ℕ

-- A socket: the port that it is bound to, the backlog that it listens with, and its flags.
pub record Socket : Type 0 where
  pub port : Option ℕ
  pub backlog : Option ℕ
  pub flags : Flags

abbrev pub Descriptors : Type 0
Descriptors = ℕ → Option Socket

abbrev pub put_socket : ℕ → Option Socket → Descriptors → Descriptors
put_socket fd socket table = λ d. if d == fd then socket else table d

abbrev pub bound_to : ℕ → Socket → Socket
bound_to port s = record s { port = some port }

abbrev pub with_backlog : ℕ → Socket → Socket
with_backlog backlog s = record s { backlog = some backlog }

abbrev pub with_nonblocking : Bool → Socket → Socket
with_nonblocking b s = record s { flags = record { nonblocking = b; others = s.flags.others } }

-- What the calls return: `socket` a descriptor or -1, and whether the others succeed. A new socket
-- has the flags `initial`.
pub record Calls : Type 0 where
  pub socket : Option ℕ
  pub initial : ℕ
  pub binds : Bool
  pub listens : Bool
  pub gets_flags : Bool
  pub sets_flags : Bool

abbrev pub on_socket : (Socket → Socket) → ℕ → Descriptors → Descriptors
on_socket f fd table = put_socket fd (Option.map f (table fd)) table

-- `fcntl (fd, F_SETFL, …)` with or without O_NONBLOCK, after F_GETFL.
abbrev pub set_blocking : Bool → Calls → ℕ → Descriptors → Descriptors × Bool
set_blocking nonblocking calls fd table =
    if calls.gets_flags && calls.sets_flags
    then (on_socket (with_nonblocking nonblocking) fd table, true)
    else (table, false)

unfoldable pub make_nonblocking : Calls → ℕ → Descriptors → Descriptors × Bool
make_nonblocking calls fd table = set_blocking true calls fd table

unfoldable pub make_blocking : Calls → ℕ → Descriptors → Descriptors × Bool
make_blocking calls fd table = set_blocking false calls fd table

abbrev pub close_socket : ℕ → Descriptors → Descriptors
close_socket fd table = put_socket fd none table

-- The end of `create_listen_socket`: the descriptor if it was made non-blocking, else it is closed.
abbrev pub kept_or_closed : ℕ → Descriptors × Bool → Descriptors × Option ℕ
kept_or_closed fd (table, true) = (table, some fd)
kept_or_closed fd (table, false) = (close_socket fd table, none)

-- `bind`, `listen` and `make_nonblocking` on the new socket; the port is cast to 16 bits.
abbrev pub set_up : Calls → ℕ → ℕ → Descriptors → Descriptors × Option ℕ
set_up calls port fd fresh =
    let bound = on_socket (bound_to (port % 2 ^ 16)) fd fresh in
    let listened = on_socket (with_backlog 128) fd bound in
    if not calls.binds
    then (close_socket fd fresh, none)
    else if not calls.listens
    then (close_socket fd bound, none)
    else kept_or_closed fd (make_nonblocking calls fd listened)

abbrev pub created : Calls → ℕ → Descriptors → Option ℕ → Descriptors × Option ℕ
created calls port table none = (table, none)
created calls port table (some fd) = set_up calls port fd (
    put_socket fd
      (some (record {
        port = none;
        backlog = none;
        flags = record { nonblocking = false; others = calls.initial };
      }))
      table)

unfoldable pub create_listen_socket : Calls → ℕ → Descriptors → Descriptors × Option ℕ
create_listen_socket calls port table = created calls port table calls.socket
