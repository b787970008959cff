-- ===== src/Tests/Listen.antt =====
-- server/src/main.c: sockets, on concrete calls.
use ott_server.Base.{false, none, refl, some, true, ◌≡◌}
use ott_server.Server.Listen.{
  Calls, Descriptors, create_listen_socket, make_blocking, make_nonblocking,
}
use ott_server.Server.Listen.Laws.{create_listen_socket_lem, listening_socket}

abbrev no_descriptors : Descriptors
no_descriptors d = none

abbrev all_succeed : Calls
all_succeed = record {
  socket = some 3;
  initial = 2;
  binds = true;
  listens = true;
  gets_flags = true;
  sets_flags = true;
}

made_blocking :
    (make_blocking all_succeed 3 (create_listen_socket all_succeed 70000 no_descriptors).0).0 3
    ≡ some (record {
      port = some 4464;
      backlog = some 128;
      flags = record { nonblocking = false; others = 2 };
    })
unfolding make_blocking create_listen_socket make_nonblocking
made_blocking = refl

create_listen_socket_lem_example :
    ((create_listen_socket all_succeed 70000 no_descriptors).1 ≡ some 3)
    × ((create_listen_socket all_succeed 70000 no_descriptors).0 3
        ≡ some (listening_socket 70000 2))
create_listen_socket_lem_example =
    create_listen_socket_lem all_succeed 70000 3 3 no_descriptors refl refl
