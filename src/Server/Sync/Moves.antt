-- ===== src/Server/Sync/Moves.antt =====
-- Constructing and assigning servers from others: `socket_server` and `sync::server` by move, and the
-- comparison of servers and the setters.
use libcoda_net.Base.{
  ◌==◌, [], ◌∷◌, List, ltb, ltb, ℕ, Bool, true, false, not, ◌&&◌, Option, none, some, [], ◌==◌,
  if◌then◌else◌, ◌≡◌, refl,
}
use libcoda_net.Socket
use libcoda_net.Socket.Objects
use libcoda_net.Socket.Objects.{Address, port}
use libcoda_net.Server.{is_set}
use libcoda_net.Server.Start
use libcoda_net.Server.Start.{Server}
use libcoda_net.Server.Pause.{Time}
use libcoda_net.Server.Epoll.{find_socket}
use libcoda_net.Server.Sync.{Sync, Clock, Polling, poll}

-- What `socket_server` takes from another: its socket, factory and thread; the listeners are those of
-- `Sync`. The descriptors are those of the process. A thread that the target runs is left out.
unfoldable pub take_server : Server → Socket.Socket → Socket.Fds → Server
take_server other socket fds = record other { socket = socket; fds = fds }

-- What is left of the other.
unfoldable pub left_server : Server → Socket.Socket → Socket.Fds → Server
left_server other socket fds = record {
  socket = socket;
  has_factory = false;
  running = false;
  fds = fds;
}

-- `server(server &&)`: the new server, which has no connections, and the other, which keeps its own.
unfoldable pub move_construct : {C : Type 0} → Sync C → Sync C × Sync C
unfolding Objects.move_construct take_server left_server
move_construct other =
    let (s, s') = Objects.move_construct other.server.socket in
    (
      record other {
        server = take_server other.server s other.server.fds;
        poller = record (other.poller) { sockets = [] };
        calls = [];
      },
      record other {
        server = left_server other.server s' other.server.fds;
        has_impl = false;
        listeners = [];
      },
    )

-- `operator=(server &&)` of another server: the target keeps its connections, and the other its own.
unfoldable pub move_assign : {C : Type 0} → Sync C → Sync C → Sync C × Sync C
unfolding Socket.move_assign take_server left_server
move_assign s other =
    let (socket, socket', fds) =
      Socket.move_assign s.server.socket other.server.socket other.server.fds in
    (
      record other {
        server = take_server other.server socket fds;
        poller = record (other.poller) { sockets = s.poller.sockets };
        calls = s.calls;
      },
      record other {
        server = left_server other.server socket' fds;
        has_impl = false;
        listeners = [];
      },
    )

-- `operator==`, by the addresses of both.
unfoldable pub same_server : Server → Address → Server → Address → Bool
unfolding port
same_server s a other b =
    if not (Start.is_valid s && Start.is_valid other) then false else elim (port s.socket a) [
      | none ↦ false
      | some p ↦ elim (port other.socket b) [ none ↦ false | some q ↦ p == q ]
    ]

-- A place in a `std::set`.
unfoldable pub insert_listener : ℕ → List ℕ → List ℕ
insert_listener l [] = l ∷ []
insert_listener l (k ∷ ks) =
    if l == k then k ∷ ks else (if ltb l k then l ∷ k ∷ ks else k ∷ insert_listener l ks)

unfoldable pub add_listener : {C : Type 0} → ℕ → Sync C → Sync C
unfolding insert_listener
add_listener l s = record s { listeners = insert_listener l s.listeners }

abbrev pub set_frequency : {C : Type 0} → ℕ → Sync C → Sync C
set_frequency value s = record s { frequency = value }

abbrev pub set_socket_factory : {C : Type 0} → Bool → Sync C → Sync C
set_socket_factory has_factory s = record s {
  server = record (s.server) { has_factory = has_factory };
}

-- A server that is assigned another takes over its sets and not its connections. A connection of the
-- other server, whose descriptor the target does not have, is asked for by the target and not known to
-- it, and no poll of the other server reaches it any more.
pub move_assign-orphans :
    {C : Type 0} (polling : Polling C) (clock : Clock) (accepted : Option (ℕ × C))
    (last : Option Time) (s other : Sync C) (fd : ℕ) (c : C)
    → find_socket fd other.poller.sockets ≡ some c
    → is_set fd other.poller.in_set ≡ true
    → find_socket fd s.poller.sockets ≡ none
    → let (s', other') = move_assign s other in
      (is_set fd s'.poller.in_set ≡ true)
      × (find_socket fd s'.poller.sockets ≡ none)
      × (find_socket fd other'.poller.sockets ≡ some c)
      × (poll polling clock accepted last other' ≡ some (last, other'))
unfolding move_assign left_server Socket.move_assign poll
move_assign-orphans polling clock accepted last s other fd c f i n = (i, n, f, refl)
