-- ===== src/Server/Sync.antt =====
-- `sync::server`: listening, polling and stopping, on the base class of Start, the pause of Pause and
-- a way of polling, which is an argument. Listeners are numbers, and are not null. The descriptors of
-- connections are not among `fds`.
mod Pauses
pub mod Restart
pub mod Moves
mod Tests
use libcoda_net.Base.{
  ◌+◌, ℕ, suc, Bool, true, false, ◌&&◌, Option, none, some, List, [], ◌∷◌, ◌++◌, map, if◌then◌else◌,
}
use libcoda_net.Socket
use libcoda_net.Socket.{Socket, Fds, Binding, Returns, returned, set_non_blocking}
use libcoda_net.Server.Start
use libcoda_net.Server.Start.{
  Server, Started, started, already_started, unable_to_listen, bad_address,
}
use libcoda_net.Server.Pause.{Time, wait_time}
use libcoda_net.Server.Select.{Poller}

pub data Hook : Type 0 where
  on_start on_stop on_poll : Hook

-- The server's `sockets_` are those of the poller, which takes `valid` and `listening` from the
-- server. A call is that of the server's own handler, `none`, or of a listener.
pub record Sync (C : Type 0) : Type 0 where
  pub server : Server
  pub has_impl : Bool
  pub poller : Poller C
  pub frequency : ℕ
  pub listeners : List ℕ
  pub calls : List (Option ℕ × Hook)

abbrev pub is_valid : {C : Type 0} → Sync C → Bool
is_valid s = Start.is_valid s.server

abbrev pub told : {C : Type 0} → Hook → Sync C → List (Option ℕ × Hook)
told h s = (none, h) ∷ map (λ l. (some l, h)) s.listeners

-- `notify_start`, `notify_stop` and `notify_poll`.
unfoldable pub notify : {C : Type 0} → Hook → Sync C → Sync C
notify h s = record s { calls = s.calls ++ told h s }

-- INVALID is no descriptor; the poller does not ask for it then.
unfoldable pub raw_socket : Socket → ℕ
raw_socket s = elim (s.sock) [ none ↦ 0 | some fd ↦ fd ]

-- What the poller sees.
unfoldable pub seen : {C : Type 0} → Sync C → Poller C
unfolding raw_socket
seen s = record (s.poller) { valid = is_valid s; listening = raw_socket s.server.socket }

unfoldable pub clear_sockets : {C : Type 0} → Sync C → Sync C
clear_sockets s = record s { poller = record (s.poller) { sockets = [] } }

-- `stop`. The thread is left out.
unfoldable pub stop : {C : Type 0} → Sync C → Sync C
unfolding notify clear_sockets Start.stop
stop s =
    let told_stop = if is_valid s then notify on_stop s else s in
    clear_sockets (record told_stop { server = Start.stop s.server })

-- `close` of a server that its poller does not watch.
unfoldable pub watched : {C : Type 0} → Sync C → Bool × Poller C → Returns × Sync C
watched s (true, p) = (returned true, record s { poller = p })
watched s (false, p) =
    let (socket, fds) = Socket.close s.server.socket s.server.fds in
    (
      returned false,
      record s { poller = p; server = record (s.server) { socket = socket; fds = fds } },
    )

-- `listen` behind `socket::listen`: `on_start` and the listeners, and then the poller, whose `listen`
-- is `watch`. `fcntl_ok` is as for `set_non_blocking`.
unfoldable pub after_listen :
    {C : Type 0}
    → (Poller C → Bool × Poller C)
    → Bool
    → Sync C
    → Returns × Socket × Fds
    → Returns × Sync C
unfolding notify seen watched set_non_blocking
after_listen watch fcntl_ok s (returned false, socket, fds) =
    (returned false, record s { server = record (s.server) { socket = socket; fds = fds } })
after_listen watch fcntl_ok s (Socket.thrown, socket, fds) =
    (Socket.thrown, record s { server = record (s.server) { socket = socket; fds = fds } })
after_listen watch fcntl_ok s (returned true, socket, fds) =
    let s' = notify on_start (record s {
      server = record (s.server) { socket = set_non_blocking fcntl_ok true socket; fds = fds };
    }) in
    if s.has_impl then watched s' (watch (seen s')) else (returned true, s')

unfoldable pub after_start : {C : Type 0} → Returns × Sync C → Started × Sync C
after_start (returned true, s) =
    (started, record s { server = record (s.server) { running = true } })
after_start (returned false, s) = (unable_to_listen, s)
after_start (Socket.thrown, s) = (bad_address, s)

-- `start`, up to its loop.
unfoldable pub start :
    {C : Type 0}
    → (Poller C → Bool × Poller C)
    → Bool
    → Option (List Binding)
    → Bool
    → Bool
    → Sync C
    → Started × Sync C
unfolding after_listen after_start Socket.listen
start watch fcntl_ok addresses listen_ok attach_ok s =
    if is_valid s
    then (already_started, s)
    else after_start (
        after_listen watch fcntl_ok s
          (Socket.listen addresses listen_ok attach_ok s.server.socket s.server.fds))

-- The two readings of the clock in one round.
pub record Clock : Type 0 where
  pub now : Time
  pub later : Time

-- What the poller does in a round: the pause, and the answer of `accept`; `none` is an exception.
abbrev pub Polling : Type 0 → Type 0
Polling C = Option Time → Option (ℕ × C) → Poller C → Option (Poller C)

unfoldable pub polled :
    {C : Type 0} → Option Time → Sync C → Option (Poller C) → Option (Option Time × Sync C)
unfolding notify
polled last s none = none
polled last s (some p) = some (last, notify on_poll (record s { poller = p }))

-- `poll`: the caller's time, and the server.
unfoldable pub poll :
    {C : Type 0}
    → Polling C
    → Clock
    → Option (ℕ × C)
    → Option Time
    → Sync C
    → Option (Option Time × Sync C)
unfolding polled seen wait_time
poll polling clock accepted last s =
    if is_valid s && s.has_impl
    then (let pause = wait_time s.frequency last clock.now clock.later in
        polled pause.1 s (polling pause.0 accepted (seen s)))
    else some (last, s)

-- The rounds of `run` for as long as there are answers, and the server behind them.
unfoldable pub run :
    {C : Type 0}
    → (ℕ → Polling C)
    → ℕ
    → List (Clock × Option (ℕ × C))
    → Option (Option Time × Sync C)
    → Option (Option Time × Sync C)
unfolding poll
run polling time rounds none = none
run polling time [] (some r) = some r
run polling time ((clock, accepted) ∷ rounds) (some (last, s)) =
    let rest = run polling (1 + time) rounds (poll (polling time) clock accepted last s) in
    if is_valid s then rest else some (last, s)
