-- ===== src/Buffered/Objects.antt =====
-- The constructors, moves and the destructor of a buffered socket, where the base class calls `close`
-- and `connect`: its move assignment calls the `close` of the object, its constructor and destructor
-- those of the base class.
use libcoda_net.Base.{
  Bool, true, false, none, some, Option, List, [], ◌∷◌, ◌++◌, ◌≡◌, ◌≢◌, refl, ap, length, ℕ,
}
use libcoda_net.Socket
use libcoda_net.Socket.{
  Fds, Attempt, Returns, returned, thrown, connect_loop, is_valid, release, fresh,
}
use libcoda_net.Socket.Ownership.{connect-found}
use libcoda_net.Socket.Objects
use libcoda_net.Buffered.{Buffered, Received, closed, connected, notify, call_all, close, ◌>>=◌}
use libcoda_net.Buffered.Listeners.{NoNull, notify-NoNull}
use libcoda_net.Buffered.Transfer.{notified, all_written, write_answer_all}
use libcoda_net.Buffered.Connection
use libcoda_net.Buffered.Connection.{base_connect, after_base}

-- `buffered_socket()`, by what the system will answer.
unfoldable pub empty : Fds → List Received → List (Option ℕ) → Buffered
empty fds incoming outgoing = record {
  socket = fresh;
  in_buffer = [];
  out_buffer = [];
  listeners = [];
  fds = fds;
  incoming = incoming;
  outgoing = outgoing;
  wire = [];
  calls = [];
}

-- `buffered_socket(host, port)`.
unfoldable pub construct : Option (List Attempt) → Bool → Buffered → Option Buffered × Fds
unfolding Objects.construct
construct addresses attach_ok new =
    let (made, fds) = Objects.construct true false addresses attach_ok new.fds in
    (elim made [ none ↦ none | some s ↦ some (record new { socket = s; fds = fds }) ], fds)

-- What a moved object leaves behind.
abbrev pub moved_from : Buffered → Buffered
moved_from b = record b { in_buffer = []; out_buffer = []; listeners = [] }

-- `buffered_socket(buffered_socket &&)`: the new object, and the other one.
unfoldable pub move_construct : Buffered → Buffered × Buffered
unfolding Objects.move_construct
move_construct other =
    let (s, s') = Objects.move_construct other.socket in
    (record other { socket = s }, record (moved_from other) { socket = s' })

-- Move assignment of another object: what is left of the old connection, the target, and the other
-- object. `none` is the call of a null listener.
unfoldable pub move_assign : Buffered → Buffered → Option (Buffered × Buffered × Buffered)
unfolding close Socket.move_assign
move_assign b other = do
  old ← close (record b { fds = other.fds })
  let (s, s', fds) = Socket.move_assign old.socket other.socket old.fds
  some (
    old,
    record other { socket = s; fds = fds },
    record (moved_from other) { socket = s'; fds = fds },
  )

-- `~buffered_socket` and `~socket`: what is left of the connection.
unfoldable pub destroy : Buffered → Buffered
unfolding Socket.close
destroy b = let (s, fds) = Socket.close b.socket b.fds in record b { socket = s; fds = fds }

-- A valid socket with output that is closed while the system takes the whole of it.
close-written :
    (b : Buffered) (os : List (Option ℕ))
    → NoNull b.listeners
    → is_valid b.socket ≡ true
    → b.out_buffer ≢ []
    → b.outgoing ≡ some (length b.out_buffer) ∷ os
    → let told_closed = record b { calls = b.calls ++ notified closed b } in
      close b
      ≡ some (record (all_written told_closed os) {
        socket = (Socket.close b.socket b.fds).0;
        fds = (Socket.close b.socket b.fds).1;
      })
unfolding close Socket.close
close-written b os n v ne e =
    let told_closed = record b { calls = b.calls ++ notified closed b } in
    rw (v, close)
      (rw (notify-NoNull closed b n) (rw (write_answer_all told_closed os n v ne e) refl))

-- A valid object without null listeners is assigned another, and the system takes its output whole:
-- its listeners are told of the close, its output is sent to its old peer, and then it has the
-- connection, the buffers and the listeners of the other object, which is left not valid and empty.
-- Its old descriptor is closed and no other.
pub move_assign-flushes :
    (b other : Buffered) (os : List (Option ℕ))
    → NoNull b.listeners
    → is_valid b.socket ≡ true
    → b.out_buffer ≢ []
    → b.outgoing ≡ some (length b.out_buffer) ∷ os
    → (old target source : Buffered) × (move_assign b other ≡ some (old, target, source))
      × (old.wire ≡ b.wire ++ b.out_buffer)
      × (target.socket ≡ other.socket)
      × (target.in_buffer ≡ other.in_buffer)
      × (target.out_buffer ≡ other.out_buffer)
      × (target.listeners ≡ other.listeners)
      × (target.fds ≡ release b.socket.sock other.fds)
      × (is_valid source.socket ≡ false)
      × (source.in_buffer ≡ [])
      × (source.out_buffer ≡ [])
unfolding move_assign Socket.move_assign Socket.close release
move_assign-flushes b other os n v ne e =
    let shared = record b { fds = other.fds } in
    let told_closed = record shared { calls = b.calls ++ notified closed b } in
    let old = record (all_written told_closed os) {
      socket = (Socket.close b.socket other.fds).0;
      fds = (Socket.close b.socket other.fds).1;
    } in
    let (s, s', fds) = Socket.move_assign old.socket other.socket old.fds in
    (
      old,
      record other { socket = s; fds = fds },
      record (moved_from other) { socket = s'; fds = fds },
      ap
          (λ o. o >>= (λ x.
            let (s, s', fds) = Socket.move_assign x.socket other.socket x.fds in
            some (
              x,
              record other { socket = s; fds = fds },
              record (moved_from other) { socket = s'; fds = fds },
            )))
          (close-written shared os n v ne e),
      refl,
      refl,
      refl,
      refl,
      refl,
      refl,
      refl,
      refl,
      refl,
    )

-- An object that is constructed for a host of which an address answers is valid, and no hook was
-- called: not `on_connect`, which starts the thread of an asynchronous client. The same connection
-- made by `connect` on an empty object calls it once.
pub construct_silent :
    (ps : List Attempt) (fd : ℕ) (fds : Fds) (incoming : List Received) (outgoing : List (Option ℕ))
    → (connect_loop ps fds).0 ≡ some fd
    → let new = empty fds incoming outgoing in
      (made joined : Buffered) × ((construct (some ps) true new).0 ≡ some made)
      × (Connection.connect (some ps) true new ≡ some (returned true, joined))
      × (made.socket ≡ joined.socket)
      × (made.socket.sock ≡ some fd)
      × (made.calls ≡ [])
      × (joined.calls ≡ (none, connected) ∷ [])
unfolding construct empty Objects.construct Objects.constructed Connection.connect base_connect
    after_base Socket.set_secure notify call_all
construct_silent ps fd fds incoming outgoing h =
    let new = empty fds incoming outgoing in
    let found = connect-found ps fresh fds fd refl h in
    let open_new = record new {
      socket = record fresh { sock = some fd };
      fds = (connect_loop ps fds).1;
    } in
    (
      open_new,
      record open_new { calls = (none, connected) ∷ [] },
      ap
          (λ r. elim ((Objects.constructed r).0) as (λ x. Option Buffered) [
            | none ↦ none
            | some s ↦ some (record new { socket = s; fds = (Objects.constructed r).1 })
          ])
          found,
      ap (λ r. after_base (some (r.0, record new { socket = r.1; fds = r.2 }))) found,
      refl,
      refl,
      refl,
      refl,
    )
