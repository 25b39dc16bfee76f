-- ===== src/Socket/Secure.antt =====
-- secure_layer.cpp: the layer over OpenSSL, and a socket that has one. What OpenSSL answers is an
-- argument; `Ssl` lists the objects of it that are not freed.
pub mod Lifetime
use libcoda_net.Base.{
  ℕ, Bool, true, false, Option, none, some, List, [], ◌∷◌, if◌then◌else◌, Bytes, Bool-cases, ◌≡◌,
  ◌∙◌, refl, ap, sym,
}
use libcoda_net.Socket
use libcoda_net.Socket.{
  Socket, Fds, is_valid, release, Attempt, connected, connect_loop, Returns, returned, thrown,
}

pub record Layer : Type 0 where
  pub handle : Option ℕ
  pub context : Option ℕ

pub record Ssl : Type 0 where
  pub handles : List ℕ
  pub contexts : List ℕ

abbrev pub detached : Layer
detached = record { handle = none; context = none }

-- By what `SSL_CTX_new` returns; false is the exception.
unfoldable pub take_context : Option ℕ → Layer → Ssl → Bool × Layer × Ssl
take_context made l o = elim (l.context) [
  | some c ↦ (true, l, o)
  | none ↦ elim made [
    | none ↦ (false, l, o)
    | some c ↦ (true, record l { context = some c }, record o { contexts = c ∷ o.contexts })
  ]
]

-- By what `SSL_new` returns.
unfoldable pub take_handle : Option ℕ → Layer → Ssl → Bool × Layer × Ssl
take_handle made l o = elim (l.handle) [
  | some h ↦ (true, l, o)
  | none ↦ elim made [
    | none ↦ (false, l, o)
    | some h ↦ (true, record l { handle = some h }, record o { handles = h ∷ o.handles })
  ]
]

unfoldable pub after_take : Option ℕ → Bool × Layer × Ssl → Bool × Layer × Ssl
unfolding take_handle
after_take handle (true, l, o) = take_handle handle l o
after_take handle (false, l, o) = (false, l, o)

unfoldable pub init : Option ℕ → Option ℕ → Layer → Ssl → Bool × Layer × Ssl
unfolding take_context after_take
init context handle l o = after_take handle (take_context context l o)

-- The object that a constructor leaves: none where it throws, as its destructor does not run then.
unfoldable pub constructed : Bool × Layer × Ssl → Option Layer × Ssl
constructed (true, l, o) = (some l, o)
constructed (false, l, o) = (none, o)

-- `openssl_layer::openssl_layer()`.
unfoldable pub construct : Option ℕ → Option ℕ → Ssl → Option Layer × Ssl
unfolding init constructed
construct context handle o = constructed (init context handle detached o)

-- The handle, and then the context.
unfoldable pub shutdown : Layer → Ssl → Layer × Ssl
unfolding release
shutdown l o = (
  detached,
  record { handles = release l.handle o.handles; contexts = release l.context o.contexts },
)

-- Assignment of another layer.
unfoldable pub assign_layer : Layer → Layer → Ssl → Layer × Layer × Ssl
unfolding shutdown
assign_layer l other o = (other, detached, (shutdown l o).1)

-- `attach`: whether it returns; `ok` is whether the descriptor is set and the handshake succeeds.
unfoldable pub attach_layer : Bool → Option ℕ → Layer → Bool
attach_layer ok none l = true
attach_layer ok (some fd) l = elim (l.handle) [ none ↦ true | some h ↦ ok ]

unfoldable pub send_layer : (Bytes → Option ℕ) → Layer → Bytes → Option ℕ
send_layer ssl_write l bytes = elim (l.handle) [ none ↦ some 0 | some h ↦ ssl_write bytes ]

unfoldable pub read_layer : Option Bytes → Layer → Option Bytes
read_layer answer l = elim (l.handle) [ none ↦ some [] | some h ↦ answer ]

-- A socket whose `ssl_` is a layer.
pub record Secured : Type 0 where
  pub socket : Socket
  pub layer : Layer

unfoldable pub close : Secured → Fds → Ssl → Secured × Fds × Ssl
unfolding shutdown Socket.close
close s fds o =
    let (layer, o') = shutdown s.layer o in
    let (socket, fds') = Socket.close s.socket fds in
    (record { socket = socket; layer = layer }, fds', o')

-- Behind the loop of `connect`.
unfoldable pub found : Bool → Secured → Ssl → Option ℕ × Fds → Returns × Secured × Fds × Ssl
unfolding attach_layer
found ok s o (none, fds) =
    (returned false, record s { socket = record (s.socket) { sock = none } }, fds, o)
found ok s o (some fd, fds) = (
  (if attach_layer ok (some fd) s.layer then returned true else thrown),
  record s { socket = record (s.socket) { sock = some fd } },
  fds,
  o,
)

unfoldable pub connect :
    Option (List Attempt) → Bool → Secured → Fds → Ssl → Returns × Secured × Fds × Ssl
unfolding close found connect_loop
connect none ok s fds o = (returned false, s, fds, o)
connect (some ps) ok s fds o =
    let closed = if is_valid s.socket then close s fds o else (s, fds, o) in
    found ok closed.0 closed.2 (connect_loop ps closed.1)

unfoldable pub send : (Bytes → Option ℕ) → (Bytes → Option ℕ) → Secured → Bytes → Option ℕ
unfolding Socket.send send_layer
send raw_send ssl_write s bytes = Socket.send raw_send (send_layer ssl_write s.layer) s.socket bytes

unfoldable pub recv :
    (Bytes → Bytes) → Option Bytes → Option Bytes → Secured → Bytes → Option ℕ × Bytes
unfolding Socket.recv read_layer
recv on_recv raw_answer ssl_answer s buffer =
    Socket.recv on_recv (if s.socket.secure then read_layer ssl_answer s.layer else raw_answer)
      s.socket buffer

-- A layer that was shut down takes no byte, and gives none.
send-detached :
    (raw_send ssl_write : Bytes → Option ℕ) (s : Socket) (bytes : Bytes)
    → is_valid s ≡ true
    → s.secure ≡ true
    → send raw_send ssl_write (record { socket = s; layer = detached }) bytes ≡ some 0
unfolding send
send-detached raw_send ssl_write s [] v c = rw v refl
send-detached raw_send ssl_write s (b ∷ bytes) v c = rw v (rw c refl)

recv-detached :
    (on_recv : Bytes → Bytes) (raw_answer ssl_answer : Option Bytes) (s : Socket) (buffer : Bytes)
    → is_valid s ≡ true
    → s.secure ≡ true
    → recv on_recv raw_answer ssl_answer (record { socket = s; layer = detached }) buffer
      ≡ (some 0, [])
unfolding recv Socket.received
recv-detached on_recv raw_answer ssl_answer s buffer v c = rw v (rw c refl)

found-detached :
    (ok : Bool) (s : Socket) (o : Ssl) (fd : ℕ) (r : Option ℕ × Fds)
    → r.0 ≡ some fd
    → found ok (record { socket = s; layer = detached }) o r
      ≡ (returned true, record { socket = record s { sock = some fd }; layer = detached }, r.1, o)
unfolding found
found-detached ok s o fd (none, fds) e = cc
found-detached ok s o fd (some x, fds) e =
    ap
      (λ sock.
        (returned true, record { socket = record s { sock = sock }; layer = detached }, fds, o))
      e

-- A secure socket that is connected and connects again, where an address answers, says that it is
-- connected and is valid, but its layer was shut down with the old connection and is not set up
-- again: there is no handshake, whatever OpenSSL would answer, every send takes no byte, and every
-- read is the end of the stream.
pub reconnect_silent :
    (ps : List Attempt) (fd : ℕ) (ok : Bool) (s : Secured) (fds : Fds) (o : Ssl)
    (raw_send ssl_write : Bytes → Option ℕ) (on_recv : Bytes → Bytes)
    (raw_answer ssl_answer : Option Bytes) (bytes buffer : Bytes)
    → is_valid s.socket ≡ true
    → s.socket.secure ≡ true
    → (connect_loop ps (close s fds o).1).0 ≡ some fd
    → let (r, s', fds', o') = connect (some ps) ok s fds o in
      (r ≡ returned true)
      × (s'.socket.sock ≡ some fd)
      × (s'.layer ≡ detached)
      × (send raw_send ssl_write s' bytes ≡ some 0)
      × (recv on_recv raw_answer ssl_answer s' buffer ≡ (some 0, []))
unfolding connect close shutdown Socket.close
reconnect_silent ps fd ok s fds o raw_send ssl_write on_recv raw_answer ssl_answer bytes buffer v c
      e =
    let again = record (s.socket) { sock = some fd; non_blocking = false } in
    rw (v, connect)
      (rw
        (found-detached ok (record (s.socket) { sock = none; non_blocking = false })
          (shutdown s.layer o).1 fd (connect_loop ps (release s.socket.sock fds)) e)
        (
          refl,
          refl,
          refl,
          send-detached raw_send ssl_write again bytes refl c,
          recv-detached on_recv raw_answer ssl_answer again buffer refl c,
        ))
