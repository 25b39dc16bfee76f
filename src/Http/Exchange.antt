-- ===== src/Http/Exchange.antt =====
-- `http::socket::request`: the connection, the request and the answer, over a buffered socket. The
-- system is a record of what it answers.
use libcoda_net.Base.{
  ℕ, Bool, true, false, Option, none, some, List, [], ◌∷◌, ◌++◌, leb, if◌then◌else◌, Bytes,
  is_empty, ◌≡◌, ap,
}
use libcoda_net.Socket
use libcoda_net.Socket.{Attempt, returned, fresh, is_valid, set_secure}
use libcoda_net.Buffered.{
  Buffered, connected, Received, notify, write_from_buffer, read_to_buffer, newline, writeln,
}
use libcoda_net.Buffered.Lines.{write_lines}
use libcoda_net.Http.Scan.{Code, plus, minus, number, skip_space}
use libcoda_net.Http.{Method}
use libcoda_net.Http.Client.{Client, Implementation, is_secure}
use libcoda_net.Http.Request.{write_request}

pub record System : Type 0 where
  pub openssl : Bool
  -- What becomes of the addresses of a host and port.
  pub resolve : Bytes → Code → Option (List Attempt)
  pub attach_ok : Bool
  pub incoming : List Received
  pub outgoing : List (Option ℕ)

pub data Answer : Type 0 where
  answer : Bytes → Buffered → Answer
  no_port no_handshake unable_to_connect unable_to_write unable_to_read null_listener : Answer

-- `stoi` of the port that the URI names; `none` is one of its exceptions.
unfoldable pub stoi : Bytes → Option Code
stoi s = elim (number (skip_space s)) [
  | none ↦ none
  | some (plus n, rest) ↦ if leb n 2147483647 then some (plus n) else none
  | some (minus n, rest) ↦ if leb n 2147483648 then some (minus n) else none
]

unfoldable pub port_of : Client → Option Code
port_of c =
    if is_empty c.uri.port then some (plus (if is_secure c then 443 else 80)) else stoi c.uri.port

-- A fresh buffered socket over a socket.
abbrev pub buffered : System → Socket.Socket → Socket.Fds → Buffered
buffered sys s fds = record {
  socket = s;
  in_buffer = [];
  out_buffer = [];
  listeners = [];
  fds = fds;
  incoming = sys.incoming;
  outgoing = sys.outgoing;
  wire = [];
  calls = [];
}

-- From `read_to_buffer` on. The destructor of the socket, which closes it, is left out.
unfoldable pub receive : Option (Bool × Buffered) → Answer
receive none = null_listener
receive (some (true, b)) = answer b.in_buffer b
receive (some (false, b)) = unable_to_read

-- From `write_from_buffer` on.
unfoldable pub transmit : Option (Bool × Buffered) → Answer
transmit none = null_listener
transmit (some (true, b)) = receive (read_to_buffer (λ s. s) b)
transmit (some (false, b)) = unable_to_write

-- Behind `connect`, with its notification.
unfoldable pub converse : Client → Method → Bytes → Option Buffered → Answer
converse c method path none = null_listener
converse c method path (some b) = transmit (write_from_buffer (write_request c method path b))

unfoldable pub after_connect :
    System → Client → Method → Bytes → Socket.Returns × Socket.Socket × Socket.Fds → Answer
after_connect sys c method path (returned true, s, fds) =
    converse c method path (notify connected (buffered sys s fds))
after_connect sys c method path (returned false, s, fds) = unable_to_connect
after_connect sys c method path (Socket.thrown, s, fds) = no_handshake

unfoldable pub exchange : System → Client → Method → Bytes → Answer
exchange sys c method path = elim (port_of c) [
  | none ↦ no_port
  | some port ↦ after_connect sys c method path (
      Socket.connect (sys.resolve c.uri.host port) sys.attach_ok
        (if is_secure c then set_secure sys.openssl true fresh else fresh) [])
]

-- As the implementation of a client.
unfoldable pub answered : Client → Answer → Option (Client × Bytes)
answered c (answer text b) = some (c, text)
answered c no_port = none
answered c no_handshake = none
answered c unable_to_connect = none
answered c unable_to_write = none
answered c unable_to_read = none
answered c null_listener = none

unfoldable pub over_socket : System → Implementation
unfolding answered exchange
over_socket sys c method path = answered c (exchange sys c method path)

-- The text of a request.
abbrev pub request_text : System → Client → Method → Bytes → Bytes
request_text sys c method path = (write_request c method path (buffered sys fresh [])).out_buffer

pub write_lines-same :
    (ls : List Bytes) (b b' : Buffered)
    → b.out_buffer ≡ b'.out_buffer
    → (write_lines ls b).out_buffer ≡ (write_lines ls b').out_buffer
unfolding write_lines
write_lines-same [] b b' h = h
write_lines-same (l ∷ ls) b b' h =
    write_lines-same ls (writeln l b) (writeln l b') (ap (λ o. (o ++ l) ++ newline) h)
