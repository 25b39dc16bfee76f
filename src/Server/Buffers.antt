-- ===== src/Server/Buffers.antt =====
-- Buffered sockets as the connections of a server. A connection holds no null listener, which only
-- `remove_listener` leaves behind, so that its transfers return.
use mathlib.Core.Path.{subst}
use libcoda_net.Base.{
  ℕ, Bool, true, false, not, Option, none, some, List, [], ◌∷◌, ◌++◌, if◌then◌else◌, is_empty,
  length, Bytes, ◌≡◌, ◌∙◌, refl, ap, sym,
}
use libcoda_net.Socket.{is_valid}
use libcoda_net.Buffered.{
  Buffered, Hook, Received, block, ended, not_now, failed, will_write, will_read, did_read,
  did_write, notify, write_from_buffer, read_to_buffer, read_from, after_loop, send_out, after_send,
  is_all, ◌>>=◌,
}
use libcoda_net.Buffered.Listeners.{NoNull, notify-NoNull}
use libcoda_net.Buffered.Transfer.{notified}
use libcoda_net.Server.{Connection}
use libcoda_net.Server.Serving.{KeepsSocket}

-- A call that returns, and leaves the socket and the listeners as they are.
unfoldable pub Transfers : Buffered → Option (Bool × Buffered) → Type 0
Transfers b o =
    (r : Bool × Buffered) × (o ≡ some r) × (r.1.socket ≡ b.socket) × (r.1.listeners ≡ b.listeners)

Transfers-path :
    (b : Buffered) (o o' : Option (Bool × Buffered)) → o ≡ o' → Transfers b o' → Transfers b o
unfolding Transfers
Transfers-path b o o' e (r, q, s, l) = (r, e ∙ q, s, l)

either-Transfers :
    (test : Bool) (b : Buffered) (o o' : Option (Bool × Buffered))
    → Transfers b o
    → Transfers b o'
    → Transfers b (if test then o else o')
either-Transfers true b o o' r q = r
either-Transfers false b o o' r q = q

-- Behind the calls of the listeners.
notify-Transfers :
    (h : Hook) (b b' : Buffered)
    → NoNull b.listeners
    → b'.socket ≡ b.socket
    → b'.listeners ≡ b.listeners
    → Transfers b (notify h b' >>= (λ x. some (true, x)))
unfolding Transfers
notify-Transfers h b b' n s l =
    let told_all = record b' { calls = b'.calls ++ notified h b' } in
    (
      (true, told_all),
      ap (λ o. o >>= (λ x. some (true, x))) (notify-NoNull h b' (subst NoNull (sym l) n)),
      s,
      l,
    )

after_send-Transfers :
    (size : ℕ) (b : Buffered) (r : Option ℕ × Buffered)
    → NoNull b.listeners
    → r.1.socket ≡ b.socket
    → r.1.listeners ≡ b.listeners
    → Transfers b (after_send size r)
unfolding after_send Transfers
after_send-Transfers size b (status, b') n s l =
    either-Transfers (is_all status size) b _ _
      (notify-Transfers did_write b (record b' { out_buffer = [] }) n s l) ((false, b'), refl, s, l)

pub write-Transfers : (b : Buffered) → NoNull b.listeners → Transfers b (write_from_buffer b)
unfolding write_from_buffer Transfers send_out
write-Transfers b n =
    let told_write = record b { calls = b.calls ++ notified will_write b } in
    either-Transfers (not (is_valid b.socket)) b _ _ ((false, b), refl, refl, refl)
      (either-Transfers (is_empty b.out_buffer) b _ _ ((true, b), refl, refl, refl)
        (Transfers-path b _ _
          (ap (λ o. o >>= (λ b'. after_send (length b.out_buffer) (send_out b')))
            (notify-NoNull will_write b n))
          (after_send-Transfers (length b.out_buffer) b (send_out told_write) n refl refl)))

after_loop-Transfers :
    (b : Buffered) (r : Bytes × List Received × Bool)
    → NoNull b.listeners
    → Transfers b (after_loop b r)
unfolding after_loop Transfers
after_loop-Transfers b (input, left, threw) n =
    let read = record b { in_buffer = input; incoming = left } in
    either-Transfers threw b _ _ ((false, read), refl, refl, refl)
      (notify-Transfers did_read b read n refl refl)

module _ (filter : Bytes → Bytes) where
  read_from-Transfers :
      (l : List Received) (b : Buffered) → NoNull b.listeners → Transfers b (read_from filter l b)
  unfolding read_from Transfers
  read_from-Transfers [] b n = ((true, b), refl, refl, refl)
  read_from-Transfers (ended ∷ rest) b n = ((true, record b { incoming = rest }), refl, refl, refl)
  read_from-Transfers (not_now ∷ rest) b n =
      ((true, record b { incoming = rest }), refl, refl, refl)
  read_from-Transfers (failed ∷ rest) b n =
      ((false, record b { incoming = rest }), refl, refl, refl)
  read_from-Transfers (block s ∷ rest) b n = after_loop-Transfers b _ n

  read_to_buffer-total :
      (b : Buffered)
      → NoNull b.listeners
      → let told_all = record b { calls = b.calls ++ notified will_read b } in
        read_to_buffer filter b ≡ (
          if is_valid b.socket then read_from filter b.incoming told_all else some (true, told_all))
  unfolding read_to_buffer
  read_to_buffer-total b n =
      ap
        (λ o. o >>= (λ b'.
          if is_valid b'.socket then read_from filter b'.incoming b' else some (true, b')))
        (notify-NoNull will_read b n)

  pub read-Transfers : (b : Buffered) → NoNull b.listeners → Transfers b (read_to_buffer filter b)
  unfolding Transfers
  read-Transfers b n =
      let told_all = record b { calls = b.calls ++ notified will_read b } in
      Transfers-path b _ _ (read_to_buffer-total b n) (
        either-Transfers (is_valid b.socket) b _ _ (read_from-Transfers b.incoming told_all n)
          ((true, told_all), refl, refl, refl))

abbrev pub Conn : Type 0
Conn = (b : Buffered) × NoNull b.listeners

-- What a call that returns leaves of a connection.
unfoldable pub behind : (b : Conn) (o : Option (Bool × Buffered)) → Transfers b.0 o → Bool × Conn
unfolding Transfers
behind (b, n) o (r, e, s, l) = (r.0, (r.1, subst NoNull (sym l) n))

unfoldable pub raw_socket : Conn → ℕ
raw_socket (b, n) = elim (b.socket.sock) [ none ↦ 0 | some fd ↦ fd ]

-- Buffered sockets with a filter fill the interface.
abbrev pub buffers : (Bytes → Bytes) → Connection
buffers filter = record {
  Conn = Conn;
  raw_socket = raw_socket;
  is_valid = λ b. is_valid b.0.socket;
  has_output = λ b. not (is_empty b.0.out_buffer);
  read_to_buffer = λ b. behind b _ (read-Transfers filter b.0 b.1);
  write_from_buffer = λ b. behind b _ (write-Transfers b.0 b.1);
}

behind-raw :
    (b : Conn) (o : Option (Bool × Buffered)) (r : Transfers b.0 o)
    → raw_socket (behind b o r).1 ≡ raw_socket b
unfolding behind raw_socket Transfers
behind-raw (b, n) o (r, e, s, l) = ap (λ x. elim (x.sock) as (λ _. ℕ) [ none ↦ 0 | some fd ↦ fd ]) s

pub buffers-KeepsSocket : (filter : Bytes → Bytes) → KeepsSocket (buffers filter)
buffers-KeepsSocket filter = record {
  reads = λ b. behind-raw b _ (read-Transfers filter b.0 b.1);
  writes = λ b. behind-raw b _ (write-Transfers b.0 b.1);
}
