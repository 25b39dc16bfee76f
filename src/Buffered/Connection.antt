-- ===== src/Buffered/Connection.antt =====
-- `connect` of a buffered socket, whose `close` is virtual, and the operators of streams.
use libcoda_net.Base.{
  ℕ, Bool, true, false, Option, none, some, List, [], ◌∷◌, ◌++◌, if◌then◌else◌, Bytes, length, inl,
  inr, ◌≡◌, ◌≢◌, ◌∙◌, refl, ap,
}
use libcoda_net.Socket
use libcoda_net.Socket.{Fds, Attempt, connect_loop, Returns, returned, thrown, is_valid, release}
use libcoda_net.Socket.Ownership.{connect-found}
use libcoda_net.Buffered.{
  Buffered, connected, closed, notify, write, write_from_buffer, close, ◌>>=◌,
}
use libcoda_net.Buffered.Listeners.{NoNull, notify-NoNull}
use libcoda_net.Buffered.Transfer.{
  notified, IsAnswer, part_written, all_written, write_from_buffer_lem, write_answer_all,
}

-- `socket::connect` in a buffered socket. The answers to `send` behind it are those of the script,
-- which a socket without a secure layer has; a secure layer was shut down by the close and takes no
-- byte, which Socket/Secure is about.
unfoldable pub base_connect : Option (List Attempt) → Bool → Buffered → Option (Returns × Buffered)
unfolding close Socket.connect
base_connect none attach_ok b = some (returned false, b)
base_connect (some ps) attach_ok b = (if is_valid b.socket then close b else some b) >>= (λ b'.
    let (r, s, fds) = Socket.connect (some ps) attach_ok b'.socket b'.fds in
    some (r, record b' { socket = s; fds = fds }))

unfoldable pub after_base : Option (Returns × Buffered) → Option (Returns × Buffered)
unfolding notify
after_base none = none
after_base (some (returned true, b)) = notify connected b >>= (λ b'. some (returned true, b'))
after_base (some (returned false, b)) = some (returned false, b)
after_base (some (thrown, b)) = some (thrown, b)

-- `buffered_socket::connect`; `none` is the call of a null listener.
unfoldable pub connect : Option (List Attempt) → Bool → Buffered → Option (Returns × Buffered)
unfolding base_connect after_base
connect addresses attach_ok b = after_base (base_connect addresses attach_ok b)

-- `operator<<`, and `operator>>`, which takes nothing out of the buffer.
unfoldable pub insert : Bytes → Buffered → Buffered
unfolding write
insert s b = write s b

unfoldable pub extract : Bytes → Buffered → Bytes × Buffered
extract s b = (s ++ b.in_buffer, b)

-- A valid socket with output that is closed while the system does not take the whole of it.
close-part_written :
    (b : Buffered) (o : Option ℕ) (os : List (Option ℕ))
    → NoNull b.listeners
    → is_valid b.socket ≡ true
    → b.out_buffer ≢ []
    → b.outgoing ≡ o ∷ os
    → IsAnswer o (length b.out_buffer)
    → o ≢ some (length b.out_buffer)
    → let told_closed = record b { calls = b.calls ++ notified closed b } in
      close b
      ≡ some (record (part_written told_closed o os) {
        socket = (Socket.close b.socket b.fds).0;
        fds = (Socket.close b.socket b.fds).1;
      })
unfolding close Socket.close
close-part_written b o os n v ne e a less =
    let told_closed = record b { calls = b.calls ++ notified closed b } in
    elim (write_from_buffer_lem told_closed o os n v ne e a) [
      | inl all ↦ absurd (less (all.0))
      | inr part ↦ rw (v, close) (rw (notify-NoNull closed b n) (rw (part.1) refl))
    ]

-- Behind a close, where an address answers.
base_connect-found :
    (ps : List Attempt) (fd : ℕ) (b closed_b : Buffered)
    → is_valid b.socket ≡ true
    → close b ≡ some closed_b
    → is_valid closed_b.socket ≡ false
    → (connect_loop ps closed_b.fds).0 ≡ some fd
    → base_connect (some ps) true b
      ≡ some (
        returned true,
        record closed_b {
          socket = record (closed_b.socket) { sock = some fd };
          fds = (connect_loop ps closed_b.fds).1;
        },
      )
unfolding base_connect
base_connect-found ps fd b closed_b v closes gone reached =
    let opens : Buffered → Option (Returns × Buffered) = λ b'.
      let (r, s, fds) = Socket.connect (some ps) true b'.socket b'.fds in
      some (r, record b' { socket = s; fds = fds }) in
    ap (λ t. (if t then close b else some b) >>= opens) v
    ∙ ap (λ o. o >>= opens) closes
    ∙ ap (λ r. some (r.0, record closed_b { socket = r.1; fds = r.2 }))
        (connect-found ps closed_b.socket closed_b.fds fd gone reached)

-- A valid buffered socket without a secure layer and without null listeners, with less than 2 ^ 31
-- bytes of output, which the system does not take whole, and that connects again where an address
-- answers, is true and connected to the new peer, still without a secure layer, with the input of the
-- old connection and all of the output that was meant for the old peer: the next flush, if the system
-- takes it whole, sends it to the new one.
pub reconnect_keeps :
    (ps : List Attempt) (fd : ℕ) (b : Buffered) (o : Option ℕ) (os : List (Option ℕ))
    → NoNull b.listeners
    → is_valid b.socket ≡ true
    → b.socket.secure ≡ false
    → b.out_buffer ≢ []
    → b.outgoing ≡ o ∷ some (length b.out_buffer) ∷ os
    → IsAnswer o (length b.out_buffer)
    → o ≢ some (length b.out_buffer)
    → (connect_loop ps (release b.socket.sock b.fds)).0 ≡ some fd
    → (b' b'' : Buffered) × (connect (some ps) true b ≡ some (returned true, b'))
      × (b'.socket.sock ≡ some fd)
      × (b'.socket.secure ≡ false)
      × (b'.in_buffer ≡ b.in_buffer)
      × (b'.out_buffer ≡ b.out_buffer)
      × (write_from_buffer b' ≡ some (true, b''))
      × (b''.wire ≡ b'.wire ++ b.out_buffer)
      × (b''.out_buffer ≡ [])
unfolding connect after_base Socket.close
reconnect_keeps ps fd b o os n v plain ne e a less reached =
    let told_closed = record b { calls = b.calls ++ notified closed b } in
    let closed_b = record (part_written told_closed o (some (length b.out_buffer) ∷ os)) {
      socket = (Socket.close b.socket b.fds).0;
      fds = (Socket.close b.socket b.fds).1;
    } in
    let closes = close-part_written b o (some (length b.out_buffer) ∷ os) n v ne e a less in
    let open_b = record closed_b {
      socket = record (closed_b.socket) { sock = some fd };
      fds = (connect_loop ps closed_b.fds).1;
    } in
    let b' = record open_b { calls = open_b.calls ++ notified connected open_b } in
    (
      b',
      all_written b' os,
      ap after_base (base_connect-found ps fd b closed_b v closes refl reached)
          ∙ ap (λ x. x >>= (λ c. some (returned true, c))) (notify-NoNull connected open_b n),
      refl,
      plain,
      refl,
      refl,
      write_answer_all b' os n refl ne refl,
      refl,
      refl,
    )
