-- ===== src/Server/Reading.antt =====
-- What the loop over the connections does for a buffered socket that is ready to be read.
use libcoda_net.Base.{
  ℕ, Bool, true, false, not, Option, some, List, [], ◌∷◌, ◌++◌, map, if◌then◌else◌, Bytes, ◌≡◌, ◌∙◌,
  ap, sym, inl, inr, Bool-cases,
}
use libcoda_net.Socket.{is_valid}
use libcoda_net.Buffered.{Buffered, Received, block}
use libcoda_net.Buffered.Receive.{IsStop, is_failed, filter_all, read_to_buffer-blocks}
use libcoda_net.Server.{FdSet, is_set}
use libcoda_net.Server.Select.{Poller, transfer, read_ready, write_ready, serve_all}
use libcoda_net.Server.Epoll.{find_socket}
use libcoda_net.Server.Sockets.{IsOrdered}
use libcoda_net.Server.Serving.{IsKeyed, iterate_connections-transferred}
use libcoda_net.Server.Buffers.{
  Conn, buffers, buffers-KeepsSocket, raw_socket, behind, Transfers, read-Transfers,
}
use libcoda_net.Server.Finding.{some_same, find-each_transferred, find-IsKeyed}

behind_lem :
    (b : Conn) (o : Option (Bool × Buffered)) (returns : Transfers b.0 o) (r : Bool × Buffered)
    → o ≡ some r
    → ((behind b o returns).0 ≡ r.0) × ((behind b o returns).1.0 ≡ r.1)
unfolding behind Transfers
behind_lem (b, n) o (r', e, s, l) r h =
    let same = some_same r' r (sym e ∙ h) in (ap (λ x. x.0) same, ap (λ x. x.1) same)

module _ (filter : Bytes → Bytes) where
  quiet_write :
      (outs : FdSet) (c : Conn)
      → c.0.out_buffer ≡ []
      → write_ready (buffers filter) outs c ≡ (false, c)
  unfolding write_ready
  quiet_write outs c e = elim (Bool-cases (is_set (raw_socket c) outs)) [
    | inl i ↦ rw (i, e)
    | inr i ↦ rw i
  ]

  quiet_read :
      (outs : FdSet) (r : Bool × Conn)
      → r.0 ≡ true
      → r.1.0.out_buffer ≡ []
      → read_ready (buffers filter) outs r ≡ (false, r.1)
  unfolding read_ready
  quiet_read outs (true, c) e h = quiet_write outs c h
  quiet_read outs (false, c) e h = cc

  transfer-reads :
      (ins outs : FdSet) (b : Conn)
      → is_valid b.0.socket ≡ true
      → is_set (raw_socket b) ins ≡ true
      → transfer (buffers filter) ins outs b
        ≡ read_ready (buffers filter) outs (behind b _ (read-Transfers filter b.0 b.1))
  unfolding transfer
  transfer-reads ins outs b v i = λ j.
      (if not (v j)
        then (true, b)
        else (if i j
            then read_ready (buffers filter) outs (behind b _ (read-Transfers filter b.0 b.1))
            else write_ready (buffers filter) outs b))

  -- What the loop does for one connection.
  pub serves :
      (p : Poller Conn) (fd : ℕ) (b : Conn) (ss : List Bytes) (stop : Received)
      (rest : List Received)
      → IsOrdered p.sockets
      → IsKeyed (buffers filter) p.sockets
      → find_socket fd p.sockets ≡ some b
      → is_set fd p.in_set ≡ true
      → is_valid b.0.socket ≡ true
      → b.0.non_blocking ≡ true
      → b.0.out_buffer ≡ []
      → IsStop stop
      → is_failed stop ≡ false
      → b.0.incoming ≡ map block ss ++ (stop ∷ rest)
      → (b' : Conn) × (find_socket fd (serve_all (buffers filter) p).sockets ≡ some b')
        × (b'.0.in_buffer ≡ b.0.in_buffer ++ filter_all filter ss)
        × (b'.0.incoming ≡ rest)
        × (b'.0.socket ≡ b.0.socket)
  unfolding serve_all
  serves p fd b ss stop rest o k f i valid nb out st nf inc =
      let served = behind b _ (read-Transfers filter b.0 b.1) in
      let read =
        behind_lem b _ (read-Transfers filter b.0 b.1) _
          (read_to_buffer-blocks filter ss stop b.0 rest st b.1 valid nb inc) in
      let at : raw_socket b ≡ fd = find-IsKeyed (buffers filter) fd b p.sockets k f in
      let moved =
        transfer-reads p.in_set p.out_set b valid (ap (λ x. is_set x p.in_set) at ∙ i)
        ∙ quiet_read p.out_set served (read.0 ∙ ap not nf) (ap (λ x. x.out_buffer) read.1 ∙ out) in
      (
        served.1,
        ap (find_socket fd) (
              iterate_connections-transferred (buffers filter) (buffers-KeepsSocket filter)
                p.sockets p.in_set p.out_set k o)
            ∙ find-each_transferred (buffers filter) fd p.in_set p.out_set b served.1 p.sockets f
                moved,
        ap (λ x. x.in_buffer) read.1,
        ap (λ x. x.incoming) read.1,
        ap (λ x. x.socket) read.1,
      )
