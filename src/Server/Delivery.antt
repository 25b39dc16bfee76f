-- ===== src/Server/Delivery.antt =====
-- One poll of the server on select, over buffered sockets: what the peers sent reaches the buffers.
mod Tests
use libcoda_net.Base.{
  ℕ, ◌+◌, Bool, true, false, not, Option, none, some, List, [], ◌∷◌, ◌++◌, map, if◌then◌else◌,
  Bytes, ◌≡◌, ◌∙◌, refl, ap, sym, arith, inl, inr, Bool-cases,
}
use libcoda_net.Socket.{is_valid, Fds}
use libcoda_net.Server.Accept.{Peer, create_socket}
use libcoda_net.Server.Arrivals.{arrive, arrival, arrive-newcomer, find-insert}
use libcoda_net.Buffered.{Buffered, Received, block}
use libcoda_net.Buffered.Receive.{IsStop, is_failed, filter_all, read_to_buffer-blocks}
use libcoda_net.Server.{FdSet, is_set}
use libcoda_net.Server.Select.{
  Poller, Selected, ready, transfer, read_ready, write_ready, accept_new, serve_all, after_answer,
  after_select, after_selected, poll,
}
use libcoda_net.Server.Epoll.{find_socket}
use libcoda_net.Server.Sockets.{IsOrdered, insert-IsOrdered}
use libcoda_net.Server.Serving.{IsKeyed, iterate_connections-transferred}
use libcoda_net.Server.Covering.{insert-All}
use libcoda_net.Server.Buffers.{
  Conn, buffers, buffers-KeepsSocket, raw_socket, behind, Transfers, read-Transfers,
}
use libcoda_net.Server.Finding.{some_same, find-each_transferred, find-IsKeyed}
use libcoda_net.Server.Reading.{serves}

module _ (filter : Bytes → Bytes) where
  none_accepted :
      (test : Bool) (p : Poller Conn) → (if test then accept_new (buffers filter) none p else p) ≡ p
  unfolding accept_new
  none_accepted true p = refl
  none_accepted false p = refl

  poll-ready :
      (select : ℕ → FdSet → FdSet → Selected) (p : Poller Conn) (ins outs : FdSet)
      → p.valid ≡ true
      → select (1 + p.max_desc) p.in_set p.out_set ≡ ready ins outs
      → poll (buffers filter) select none p
        ≡ some (serve_all (buffers filter) (record p { in_set = ins; out_set = outs }))
  unfolding poll after_selected after_select after_answer
  poll-ready select p ins outs v s =
      let answer = select (1 + p.max_desc) p.in_set p.out_set in
      let asked = record p { in_set = ins; out_set = outs } in
      ap
        (λ t.
          if not t then some p else after_selected (buffers filter) none (after_select answer p))
        v
      ∙ ap (λ a. after_selected (buffers filter) none (after_select a p)) s
      ∙ ap (λ q. some (serve_all (buffers filter) q)) (none_accepted (is_set p.listening ins) asked)

  -- A valid server on select, between whose polls the connections stand at their descriptors in
  -- order, polls while no one connects. A connection that is valid and non-blocking, has nothing to
  -- send and is reported ready has behind the poll, at the same descriptor, all blocks that were ready
  -- in its input, filtered and in order, whatever becomes of the other connections.
  pub poll_delivers :
      (select : ℕ → FdSet → FdSet → Selected) (p : Poller Conn) (ins outs : FdSet) (fd : ℕ)
      (b : Conn) (ss : List Bytes) (stop : Received) (rest : List Received)
      → p.valid ≡ true
      → IsOrdered p.sockets
      → IsKeyed (buffers filter) p.sockets
      → select (1 + p.max_desc) p.in_set p.out_set ≡ ready ins outs
      → find_socket fd p.sockets ≡ some b
      → is_set fd ins ≡ true
      → is_valid b.0.socket ≡ true
      → b.0.non_blocking ≡ true
      → b.0.out_buffer ≡ []
      → IsStop stop
      → is_failed stop ≡ false
      → b.0.incoming ≡ map block ss ++ (stop ∷ rest)
      → (q : Poller Conn) × (b' : Conn) × (poll (buffers filter) select none p ≡ some q)
        × (find_socket fd q.sockets ≡ some b')
        × (b'.0.in_buffer ≡ b.0.in_buffer ++ filter_all filter ss)
        × (b'.0.incoming ≡ rest)
        × (b'.0.socket ≡ b.0.socket)
  poll_delivers select p ins outs fd b ss stop rest v o k s f i valid nb out st nf inc =
      let asked = record p { in_set = ins; out_set = outs } in
      let (b', found, input, left, same) =
        serves filter asked fd b ss stop rest o k f i valid nb out st nf inc in
      (
        serve_all (buffers filter) asked,
        b',
        poll-ready select p ins outs v s,
        found,
        input,
        left,
        same,
      )

  poll-accepted :
      (select : ℕ → FdSet → FdSet → Selected) (p : Poller Conn) (ins outs : FdSet) (fd : ℕ)
      (c : Conn)
      → p.valid ≡ true
      → select (1 + p.max_desc) p.in_set p.out_set ≡ ready ins outs
      → is_set p.listening ins ≡ true
      → poll (buffers filter) select (some (fd, c)) p
        ≡ some (
            serve_all (buffers filter) (
              accept_new
                (buffers filter)
                (some (fd, c))
                (record p { in_set = ins; out_set = outs })))
  unfolding poll after_selected after_select after_answer
  poll-accepted select p ins outs fd c v s l =
      let answer = select (1 + p.max_desc) p.in_set p.out_set in
      let asked = record p { in_set = ins; out_set = outs } in
      ap
        (λ t.
          if not t
          then some p
          else after_selected (buffers filter) (some (fd, c)) (after_select answer p))
        v
      ∙ ap (λ a. after_selected (buffers filter) (some (fd, c)) (after_select a p)) s
      ∙ ap
          (λ t. some (
            serve_all (buffers filter)
              (if t then accept_new (buffers filter) (some (fd, c)) asked else asked)))
          l

  -- A valid server on select, set to non-blocking, between whose polls the connections stand at their
  -- descriptors in order, is told that its listening descriptor is ready and accepts a descriptor. The
  -- default factory makes a connection of it, which is among the connections behind that same poll, with
  -- the blocks that its peer had ready by then in its input, filtered and in order.
  pub accept_delivers :
      (select : ℕ → FdSet → FdSet → Selected) (p : Poller Conn) (ins outs : FdSet) (cleanup fd : ℕ)
      (fds : Fds) (peer : Peer) (ss : List Bytes) (stop : Received) (rest : List Received)
      → p.valid ≡ true
      → IsOrdered p.sockets
      → IsKeyed (buffers filter) p.sockets
      → select (1 + p.max_desc) p.in_set p.out_set ≡ ready ins outs
      → is_set p.listening ins ≡ true
      → IsStop stop
      → is_failed stop ≡ false
      → peer.incoming ≡ map block ss ++ (stop ∷ rest)
      → (c : Conn) × (q : Poller Conn) × (b' : Conn) × (arrive cleanup
            (create_socket true true fds peer)
            fd
          ≡ some c.0)
        × (poll (buffers filter) select (some (fd, c)) p ≡ some q)
        × (find_socket fd q.sockets ≡ some b')
        × (b'.0.in_buffer ≡ filter_all filter ss)
        × (b'.0.incoming ≡ rest)
        × (b'.0.socket.sock ≡ some fd)
  unfolding accept_new is_set raw_socket
  accept_delivers select p ins outs cleanup fd fds peer ss stop rest v o k s l st nf inc =
      let c = (arrival cleanup true true fds peer fd).1 in
      let asked = record p { in_set = ins; out_set = outs } in
      let (b', found, input, left, same) =
        serves filter (accept_new (buffers filter) (some (fd, c)) asked) fd c ss stop rest
          (insert-IsOrdered fd c p.sockets o) (insert-All _ fd c p.sockets refl k)
          (find-insert fd c p.sockets) (ground arith) refl refl refl st nf inc in
      (
        c,
        serve_all (buffers filter) (accept_new (buffers filter) (some (fd, c)) asked),
        b',
        arrive-newcomer cleanup true true fds peer fd,
        poll-accepted select p ins outs fd c v s l,
        found,
        input,
        left,
        ap (λ x. x.sock) same,
      )
