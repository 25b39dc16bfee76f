-- ===== src/Server/Delivery/Tests.antt =====
-- A server on select over buffered sockets at concrete answers.
use libcoda_net.Base.{ℕ, true, some, List, [], ◌∷◌, ascii, ◌≡◌, refl}
use libcoda_net.Buffered.{block, not_now, ended}
use libcoda_net.Server.{FdSet, is_set}
use libcoda_net.Server.Accept.{Peer, create_socket}
use libcoda_net.Server.Arrivals.{arrive, arrival}
use libcoda_net.Server.Select.{Poller, Selected, ready, poll}
use libcoda_net.Server.Epoll.{find_socket}
use libcoda_net.Server.Buffers.{Conn, buffers}
use libcoda_net.Server.Delivery.{accept_delivers}

abbrev peer : Peer
peer = record {
  incoming = block (ascii "ab") ∷ block (ascii "c") ∷ not_now ∷ ended ∷ [];
  outgoing = [];
}

abbrev connection : Conn
connection = (arrival 9 true true (3 ∷ 4 ∷ []) peer 4).1

abbrev poller : List (ℕ × Conn) → Poller Conn
poller cs = record {
  valid = true;
  listening = 3;
  sockets = cs;
  in_set = 3 ∷ 4 ∷ [];
  out_set = 4 ∷ [];
  max_desc = 4;
}

abbrev busy : ℕ → FdSet → FdSet → Selected
busy limit ins outs = ready ins outs

accept_delivers_example :
    (c : Conn) × (q : Poller Conn) × (b' : Conn) × (arrive 9
        (create_socket true true (3 ∷ 5 ∷ []) peer)
        5
      ≡ some c.0)
    × (poll (buffers (λ s. s)) busy (some (5, c)) (poller []) ≡ some q)
    × (find_socket 5 q.sockets ≡ some b')
    × (b'.0.in_buffer ≡ ascii "abc")
    × (b'.0.incoming ≡ ended ∷ [])
    × (b'.0.socket.sock ≡ some 5)
unfolding is_set
accept_delivers_example =
    accept_delivers (λ s. s) busy (poller []) (3 ∷ 4 ∷ []) (4 ∷ []) 9 5 (3 ∷ 5 ∷ []) peer
      (ascii "ab" ∷ ascii "c" ∷ []) not_now (ended ∷ []) refl tt tt refl refl tt refl refl
