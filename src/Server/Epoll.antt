-- ===== src/Server/Epoll.antt =====
-- `sync/epoll_impl.cpp`: the poller that calls `epoll_wait`, with `find_socket` and `remove_socket`,
-- which the cleanup listener calls when a connection that is valid closes.
use libcoda_net.Base.{
  ℕ, zero, suc, Bool, true, false, not, ◌&&◌, Option, none, some, List, [], ◌∷◌, ◌==◌,
  if◌then◌else◌,
}
use libcoda_net.Server.{Connection, FdSet}
use libcoda_net.Server.Select.{insert}

pub record Event : Type 0 where
  pub fd : ℕ
  pub has_error : Bool
  pub readable : Bool
  pub writable : Bool

-- `created` is whether `socket_` is valid, and `interest` what was added to it, for EPOLLIN.
pub record Watcher (C : Type 0) : Type 0 where
  pub valid : Bool
  pub listening : ℕ
  pub created : Bool
  pub interest : FdSet
  pub sockets : List (ℕ × C)

-- By whether `epoll_create1` and `epoll_ctl` succeed.
unfoldable pub listen : {C : Type 0} → Bool → Bool → Watcher C → Bool × Watcher C
listen create_ok add_ok w =
    if not w.valid
    then (false, w)
    else if not create_ok
    then (false, record w { created = false; interest = [] })
    else if add_ok
    then (true, record w { created = true; interest = w.listening ∷ [] })
    else (false, record w { created = true; interest = [] })

unfoldable pub find_socket : {C : Type 0} → ℕ → List (ℕ × C) → Option C
find_socket fd [] = none
find_socket fd ((x, c) ∷ cs) = if x == fd then some c else find_socket fd cs

unfoldable pub remove_socket : {C : Type 0} → ℕ → List (ℕ × C) → List (ℕ × C)
remove_socket fd [] = []
remove_socket fd ((x, c) ∷ cs) =
    if x == fd then remove_socket fd cs else (x, c) ∷ remove_socket fd cs

module _ (T : Connection) where
  -- `c->close()`. A connection that is not valid stays, and closing it does nothing.
  unfoldable pub close_socket : ℕ → T.Conn → List (ℕ × T.Conn) → List (ℕ × T.Conn)
  unfolding remove_socket insert
  close_socket fd c cs = if T.is_valid c then remove_socket fd cs else insert fd c cs

  unfoldable pub after_write : ℕ → Bool × T.Conn → List (ℕ × T.Conn) → List (ℕ × T.Conn)
  unfolding close_socket
  after_write fd (true, c) cs = insert fd c cs
  after_write fd (false, c) cs = close_socket fd c cs

  unfoldable pub on_writable : Event → List (ℕ × T.Conn) → List (ℕ × T.Conn)
  unfolding after_write find_socket
  on_writable e cs =
      if e.writable
      then elim (find_socket e.fd cs) [
        | none ↦ cs
        | some c ↦ if T.has_output c then after_write e.fd (T.write_from_buffer c) cs else cs
      ]
      else cs

  unfoldable pub after_read : Event → Bool × T.Conn → List (ℕ × T.Conn) → List (ℕ × T.Conn)
  unfolding on_writable
  after_read e (true, c) cs = on_writable e (insert e.fd c cs)
  after_read e (false, c) cs = close_socket e.fd c cs

  unfoldable pub on_readable : Event → List (ℕ × T.Conn) → List (ℕ × T.Conn)
  unfolding after_read
  on_readable e cs = elim (find_socket e.fd cs) [
    | none ↦ on_writable e cs
    | some c ↦ after_read e (T.read_to_buffer c) cs
  ]

  unfoldable pub close_found : ℕ → Option T.Conn → List (ℕ × T.Conn) → List (ℕ × T.Conn)
  unfolding close_socket
  close_found fd none cs = cs
  close_found fd (some c) cs = close_socket fd c cs

  unfoldable pub on_error : Event → List (ℕ × T.Conn) → List (ℕ × T.Conn)
  unfolding close_found find_socket
  on_error e cs = close_found e.fd (find_socket e.fd cs) cs

  unfoldable pub on_connection : Option (ℕ × T.Conn) → List (ℕ × T.Conn) → List (ℕ × T.Conn)
  on_connection none cs = cs
  on_connection (some (fd, c)) cs = if T.is_valid c then insert fd c cs else cs

  -- One round of the loop; the first argument is what `accept` would return.
  unfoldable pub on_event : Option (ℕ × T.Conn) → ℕ → Event → List (ℕ × T.Conn) → List (ℕ × T.Conn)
  unfolding on_readable on_error on_connection
  on_event accepted listening e cs =
      if e.has_error
      then on_error e cs
      else if e.readable
      then (if listening == e.fd then on_connection accepted cs else on_readable e cs)
      else on_writable e cs

  unfoldable pub on_events :
      (ℕ → Option (ℕ × T.Conn)) → ℕ → ℕ → List Event → List (ℕ × T.Conn) → List (ℕ × T.Conn)
  unfolding on_event
  on_events accepts listening i [] cs = cs
  on_events accepts listening i (e ∷ es) cs =
      on_events accepts listening (suc i) es (on_event (accepts i) listening e cs)

  unfoldable pub after_wait :
      (ℕ → Option (ℕ × T.Conn)) → Watcher T.Conn → Option (List Event) → Option (Watcher T.Conn)
  unfolding on_events
  after_wait accepts w none = none
  after_wait accepts w (some es) =
      some (record w { sockets = on_events accepts w.listening 0 es w.sockets })

  -- `wait` is `epoll_wait` on what was added; `none` is its error, and the exception.
  unfoldable pub poll :
      (FdSet → Option (List Event))
      → (ℕ → Option (ℕ × T.Conn))
      → Watcher T.Conn
      → Option (Watcher T.Conn)
  unfolding after_wait
  poll wait accepts w =
      if not w.valid && w.created then some w else after_wait accepts w (wait w.interest)

  unfoldable pub polls :
      (ℕ → FdSet → Option (List Event))
      → (ℕ → ℕ → Option (ℕ × T.Conn))
      → ℕ
      → ℕ
      → Option (Watcher T.Conn)
      → Option (Watcher T.Conn)
  unfolding poll
  polls wait accepts time zero w = w
  polls wait accepts time (suc n) none = none
  polls wait accepts time (suc n) (some w) =
      polls wait accepts (suc time) n (poll (wait time) (accepts time) w)
