-- ===== src/Server/Select.antt =====
-- `sync/select_impl.cpp`: the poller that calls `select`, with `server::on_accept` and `add_socket`.
-- What `select`, `accept` and the factory answer are arguments; listeners do not call back.
use libcoda_net.Base.{
  ℕ, ◌+◌, Bool, true, false, not, ◌&&◌, Option, none, some, List, [], ◌∷◌, ltb, ◌==◌, if◌then◌else◌,
}
use libcoda_net.Server.{Connection, FdSet, is_set, clear}

pub record Poller (C : Type 0) : Type 0 where
  pub valid : Bool
  pub listening : ℕ
  pub sockets : List (ℕ × C)
  pub in_set : FdSet
  pub out_set : FdSet
  pub max_desc : ℕ

-- The answer of `select`: the sets that it writes back, EINTR, which leaves them, or another error.
pub data Selected : Type 0 where
  ready : FdSet → FdSet → Selected
  interrupted select_error : Selected

-- `sockets_[fd] = c`, in the order of the descriptors.
unfoldable pub insert : {C : Type 0} → ℕ → C → List (ℕ × C) → List (ℕ × C)
insert fd c [] = (fd, c) ∷ []
insert fd c ((x, d) ∷ cs) =
    if x == fd
    then (fd, c) ∷ cs
    else (if ltb fd x then (fd, c) ∷ (x, d) ∷ cs else (x, d) ∷ insert fd c cs)

-- The listening descriptor in the set to read from.
unfoldable pub listen : {C : Type 0} → Poller C → Poller C
listen p = record p { in_set = p.listening ∷ p.in_set; max_desc = p.listening }

unfoldable pub after_select : {C : Type 0} → Selected → Poller C → Option (Poller C)
after_select (ready ins outs) p = some (record p { in_set = ins; out_set = outs })
after_select interrupted p = some p
after_select select_error p = none

module _ (T : Connection) where
  -- Both transfers; true if the connection is to be removed.
  unfoldable pub write_ready : FdSet → T.Conn → Bool × T.Conn
  write_ready outs c =
      if is_set (T.raw_socket c) outs && T.has_output c
      then (let (ok, c') = T.write_from_buffer c in (not ok, c'))
      else (false, c)

  unfoldable pub read_ready : FdSet → Bool × T.Conn → Bool × T.Conn
  unfolding write_ready
  read_ready outs (true, c) = write_ready outs c
  read_ready outs (false, c) = (true, c)

  unfoldable pub transfer : FdSet → FdSet → T.Conn → Bool × T.Conn
  unfolding read_ready
  transfer ins outs c =
      if not (T.is_valid c)
      then (true, c)
      else (if is_set (T.raw_socket c) ins
          then read_ready outs (T.read_to_buffer c)
          else write_ready outs c)

  -- One entry, in front of what the rest of the loop leaves.
  unfoldable pub keep_entry : ℕ → Bool × T.Conn → List (ℕ × T.Conn) → List (ℕ × T.Conn)
  keep_entry fd (true, c) cs = cs
  keep_entry fd (false, c) cs = (fd, c) ∷ cs

  unfoldable pub clear_entry : ℕ → Bool × T.Conn → FdSet → FdSet
  clear_entry fd (true, c) s = clear fd s
  clear_entry fd (false, c) s = s

  -- `iterate_connections` with that delegate.
  unfoldable pub iterate_connections :
      List (ℕ × T.Conn) → FdSet → FdSet → List (ℕ × T.Conn) × FdSet × FdSet
  unfolding transfer keep_entry clear_entry
  iterate_connections [] ins outs = ([], ins, outs)
  iterate_connections ((fd, c) ∷ cs) ins outs =
      let served = transfer ins outs c in
      let (cs', ins', outs') =
        iterate_connections cs (clear_entry fd served ins) (clear_entry fd served outs) in
      (keep_entry fd served cs', ins', outs')

  -- What `accept` returned: no socket, or its descriptor and the connection of the factory, which
  -- `add_socket` puts at the descriptor that the connection has.
  unfoldable pub accept_new : Option (ℕ × T.Conn) → Poller T.Conn → Poller T.Conn
  unfolding insert
  accept_new none p = p
  accept_new (some (fd, c)) p = record p {
    sockets = if T.is_valid c then insert (T.raw_socket c) c p.sockets else p.sockets;
    max_desc = if ltb p.max_desc fd then fd else p.max_desc;
    in_set = fd ∷ p.in_set;
    out_set = fd ∷ p.out_set;
  }

  unfoldable pub serve_all : Poller T.Conn → Poller T.Conn
  unfolding iterate_connections
  serve_all p =
      let (cs, ins, outs) = iterate_connections p.sockets p.in_set p.out_set in
      record p { sockets = cs; in_set = ins; out_set = outs }

  unfoldable pub after_answer : Option (ℕ × T.Conn) → Poller T.Conn → Poller T.Conn
  unfolding accept_new serve_all
  after_answer accepted p =
      serve_all (if is_set p.listening p.in_set then accept_new accepted p else p)

  unfoldable pub after_selected :
      Option (ℕ × T.Conn) → Option (Poller T.Conn) → Option (Poller T.Conn)
  unfolding after_answer
  after_selected accepted none = none
  after_selected accepted (some p) = some (after_answer accepted p)

  -- `select` is given the limit and the sets. `none` is the exception for its error.
  unfoldable pub poll :
      (ℕ → FdSet → FdSet → Selected) → Option (ℕ × T.Conn) → Poller T.Conn → Option (Poller T.Conn)
  unfolding after_select after_selected
  poll select accepted p =
      if not p.valid
      then some p
      else after_selected accepted (after_select (select (1 + p.max_desc) p.in_set p.out_set) p)

  -- Polls in a row, as in `server::run`, from the time that is given. `select` may answer in another
  -- way at each time.
  unfoldable pub polls :
      (ℕ → ℕ → FdSet → FdSet → Selected)
      → ℕ
      → List (Option (ℕ × T.Conn))
      → Option (Poller T.Conn)
      → Option (Poller T.Conn)
  unfolding poll
  polls select time [] p = p
  polls select time (accepted ∷ rest) none = none
  polls select time (accepted ∷ rest) (some p) =
      polls select (1 + time) rest (poll (select time) accepted p)
