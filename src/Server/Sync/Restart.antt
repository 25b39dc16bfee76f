-- ===== src/Server/Sync/Restart.antt =====
-- Starting and stopping a server with its poller, its connections and its listeners.
use libcoda_net.Base.{
  if◌then◌else◌, inr, inl, Bool-cases, ℕ, Bool, true, false, some, List, [], ◌∷◌, ◌++◌, ◌≡◌, ◌∙◌,
  refl, ap,
}
use libcoda_net.Socket
use libcoda_net.Socket.Ownership.{attach-ok}
use libcoda_net.Socket.{Binding, bind_loop, listen_bound}
use libcoda_net.Server.Start
use libcoda_net.Server.Start.{started, unable_to_listen}
use libcoda_net.Server.Select
use libcoda_net.Server.Select.{Poller}
use libcoda_net.Server.Sync.{
  Sync, is_valid, told, on_start, notify, seen, raw_socket, clear_sockets, stop, watched,
  after_listen, after_start, start,
}

-- The poller on select always watches.
abbrev pub by_select : {C : Type 0} → Poller C → Bool × Poller C
by_select p = (true, Select.listen p)

start-bound :
    {C : Type 0} (watch : Poller C → Bool × Poller C) (bs : List Binding) (fcntl_ok : Bool)
    (s : Sync C) (fd : ℕ)
    → is_valid s ≡ false
    → (bind_loop bs s.server.fds).0 ≡ some fd
    → start watch fcntl_ok (some bs) true true s
      ≡ after_start (
          after_listen watch fcntl_ok s (
            Socket.returned true,
            record (s.server.socket) { sock = some fd },
            (bind_loop bs s.server.fds).1,
          ))
unfolding start Socket.listen listen_bound
start-bound watch bs fcntl_ok s fd v b =
    let fds = (bind_loop bs s.server.fds).1 in
    let bound : bind_loop bs s.server.fds ≡ (some fd, fds) = λ i. (b i, fds) in
    rw (v, start)
      (ap
          (λ o.
            after_start (after_listen watch fcntl_ok s (listen_bound true true s.server.socket o)))
          bound
        ∙ ap
            (λ r.
              after_start (
                after_listen watch fcntl_ok s
                  (r, record (s.server.socket) { sock = some fd }, fds)))
            (attach-ok s.server.socket))

-- What a stop leaves of the poller.
stop-kept :
    {C : Type 0} (s : Sync C)
    → ((stop s).has_impl ≡ s.has_impl)
      × ((stop s).poller.in_set ≡ s.poller.in_set)
      × ((stop s).poller.out_set ≡ s.poller.out_set)
unfolding stop clear_sockets notify
stop-kept s = elim (Bool-cases (is_valid s)) [
  | inl e ↦ rw e (refl, refl, refl)
  | inr e ↦ rw e (refl, refl, refl)
]

listened_by_select :
    {C : Type 0} (fcntl_ok : Bool) (s : Sync C) (fd : ℕ) (fds : Socket.Fds)
    → s.server.has_factory ≡ true
    → s.has_impl ≡ true
    → let (r, again) = after_start (
        after_listen by_select fcntl_ok s
          (Socket.returned true, record (s.server.socket) { sock = some fd }, fds)) in
      (r ≡ started)
      × (is_valid again ≡ true)
      × (again.poller.sockets ≡ s.poller.sockets)
      × (again.poller.in_set ≡ fd ∷ s.poller.in_set)
      × (again.poller.out_set ≡ s.poller.out_set)
unfolding after_start after_listen notify watched seen Select.listen raw_socket
    Socket.set_non_blocking
listened_by_select true s fd fds f h = rw h (refl, f, refl, refl, refl)
listened_by_select false s fd fds f h = rw h (refl, f, refl, refl, refl)

refused :
    {C : Type 0} (has_impl : Bool) (s : Sync C) (answer : Bool × Poller C)
    → has_impl ≡ true
    → answer.0 ≡ false
    → let (r, failed) =
        after_start (if has_impl then watched s answer else (Socket.returned true, s)) in
      (r ≡ unable_to_listen)
      × (is_valid failed ≡ false)
      × (failed.calls ≡ s.calls)
      × ((stop failed).calls ≡ failed.calls)
unfolding after_start watched stop clear_sockets Start.stop Socket.close
refused true s (true, p) h k = cc
refused true s (false, p) h k = (refl, refl, refl, refl)
refused false s answer h k = cc

-- A server on select that is stopped holds no connection and is not valid, and can be started again,
-- where an address is bound and the system listens on it. But the new run asks select, besides the
-- listening descriptor, for every descriptor that the old run asked for, though the connections are
-- gone.
pub restart_stale :
    {C : Type 0} (bs : List Binding) (fcntl_ok : Bool) (s : Sync C) (fd : ℕ)
    → s.server.has_factory ≡ true
    → s.has_impl ≡ true
    → (bind_loop bs (stop s).server.fds).0 ≡ some fd
    → let (r, again) = start by_select fcntl_ok (some bs) true true (stop s) in
      (is_valid (stop s) ≡ false)
      × (r ≡ started)
      × (is_valid again ≡ true)
      × (again.poller.sockets ≡ [])
      × (again.poller.in_set ≡ fd ∷ s.poller.in_set)
      × (again.poller.out_set ≡ s.poller.out_set)
unfolding stop clear_sockets notify Start.stop Socket.close
restart_stale bs fcntl_ok s fd f h b =
    let (hi, ins, outs) = stop-kept s in
    let (r, v, sockets, i, o) =
      listened_by_select fcntl_ok (stop s) fd (bind_loop bs (stop s).server.fds).1 f (hi ∙ h) in
    rw (start-bound by_select bs fcntl_ok (stop s) fd refl b)
      (refl, r, v, sockets, i ∙ ap (◌∷◌ fd) ins, o ∙ outs)

-- Where the poller cannot watch a server that listens, starting fails and the server is closed, so
-- that it can be started again; but its handler and its listeners were told of a start, and stopping
-- the server does not tell them of a stop.
pub start_unwatched :
    {C : Type 0} (watch : Poller C → Bool × Poller C) (bs : List Binding) (fcntl_ok : Bool)
    (s : Sync C) (fd : ℕ)
    → is_valid s ≡ false
    → s.has_impl ≡ true
    → ((p : Poller C) → (watch p).0 ≡ false)
    → (bind_loop bs s.server.fds).0 ≡ some fd
    → let (r, failed) = start watch fcntl_ok (some bs) true true s in
      (r ≡ unable_to_listen)
      × (is_valid failed ≡ false)
      × (failed.calls ≡ s.calls ++ told on_start s)
      × ((stop failed).calls ≡ failed.calls)
unfolding after_listen notify
start_unwatched watch bs fcntl_ok s fd v h w b =
    let listening = record (s.server) {
      socket = Socket.set_non_blocking fcntl_ok true (record (s.server.socket) { sock = some fd });
      fds = (bind_loop bs s.server.fds).1;
    } in
    let s' = notify on_start (record s { server = listening }) in
    rw (start-bound watch bs fcntl_ok s fd v b)
      (refused s.has_impl s' (watch (seen s')) h (w (seen s')))
