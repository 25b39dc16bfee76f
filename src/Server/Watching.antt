-- ===== src/Server/Watching.antt =====
-- What the poller on `epoll_wait` does with the connections that it accepts.
use libcoda_net.Base.{
  ltb, ℕ, zero, suc, Bool, true, false, not, ◌&&◌, Option, none, some, List, [], ◌∷◌, ◌==◌,
  if◌then◌else◌, All, ◌≡◌, refl, arith, Bool-cases, inl, inr,
}
use libcoda_net.Server.{Connection, FdSet, is_set}
use libcoda_net.Server.Select.{insert}
use libcoda_net.Server.Epoll.{
  Event, Watcher, find_socket, close_found, remove_socket, close_socket, on_writable, on_error,
  on_connection, on_event, on_events, after_wait, poll, polls, listen,
}

-- As documented, an event is of a descriptor that was added, and EPOLLOUT is reported only where it
-- was asked for, which is nowhere.
abbrev pub IsWatched : FdSet → Event → Type 0
IsWatched interest e = (is_set e.fd interest ≡ true) × (e.writable ≡ false)

abbrev pub IsEpoll : (FdSet → Option (List Event)) → Type 0
IsEpoll wait =
    (interest : FdSet) (es : List Event) → wait interest ≡ some es → All (IsWatched interest) es

module _ {C : Type 0} (P : ℕ × C → Type 0) where
  if-All :
      (test : Bool) (cs ds : List (ℕ × C)) → All P cs → All P ds → All P (if test then cs else ds)
  if-All true cs ds h g = h
  if-All false cs ds h g = g

  insert-All : (fd : ℕ) (c : C) (cs : List (ℕ × C)) → P (fd, c) → All P cs → All P (insert fd c cs)
  unfolding insert
  insert-All fd c [] p h = (p, tt)
  insert-All fd c ((x, d) ∷ cs) p h =
      if-All (x == fd) _ _ (p, h.1)
        (if-All (ltb fd x) ((fd, c) ∷ (x, d) ∷ cs) _ (p, h) (h.0, insert-All fd c cs p h.1))

  remove_socket-All : (fd : ℕ) (cs : List (ℕ × C)) → All P cs → All P (remove_socket fd cs)
  unfolding remove_socket
  remove_socket-All fd [] h = tt
  remove_socket-All fd ((x, c) ∷ cs) h =
      if-All (x == fd) _ _ (remove_socket-All fd cs h.1) (h.0, remove_socket-All fd cs h.1)

  find_socket-All :
      (fd : ℕ) (cs : List (ℕ × C)) (c : C) → find_socket fd cs ≡ some c → All P cs → P (fd, c)
  unfolding find_socket
  find_socket-All fd [] c e h = cc
  find_socket-All fd ((x, d) ∷ cs) c e h = elim (Bool-cases (x == fd)) [
    | inl hit ↦
        (let same : x ≡ fd = ground arith in
          let at : d ≡ c = cc (rw hit at e) in rw⁻¹ (at, same) (h.0))
    | inr miss ↦ find_socket-All fd cs c (rw miss at e) h.1
  ]

module _ (T : Connection) (P : ℕ × T.Conn → Type 0) where
  close_found-All :
      (fd : ℕ) (o : Option T.Conn) (cs : List (ℕ × T.Conn))
      → ((c : T.Conn) → o ≡ some c → P (fd, c))
      → All P cs
      → All P (close_found T fd o cs)
  unfolding close_found close_socket
  close_found-All fd none cs f h = h
  close_found-All fd (some c) cs f h =
      if-All P (T.is_valid c) _ _ (remove_socket-All P fd cs h) (insert-All P fd c cs (f c refl) h)

  on_error-All : (e : Event) (cs : List (ℕ × T.Conn)) → All P cs → All P (on_error T e cs)
  unfolding on_error
  on_error-All e cs h =
      close_found-All e.fd (find_socket e.fd cs) cs (λ c found. find_socket-All P e.fd cs c found h)
        h

  on_connection-All :
      (accepted : Option (ℕ × T.Conn)) (cs : List (ℕ × T.Conn))
      → ((x : ℕ × T.Conn) → accepted ≡ some x → P x)
      → All P cs
      → All P (on_connection T accepted cs)
  unfolding on_connection
  on_connection-All none cs a h = h
  on_connection-All (some (fd, c)) cs a h =
      if-All P (T.is_valid c) _ _ (insert-All P fd c cs (a (fd, c) refl) h) h

  -- An event of the listening descriptor reads and writes no connection.
  on_event-All :
      (accepted : Option (ℕ × T.Conn)) (listening : ℕ) (e : Event) (cs : List (ℕ × T.Conn))
      → ((x : ℕ × T.Conn) → accepted ≡ some x → P x)
      → IsWatched (listening ∷ []) e
      → All P cs
      → All P (on_event T accepted listening e cs)
  unfolding on_event on_writable is_set
  on_event-All accepted listening e cs a w h =
      let same : listening == e.fd ≡ true = (let m = w.0 in ground arith) in
      rw (same, w.1)
        (if-All P e.has_error _ _ (on_error-All e cs h)
          (if-All P e.readable _ _ (on_connection-All accepted cs a h) h))

  on_events-All :
      (accepts : ℕ → Option (ℕ × T.Conn)) (listening i : ℕ) (es : List Event)
      (cs : List (ℕ × T.Conn))
      → ((i : ℕ) (x : ℕ × T.Conn) → accepts i ≡ some x → P x)
      → All (IsWatched (listening ∷ [])) es
      → All P cs
      → All P (on_events T accepts listening i es cs)
  unfolding on_events
  on_events-All accepts listening i [] cs a w h = h
  on_events-All accepts listening i (e ∷ es) cs a w h =
      on_events-All accepts listening (suc i) es _ a w.1
        (on_event-All (accepts i) listening e cs (a i) w.0 h)

  Untouched : Option (Watcher T.Conn) → Type 0
  Untouched none = true ≡ true
  Untouched (some w) = (w.interest ≡ w.listening ∷ []) × All P w.sockets

  if-Untouched :
      (test : Bool) (o q : Option (Watcher T.Conn))
      → Untouched o
      → Untouched q
      → Untouched (if test then o else q)
  if-Untouched true o q h g = h
  if-Untouched false o q h g = g

  after_wait-Untouched :
      (accepts : ℕ → Option (ℕ × T.Conn)) (w : Watcher T.Conn) (answer : Option (List Event))
      → ((i : ℕ) (x : ℕ × T.Conn) → accepts i ≡ some x → P x)
      → ((es : List Event) → answer ≡ some es → All (IsWatched w.interest) es)
      → Untouched (some w)
      → Untouched (after_wait T accepts w answer)
  unfolding after_wait Untouched
  after_wait-Untouched accepts w none a k h = refl
  after_wait-Untouched accepts w (some es) a k (only, h) =
      (only, on_events-All accepts w.listening 0 es w.sockets a (rw only at (k es refl)) h)

  polls-Untouched :
      (wait : ℕ → FdSet → Option (List Event)) (accepts : ℕ → ℕ → Option (ℕ × T.Conn)) (time n : ℕ)
      (o : Option (Watcher T.Conn))
      → ((t : ℕ) → IsEpoll (wait t))
      → ((t i : ℕ) (x : ℕ × T.Conn) → accepts t i ≡ some x → P x)
      → Untouched o
      → Untouched (polls T wait accepts time n o)
  unfolding polls poll
  polls-Untouched wait accepts time zero o k a h = h
  polls-Untouched wait accepts time (suc n) none k a h = h
  polls-Untouched wait accepts time (suc n) (some w) k a h =
      polls-Untouched wait accepts (suc time) n _ k a (
        if-Untouched (not w.valid && w.created) (some w) _ h (
          after_wait-Untouched (accepts time) w (wait time w.interest) (a time) (k time w.interest)
            h))

  of_some :
      (q : Watcher T.Conn) (o : Option (Watcher T.Conn))
      → Untouched o
      → o ≡ some q
      → Untouched (some q)
  of_some q o h e = rw⁻¹ e h

-- Where a poller with no connections starts to listen and then polls any number of times, all that
-- holds of every connection as it is accepted holds of every connection that the server has at the
-- end: none was read from or written to.
pub polls_never_read :
    (T : Connection) (P : ℕ × T.Conn → Type 0) (wait : ℕ → FdSet → Option (List Event))
    (accepts : ℕ → ℕ → Option (ℕ × T.Conn)) (n : ℕ) (w q : Watcher T.Conn)
    → ((t : ℕ) → IsEpoll (wait t))
    → ((t i : ℕ) (x : ℕ × T.Conn) → accepts t i ≡ some x → P x)
    → w.valid ≡ true
    → w.sockets ≡ []
    → polls T wait accepts 0 n (some (listen true true w).1) ≡ some q
    → All P q.sockets
unfolding Untouched listen
polls_never_read T P wait accepts n w q k a v s e =
    (of_some T P q _ (polls-Untouched T P wait accepts 0 n _ k a (rw v (refl, rw s tt))) e).1
