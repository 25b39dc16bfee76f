-- ===== src/Server/Tracking.antt =====
-- The connections and the sets of the poller on select, from one poll to the next.
use mathlib.Core.Path.{subst}
use libcoda_net.Base.{
  ℕ, ◌+◌, Bool, true, false, not, Option, none, some, List, [], ◌∷◌, if◌then◌else◌, ◌≡◌, arith, inl,
  inr, All,
}
use libcoda_net.Server.{Connection, FdSet, is_set}
use libcoda_net.Server.Select.{
  Poller, Selected, ready, interrupted, select_error, after_select, accept_new, serve_all,
  after_answer, after_selected, poll, polls, listen,
}
use libcoda_net.Server.Fairness.{IsSubset, IsSelect, in_of}
use libcoda_net.Server.Limit.{IsSelectOut, out_of, iterate_connections-sets}
use libcoda_net.Server.Sockets.{IsOrdered, insert-IsOrdered}
use libcoda_net.Server.Serving.{
  IsKeyed, KeepsSocket, iterate_connections-transferred, each_transferred-IsOrdered,
  each_transferred-IsKeyed,
}
use libcoda_net.Server.Covering.{IsCovered, iterate-descriptors, insert-All, insert-IsCovered}

-- What is true of the poller between polls.
pub record Tracked (T : Connection) (p : Poller T.Conn) : Type 0 where
  pub ordered : IsOrdered p.sockets
  pub keyed : IsKeyed T p.sockets
  pub to_read : IsCovered p.listening p.sockets p.in_set
  pub to_write : IsCovered p.listening p.sockets p.out_set

TrackedAfter : (T : Connection) → Option (Poller T.Conn) → Type 0
TrackedAfter T none = Unit {0}
TrackedAfter T (some p) = Tracked T p

-- A connection of the factory stands at the descriptor that it was made of, and is valid.
abbrev pub IsArrival : (T : Connection) → Option (ℕ × T.Conn) → Type 0
IsArrival T none = Unit {0}
IsArrival T (some (fd, c)) = (T.raw_socket c ≡ fd) × (T.is_valid c ≡ true)

module _ (T : Connection) (keeps : KeepsSocket T) where
  serve_all-Tracked : (p : Poller T.Conn) → Tracked T p → Tracked T (serve_all T p)
  unfolding serve_all
  serve_all-Tracked p t =
      let each =
        iterate_connections-transferred T keeps p.sockets p.in_set p.out_set t.keyed t.ordered in
      let (sub_in, sub_out) = iterate_connections-sets T p.sockets p.in_set p.out_set in
      let stays = iterate-descriptors T in
      record {
        ordered =
            rw each (each_transferred-IsOrdered T keeps p.in_set p.out_set p.sockets t.ordered);
        keyed = rw each (each_transferred-IsKeyed T keeps p.in_set p.out_set p.sockets t.keyed);
        to_read = λ x h. elim (t.to_read x (sub_in x h)) [
          | inl l ↦ inl l
          | inr m ↦ inr (stays x p.sockets p.in_set p.out_set (inl h) m)
        ];
        to_write = λ x h. elim (t.to_write x (sub_out x h)) [
          | inl l ↦ inl l
          | inr m ↦ inr (stays x p.sockets p.in_set p.out_set (inr h) m)
        ];
      }

  accept_new-Tracked :
      (accepted : Option (ℕ × T.Conn)) (p : Poller T.Conn)
      → IsArrival T accepted
      → Tracked T p
      → Tracked T (accept_new T accepted p)
  unfolding accept_new
  accept_new-Tracked none p a t = t
  accept_new-Tracked (some (fd, c)) p (key, v) t =
      rw (v, key)
        record {
          ordered = insert-IsOrdered fd c p.sockets t.ordered;
          keyed = insert-All _ fd c p.sockets key t.keyed;
          to_read = insert-IsCovered p.listening fd c p.sockets p.in_set t.to_read;
          to_write = insert-IsCovered p.listening fd c p.sockets p.out_set t.to_write;
        }

  if-Tracked :
      (test : Bool) (p q : Poller T.Conn)
      → Tracked T p
      → Tracked T q
      → Tracked T (if test then p else q)
  if-Tracked true p q t u = t
  if-Tracked false p q t u = u

  after_answer-Tracked :
      (accepted : Option (ℕ × T.Conn)) (p : Poller T.Conn)
      → IsArrival T accepted
      → Tracked T p
      → Tracked T (after_answer T accepted p)
  unfolding after_answer
  after_answer-Tracked accepted p a t =
      serve_all-Tracked _
        (if-Tracked (is_set p.listening p.in_set) _ p (accept_new-Tracked accepted p a t) t)

  after_selected-Tracked :
      (accepted : Option (ℕ × T.Conn)) (answer : Selected) (p : Poller T.Conn)
      → IsArrival T accepted
      → IsSubset (in_of answer p.in_set) p.in_set
      → IsSubset (out_of answer p.out_set) p.out_set
      → Tracked T p
      → TrackedAfter T (after_selected T accepted (after_select answer p))
  unfolding after_selected after_select TrackedAfter in_of out_of
  after_selected-Tracked accepted (ready ins outs) p a f g t =
      after_answer-Tracked accepted (record p { in_set = ins; out_set = outs }) a
        record {
          ordered = t.ordered;
          keyed = t.keyed;
          to_read = λ x h. t.to_read x (f x h);
          to_write = λ x h. t.to_write x (g x h);
        }
  after_selected-Tracked accepted interrupted p a f g t = after_answer-Tracked accepted p a t
  after_selected-Tracked accepted select_error p a f g t = tt

  if-TrackedAfter :
      (test : Bool) (o q : Option (Poller T.Conn))
      → TrackedAfter T o
      → TrackedAfter T q
      → TrackedAfter T (if test then o else q)
  if-TrackedAfter true o q t u = t
  if-TrackedAfter false o q t u = u

  polls-Tracked :
      (select : ℕ → ℕ → FdSet → FdSet → Selected) (time : ℕ) (accepts : List (Option (ℕ × T.Conn)))
      (o : Option (Poller T.Conn))
      → ((t : ℕ) → IsSelect (select t))
      → ((t : ℕ) → IsSelectOut (select t))
      → All (IsArrival T) accepts
      → TrackedAfter T o
      → TrackedAfter T (polls T select time accepts o)
  unfolding polls poll TrackedAfter
  polls-Tracked select time [] o k w a t = t
  polls-Tracked select time (accepted ∷ rest) none k w a t = t
  polls-Tracked select time (accepted ∷ rest) (some p) k w (first, others) t =
      let limit = 1 + p.max_desc in
      let after =
        after_selected-Tracked accepted (select time limit p.in_set p.out_set) p first
          (k time limit p.in_set p.out_set) (w time limit p.in_set p.out_set) t in
      polls-Tracked select (1 + time) rest _ k w others
        (if-TrackedAfter (not p.valid) (some p) _ t after)

  listen-Tracked :
      (p : Poller T.Conn) → p.sockets ≡ [] → p.in_set ≡ [] → p.out_set ≡ [] → Tracked T (listen p)
  unfolding listen is_set
  listen-Tracked p s i o = record {
    ordered = rw s tt;
    keyed = rw s tt;
    to_read = rw i (λ x h. inl (ground arith));
    to_write = rw o (λ x h. inl (grind arith));
  }

  -- From a poller without connections and with empty sets that starts to listen, however often it
  -- polls and whatever is answered, its connections stand in the order of their descriptors, each at
  -- its own and none twice, and its sets hold no descriptor but the listening one and theirs: that of
  -- a connection that was removed is in neither set. A transfer leaves a connection its descriptor, and
  -- what the factory makes of a descriptor is valid and has it.
  pub polls_track :
      (select : ℕ → ℕ → FdSet → FdSet → Selected) (accepts : List (Option (ℕ × T.Conn)))
      (p q : Poller T.Conn)
      → ((t : ℕ) → IsSelect (select t))
      → ((t : ℕ) → IsSelectOut (select t))
      → All (IsArrival T) accepts
      → p.sockets ≡ []
      → p.in_set ≡ []
      → p.out_set ≡ []
      → polls T select 0 accepts (some (listen p)) ≡ some q
      → IsOrdered q.sockets
        × IsKeyed T q.sockets
        × IsCovered q.listening q.sockets q.in_set
        × IsCovered q.listening q.sockets q.out_set
  unfolding TrackedAfter
  polls_track select accepts p q k w a s i o e =
      let t : TrackedAfter T (some q) =
        subst (TrackedAfter T) e
          (polls-Tracked select 0 accepts (some (listen p)) k w a (listen-Tracked p s i o)) in
      (t.ordered, t.keyed, t.to_read, t.to_write)
