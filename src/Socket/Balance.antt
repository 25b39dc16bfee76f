-- ===== src/Socket/Balance.antt =====
-- The open descriptors of a process and those that its sockets hold.
use libcoda_net.Base.{
  ℕ, ◌+◌, Bool, true, false, Option, none, some, List, [], ◌∷◌, ◌++◌, ◌≡◌, ◌∙◌, refl, ap, sym,
  arith,
}
use libcoda_net.Socket.{
  Socket, Fds, fresh, close, move_assign, attach, Attempt, connect_loop, connect, connect_found,
  close_valid, listen, set_secure, set_non_blocking, Returns, returned, thrown,
}
use libcoda_net.Socket.Ownership.{owned, connect_loop-owned}
use libcoda_net.Socket.Objects.{move_construct, constructed, construct, destroy, accept}
use libcoda_net.Socket.World.{
  World, Step, Reach, swaps, creates, constructs, accepts, connects, listens, closes, moves,
  assigns, sets, destroys, start, later,
}
use libcoda_net.Socket.Counts.{
  count, holds, holders, IsSplit, connect-count, listen-count, close-count, holders-swap,
}

-- Each open descriptor is held by one socket or is one of the others.
Balanced : Fds → World → Type 0
Balanced others w = (x : ℕ) → count x w.fds ≡ holders x w.objects + count x others

constructed-count :
    (r : Returns × Socket × Fds) (s : Socket) (fds : Fds) (others : ℕ → ℕ)
    → constructed r ≡ (some s, fds)
    → IsSplit r.2 r.1 others
    → IsSplit fds s others
unfolding constructed
constructed-count (thrown, s', fds') s fds others e h x = cc (ap (λ r. r.0) e)
constructed-count (returned b, s', fds') s fds others e h x =
    let same : s' ≡ s = cc (ap (λ r. r.0) e) in
    ap (λ r. count x r.1) (sym e) ∙ h x ∙ ap (λ z. holds x z + others x) same

secure-holds :
    (x : ℕ) (openssl secure : Bool) (s : Socket) → holds x (set_secure openssl secure s) ≡ holds x s
unfolding set_secure
secure-holds x true true s = refl
secure-holds x false true s = refl
secure-holds x openssl false s = refl

mode-holds :
    (x : ℕ) (fcntl_ok blocking : Bool) (s : Socket)
    → holds x (set_non_blocking fcntl_ok blocking s) ≡ holds x s
unfolding set_non_blocking
mode-holds x true blocking s = refl
mode-holds x false blocking s = refl

module _ (others : Fds) where
  -- What is held besides the first socket.
  abbrev besides : List Socket → ℕ → ℕ
  besides os x = holders x os + count x others

  first-IsSplit :
      (s : Socket) (os : List Socket) (fds : Fds)
      → Balanced others (record { objects = s ∷ os; fds = fds })
      → IsSplit fds s (besides os)
  unfolding Balanced holders
  first-IsSplit s os fds h x = omega (arith, h x)

  IsSplit-first :
      (s : Socket) (os : List Socket) (fds : Fds)
      → IsSplit fds s (besides os)
      → Balanced others (record { objects = s ∷ os; fds = fds })
  unfolding Balanced holders
  IsSplit-first s os fds h x = omega (arith, h x)

  construct-IsSplit :
      (os : List Socket) (s : Socket) (fds fds' : Fds) (openssl secure attach_ok : Bool)
      (addresses : Option (List Attempt))
      → construct openssl secure addresses attach_ok fds ≡ (some s, fds')
      → Balanced others (record { objects = os; fds = fds })
      → IsSplit fds' s (besides os)
  unfolding construct Balanced count
  construct-IsSplit os s fds fds' openssl secure attach_ok addresses e h =
      let new = set_secure openssl secure fresh in
      constructed-count (connect addresses attach_ok new fds) s fds' (besides os) e (
        connect-count addresses attach_ok new fds (besides os)
          (λ x. omega (arith, h x, secure-holds x openssl secure fresh)))

  Step-Balanced : {v w : World} → Balanced others v → Step v w → Balanced others w
  unfolding Balanced holders count accept move_construct move_assign close destroy
  Step-Balanced h (swaps before after s o) x =
      h x ∙ ap (λ n. n + count x others) (holders-swap x before after s o)
  Step-Balanced h creates x = omega (arith, h x)
  Step-Balanced h (constructs {os} {s} {fds} {fds'} openssl secure attach_ok addresses e) x =
      IsSplit-first s os fds'
        (construct-IsSplit os s fds fds' openssl secure attach_ok addresses e h) x
  Step-Balanced h (accepts {fds} fd) x = omega (arith, h x)
  Step-Balanced h (connects {os} {s} {fds} addresses attach_ok) x =
      IsSplit-first (connect addresses attach_ok s fds).1 os _
        (connect-count addresses attach_ok s fds (besides os) (first-IsSplit s os fds h)) x
  Step-Balanced h (listens {os} {s} {fds} addresses listen_ok attach_ok v) x =
      IsSplit-first (listen addresses listen_ok attach_ok s fds).1 os _
        (listen-count addresses listen_ok attach_ok s fds (besides os) v (first-IsSplit s os fds h))
        x
  Step-Balanced h (closes {os} {s} {fds}) x =
      omega (arith, close-count s fds (besides os) (first-IsSplit s os fds h) x)
  Step-Balanced h moves x = omega (arith, h x)
  Step-Balanced h (assigns {os} {s} {o} {fds}) x =
      omega (arith, close-count s fds (besides (o ∷ os)) (first-IsSplit s (o ∷ os) fds h) x)
  Step-Balanced h (sets {s} openssl secure fcntl_ok blocking) x = omega (
    arith,
    h x,
    mode-holds x fcntl_ok blocking (set_secure openssl secure s),
    secure-holds x openssl secure s,
  )
  Step-Balanced h (destroys {os} {s} {fds}) x =
      close-count s fds (besides os) (first-IsSplit s os fds h) x

  Reach-Balanced : {v w : World} → Balanced others v → Reach v w → Balanced others w
  Reach-Balanced h start = h
  Reach-Balanced h (later r d) = Step-Balanced (Reach-Balanced h r) d

-- From a process without sockets, whatever sequence of operations its sockets make and whatever the
-- system answers: a descriptor is open as often as sockets hold it and as it was open before. None is
-- lost, and none is closed that a socket or anyone else still holds.
pub fds-balanced :
    (others : Fds) (w : World)
    → Reach (record { objects = []; fds = others }) w
    → (x : ℕ) → count x w.fds ≡ holders x w.objects + count x others
unfolding Balanced holders
fds-balanced others w r = Reach-Balanced others (λ x. omega arith) r

-- A constructor that connects a secure socket throws where the layer cannot be attached, and the
-- descriptor that was connected stays open, with no object that holds it.
pub construct_throws_leaks :
    (ps : List Attempt) (fd : ℕ) (fds : Fds)
    → (connect_loop ps fds).0 ≡ some fd
    → construct true true (some ps) false fds ≡ (none, fd ∷ fds)
unfolding construct constructed connect connect_found close_valid attach set_secure
construct_throws_leaks ps fd fds h =
    let e : connect_loop ps fds ≡ (some fd, fd ∷ fds) =
      λ i. (h i, (connect_loop-owned ps fds ∙ ap (λ o. owned o ++ fds) h) i) in
    rw e refl
