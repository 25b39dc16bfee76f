-- ===== src/Socket/Ownership.antt =====
-- The descriptors that a socket owns: none is lost by connecting, closing and moving.
use libcoda_net.Base.{
  Bool-cases, ◌≢◌, ℕ, Bool, true, false, Option, none, some, List, [], ◌∷◌, ◌++◌, ◌≡◌, ◌∙◌, refl,
  ap, arith, Option-cases, ◌⊎◌, inl, inr,
}
use libcoda_net.Socket.{
  thrown, Returns, connect_found, close_valid, Socket, Fds, is_some, is_valid, closesocket, release,
  close, move_assign, Attempt, no_socket, refused, connected, connect_loop, returned, attach,
  connect, Binding, no_option, not_bound, bound, bind_loop, listen,
}

abbrev pub owned : Option ℕ → Fds
owned none = []
owned (some fd) = fd ∷ []

closesocket_self : (fd : ℕ) (fds : Fds) → closesocket fd (fd ∷ fds) ≡ fds
unfolding closesocket
closesocket_self fd fds = ground arith

pub release-owned : (o : Option ℕ) (fds : Fds) → release o (owned o ++ fds) ≡ fds
unfolding release
release-owned none fds = refl
release-owned (some fd) fds = closesocket_self fd fds

pub connect_loop-owned :
    (ps : List Attempt) (fds : Fds) → (connect_loop ps fds).1 ≡ owned (connect_loop ps fds).0 ++ fds
unfolding connect_loop
connect_loop-owned [] fds = refl
connect_loop-owned (no_socket ∷ ps) fds = connect_loop-owned ps fds
connect_loop-owned (refused fd ∷ ps) fds =
    rw (connect_loop, closesocket_self fd fds) (connect_loop-owned ps fds)
connect_loop-owned (connected fd ∷ ps) fds = refl

pub bind_loop-owned :
    (bs : List Binding) (fds : Fds) → (bind_loop bs fds).1 ≡ owned (bind_loop bs fds).0 ++ fds
unfolding bind_loop
bind_loop-owned [] fds = refl
bind_loop-owned (Binding.no_socket ∷ bs) fds = bind_loop-owned bs fds
bind_loop-owned (no_option fd ∷ bs) fds =
    rw (bind_loop, closesocket_self fd fds) (bind_loop-owned bs fds)
bind_loop-owned (not_bound fd ∷ bs) fds =
    rw (bind_loop, closesocket_self fd fds) (bind_loop-owned bs fds)
bind_loop-owned (bound fd ∷ bs) fds = refl

close-owned :
    (s : Socket) (others : Fds)
    → ((close s (owned s.sock ++ others)).1 ≡ others)
      × ((close s (owned s.sock ++ others)).0.sock ≡ none)
unfolding close
close-owned s others = (release-owned s.sock others, refl)

close_valid-owned :
    (s : Socket) (others : Fds) → (close_valid s (owned s.sock ++ others)).1 ≡ others
unfolding close_valid
close_valid-owned s others = elim (Option-cases s.sock) [
  | inl e ↦ rw (e, close_valid)
  | inr (fd, e) ↦ rw (ap is_some e, close_valid) (close-owned s others).0
]

connect_found-owned :
    (attach_ok : Bool) (s : Socket) (r : Option ℕ × Fds) (others : Fds)
    → r.1 ≡ owned r.0 ++ others
    → ((connect_found attach_ok s r).2 ≡ owned (connect_found attach_ok s r).1.sock ++ others)
      × ((connect_found attach_ok s r).0 ≡ returned false
          → (connect_found attach_ok s r).1.sock ≡ none)
unfolding connect_found attach
connect_found-owned attach_ok s (none, fds) others h = (h, λ e. refl)
connect_found-owned attach_ok s (some fd, fds) others h = (h, λ e. ground arith)

not_false : {P : Type 0} → (r : Returns) → (r ≡ returned false → P) → (r ≢ returned false) ⊎ P
not_false (returned true) f = inl (λ e. cc)
not_false (returned false) f = inr (f refl)
not_false thrown f = inl (λ e. cc)

-- Whatever the system answers, connecting keeps the descriptors of others and leaves, besides them,
-- exactly the one that the socket then holds: the old one is closed once the name is resolved, and
-- so is each one that is refused. The call is false only if the socket is not valid then, or the
-- name was not resolved.
pub connect-owned :
    (addresses : Option (List Attempt)) (attach_ok : Bool) (s : Socket) (others : Fds)
    → let (r, s', fds) = connect addresses attach_ok s (owned s.sock ++ others) in
      (fds ≡ owned s'.sock ++ others)
      × ((r ≢ returned false) ⊎ ((s'.sock ≡ none) ⊎ (addresses ≡ none)))
unfolding connect
connect-owned none attach_ok s others = (refl, inr (inr refl))
connect-owned (some ps) attach_ok s others =
    let closed = close_valid s (owned s.sock ++ others) in
    let (fds, fails) = connect_found-owned attach_ok closed.0 (connect_loop ps closed.1) others (
      connect_loop-owned ps closed.1
      ∙ ap (λ x. owned (connect_loop ps closed.1).0 ++ x) (close_valid-owned s others)) in
    (fds, not_false _ (λ e. inl (fails e)))

pub attach-ok : (s : Socket) → attach true s ≡ returned true
unfolding attach
attach-ok s = elim (Bool-cases s.secure) [ inl e ↦ rw e refl | inr e ↦ rw e refl ]

-- Connecting a socket that is not valid, where an address answers and the layer attaches.
pub connect-found :
    (ps : List Attempt) (s : Socket) (fds : Fds) (fd : ℕ)
    → is_valid s ≡ false
    → (connect_loop ps fds).0 ≡ some fd
    → connect (some ps) true s fds
      ≡ (returned true, record s { sock = some fd }, (connect_loop ps fds).1)
unfolding connect connect_found close_valid
connect-found ps s fds fd v h =
    let left = (connect_loop ps fds).1 in
    let reached : connect_loop ps fds ≡ (some fd, left) = λ i. (h i, left) in
    rw (v, connect)
      (ap (connect_found true s) reached
        ∙ ap (λ r. (r, record s { sock = some fd }, left)) (attach-ok s))

-- Closing gives back the descriptor and leaves a socket that is not valid; so does assigning a moved
-- socket, which takes over the source's descriptor and leaves the source not valid.
pub move_assign-owned :
    (s other : Socket) (others : Fds)
    → let (s', other', fds) = move_assign s other (owned s.sock ++ (owned other.sock ++ others)) in
      (fds ≡ owned s'.sock ++ (owned other'.sock ++ others))
      × (s'.sock ≡ other.sock)
      × (other'.sock ≡ none)
unfolding move_assign
move_assign-owned s other others = ((close-owned s (owned other.sock ++ others)).0, refl, refl)

-- Where an address is bound and the system's `listen` then fails, the call returns false, but the
-- socket is left valid and holds the descriptor.
pub listen_fails_valid :
    (bs : List Binding) (attach_ok : Bool) (s : Socket) (fds : Fds) (fd : ℕ)
    → (bind_loop bs fds).0 ≡ some fd
    → let (r, s', fds') = listen (some bs) false attach_ok s fds in
      (r ≡ returned false) × (is_valid s' ≡ true) × (fds' ≡ fd ∷ fds)
unfolding listen
listen_fails_valid bs attach_ok s fds fd h =
    let e : (bind_loop bs fds) ≡ (some fd, fd ∷ fds) =
      λ i. (h i, (bind_loop-owned bs fds ∙ ap (λ o. owned o ++ fds) h) i) in
    rw e (refl, refl, refl)
