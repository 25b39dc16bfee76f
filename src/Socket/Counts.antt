-- ===== src/Socket/Counts.antt =====
-- How often a descriptor is open, and how often it is held, around the operations of one socket.
use libcoda_net.Base.{
  ℕ, ◌+◌, ◌≤◌, Bool, false, Option, none, some, List, [], ◌∷◌, ◌++◌, ◌==◌, if◌then◌else◌, ◌≡◌, ◌∙◌,
  ap, sym, arith, inl, inr, Option-cases,
}
use libcoda_net.Socket.{
  Socket, Fds, is_some, is_valid, closesocket, release, close, Attempt, Binding, connect_loop,
  bind_loop, connect, connect_found, close_valid, listen, listen_bound,
}
use libcoda_net.Socket.Ownership.{owned, connect_loop-owned, bind_loop-owned}

-- How often a descriptor is in a list, and how many of the sockets hold it.
unfoldable pub count : ℕ → Fds → ℕ
count x [] = 0
count x (fd ∷ fds) = (if fd == x then 1 else 0) + count x fds

abbrev pub holds : ℕ → Socket → ℕ
holds x s = count x (owned s.sock)

unfoldable pub holders : ℕ → List Socket → ℕ
holders x [] = 0
holders x (s ∷ os) = holds x s + holders x os

count-append : (x : ℕ) (s t : Fds) → count x (s ++ t) ≡ count x s + count x t
unfolding count
count-append x [] t = omega arith
count-append x (fd ∷ s) t = omega (arith, count-append x s t)

count_self : (fd : ℕ) → count fd (fd ∷ []) ≡ 1
unfolding count
count_self fd = ground arith

pub holders-swap :
    (x : ℕ) (before after : List Socket) (s o : Socket)
    → holders x (before ++ (s ∷ o ∷ after)) ≡ holders x (before ++ (o ∷ s ∷ after))
unfolding holders
holders-swap x [] after s o = omega arith
holders-swap x (b ∷ before) after s o = omega (arith, holders-swap x before after s o)

count-closesocket :
    (x fd : ℕ) (fds : Fds)
    → 1 ≤ count fd fds
    → count x (closesocket fd fds) + count x (fd ∷ []) ≡ count x fds
unfolding count closesocket
count-closesocket x fd [] l = absurd (omega (arith, l))
count-closesocket x fd (y ∷ fds) l = ground (arith, count-closesocket x fd fds)

-- A list of descriptors against a socket, and what is held besides.
abbrev pub IsSplit : Fds → Socket → (ℕ → ℕ) → Type 0
IsSplit fds s others = (x : ℕ) → count x fds ≡ holds x s + others x

release-count :
    (o : Option ℕ) (fds : Fds) (others : ℕ → ℕ)
    → ((x : ℕ) → count x fds ≡ count x (owned o) + others x)
    → (x : ℕ) → count x (release o fds) ≡ others x
unfolding release count
release-count none fds others h x = omega (arith, h x)
release-count (some fd) fds others h x =
    omega (arith, h x, count-closesocket x fd fds (omega (arith, h fd, count_self fd)))

pub close-count :
    (s : Socket) (fds : Fds) (others : ℕ → ℕ)
    → IsSplit fds s others
    → (x : ℕ) → count x (close s fds).1 ≡ others x
unfolding close
close-count s fds others h = release-count s.sock fds others h

-- A socket that is not valid holds nothing.
pub IsSplit-none :
    (s : Socket) (fds : Fds) (others : ℕ → ℕ)
    → s.sock ≡ none
    → IsSplit fds s others
    → (x : ℕ) → count x fds ≡ others x
unfolding count
IsSplit-none s fds others e h x = omega (arith, h x, ap (λ o. count x (owned o)) e)

close_valid-count :
    (s : Socket) (fds : Fds) (others : ℕ → ℕ)
    → IsSplit fds s others
    → (x : ℕ) → count x (close_valid s fds).1 ≡ others x
unfolding close_valid
close_valid-count s fds others h x = elim (Option-cases s.sock) [
  | inl e ↦ rw (ap is_some e, close_valid) (IsSplit-none s fds others e h x)
  | inr (fd, e) ↦ rw (ap is_some e, close_valid) (close-count s fds others h x)
]

connect_found-count :
    (attach_ok : Bool) (s : Socket) (r : Option ℕ × Fds) (others : ℕ → ℕ)
    → ((x : ℕ) → count x r.1 ≡ count x (owned r.0) + others x)
    → IsSplit (connect_found attach_ok s r).2 (connect_found attach_ok s r).1 others
unfolding connect_found
connect_found-count attach_ok s (none, fds) others h = h
connect_found-count attach_ok s (some fd, fds) others h = h

pub connect-count :
    (addresses : Option (List Attempt)) (attach_ok : Bool) (s : Socket) (fds : Fds) (others : ℕ → ℕ)
    → IsSplit fds s others
    → IsSplit (connect addresses attach_ok s fds).2 (connect addresses attach_ok s fds).1 others
unfolding connect
connect-count none attach_ok s fds others h = h
connect-count (some ps) attach_ok s fds others h =
    let closed = close_valid s fds in
    connect_found-count attach_ok closed.0 (connect_loop ps closed.1) others (λ x.
      ap (count x) (connect_loop-owned ps closed.1)
      ∙ count-append x (owned (connect_loop ps closed.1).0) closed.1
      ∙ ap (λ n. count x (owned (connect_loop ps closed.1).0) + n)
          (close_valid-count s fds others h x))

listen_bound-count :
    (listen_ok attach_ok : Bool) (s : Socket) (r : Option ℕ × Fds) (others : ℕ → ℕ)
    → s.sock ≡ none
    → ((x : ℕ) → count x r.1 ≡ count x (owned r.0) + others x)
    → IsSplit
        (listen_bound listen_ok attach_ok s r).2
        (listen_bound listen_ok attach_ok s r).1
        others
unfolding listen_bound
listen_bound-count listen_ok attach_ok s (none, fds) others e h =
    λ x. (h x ∙ ap (λ o. count x (owned o) + others x) (sym e))
listen_bound-count listen_ok attach_ok s (some fd, fds) others e h = h

pub invalid-none : (s : Socket) → is_valid s ≡ false → s.sock ≡ none
invalid-none s v = elim (Option-cases s.sock) [ inl e ↦ e | inr (fd, e) ↦ cc (v, ap is_some e) ]

pub listen-count :
    (addresses : Option (List Binding)) (listen_ok attach_ok : Bool) (s : Socket) (fds : Fds)
    (others : ℕ → ℕ)
    → is_valid s ≡ false
    → IsSplit fds s others
    → IsSplit
        (listen addresses listen_ok attach_ok s fds).2
        (listen addresses listen_ok attach_ok s fds).1
        others
unfolding listen
listen-count none listen_ok attach_ok s fds others v h = h
listen-count (some bs) listen_ok attach_ok s fds others v h =
    let e = invalid-none s v in
    listen_bound-count listen_ok attach_ok s (bind_loop bs fds) others e (λ x.
      ap (count x) (bind_loop-owned bs fds)
      ∙ count-append x (owned (bind_loop bs fds).0) fds
      ∙ ap (λ n. count x (owned (bind_loop bs fds).0) + n) (IsSplit-none s fds others e h x))
