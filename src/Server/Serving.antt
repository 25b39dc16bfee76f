-- ===== src/Server/Serving.antt =====
-- The loop over `sockets_` against the answer of `select`.
use libcoda_net.Base.{
  ℕ, ◌<◌, Bool, true, false, not, ◌&&◌, List, [], ◌∷◌, if◌then◌else◌, ◌≡◌, ◌≢◌, ◌∙◌, refl, arith,
  All,
}
use libcoda_net.Server.{Connection, FdSet, is_set, clear}
use libcoda_net.Server.Select.{
  write_ready, read_ready, transfer, keep_entry, clear_entry, iterate_connections,
}
use libcoda_net.Server.Sockets.{IsAbove, IsOrdered}

is_set-clear : (x y : ℕ) (s : FdSet) → x ≢ y → is_set y (clear x s) ≡ is_set y s
unfolding is_set clear
is_set-clear x y [] ne = refl
is_set-clear x y (z ∷ s) ne = (let ih = is_set-clear x y s ne in ground arith)

-- Two sets agree on the descriptors of the connections.
abbrev Agree : {C : Type 0} → FdSet → FdSet → List (ℕ × C) → Type 0
Agree s t = All (λ x. is_set x.0 s ≡ is_set x.0 t)

clear-Agree :
    {C : Type 0} (fd : ℕ) (s t : FdSet) (cs : List (ℕ × C))
    → IsAbove fd cs
    → Agree s t cs
    → Agree (clear fd s) t cs
clear-Agree fd s t [] above agree = tt
clear-Agree fd s t (x ∷ cs) (above, others) (agree, agrees) =
    (is_set-clear fd x.0 s (omega (arith, above)) ∙ agree, clear-Agree fd s t cs others agrees)

-- A transfer leaves a connection at its descriptor.
pub record KeepsSocket (T : Connection) : Type 0 where
  pub reads : (c : T.Conn) → T.raw_socket (T.read_to_buffer c).1 ≡ T.raw_socket c
  pub writes : (c : T.Conn) → T.raw_socket (T.write_from_buffer c).1 ≡ T.raw_socket c

module _ (T : Connection) where
  -- Each connection stands at its own descriptor.
  abbrev pub IsKeyed : List (ℕ × T.Conn) → Type 0
  IsKeyed = All (λ x. T.raw_socket x.1 ≡ x.0)

  clear_entry-Agree :
      (fd : ℕ) (served : Bool × T.Conn) (s t : FdSet) (cs : List (ℕ × T.Conn))
      → IsAbove fd cs
      → Agree s t cs
      → Agree (clear_entry T fd served s) t cs
  unfolding clear_entry
  clear_entry-Agree fd (true, c) s t cs above agree = clear-Agree fd s t cs above agree
  clear_entry-Agree fd (false, c) s t cs above agree = agree

  write_ready-Agree :
      (outs outs' : FdSet) (c : T.Conn)
      → is_set (T.raw_socket c) outs ≡ is_set (T.raw_socket c) outs'
      → write_ready T outs c ≡ write_ready T outs' c
  unfolding write_ready
  write_ready-Agree outs outs' c o = λ i.
      (if o i && T.has_output c
        then (let (ok, c') = T.write_from_buffer c in (not ok, c'))
        else (false, c))

  read_ready-Agree :
      (outs outs' : FdSet) (r : Bool × T.Conn)
      → is_set (T.raw_socket r.1) outs ≡ is_set (T.raw_socket r.1) outs'
      → read_ready T outs r ≡ read_ready T outs' r
  unfolding read_ready
  read_ready-Agree outs outs' (true, c) o = write_ready-Agree outs outs' c o
  read_ready-Agree outs outs' (false, c) o = refl

  -- The loop without the clearing of descriptors: each connection by the sets of `select` alone.
  unfoldable pub each_transferred : FdSet → FdSet → List (ℕ × T.Conn) → List (ℕ × T.Conn)
  each_transferred ins outs [] = []
  each_transferred ins outs ((fd, c) ∷ cs) =
      keep_entry T fd (transfer T ins outs c) (each_transferred ins outs cs)

  keep_entry-All :
      (P : ℕ × T.Conn → Type 0) (fd : ℕ) (served : Bool × T.Conn) (cs : List (ℕ × T.Conn))
      → P (fd, served.1)
      → All P cs
      → All P (keep_entry T fd served cs)
  unfolding keep_entry
  keep_entry-All P fd (true, c) cs first others = others
  keep_entry-All P fd (false, c) cs first others = (first, others)

  keep_entry-IsOrdered :
      (fd : ℕ) (served : Bool × T.Conn) (cs : List (ℕ × T.Conn))
      → IsAbove fd cs
      → IsOrdered cs
      → IsOrdered (keep_entry T fd served cs)
  unfolding keep_entry
  keep_entry-IsOrdered fd (true, c) cs above o = o
  keep_entry-IsOrdered fd (false, c) cs above o = (above, o)

  module _ (keeps : KeepsSocket T) where
    transfer-Agree :
        (ins outs ins' outs' : FdSet) (c : T.Conn)
        → is_set (T.raw_socket c) ins ≡ is_set (T.raw_socket c) ins'
        → is_set (T.raw_socket c) outs ≡ is_set (T.raw_socket c) outs'
        → transfer T ins outs c ≡ transfer T ins' outs' c
    unfolding transfer
    transfer-Agree ins outs ins' outs' c i o =
        let reads = read_ready-Agree outs outs' (T.read_to_buffer c) (rw (keeps.reads c) o) in
        let writes = write_ready-Agree outs outs' c o in
        λ j. (if not (T.is_valid c) then (true, c) else (if i j then reads j else writes j))

    either-raw :
        (b : Bool) (fd : ℕ) (r q : Bool × T.Conn)
        → T.raw_socket r.1 ≡ fd
        → T.raw_socket q.1 ≡ fd
        → T.raw_socket (if b then r else q).1 ≡ fd
    either-raw true fd r q e h = e
    either-raw false fd r q e h = h

    write_ready-raw :
        (outs : FdSet) (c : T.Conn) → T.raw_socket (write_ready T outs c).1 ≡ T.raw_socket c
    unfolding write_ready
    write_ready-raw outs c =
        either-raw (is_set (T.raw_socket c) outs && T.has_output c) (T.raw_socket c) _ (false, c)
          (keeps.writes c) refl

    read_ready-raw :
        (outs : FdSet) (r : Bool × T.Conn) → T.raw_socket (read_ready T outs r).1 ≡ T.raw_socket r.1
    unfolding read_ready
    read_ready-raw outs (true, c) = write_ready-raw outs c
    read_ready-raw outs (false, c) = refl

    transfer-raw :
        (ins outs : FdSet) (c : T.Conn) → T.raw_socket (transfer T ins outs c).1 ≡ T.raw_socket c
    unfolding transfer
    transfer-raw ins outs c =
        either-raw (not (T.is_valid c)) (T.raw_socket c) (true, c) _ refl
          (either-raw (is_set (T.raw_socket c) ins) (T.raw_socket c) _ _
            (read_ready-raw outs (T.read_to_buffer c) ∙ keeps.reads c) (write_ready-raw outs c))

    iterate-Agree :
        (cs : List (ℕ × T.Conn)) (ins outs ins' outs' : FdSet)
        → IsKeyed cs
        → IsOrdered cs
        → Agree ins' ins cs
        → Agree outs' outs cs
        → (iterate_connections T cs ins' outs').0 ≡ each_transferred ins outs cs
    unfolding iterate_connections each_transferred
    iterate-Agree [] ins outs ins' outs' k o a b = refl
    iterate-Agree ((fd, c) ∷ cs) ins outs ins' outs' (key, keys) (above, o) (a, agree)
          (b, agree_outs) =
        let served = transfer T ins' outs' c in
        let same : served ≡ transfer T ins outs c =
          transfer-Agree ins' outs' ins outs c (rw key a) (rw key b) in
        let others =
          iterate-Agree cs ins outs (clear_entry T fd served ins') (clear_entry T fd served outs')
            keys o (clear_entry-Agree fd served ins' ins cs above agree)
            (clear_entry-Agree fd served outs' outs cs above agree_outs) in
        λ i. keep_entry T fd (same i) (others i)

    Agree-refl : {C : Type 0} (s : FdSet) (cs : List (ℕ × C)) → Agree s s cs
    Agree-refl s [] = tt
    Agree-refl s (x ∷ cs) = (refl, Agree-refl s cs)

    -- Over connections that stand at their own descriptors in ascending order, what the loop does to
    -- one and clears in the sets changes nothing for another.
    pub iterate_connections-transferred :
        (cs : List (ℕ × T.Conn)) (ins outs : FdSet)
        → IsKeyed cs
        → IsOrdered cs
        → (iterate_connections T cs ins outs).0 ≡ each_transferred ins outs cs
    iterate_connections-transferred cs ins outs k o =
        iterate-Agree cs ins outs ins outs k o (Agree-refl ins cs) (Agree-refl outs cs)

    each_transferred-IsAbove :
        (a : ℕ) (ins outs : FdSet) (cs : List (ℕ × T.Conn))
        → IsAbove a cs
        → IsAbove a (each_transferred ins outs cs)
    unfolding each_transferred
    each_transferred-IsAbove a ins outs [] all = tt
    each_transferred-IsAbove a ins outs ((fd, c) ∷ cs) (first, others) =
        keep_entry-All (λ x. a < x.0) fd (transfer T ins outs c) _ first
          (each_transferred-IsAbove a ins outs cs others)

    pub each_transferred-IsOrdered :
        (ins outs : FdSet) (cs : List (ℕ × T.Conn))
        → IsOrdered cs
        → IsOrdered (each_transferred ins outs cs)
    unfolding each_transferred
    each_transferred-IsOrdered ins outs [] o = tt
    each_transferred-IsOrdered ins outs ((fd, c) ∷ cs) (above, o) =
        keep_entry-IsOrdered fd (transfer T ins outs c) _
          (each_transferred-IsAbove fd ins outs cs above) (each_transferred-IsOrdered ins outs cs o)

    pub each_transferred-IsKeyed :
        (ins outs : FdSet) (cs : List (ℕ × T.Conn))
        → IsKeyed cs
        → IsKeyed (each_transferred ins outs cs)
    unfolding each_transferred
    each_transferred-IsKeyed ins outs [] k = tt
    each_transferred-IsKeyed ins outs ((fd, c) ∷ cs) (key, keys) =
        keep_entry-All (λ x. T.raw_socket x.1 ≡ x.0) fd (transfer T ins outs c) _
          (transfer-raw ins outs c ∙ key) (each_transferred-IsKeyed ins outs cs keys)
