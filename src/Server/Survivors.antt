-- ===== src/Server/Survivors.antt =====
-- The connections that the loop over `sockets_` leaves, against what `select` reported of each
-- descriptor and what the transfers of each connection answer.
use libcoda_net.Base.{
  ℕ, Bool, true, false, not, ◌&&◌, Option, none, some, List, [], ◌∷◌, if◌then◌else◌, ◌≡◌, ◌∙◌, refl,
  ap,
}
use libcoda_net.Server.{Connection, FdSet, is_set}
use libcoda_net.Server.Select.{write_ready, read_ready, transfer, keep_entry, iterate_connections}
use libcoda_net.Server.Sockets.{IsOrdered}
use libcoda_net.Server.Serving.{
  IsKeyed, KeepsSocket, each_transferred, iterate_connections-transferred,
}

module _ (T : Connection) where
  -- A transfer that is called for: the connection behind it if it succeeds.
  abbrev pub succeeded : Bool × T.Conn → Option T.Conn
  succeeded (true, c) = some c
  succeeded (false, c) = none

  abbrev pub attempt : Bool → (T.Conn → Bool × T.Conn) → T.Conn → Option T.Conn
  attempt true run c = succeeded (run c)
  attempt false run c = some c

  -- Behind the read, which is `none` if it failed.
  abbrev pub written : Bool → Option T.Conn → Option T.Conn
  written writable none = none
  written writable (some c) = attempt (writable && T.has_output c) T.write_from_buffer c

  -- What becomes of a connection that is readable and writable or not: `none` if it is invalid or a
  -- transfer fails.
  abbrev pub survivor : Bool → Bool → T.Conn → Option T.Conn
  survivor readable writable c =
      if T.is_valid c then written writable (attempt readable T.read_to_buffer c) else none

  abbrev pub and_survivor : ℕ → Option T.Conn → List (ℕ × T.Conn) → List (ℕ × T.Conn)
  and_survivor fd none cs = cs
  and_survivor fd (some c) cs = (fd, c) ∷ cs

  unfoldable pub each_served : FdSet → FdSet → List (ℕ × T.Conn) → List (ℕ × T.Conn)
  each_served ins outs [] = []
  each_served ins outs ((fd, c) ∷ cs) =
      and_survivor fd (survivor (is_set fd ins) (is_set fd outs) c) (each_served ins outs cs)

  -- The entry that is kept, if there is one.
  kept : Bool × T.Conn → Option T.Conn
  kept (true, c) = none
  kept (false, c) = some c

  keep_entry-and_survivor :
      (fd : ℕ) (served : Bool × T.Conn) (cs : List (ℕ × T.Conn))
      → keep_entry T fd served cs ≡ and_survivor fd (kept served) cs
  unfolding keep_entry kept
  keep_entry-and_survivor fd (true, c) cs = refl
  keep_entry-and_survivor fd (false, c) cs = refl

  kept-not : (r : Bool × T.Conn) → kept (not r.0, r.1) ≡ succeeded r
  unfolding kept
  kept-not (true, c) = refl
  kept-not (false, c) = refl

  module _ (fd : ℕ) (outs : FdSet) where
    kept-write_ready :
        (c : T.Conn)
        → T.raw_socket c ≡ fd
        → kept (write_ready T outs c) ≡ written (is_set fd outs) (some c)
    unfolding write_ready kept
    kept-write_ready c key =
        ap
          (λ x. kept (
            if is_set x outs && T.has_output c
            then (let (ok, c') = T.write_from_buffer c in (not ok, c'))
            else (false, c)))
          key
        ∙ either (is_set fd outs && T.has_output c)
      where
        either :
            (b : Bool)
            → kept
                (if b then (let (ok, c') = T.write_from_buffer c in (not ok, c')) else (false, c))
              ≡ attempt b T.write_from_buffer c
        either true = kept-not (T.write_from_buffer c)
        either false = refl

    kept-read_ready :
        (r : Bool × T.Conn)
        → T.raw_socket r.1 ≡ fd
        → kept (read_ready T outs r) ≡ written (is_set fd outs) (succeeded r)
    unfolding read_ready kept
    kept-read_ready (true, c) key = kept-write_ready c key
    kept-read_ready (false, c) key = refl

    kept-transfer :
        (ins : FdSet) (c : T.Conn)
        → KeepsSocket T
        → T.raw_socket c ≡ fd
        → kept (transfer T ins outs c) ≡ survivor (is_set fd ins) (is_set fd outs) c
    unfolding transfer kept
    kept-transfer ins c keeps key =
        ap
          (λ x. kept (
            if not (T.is_valid c)
            then (true, c)
            else (if is_set x ins
                then read_ready T outs (T.read_to_buffer c)
                else write_ready T outs c)))
          key
        ∙ either (T.is_valid c) (is_set fd ins)
      where
        either :
            (valid readable : Bool)
            → kept (
                if not valid
                then (true, c)
                else (if readable
                    then read_ready T outs (T.read_to_buffer c)
                    else write_ready T outs c))
              ≡ (if valid
                  then written (is_set fd outs) (attempt readable T.read_to_buffer c)
                  else none)
        either false readable = refl
        either true true = kept-read_ready (T.read_to_buffer c) (keeps.reads c ∙ key)
        either true false = kept-write_ready c key

  each_transferred-each_served :
      (cs : List (ℕ × T.Conn)) (ins outs : FdSet)
      → KeepsSocket T
      → IsKeyed T cs
      → each_transferred T ins outs cs ≡ each_served ins outs cs
  unfolding each_transferred each_served
  each_transferred-each_served [] ins outs keeps k = refl
  each_transferred-each_served ((fd, c) ∷ cs) ins outs keeps (key, keys) =
      keep_entry-and_survivor fd (transfer T ins outs c) (each_transferred T ins outs cs) ∙ (λ i.
        and_survivor fd (kept-transfer fd outs ins c keeps key i)
          (each_transferred-each_served cs ins outs keeps keys i))

  -- If no transfer moves a connection to another descriptor, the connections stand at their own
  -- descriptors, and those ascend, then the loop leaves, in order and at their descriptors, exactly
  -- the valid connections whose read succeeds where `select` reported input, and whose write, behind
  -- the read, succeeds where it reported output and there is some. What it does to one and clears in
  -- the sets changes nothing for another.
  pub iterate_connections-each :
      (cs : List (ℕ × T.Conn)) (ins outs : FdSet)
      → KeepsSocket T
      → IsKeyed T cs
      → IsOrdered cs
      → (iterate_connections T cs ins outs).0 ≡ each_served ins outs cs
  iterate_connections-each cs ins outs keeps k o =
      iterate_connections-transferred T keeps cs ins outs k o
      ∙ each_transferred-each_served cs ins outs keeps k
