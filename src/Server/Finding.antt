-- ===== src/Server/Finding.antt =====
-- `find_socket` behind the loop over the connections.
use libcoda_net.Base.{
  ℕ, Bool, true, false, some, List, [], ◌∷◌, ◌==◌, ◌≡◌, ◌∙◌, refl, ap, sym, arith, inl, inr,
  Bool-cases,
}
use libcoda_net.Server.{Connection, FdSet}
use libcoda_net.Server.Select.{transfer, keep_entry}
use libcoda_net.Server.Epoll.{find_socket}
use libcoda_net.Server.Serving.{IsKeyed, each_transferred}

pub some_same {ℓ} : {A : Type ℓ} (a b : A) → some a ≡ some b → a ≡ b
some_same a b e = cc e

find-here :
    {C : Type 0} (fd x : ℕ) (c : C) (cs : List (ℕ × C))
    → (x == fd) ≡ true
    → find_socket fd ((x, c) ∷ cs) ≡ some c
unfolding find_socket
find-here fd x c cs e = rw e

find-later :
    {C : Type 0} (fd x : ℕ) (c : C) (cs : List (ℕ × C))
    → (x == fd) ≡ false
    → find_socket fd ((x, c) ∷ cs) ≡ find_socket fd cs
unfolding find_socket
find-later fd x c cs e = rw e

module _ (T : Connection) where
  find-keep_entry :
      (fd x : ℕ) (served : Bool × T.Conn) (cs : List (ℕ × T.Conn))
      → (x == fd) ≡ false
      → find_socket fd (keep_entry T x served cs) ≡ find_socket fd cs
  unfolding keep_entry find_socket
  find-keep_entry fd x (true, c) cs e = refl
  find-keep_entry fd x (false, c) cs e = rw e

  find-kept :
      (fd x : ℕ) (served : Bool × T.Conn) (c : T.Conn) (cs : List (ℕ × T.Conn))
      → (x == fd) ≡ true
      → served ≡ (false, c)
      → find_socket fd (keep_entry T x served cs) ≡ some c
  unfolding keep_entry find_socket
  find-kept fd x (true, d) c cs e h = cc
  find-kept fd x (false, d) c cs e h = rw e (ap (λ r. some r.1) h)

  -- A connection whose transfers succeed is found again behind the loop.
  pub find-each_transferred :
      (fd : ℕ) (ins outs : FdSet) (c c' : T.Conn) (cs : List (ℕ × T.Conn))
      → find_socket fd cs ≡ some c
      → transfer T ins outs c ≡ (false, c')
      → find_socket fd (each_transferred T ins outs cs) ≡ some c'
  unfolding find_socket each_transferred
  find-each_transferred fd ins outs c c' [] f t = cc
  find-each_transferred fd ins outs c c' ((x, d) ∷ cs) f t = elim (Bool-cases (x == fd)) [
    | inl e ↦
        find-kept fd x (transfer T ins outs d) c' _ e
          (ap (transfer T ins outs) (some_same d c (sym (find-here fd x d cs e) ∙ f)) ∙ t)
    | inr e ↦
        find-keep_entry fd x (transfer T ins outs d) _ e
        ∙ find-each_transferred fd ins outs c c' cs (sym (find-later fd x d cs e) ∙ f) t
  ]

  pub find-IsKeyed :
      (fd : ℕ) (c : T.Conn) (cs : List (ℕ × T.Conn))
      → IsKeyed T cs
      → find_socket fd cs ≡ some c
      → T.raw_socket c ≡ fd
  unfolding find_socket
  find-IsKeyed fd c [] k f = cc
  find-IsKeyed fd c ((x, d) ∷ cs) (key, keys) f = elim (Bool-cases (x == fd)) [
    | inl e ↦
        ap T.raw_socket (sym (some_same d c (sym (find-here fd x d cs e) ∙ f)))
        ∙ key
        ∙ (ground arith)
    | inr e ↦ find-IsKeyed fd c cs keys (sym (find-later fd x d cs e) ∙ f)
  ]
