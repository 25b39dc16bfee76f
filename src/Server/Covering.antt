-- ===== src/Server/Covering.antt =====
-- The sets of the poller on select against the descriptors of the connections.
use libcoda_net.Base.{
  ℕ, Bool, true, false, List, [], ◌∷◌, ltb, ◌==◌, if◌then◌else◌, ◌≡◌, ◌∙◌, refl, arith, inl, inr,
  ◌⊎◌, All, Bool-cases,
}
use libcoda_net.Server.{Connection, FdSet, is_set, clear}
use libcoda_net.Server.Select.{insert, transfer, keep_entry, clear_entry, iterate_connections}
use libcoda_net.Server.Fairness.{descriptors}
use libcoda_net.Server.Limit.{iterate_connections-sets}

-- Every member of the set is the listening descriptor or that of a connection.
abbrev pub IsCovered : {C : Type 0} → ℕ → List (ℕ × C) → FdSet → Type 0
IsCovered listening cs s =
    (fd : ℕ) → is_set fd s ≡ true → (fd ≡ listening) ⊎ (is_set fd (descriptors cs) ≡ true)

descriptors-insert :
    {C : Type 0} (x fd : ℕ) (c : C) (cs : List (ℕ × C))
    → is_set x (descriptors (insert fd c cs))
      ≡ (if fd == x then true else is_set x (descriptors cs))
unfolding descriptors insert is_set
descriptors-insert x fd c [] = refl
descriptors-insert x fd c ((y, d) ∷ cs) = (let ih = descriptors-insert x fd c cs in ground arith)

clear_self : (x : ℕ) (s : FdSet) → is_set x (clear x s) ≡ false
unfolding clear is_set
clear_self x [] = refl
clear_self x (y ∷ s) = (let ih = clear_self x s in ground arith)

module _ (T : Connection) where
  -- A connection that is kept stays among the descriptors, and one that is not is cleared.
  keep-clear :
      (x fd : ℕ) (served : Bool × T.Conn) (cs : List (ℕ × T.Conn)) (s : FdSet)
      → is_set x (clear_entry T fd served s) ≡ true
      → (fd ≡ x) ⊎ (is_set x (descriptors cs) ≡ true)
      → is_set x (descriptors (keep_entry T fd served cs)) ≡ true
  unfolding clear_entry keep_entry descriptors is_set
  keep-clear x fd (true, c) cs s h (inl e) = (let no = clear_self x s in grind arith)
  keep-clear x fd (true, c) cs s h (inr m) = m
  keep-clear x fd (false, c) cs s h (inl e) = ground arith
  keep-clear x fd (false, c) cs s h (inr m) = ground arith

  first_or : (x fd : ℕ) (s : FdSet) → is_set x (fd ∷ s) ≡ true → (fd ≡ x) ⊎ (is_set x s ≡ true)
  unfolding is_set
  first_or x fd s h = elim (Bool-cases (fd == x)) [
    | inl e ↦ inl (ground arith)
    | inr e ↦ inr (ground arith)
  ]

  pub iterate-descriptors :
      (x : ℕ) (cs : List (ℕ × T.Conn)) (ins outs : FdSet)
      → (is_set x (iterate_connections T cs ins outs).1 ≡ true)
        ⊎ (is_set x (iterate_connections T cs ins outs).2 ≡ true)
      → is_set x (descriptors cs) ≡ true
      → is_set x (descriptors (iterate_connections T cs ins outs).0) ≡ true
  unfolding iterate_connections descriptors
  iterate-descriptors x [] ins outs h m = m
  iterate-descriptors x ((fd, c) ∷ cs) ins outs h m =
      let served = transfer T ins outs c in
      let (sub_in, sub_out) =
        iterate_connections-sets T cs (clear_entry T fd served ins)
          (clear_entry T fd served outs) in
      let ih =
        iterate-descriptors x cs (clear_entry T fd served ins) (clear_entry T fd served outs) h in
      let left =
        (iterate_connections T cs (clear_entry T fd served ins) (clear_entry T fd served outs)).0 in
      let stays : (fd ≡ x) ⊎ (is_set x (descriptors left) ≡ true) =
        elim (first_or x fd (descriptors cs) m) [ inl e ↦ inl e | inr k ↦ inr (ih k) ] in
      elim h [
        | inl a ↦ keep-clear x fd served left ins (sub_in x a) stays
        | inr b ↦ keep-clear x fd served left outs (sub_out x b) stays
      ]

pub insert-All :
    {C : Type 0} (P : ℕ × C → Type 0) (fd : ℕ) (c : C) (cs : List (ℕ × C))
    → P (fd, c)
    → All P cs
    → All P (insert fd c cs)
unfolding insert
insert-All P fd c [] first all = (first, tt)
insert-All P fd c ((x, d) ∷ cs) first (p, others) = elim (Bool-cases (x == fd)) [
  | inl e ↦ rw e (first, others)
  | inr e ↦ rw e (elim (Bool-cases (ltb fd x)) [
    | inl lt ↦ rw lt (first, (p, others))
    | inr ge ↦ rw ge (p, insert-All P fd c cs first others)
  ])
]

pub insert-IsCovered :
    {C : Type 0} (listening fd : ℕ) (c : C) (cs : List (ℕ × C)) (s : FdSet)
    → IsCovered listening cs s
    → IsCovered listening (insert fd c cs) (fd ∷ s)
unfolding is_set
insert-IsCovered listening fd c cs s f x h = elim (Bool-cases (fd == x)) [
  | inl e ↦ inr (descriptors-insert x fd c cs ∙ rw e)
  | inr e ↦ elim (f x (ground arith)) [
    | inl l ↦ inl l
    | inr m ↦ inr (descriptors-insert x fd c cs ∙ rw e m)
  ]
]
