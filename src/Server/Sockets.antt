-- ===== src/Server/Sockets.antt =====
-- `sockets_` of a server: a map in the order of the descriptors, and the loop that serves it.
use libcoda_net.Base.{ℕ, ◌<◌, List, [], ◌∷◌, ltb, ◌==◌, ◌≡◌, arith, inl, inr, All, Bool-cases}
use libcoda_net.Server.Select.{insert}

-- All keys are above one.
abbrev pub IsAbove : {C : Type 0} → ℕ → List (ℕ × C) → Type 0
IsAbove fd = All (λ x. fd < x.0)

-- The keys ascend, so that none is there twice.
abbrev pub IsOrdered : {C : Type 0} → List (ℕ × C) → Type 0
IsOrdered [] = Unit {0}
IsOrdered ((fd, c) ∷ cs) = IsAbove fd cs × IsOrdered cs

All-less : {C : Type 0} (a b : ℕ) (cs : List (ℕ × C)) → a < b → IsAbove b cs → IsAbove a cs
All-less a b [] l all = tt
All-less a b (x ∷ cs) l (first, others) = (omega (arith, l, first), All-less a b cs l others)

insert-IsAbove :
    {C : Type 0} (a fd : ℕ) (c : C) (cs : List (ℕ × C))
    → a < fd
    → IsAbove a cs
    → IsAbove a (insert fd c cs)
unfolding insert
insert-IsAbove a fd c [] l all = (l, tt)
insert-IsAbove a fd c ((x, d) ∷ cs) l (first, others) = elim (Bool-cases (x == fd)) [
  | inl e ↦ rw e (l, others)
  | inr e ↦ rw e (elim (Bool-cases (ltb fd x)) [
    | inl lt ↦ rw lt (l, (first, others))
    | inr ge ↦ rw ge (first, insert-IsAbove a fd c cs l others)
  ])
]

pub insert-IsOrdered :
    {C : Type 0} (fd : ℕ) (c : C) (cs : List (ℕ × C)) → IsOrdered cs → IsOrdered (insert fd c cs)
unfolding insert
insert-IsOrdered fd c [] o = (tt, tt)
insert-IsOrdered fd c ((x, d) ∷ cs) (above, o) = elim (Bool-cases (x == fd)) [
  | inl e ↦ rw e (let same : x ≡ fd = ground arith in rw⁻¹ same (above, o))
  | inr e ↦ rw e (elim (Bool-cases (ltb fd x)) [
    | inl lt ↦
        rw lt
          (let less : fd < x = ground arith in ((less, All-less fd x cs less above), (above, o)))
    | inr ge ↦ rw ge (insert-IsAbove x fd c cs (ground arith) above, insert-IsOrdered fd c cs o)
  ])
]
