-- ===== src/Base/Lists.antt =====
-- Lists measured by native numbers, and `std::find` on byte strings. An iterator into a string
-- is the pair of what lies before it and what lies at and after it.
use Prim.Native.Nat.{ℕ, suc, ◌+◌, ◌≤◌}
use mathlib.Core.Path.{◌≡◌, refl}
use mathlib.Core.Logic.{◌≢◌}
use mathlib.Core.List.{List, [], ◌∷◌, ◌++◌}
use native.Mathlib.Omega.{arith}
use libcoda_net.Base.Test.{◌==◌, if◌then◌else◌}

abbrev pub Bytes : Type 0
Bytes = List ℕ

abbrev pub All {ℓ κ} : {A : Type ℓ} → (A → Type κ) → List A → Type κ
All P (a ∷ s) = P a × All P s
All P [] = Unit

module _ {ℓ κ} {A : Type ℓ} (P : A → Type κ) where
  pub All-append : (s t : List A) → All P s → All P t → All P (s ++ t)
  All-append [] t _ all = all
  All-append (a ∷ s) t (first, others) all = (first, All-append s t others all)

-- No byte of the string is `b`.
abbrev pub Without : ℕ → Bytes → Type 0
Without b = All (λ c. c ≢ b)

module _ {ℓ} {A : Type ℓ} where
  abbrev pub length : List A → ℕ
  length [] = 0
  length (x ∷ xs) = suc (length xs)

  pub length-append : (xs ys : List A) → length (xs ++ ys) ≡ length xs + length ys
  length-append [] ys = omega arith
  length-append (x ∷ xs) ys = omega (arith, length-append xs ys)

-- `std::find(first, last, b)`: the range before the hit, and the range from it on. With no hit
-- the second is empty, as the iterator is `last`.
unfoldable pub before_first : ℕ → Bytes → Bytes
before_first b [] = []
before_first b (c ∷ s) = if c == b then [] else c ∷ before_first b s

unfoldable pub from_first : ℕ → Bytes → Bytes
from_first b [] = []
from_first b (c ∷ s) = if c == b then c ∷ s else from_first b s

module _ (b : ℕ) where
  pub before-append-from : (s : Bytes) → before_first b s ++ from_first b s ≡ s
  unfolding before_first from_first
  before-append-from [] = refl
  before-append-from (c ∷ s) = ground (arith, before-append-from s)

  pub length-from_first-le : (s : Bytes) → length (from_first b s) ≤ length s
  unfolding from_first
  length-from_first-le [] = omega arith
  length-from_first-le (c ∷ s) = ground (arith, length-from_first-le s)

  pub before_first-hit : (s t : Bytes) → Without b s → before_first b (s ++ (b ∷ t)) ≡ s
  unfolding before_first
  before_first-hit [] t h = ground arith
  before_first-hit (c ∷ s) t h = ground (arith, before_first-hit s t h.1)

  pub from_first-hit : (s t : Bytes) → Without b s → from_first b (s ++ (b ∷ t)) ≡ b ∷ t
  unfolding from_first
  from_first-hit [] t h = ground arith
  from_first-hit (c ∷ s) t h = ground (arith, from_first-hit s t h.1)

  pub before_first-miss : (s : Bytes) → Without b s → before_first b s ≡ s
  unfolding before_first
  before_first-miss [] h = refl
  before_first-miss (c ∷ s) h = ground (arith, before_first-miss s h.1)

  pub from_first-miss : (s : Bytes) → Without b s → from_first b s ≡ []
  unfolding from_first
  from_first-miss [] h = refl
  from_first-miss (c ∷ s) h = ground (arith, from_first-miss s h.1)

  -- A byte that differs is passed over.
  pub before_first-ne : (c : ℕ) (s : Bytes) → c ≢ b → before_first b (c ∷ s) ≡ c ∷ before_first b s
  unfolding before_first
  before_first-ne c s h = ground arith

  pub from_first-ne : (c : ℕ) (s : Bytes) → c ≢ b → from_first b (c ∷ s) ≡ from_first b s
  unfolding from_first
  from_first-ne c s h = ground arith

  pub before_first_self : (s : Bytes) → before_first b (b ∷ s) ≡ []
  unfolding before_first
  before_first_self s = ground arith

  pub from_first_self : (s : Bytes) → from_first b (b ∷ s) ≡ b ∷ s
  unfolding from_first
  from_first_self s = ground arith

  -- What `find` returns is the end, or a place that holds `b`.
  pub before_first-Without : (s : Bytes) → Without b (before_first b s)
  unfolding before_first
  before_first-Without [] = tt
  before_first-Without (c ∷ s) = ground (arith, before_first-Without s)
