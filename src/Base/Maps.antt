-- ===== src/Base/Maps.antt =====
-- `std::map` from strings to strings: an association list, which the operations keep in the order of
-- its keys, by bytes.
pub mod Order
pub mod Canonical
use Prim.Native.Nat.{compare, Ordering}
use mathlib.Core.Bool.{Bool, true, false}
use mathlib.Core.Option.{Option, none, some}
use mathlib.Core.Path.{◌≡◌, refl}
use mathlib.Core.List.{List, [], ◌∷◌}
use native.Mathlib.Omega.{arith}
use libcoda_net.Base.Test.{if◌then◌else◌}
use libcoda_net.Base.Lists.{Bytes}
use libcoda_net.Base.Text.{same, same_iff}

abbrev pub Dict : Type 0
Dict = List (Bytes × Bytes)

unfoldable pub order : Bytes → Bytes → Ordering
order [] [] = Ordering.eq
order [] (y ∷ ys) = Ordering.lt
order (x ∷ xs) [] = Ordering.gt
order (x ∷ xs) (y ∷ ys) = elim (compare x y) [
  | Ordering.lt ↦ Ordering.lt
  | Ordering.eq ↦ order xs ys
  | Ordering.gt ↦ Ordering.gt
]

unfoldable pub lookup : Bytes → Dict → Option Bytes
lookup k [] = none
lookup k ((j, v) ∷ m) = if same j k then some v else lookup k m

-- `m[k] = v`.
unfoldable pub assign : Bytes → Bytes → Dict → Dict
unfolding order
assign k v [] = (k, v) ∷ []
assign k v ((j, w) ∷ m) = elim (order k j) [
  | Ordering.lt ↦ (k, v) ∷ (j, w) ∷ m
  | Ordering.eq ↦ (j, v) ∷ m
  | Ordering.gt ↦ (j, w) ∷ assign k v m
]

abbrev pub has : Bytes → Dict → Bool
has k m = elim (lookup k m) [ none ↦ false | some v ↦ true ]

-- `m.insert` of a range: a key that is there keeps its value.
unfoldable pub insert_all : Dict → Dict → Dict
insert_all [] m = m
insert_all ((k, v) ∷ kvs) m = insert_all kvs (if has k m then m else assign k v m)

-- `m.erase(k)`.
unfoldable pub erase : Bytes → Dict → Dict
erase k [] = []
erase k ((j, v) ∷ m) = if same j k then erase k m else (j, v) ∷ erase k m

order-eq : (k j : Bytes) → order k j ≡ Ordering.eq → k ≡ j
unfolding order
order-eq [] [] h = refl
order-eq [] (y ∷ ys) h = cc
order-eq (x ∷ xs) [] h = cc
order-eq (x ∷ xs) (y ∷ ys) h = ground (arith, order-eq xs ys)

order_self : (k : Bytes) → order k k ≡ Ordering.eq
unfolding order
order_self [] = refl
order_self (x ∷ xs) = ground (arith, order_self xs)

pub same_self : (k : Bytes) → same k k ≡ true
same_self k = (same_iff k k).1 refl

order-same : (k j : Bytes) → same j k ≡ true → order k j ≡ Ordering.eq
order-same k j h = rw ((same_iff j k).0 h) (order_self k)

pub lookup-assign :
    (k j v : Bytes) (m : Dict) → lookup j (assign k v m) ≡ (if same k j then some v else lookup j m)
unfolding lookup assign
lookup-assign k j v [] = refl
lookup-assign k j v ((i, w) ∷ m) = ground (
  arith,
  same_iff i k,
  same_iff i j,
  same_iff k j,
  lookup-assign k j v m,
  order-eq k i,
  order-same k i,
)

pub lookup-erase :
    (k j : Bytes) (m : Dict) → lookup j (erase k m) ≡ (if same k j then none else lookup j m)
unfolding lookup erase
lookup-erase k j [] = ground arith
lookup-erase k j ((i, w) ∷ m) =
    ground (arith, same_iff i k, same_iff i j, same_iff k j, lookup-erase k j m)
