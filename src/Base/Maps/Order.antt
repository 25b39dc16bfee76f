-- ===== src/Base/Maps/Order.antt =====
-- The order of the keys, and assignments in another order.
use Prim.Native.Nat.{Ordering}
use mathlib.Core.Path.{◌≡◌, refl, sym, ap}
use mathlib.Core.List.{[], ◌∷◌, ◌++◌}
use mathlib.Core.Bool.{false}
use native.Mathlib.Omega.{arith}
use libcoda_net.Base.Lists.{Bytes}
use libcoda_net.Base.Text.{same, same_iff}
use libcoda_net.Base.Maps.{Dict, order, order-eq, assign}

pub order-lt : (k j : Bytes) → order k j ≡ Ordering.lt → order j k ≡ Ordering.gt
unfolding order
order-lt [] [] h = cc
order-lt [] (y ∷ ys) h = refl
order-lt (x ∷ xs) [] h = cc
order-lt (x ∷ xs) (y ∷ ys) h = ground (arith, order-lt xs ys)

pub order-gt : (k j : Bytes) → order k j ≡ Ordering.gt → order j k ≡ Ordering.lt
unfolding order
order-gt [] [] h = cc
order-gt [] (y ∷ ys) h = cc
order-gt (x ∷ xs) [] h = refl
order-gt (x ∷ xs) (y ∷ ys) h = ground (arith, order-gt xs ys)

pub order_trans :
    (k j i : Bytes) → order k j ≡ Ordering.lt → order j i ≡ Ordering.lt → order k i ≡ Ordering.lt
unfolding order
order_trans [] [] i h g = cc
order_trans [] (y ∷ ys) [] h g = cc
order_trans [] (y ∷ ys) (z ∷ zs) h g = refl
order_trans (x ∷ xs) [] i h g = cc
order_trans (x ∷ xs) (y ∷ ys) [] h g = cc
order_trans (x ∷ xs) (y ∷ ys) (z ∷ zs) h g = ground (arith, order_trans xs ys zs)

assign-lt :
    (k j v w : Bytes) (m : Dict)
    → order k j ≡ Ordering.lt
    → assign k v (assign j w m) ≡ assign j w (assign k v m)
unfolding assign
assign-lt k j v w [] h = ground (arith, order-lt k j)
assign-lt k j v w ((i, u) ∷ m) h = ground (
  arith,
  assign-lt k j v w m h,
  order-lt k j,
  order-lt k i,
  order-gt k i,
  order_trans k j i,
  order-eq k i,
  order-eq j i,
)

-- Two assignments of different keys can be swapped.
pub assign_comm :
    (k j v w : Bytes) (m : Dict)
    → same k j ≡ false
    → assign k v (assign j w m) ≡ assign j w (assign k v m)
assign_comm k j v w m h = by_order (order k j) refl
  where
    by_order :
        (o : Ordering) → order k j ≡ o → assign k v (assign j w m) ≡ assign j w (assign k v m)
    by_order Ordering.lt e = assign-lt k j v w m e
    by_order Ordering.gt e = sym (assign-lt j k w v m (order-gt k j e))
    by_order Ordering.eq e = grind (arith, order-eq k j e, same_iff k j)

-- An assignment leaves its pair somewhere in the map.
pub assign-split :
    (k v : Bytes) (m : Dict) → (before after : Dict) × (assign k v m ≡ before ++ ((k, v) ∷ after))
unfolding assign
assign-split k v [] = ([], [], refl)
assign-split k v ((j, w) ∷ m) = by_order (order k j) refl (assign-split k v m)
  where
    by_order :
        (o : Ordering)
        → order k j ≡ o
        → (before after : Dict) × (assign k v m ≡ before ++ ((k, v) ∷ after))
        → (before after : Dict) × (assign k v ((j, w) ∷ m) ≡ before ++ ((k, v) ∷ after))
    by_order Ordering.lt e r = ([], (j, w) ∷ m, rw (e, assign))
    by_order Ordering.eq e r = ([], m, rw (e, assign) (ap (λ x. (x, v) ∷ m) (sym (order-eq k j e))))
    by_order Ordering.gt e (before, after, r) =
        ((j, w) ∷ before, after, rw (e, assign) (ap (λ x. (j, w) ∷ x) r))
