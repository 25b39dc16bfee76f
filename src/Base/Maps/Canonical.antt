-- ===== src/Base/Maps/Canonical.antt =====
-- Maps in the order of their keys: two of them with the same entries are the same list.
use Prim.Native.Nat.{Ordering}
use mathlib.Core.Path.{◌≡◌, subst, refl, sym, ap, ◌∙◌}
use mathlib.Core.Bool.{Bool, true, false}
use mathlib.Core.Option.{none, some}
use mathlib.Core.List.{[], ◌∷◌}
use libcoda_net.Base.Test.{if◌then◌else◌}
use libcoda_net.Base.Lists.{Bytes, All}
use libcoda_net.Base.Text.{same, same_iff}
use libcoda_net.Base.Maps.{
  Dict, order, order-eq, order_self, lookup, assign, erase, insert_all, has, same_self,
}
use libcoda_net.Base.Maps.Order.{order-gt, order_trans}

-- All keys come behind one.
abbrev IsBehind : Bytes → Dict → Type 0
IsBehind k = All (λ p. order k p.0 ≡ Ordering.lt)

abbrev pub IsSorted : Dict → Type 0
IsSorted [] = Unit {0}
IsSorted ((k, v) ∷ m) = IsBehind k m × IsSorted m

IsBehind-trans : (k j : Bytes) (m : Dict) → order k j ≡ Ordering.lt → IsBehind j m → IsBehind k m
IsBehind-trans k j [] h b = tt
IsBehind-trans k j (p ∷ m) h (first, others) =
    (order_trans k j p.0 h first, IsBehind-trans k j m h others)

assign-IsBehind :
    (i k v : Bytes) (m : Dict) → order i k ≡ Ordering.lt → IsBehind i m → IsBehind i (assign k v m)
unfolding assign
assign-IsBehind i k v [] h b = (h, tt)
assign-IsBehind i k v ((j, w) ∷ m) h (first, others) =
    by_order (order k j) refl (assign-IsBehind i k v m h others)
  where
    by_order :
        (o : Ordering)
        → order k j ≡ o
        → IsBehind i (assign k v m)
        → IsBehind i (assign k v ((j, w) ∷ m))
    by_order Ordering.lt e rest = rw (e, assign) (h, (first, others))
    by_order Ordering.eq e rest = rw (e, assign) (first, others)
    by_order Ordering.gt e rest = rw (e, assign) (first, rest)

pub assign-IsSorted : (k v : Bytes) (m : Dict) → IsSorted m → IsSorted (assign k v m)
unfolding assign
assign-IsSorted k v [] s = (tt, tt)
assign-IsSorted k v ((j, w) ∷ m) (b, s) = by_order (order k j) refl (assign-IsSorted k v m s)
  where
    by_order :
        (o : Ordering)
        → order k j ≡ o
        → IsSorted (assign k v m)
        → IsSorted (assign k v ((j, w) ∷ m))
    by_order Ordering.lt e rest = rw (e, assign) ((e, IsBehind-trans k j m e b), (b, s))
    by_order Ordering.eq e rest = rw (e, assign) (b, s)
    by_order Ordering.gt e rest = rw (e, assign) (assign-IsBehind j k v m (order-gt k j e) b, rest)

if-IsSorted : (t : Bool) (m n : Dict) → IsSorted m → IsSorted n → IsSorted (if t then m else n)
if-IsSorted true m n s r = s
if-IsSorted false m n s r = r

erase-IsBehind : (i k : Bytes) (m : Dict) → IsBehind i m → IsBehind i (erase k m)
unfolding erase
erase-IsBehind i k [] b = tt
erase-IsBehind i k ((j, w) ∷ m) (first, others) = by_test (same j k) (erase-IsBehind i k m others)
  where
    by_test :
        (t : Bool)
        → IsBehind i (erase k m)
        → IsBehind i (if t then erase k m else (j, w) ∷ erase k m)
    by_test true rest = rest
    by_test false rest = (first, rest)

pub erase-IsSorted : (k : Bytes) (m : Dict) → IsSorted m → IsSorted (erase k m)
unfolding erase
erase-IsSorted k [] s = tt
erase-IsSorted k ((j, w) ∷ m) (b, s) =
    if-IsSorted (same j k) (erase k m) ((j, w) ∷ erase k m) (erase-IsSorted k m s)
      (erase-IsBehind j k m b, erase-IsSorted k m s)

pub insert_all-IsSorted : (kvs m : Dict) → IsSorted m → IsSorted (insert_all kvs m)
unfolding insert_all
insert_all-IsSorted [] m s = s
insert_all-IsSorted ((k, v) ∷ kvs) m s =
    insert_all-IsSorted kvs _ (if-IsSorted (has k m) m (assign k v m) s (assign-IsSorted k v m s))

same-lt : (k j : Bytes) → order k j ≡ Ordering.lt → same j k ≡ false
same-lt k j h = by_test (same j k) refl
  where
    by_test : (t : Bool) → same j k ≡ t → t ≡ false
    by_test false e = refl
    by_test true e =
        let here : j ≡ k = (same_iff j k).0 e in cc (sym h ∙ ap (order k) here ∙ order_self k)

-- What comes before all keys is not among them.
lookup-IsBehind : (k : Bytes) (m : Dict) → IsBehind k m → lookup k m ≡ none
unfolding lookup
lookup-IsBehind k [] b = refl
lookup-IsBehind k ((j, w) ∷ m) (first, others) = rw (same-lt k j first) (lookup-IsBehind k m others)

lookup_first : (k v : Bytes) (m : Dict) → lookup k ((k, v) ∷ m) ≡ some v
unfolding lookup
lookup_first k v m = rw (same_self k)

some_value : (v w : Bytes) → some v ≡ some w → v ≡ w
some_value v w e = cc e

lookup_later : (k x v : Bytes) (m : Dict) → same k x ≡ false → lookup x ((k, v) ∷ m) ≡ lookup x m
unfolding lookup
lookup_later k x v m e = rw e refl

-- Two maps that begin with the same key have the same entries behind it.
later_entries :
    (k v w : Bytes) (m n : Dict)
    → IsBehind k m
    → IsBehind k n
    → ((x : Bytes) → lookup x ((k, v) ∷ m) ≡ lookup x ((k, w) ∷ n))
    → (x : Bytes) → lookup x m ≡ lookup x n
later_entries k v w m n b b' h x = by_test (same k x) refl
  where
    by_test : (t : Bool) → same k x ≡ t → lookup x m ≡ lookup x n
    by_test false e = sym (lookup_later k x v m e) ∙ h x ∙ lookup_later k x w n e
    by_test true e =
        subst (λ y. lookup y m ≡ lookup y n) ((same_iff k x).0 e)
          (lookup-IsBehind k m b ∙ sym (lookup-IsBehind k n b'))

-- A key that comes before all keys of one map does not begin the other.
first_apart :
    {A : Type 0} (k v : Bytes) (m n : Dict) → IsBehind k n → lookup k ((k, v) ∷ m) ≡ lookup k n → A
first_apart k v m n b h = cc (sym (lookup_first k v m) ∙ h ∙ lookup-IsBehind k n b)

-- Maps in the order of their keys that have the same entries are the same.
pub same_entries :
    (m n : Dict) → IsSorted m → IsSorted n → ((x : Bytes) → lookup x m ≡ lookup x n) → m ≡ n
unfolding lookup
same_entries [] [] s r h = refl
same_entries [] ((j, w) ∷ n) s r h = cc (h j ∙ lookup_first j w n)
same_entries ((k, v) ∷ m) [] s r h = cc (sym (h k) ∙ lookup_first k v m)
same_entries ((k, v) ∷ m) ((j, w) ∷ n) (b, s) (b', r) h =
    by_order (order k j) refl (same_entries m n s r)
  where
    by_order :
        (o : Ordering)
        → order k j ≡ o
        → (((x : Bytes) → lookup x m ≡ lookup x n) → m ≡ n)
        → (k, v) ∷ m ≡ (j, w) ∷ n
    by_order Ordering.lt e rest =
        first_apart k v m ((j, w) ∷ n) (e, IsBehind-trans k j n e b') (h k)
    by_order Ordering.gt e rest =
        let back = order-gt k j e in
        first_apart j w n ((k, v) ∷ m) (back, IsBehind-trans j k m back b) (sym (h j))
    by_order Ordering.eq e rest =
        let at = order-eq k j e in
        let h' =
          subst (λ i. (x : Bytes) → lookup x ((k, v) ∷ m) ≡ lookup x ((i, w) ∷ n)) (sym at) h in
        let value : v ≡ w = some_value v w (sym (lookup_first k v m) ∙ h' k ∙ lookup_first k w n) in
        let tail = rest (later_entries k v w m n b (subst (λ i. IsBehind i n) (sym at) b') h') in
        λ i. (at i, value i) ∷ tail i
