-- ===== src/Buffered/Listeners.antt =====
-- `add_listener`, `remove_listener` and the calls of the listeners. `std::remove` moves the pointers
-- that stay to the front; a pointer that was moved from is null, and nothing is erased.
use libcoda_net.Base.{
  ℕ, zero, suc, Bool, true, false, Option, none, some, List, [], ◌∷◌, ◌++◌, map, ◌≡◌, ◌≢◌, refl,
  arith, ◌==◌, if◌then◌else◌, All, All-append, length, Bool-cases, inl, inr,
}
use libcoda_net.Socket.{is_some}
use libcoda_net.Buffered.{Buffered, Hook, Call, call_all, notify}

-- Two pointers are the same.
abbrev pub same_pointer : Option ℕ → Option ℕ → Bool
same_pointer none none = true
same_pointer none (some k) = false
same_pointer (some l) none = false
same_pointer (some l) (some k) = l == k

unfoldable pub find : Option ℕ → List (Option ℕ) → Bool
find l [] = false
find l (k ∷ ks) = if same_pointer k l then true else find l ks

unfoldable pub add_listener : Option ℕ → Buffered → Buffered
unfolding find
add_listener none b = b
add_listener (some l) b =
    if find (some l) b.listeners then b else record b { listeners = b.listeners ++ (some l ∷ []) }

-- The pointers that `std::remove` keeps, in order.
unfoldable pub kept : Option ℕ → List (Option ℕ) → List (Option ℕ)
kept l [] = []
kept l (k ∷ ks) = if same_pointer k l then kept l ks else k ∷ kept l ks

-- What is left in the places that it has gone over: a kept pointer was moved to the front.
abbrev pub vacated : Option ℕ → Option ℕ → Option ℕ
vacated l k = if same_pointer k l then k else none

unfoldable pub drop_first {ℓ} : {A : Type ℓ} → ℕ → List A → List A
drop_first zero xs = xs
drop_first (suc n) [] = []
drop_first (suc n) (x ∷ xs) = drop_first n xs

unfoldable pub remove : Option ℕ → List (Option ℕ) → List (Option ℕ)
unfolding kept drop_first
remove l ks = kept l ks ++ drop_first (length (kept l ks)) (map (vacated l) ks)

unfoldable pub remove_listener : Option ℕ → Buffered → Buffered
unfolding remove
remove_listener none b = b
remove_listener (some l) b = record b { listeners = remove (some l) b.listeners }

-- No pointer is null.
abbrev pub NoNull : List (Option ℕ) → Type 0
NoNull = All (λ l. is_some l ≡ true)

abbrev pub Distinct : List (Option ℕ) → Type 0
Distinct [] = Unit {0}
Distinct (l ∷ ls) = (find l ls ≡ false) × Distinct ls

abbrev pub told : Hook → List (Option ℕ) → List Call
told h = map (λ l. (l, h))

call_all-NoNull : (h : Hook) (ls : List (Option ℕ)) → NoNull ls → call_all h ls ≡ some (told h ls)
unfolding call_all
call_all-NoNull h [] n = refl
call_all-NoNull h (none ∷ ls) n = cc (n.0)
call_all-NoNull h (some l ∷ ls) n = rw (call_all-NoNull h ls n.1)

pub notify-NoNull :
    (h : Hook) (b : Buffered)
    → NoNull b.listeners
    → notify h b ≡ some (record b { calls = b.calls ++ ((none, h) ∷ told h b.listeners) })
unfolding notify
notify-NoNull h b n = rw (call_all-NoNull h b.listeners n, notify)

find-append-ne :
    (l k : Option ℕ) (ls : List (Option ℕ))
    → find l ls ≡ false
    → same_pointer k l ≡ false
    → find l (ls ++ (k ∷ [])) ≡ false
unfolding find
find-append-ne l k [] h e = rw e
find-append-ne l k (x ∷ ls) h e = ground (arith, find-append-ne l k ls)

same_pointer_comm : (l k : Option ℕ) → same_pointer l k ≡ same_pointer k l
same_pointer_comm none none = refl
same_pointer_comm none (some k) = refl
same_pointer_comm (some l) none = refl
same_pointer_comm (some l) (some k) = ground arith

pub same_pointer_self : (l : ℕ) → same_pointer (some l) (some l) ≡ true
same_pointer_self l = ground arith

find-append_self : (l : ℕ) (ls : List (Option ℕ)) → find (some l) (ls ++ (some l ∷ [])) ≡ true
unfolding find
find-append_self l [] = rw (same_pointer_self l)
find-append_self l (x ∷ ls) = ground (arith, find-append_self l ls)

Distinct-append :
    (l : ℕ) (ls : List (Option ℕ))
    → Distinct ls
    → find (some l) ls ≡ false
    → Distinct (ls ++ (some l ∷ []))
unfolding find
Distinct-append l [] d h = (refl, tt)
Distinct-append l (x ∷ ls) d h = (
  find-append-ne x (some l) ls d.0 (ground (arith, same_pointer_comm x (some l))),
  Distinct-append l ls d.1 (ground arith),
)

-- Adding a listener keeps the list free of null pointers and of repetitions, and leaves the listener
-- in it, unless it is null; one that is there already is not added again.
pub add_listener-Distinct :
    (l : Option ℕ) (b : Buffered)
    → NoNull b.listeners
    → Distinct b.listeners
    → NoNull (add_listener l b).listeners
      × Distinct (add_listener l b).listeners
      × ((l ≢ none) → find l (add_listener l b).listeners ≡ true)
      × (find l b.listeners ≡ true → add_listener l b ≡ b)
unfolding add_listener
add_listener-Distinct none b n d = (n, d, λ e. absurd (e refl), λ e. refl)
add_listener-Distinct (some l) b n d = elim (Bool-cases (find (some l) b.listeners)) [
  | inl here ↦ rw here (n, d, λ e. here, λ e. refl)
  | inr away ↦ rw away (
    All-append _ b.listeners (some l ∷ []) n (refl, tt),
    Distinct-append l b.listeners d away,
    λ e. find-append_self l b.listeners,
    λ e. cc,
  )
]
