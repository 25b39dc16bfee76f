-- ===== src/Buffered/Removal.antt =====
-- `remove_listener` on a list of distinct pointers, in closed form.
use libcoda_net.Base.{
  is_empty, ℕ, false, Option, none, some, List, [], ◌∷◌, ◌++◌, append-nil, map, ◌≡◌, ◌∙◌, refl, sym,
  ap, arith, if◌then◌else◌, length, Bool-cases, inl, inr,
}
use libcoda_net.Buffered.{Buffered, Hook, call_all, notify}
use libcoda_net.Buffered.Listeners.{
  same_pointer, find, kept, vacated, drop_first, remove, remove_listener, same_pointer_self,
}

call_all_null : (h : Hook) (xs ys : List (Option ℕ)) → call_all h (xs ++ (none ∷ ys)) ≡ none
unfolding call_all
call_all_null h [] ys = refl
call_all_null h (none ∷ xs) ys = refl
call_all_null h (some l ∷ xs) ys = rw (call_all_null h xs ys)

kept-miss : (l : Option ℕ) (ls : List (Option ℕ)) → find l ls ≡ false → kept l ls ≡ ls
unfolding find kept
kept-miss l [] h = refl
kept-miss l (x ∷ ls) h = ground (arith, kept-miss l ls)

kept-append : (l : Option ℕ) (xs ys : List (Option ℕ)) → kept l (xs ++ ys) ≡ kept l xs ++ kept l ys
unfolding kept
kept-append l [] ys = refl
kept-append l (x ∷ xs) ys = ground (arith, kept-append l xs ys)

drop_first-append :
    (f : Option ℕ → Option ℕ) (xs ys zs : List (Option ℕ))
    → drop_first (length (xs ++ ys)) (map f (xs ++ zs)) ≡ drop_first (length ys) (map f zs)
unfolding drop_first
drop_first-append f [] ys zs = refl
drop_first-append f (x ∷ xs) ys zs = drop_first-append f xs ys zs

drop_first-null :
    (l : Option ℕ) (ls : List (Option ℕ))
    → find l ls ≡ false
    → drop_first (length ls) (none ∷ map (vacated l) ls) ≡ none ∷ []
unfolding drop_first find
drop_first-null l [] h = refl
drop_first-null l (x ∷ ls) h = elim (Bool-cases (same_pointer x l)) [
  | inl hit ↦ cc (rw hit at h)
  | inr miss ↦ rw miss (drop_first-null l ls (rw miss at h))
]

drop_first-vacated :
    (l x : Option ℕ) (ls : List (Option ℕ))
    → find l (x ∷ ls) ≡ false
    → drop_first (length ls) (map (vacated l) (x ∷ ls)) ≡ none ∷ []
unfolding find
drop_first-vacated l x ls h = elim (Bool-cases (same_pointer x l)) [
  | inl hit ↦ cc (rw hit at h)
  | inr miss ↦ rw miss (drop_first-null l ls (rw miss at h))
]

kept-hit :
    (l : ℕ) (before after : List (Option ℕ))
    → find (some l) before ≡ false
    → find (some l) after ≡ false
    → kept (some l) (before ++ (some l ∷ after)) ≡ before ++ after
kept-hit l before after hb ha =
    kept-append (some l) before (some l ∷ after)
    ∙ rw (kept-miss (some l) before hb)
        (unfold kept in rw (same_pointer_self l, kept) (rw (kept-miss (some l) after ha)))

remove-hit :
    (l : ℕ) (before after : List (Option ℕ))
    → find (some l) before ≡ false
    → find (some l) after ≡ false
    → remove (some l) (before ++ (some l ∷ after))
      ≡ (before ++ after) ++ drop_first (length after) (some l ∷ map (vacated (some l)) after)
unfolding remove
remove-hit l before after hb ha =
    rw
      (
        kept-hit l before after hb ha,
        drop_first-append (vacated (some l)) before after (some l ∷ after),
      )
      (rw (same_pointer_self l))

-- Removing a listener that is in a list of distinct pointers leaves as many pointers as there were:
-- the others, in order, and behind them the listener itself, if it was the last, and else a null
-- pointer, which the next notification calls.
pub remove_listener_stays :
    (l : ℕ) (before after : List (Option ℕ)) (b : Buffered) (h : Hook)
    → b.listeners ≡ before ++ (some l ∷ after)
    → find (some l) before ≡ false
    → find (some l) after ≡ false
    → ((remove_listener (some l) b).listeners
        ≡ (before ++ after) ++ ((if is_empty after then some l else none) ∷ []))
      × (notify h (remove_listener (some l) b) ≡ (if is_empty after then notify h b else none))
unfolding remove_listener
remove_listener_stays l before [] b h e hb ha = (
  removed ∙ ap (λ ls. ls ++ (some l ∷ [])) (sym (append-nil before)),
  ap (λ ls. notify h (record b { listeners = ls })) (removed ∙ sym e),
)
  where
    removed : remove (some l) b.listeners ≡ before ++ (some l ∷ [])
    removed = rw e (rw (remove-hit l before [] hb ha) (unfold drop_first in rw (append-nil before)))
remove_listener_stays l before (x ∷ after) b h e hb ha = (removed, nulled)
  where
    removed : remove (some l) b.listeners ≡ (before ++ (x ∷ after)) ++ (none ∷ [])
    removed = rw e (
        rw (remove-hit l before (x ∷ after) hb ha) (
          unfold drop_first in
          ap (◌++◌ (before ++ (x ∷ after))) (drop_first-vacated (some l) x after ha)))

    nulled : notify h (record b { listeners = remove (some l) b.listeners }) ≡ none
    nulled = rw removed (unfold notify in rw (call_all_null h (before ++ (x ∷ after)) [], notify))
