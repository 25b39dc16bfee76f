-- ===== src/Server/Fairness.antt =====
-- What the poller on `select` does with its sets from one poll to the next.
use libcoda_net.Base.{
  ◌∙◌, if◌then◌else◌, not, sym, ℕ, ◌+◌, Bool, true, false, Option, none, some, List, [], ◌∷◌, ◌≡◌,
  refl, arith, Bool-cases, inl, inr, ◌⊎◌,
}
use libcoda_net.Server.{Connection, FdSet, is_set, clear}
use libcoda_net.Server.Select.{
  polls, poll, Poller, Selected, ready, interrupted, select_error, after_select, transfer,
  keep_entry, clear_entry, iterate_connections, serve_all, after_answer, after_selected, poll,
}

-- Every member of the first set is one of the second.
abbrev pub IsSubset : FdSet → FdSet → Type 0
IsSubset s t = (fd : ℕ) → is_set fd s ≡ true → is_set fd t ≡ true

unfoldable pub descriptors : {C : Type 0} → List (ℕ × C) → FdSet
descriptors [] = []
descriptors ((fd, c) ∷ cs) = fd ∷ descriptors cs

-- The sets behind a call of `select`.
unfoldable pub in_of : Selected → FdSet → FdSet
in_of (ready ins outs) asked = ins
in_of interrupted asked = asked
in_of select_error asked = asked

-- As documented, `select` reports only descriptors that it was asked for.
abbrev pub IsSelect : (ℕ → FdSet → FdSet → Selected) → Type 0
IsSelect select = (limit : ℕ) (ins outs : FdSet) → IsSubset (in_of (select limit ins outs) ins) ins

pub clear-IsSubset : (x : ℕ) (s : FdSet) → IsSubset (clear x s) s
unfolding clear is_set
clear-IsSubset x [] fd h = h
clear-IsSubset x (y ∷ s) fd h = (let ih = clear-IsSubset x s fd in ground arith)

pub clear_entry-IsSubset :
    (T : Connection) (fd : ℕ) (served : Bool × T.Conn) (s : FdSet)
    → IsSubset (clear_entry T fd served s) s
unfolding clear_entry
clear_entry-IsSubset T fd (true, c) s = clear-IsSubset fd s
clear_entry-IsSubset T fd (false, c) s = λ x h. h

keep_entry-IsSubset :
    (T : Connection) (fd : ℕ) (c : T.Conn) (served : Bool × T.Conn) (cs cs' : List (ℕ × T.Conn))
    → IsSubset (descriptors cs') (descriptors cs)
    → IsSubset (descriptors (keep_entry T fd served cs')) (descriptors ((fd, c) ∷ cs))
unfolding keep_entry descriptors is_set
keep_entry-IsSubset T fd c (true, c') cs cs' f = λ x h. (let g = f x in ground arith)
keep_entry-IsSubset T fd c (false, c') cs cs' f = λ x h. (let g = f x in ground arith)

-- The loop over the connections adds none and sets no descriptor.
iterate_connections-IsSubset :
    (T : Connection) (cs : List (ℕ × T.Conn)) (ins outs : FdSet)
    → IsSubset (descriptors (iterate_connections T cs ins outs).0) (descriptors cs)
      × IsSubset (iterate_connections T cs ins outs).1 ins
unfolding iterate_connections
iterate_connections-IsSubset T [] ins outs = (λ x h. h, λ x h. h)
iterate_connections-IsSubset T ((fd, c) ∷ cs) ins outs =
    let served = transfer T ins outs c in
    let (f, g) =
      iterate_connections-IsSubset T cs (clear_entry T fd served ins)
        (clear_entry T fd served outs) in
    (
      keep_entry-IsSubset T fd c served cs _ f,
      λ x h. clear_entry-IsSubset T fd served ins x (g x h),
    )

-- What holds between a poller that misses its listening descriptor and the outcome of polls.
Starved : {C : Type 0} → Poller C → Option (Poller C) → Type 0
Starved p none = true ≡ true
Starved p (some q) =
    (is_set q.listening q.in_set ≡ false) × IsSubset (descriptors q.sockets) (descriptors p.sockets)

not-IsSubset : (s t : FdSet) (fd : ℕ) → IsSubset s t → is_set fd t ≡ false → is_set fd s ≡ false
not-IsSubset s t fd f h =
    (let g = f fd in elim (Bool-cases (is_set fd s)) [ inl e ↦ grind arith | inr e ↦ e ])

after_answer-Starved :
    (T : Connection) (accepted : Option (ℕ × T.Conn)) (p : Poller T.Conn)
    → is_set p.listening p.in_set ≡ false
    → Starved p (some (after_answer T accepted p))
unfolding after_answer serve_all Starved
after_answer-Starved T accepted p h =
    let (f, g) = iterate_connections-IsSubset T p.sockets p.in_set p.out_set in
    rw h (not-IsSubset _ _ p.listening g h, f)

after_selected-Starved :
    (T : Connection) (accepted : Option (ℕ × T.Conn)) (answer : Selected) (p : Poller T.Conn)
    → is_set p.listening (in_of answer p.in_set) ≡ false
    → Starved p (after_selected T accepted (after_select answer p))
unfolding after_selected after_select Starved in_of
after_selected-Starved T accepted (ready ins outs) p h =
    after_answer-Starved T accepted (record p { in_set = ins; out_set = outs }) h
after_selected-Starved T accepted interrupted p h = after_answer-Starved T accepted p h
after_selected-Starved T accepted select_error p h = refl

if-Starved :
    {C : Type 0} (valid : Bool) (p : Poller C) (o : Option (Poller C))
    → Starved p o
    → (valid ≡ false → Starved p (some p))
    → Starved p (if not valid then some p else o)
if-Starved true p o f g = f
if-Starved false p o f g = g refl

poll-Starved :
    (T : Connection) (select : ℕ → FdSet → FdSet → Selected) (accepted : Option (ℕ × T.Conn))
    (p : Poller T.Conn)
    → is_set p.listening (in_of (select (1 + p.max_desc) p.in_set p.out_set) p.in_set) ≡ false
    → (is_set p.listening p.in_set ≡ false) ⊎ (p.valid ≡ true)
    → Starved p (poll T select accepted p)
unfolding poll Starved
poll-Starved T select accepted p h v =
    if-Starved p.valid p _
      (after_selected-Starved T accepted (select (1 + p.max_desc) p.in_set p.out_set) p h)
      (λ e. elim v [ inl m ↦ (m, λ x y. y) | inr w ↦ cc (sym w ∙ e) ])

Starved-trans :
    {C : Type 0} (p q : Poller C) (o : Option (Poller C))
    → Starved p (some q)
    → Starved q o
    → Starved p o
unfolding Starved
Starved-trans p q none h g = g
Starved-trans p q (some r) (m, f) (n, g) = (n, λ x y. f x (g x y))

polls-Starved :
    (T : Connection) (select : ℕ → ℕ → FdSet → FdSet → Selected) (time : ℕ)
    (accepts : List (Option (ℕ × T.Conn))) (p : Poller T.Conn) (o : Option (Poller T.Conn))
    → ((t : ℕ) → IsSelect (select t))
    → Starved p o
    → Starved p (polls T select time accepts o)
unfolding polls Starved
polls-Starved T select time [] p o k h = h
polls-Starved T select time (accepted ∷ rest) p none k h = h
polls-Starved T select time (accepted ∷ rest) p (some q) k h =
    let quiet =
      not-IsSubset (in_of (select time (1 + q.max_desc) q.in_set q.out_set) q.in_set) q.in_set
        q.listening (k time (1 + q.max_desc) q.in_set q.out_set) h.0 in
    polls-Starved T select (1 + time) rest p (poll T (select time) accepted q) k
      (Starved-trans p q _ h (poll-Starved T (select time) accepted q quiet (inl h.0)))

polls_starve_all :
    (T : Connection) (select : ℕ → ℕ → FdSet → FdSet → Selected) (accepted : Option (ℕ × T.Conn))
    (rest : List (Option (ℕ × T.Conn))) (p : Poller T.Conn)
    → ((t : ℕ) → IsSelect (select t))
    → p.valid ≡ true
    → is_set p.listening (in_of (select 0 (1 + p.max_desc) p.in_set p.out_set) p.in_set) ≡ false
    → Starved p (polls T select 0 (accepted ∷ rest) (some p))
unfolding polls
polls_starve_all T select accepted rest p k v h =
    polls-Starved T select 1 rest p (poll T (select 0) accepted p) k
      (poll-Starved T (select 0) accepted p h (inr v))

of_some :
    {C : Type 0} (p q : Poller C) (o : Option (Poller C))
    → Starved p o
    → o ≡ some q
    → Starved p (some q)
of_some p q o h e = rw⁻¹ e h

-- If the answer of `select` in one poll of a valid server leaves out the listening descriptor, then
-- that poll and all later ones accept nothing, whatever they are answered: a connection that is there
-- at their end was there before.
pub polls_starve :
    (T : Connection) (select : ℕ → ℕ → FdSet → FdSet → Selected) (accepted : Option (ℕ × T.Conn))
    (rest : List (Option (ℕ × T.Conn))) (p q : Poller T.Conn) (fd : ℕ)
    → ((t : ℕ) → IsSelect (select t))
    → p.valid ≡ true
    → is_set p.listening (in_of (select 0 (1 + p.max_desc) p.in_set p.out_set) p.in_set) ≡ false
    → polls T select 0 (accepted ∷ rest) (some p) ≡ some q
    → is_set fd (descriptors q.sockets) ≡ true
    → is_set fd (descriptors p.sockets) ≡ true
unfolding Starved
polls_starve T select accepted rest p q fd k v h e m =
    (of_some p q _ (polls_starve_all T select accepted rest p k v h) e).1 fd m
