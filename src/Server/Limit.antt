-- ===== src/Server/Limit.antt =====
-- The limit that the poller gives `select`.
use libcoda_net.Base.{
  ℕ, ◌+◌, ◌≤◌, Bool, true, false, not, Option, none, some, List, [], ◌∷◌, ltb, if◌then◌else◌, ◌≡◌,
  refl, arith, inl, inr, ◌⊎◌,
}
use libcoda_net.Server.{Connection, FdSet, is_set}
use libcoda_net.Server.Select.{
  Poller, Selected, ready, interrupted, select_error, after_select, transfer, clear_entry,
  iterate_connections, accept_new, serve_all, after_answer, after_selected, poll, polls, listen,
}
use libcoda_net.Server.Fairness.{IsSubset, IsSelect, in_of, clear_entry-IsSubset}

-- No member of the set is above the limit.
abbrev pub IsBelow : ℕ → FdSet → Type 0
IsBelow n s = (fd : ℕ) → is_set fd s ≡ true → fd ≤ n

unfoldable pub out_of : Selected → FdSet → FdSet
out_of (ready ins outs) asked = outs
out_of interrupted asked = asked
out_of select_error asked = asked

-- The documented behaviour of `select` for the set to write to.
abbrev pub IsSelectOut : (ℕ → FdSet → FdSet → Selected) → Type 0
IsSelectOut select =
    (limit : ℕ) (ins outs : FdSet) → IsSubset (out_of (select limit ins outs) outs) outs

module _ {C : Type 0} where
  Limited : Poller C → Type 0
  Limited p = IsBelow p.max_desc p.in_set × IsBelow p.max_desc p.out_set

  LimitedAfter : Option (Poller C) → Type 0
  LimitedAfter none = true ≡ true
  LimitedAfter (some p) = Limited p

IsBelow-cons : (n fd m : ℕ) (s : FdSet) → IsBelow n s → n ≤ m → fd ≤ m → IsBelow m (fd ∷ s)
unfolding is_set
IsBelow-cons n fd m s f le le' = λ x h. (let g = f x in ground arith)

pub iterate_connections-sets :
    (T : Connection) (cs : List (ℕ × T.Conn)) (ins outs : FdSet)
    → IsSubset (iterate_connections T cs ins outs).1 ins
      × IsSubset (iterate_connections T cs ins outs).2 outs
unfolding iterate_connections
iterate_connections-sets T [] ins outs = (λ x h. h, λ x h. h)
iterate_connections-sets T ((fd, c) ∷ cs) ins outs =
    let served = transfer T ins outs c in
    let (f, g) =
      iterate_connections-sets T cs (clear_entry T fd served ins) (clear_entry T fd served outs) in
    (
      λ x h. clear_entry-IsSubset T fd served ins x (f x h),
      λ x h. clear_entry-IsSubset T fd served outs x (g x h),
    )

serve_all-Limited : (T : Connection) (p : Poller T.Conn) → Limited p → Limited (serve_all T p)
unfolding serve_all Limited
serve_all-Limited T p (a, b) =
    let (f, g) = iterate_connections-sets T p.sockets p.in_set p.out_set in
    (λ x h. a x (f x h), λ x h. b x (g x h))

accept_new-Limited :
    (T : Connection) (accepted : Option (ℕ × T.Conn)) (p : Poller T.Conn)
    → Limited p
    → Limited (accept_new T accepted p)
unfolding accept_new Limited
accept_new-Limited T none p l = l
accept_new-Limited T (some (fd, c)) p (a, b) =
    let limit = if ltb p.max_desc fd then fd else p.max_desc in
    (
      IsBelow-cons p.max_desc fd limit p.in_set a (ground arith) (ground arith),
      IsBelow-cons p.max_desc fd limit p.out_set b (ground arith) (ground arith),
    )

if-Limited :
    {C : Type 0} (test : Bool) (p q : Poller C)
    → Limited p
    → Limited q
    → Limited (if test then p else q)
if-Limited true p q f g = f
if-Limited false p q f g = g

after_answer-Limited :
    (T : Connection) (accepted : Option (ℕ × T.Conn)) (p : Poller T.Conn)
    → Limited p
    → Limited (after_answer T accepted p)
unfolding after_answer
after_answer-Limited T accepted p l =
    serve_all-Limited T _
      (if-Limited (is_set p.listening p.in_set) _ p (accept_new-Limited T accepted p l) l)

after_selected-Limited :
    (T : Connection) (accepted : Option (ℕ × T.Conn)) (answer : Selected) (p : Poller T.Conn)
    → IsSubset (in_of answer p.in_set) p.in_set
    → IsSubset (out_of answer p.out_set) p.out_set
    → Limited p
    → LimitedAfter (after_selected T accepted (after_select answer p))
unfolding after_selected after_select LimitedAfter Limited in_of out_of
after_selected-Limited T accepted (ready ins outs) p f g (a, b) =
    after_answer-Limited T accepted (record p { in_set = ins; out_set = outs })
      (λ x h. a x (f x h), λ x h. b x (g x h))
after_selected-Limited T accepted interrupted p f g l = after_answer-Limited T accepted p l
after_selected-Limited T accepted select_error p f g l = refl

if-LimitedAfter :
    {C : Type 0} (test : Bool) (o q : Option (Poller C))
    → LimitedAfter o
    → LimitedAfter q
    → LimitedAfter (if test then o else q)
if-LimitedAfter true o q f g = f
if-LimitedAfter false o q f g = g

polls-Limited :
    (T : Connection) (select : ℕ → ℕ → FdSet → FdSet → Selected) (time : ℕ)
    (accepts : List (Option (ℕ × T.Conn))) (o : Option (Poller T.Conn))
    → ((t : ℕ) → IsSelect (select t))
    → ((t : ℕ) → IsSelectOut (select t))
    → LimitedAfter o
    → LimitedAfter (polls T select time accepts o)
unfolding polls poll LimitedAfter
polls-Limited T select time [] o k w l = l
polls-Limited T select time (accepted ∷ rest) none k w l = l
polls-Limited T select time (accepted ∷ rest) (some p) k w l =
    let limit = 1 + p.max_desc in
    let after =
      after_selected-Limited T accepted (select time limit p.in_set p.out_set) p
        (k time limit p.in_set p.out_set) (w time limit p.in_set p.out_set) l in
    polls-Limited T select (1 + time) rest _ k w (if-LimitedAfter (not p.valid) (some p) _ l after)

listen-Limited : {C : Type 0} (p : Poller C) → p.in_set ≡ [] → p.out_set ≡ [] → Limited (listen p)
unfolding listen Limited is_set
listen-Limited p i o = rw (i, o) (λ x h. (ground arith), λ x h. (grind arith))

of_some :
    {C : Type 0} (q : Poller C) (o : Option (Poller C))
    → LimitedAfter o
    → o ≡ some q
    → LimitedAfter (some q)
of_some q o l e = rw⁻¹ e l

-- From a poller with empty sets that starts to listen, however often it polls and whatever is
-- answered, the limit that it gives `select` is above every descriptor of both of its sets.
pub polls_limit :
    (T : Connection) (select : ℕ → ℕ → FdSet → FdSet → Selected)
    (accepts : List (Option (ℕ × T.Conn))) (p q : Poller T.Conn) (fd : ℕ)
    → ((t : ℕ) → IsSelect (select t))
    → ((t : ℕ) → IsSelectOut (select t))
    → p.in_set ≡ []
    → p.out_set ≡ []
    → polls T select 0 accepts (some (listen p)) ≡ some q
    → (is_set fd q.in_set ≡ true) ⊎ (is_set fd q.out_set ≡ true)
    → fd ≤ q.max_desc
unfolding Limited LimitedAfter
polls_limit T select accepts p q fd k w i o e m =
    let (a, b) =
      of_some q _ (polls-Limited T select 0 accepts (some (listen p)) k w (listen-Limited p i o))
        e in
    elim m [ inl x ↦ a fd x | inr y ↦ b fd y ]
