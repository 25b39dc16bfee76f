-- ===== src/Telnet/Bounds.antt =====
-- `telnet_socket::on_recv` ends on every buffer, and what it leaves is bounded.
use libcoda_net.Base.{
  ℕ, zero, suc, ◌+◌, ◌*◌, ◌≤◌, List, [], ◌∷◌, ◌++◌, ap, arith, Bytes, length, length-append,
  before_first, from_first, before-append-from, length-from_first-le,
}
use libcoda_net.Telnet.{
  Cursor, iac, Event, Outcome, done, fault, out_of_fuel, dispatch, handle_telopt, handle_sub_neg,
  sub_neg_close, recv_loop, on_recv,
}

-- Every handler call is paid for by three bytes, and the iterator has come nearer to the end.
abbrev Shrinks : Bytes → Bytes → Outcome (Cursor × List Event) → Type 0
Shrinks pre s (done (c, called)) =
    (length c.before + length c.after + 3 * length called ≤ length pre + suc (length s))
    × (length c.after ≤ length s)
Shrinks pre s fault = Unit
Shrinks pre s out_of_fuel = ⊥

handle_telopt-Shrinks : (pre s : Bytes) → Shrinks pre s (handle_telopt pre s)
unfolding handle_telopt
handle_telopt-Shrinks pre [] = omega arith
handle_telopt-Shrinks pre (it ∷ []) = omega (arith, length-append {0} pre (it ∷ []))
handle_telopt-Shrinks pre (it ∷ pos ∷ rest) = omega arith

sub_neg_close-Shrinks :
    (pre rest s : Bytes) (it kind : ℕ)
    → length s ≤ suc (length rest)
    → Shrinks pre (it ∷ kind ∷ rest) (sub_neg_close pre it kind rest s)
unfolding sub_neg_close
sub_neg_close-Shrinks pre rest [] it kind h = omega arith
sub_neg_close-Shrinks pre rest (x ∷ []) it kind h = omega arith
sub_neg_close-Shrinks pre rest (x ∷ y ∷ tail) it kind h = ground arith

handle_sub_neg-Shrinks : (pre s : Bytes) → Shrinks pre s (handle_sub_neg pre s)
unfolding handle_sub_neg
handle_sub_neg-Shrinks pre [] = omega arith
handle_sub_neg-Shrinks pre (it ∷ []) = omega arith
handle_sub_neg-Shrinks pre (it ∷ kind ∷ rest) =
    sub_neg_close-Shrinks pre rest (from_first iac (kind ∷ rest)) it kind
      (length-from_first-le iac (kind ∷ rest))

dispatch-Shrinks :
    (pre rest : Bytes) (next : ℕ) → Shrinks pre (next ∷ rest) (dispatch pre next rest)
unfolding dispatch
dispatch-Shrinks pre rest next =
    ground
      (arith, handle_telopt-Shrinks pre (next ∷ rest), handle_sub_neg-Shrinks pre (next ∷ rest))

abbrev pub Within : ℕ → Outcome (Bytes × List Event) → Type 0
Within n (done (s, called)) = length s + 3 * length called ≤ n
Within n fault = Unit
Within n out_of_fuel = ⊥

recv_loop-Within :
    (fuel n : ℕ) (pre s : Bytes) (called : List Event)
    → length s ≤ suc fuel
    → length pre + length s + 3 * length called ≤ n
    → Within n (recv_loop fuel pre s called)
unfolding recv_loop
recv_loop-Within fuel n pre [] called l h = omega arith
recv_loop-Within fuel n pre (pos ∷ []) called l h = omega (arith, length-append {0} pre (pos ∷ []))
recv_loop-Within zero n pre (pos ∷ next ∷ rest) called l h = absurd (omega arith)
recv_loop-Within (suc fuel) n pre (pos ∷ next ∷ rest) called l h =
    round (dispatch pre next rest) (dispatch-Shrinks pre rest next) (recv_loop-Within fuel n)
  where
    round :
        (o : Outcome (Cursor × List Event))
        → Shrinks pre (next ∷ rest) o
        → ((p s : Bytes) (calls : List Event)
            → length s ≤ suc fuel
            → length p + length s + 3 * length calls ≤ n
            → Within n (recv_loop fuel p s calls))
        → Within n (elim o [
          | done (c, more) ↦
              recv_loop fuel
                (c.before ++ before_first iac c.after)
                (from_first iac c.after)
                (called ++ more)
          | fault ↦ fault
          | out_of_fuel ↦ out_of_fuel
        ])
    round (done (c, more)) k ih =
        ih (c.before ++ before_first iac c.after) (from_first iac c.after) (called ++ more)
          (omega (arith, length-from_first-le iac c.after))
          (omega (
            arith,
            length-append {0} c.before (before_first iac c.after),
            length-append {0} called more,
            length-append {0} (before_first iac c.after) (from_first iac c.after),
            ap length (before-append-from iac c.after),
          ))
    round fault k ih = tt
    round out_of_fuel k ih = k

-- On every buffer the filter ends, by itself or by the fault: it never runs out of fuel, and what
-- it leaves in the buffer, with three bytes for each handler call, is no longer than what came.
pub on_recv-Within : (s : Bytes) → Within (length s) (on_recv s)
unfolding on_recv
on_recv-Within s =
    recv_loop-Within (length s) (length s) (before_first iac s) (from_first iac s) []
      (omega (arith, length-from_first-le iac s))
      (omega (
        arith,
        length-append {0} (before_first iac s) (from_first iac s),
        ap length (before-append-from iac s),
      ))
