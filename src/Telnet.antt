-- ===== src/Telnet.antt =====
-- telnet/socket.cpp and telnet/protocol.h: the telnet filter that `socket::recv` runs over each
-- chunk. An iterator into the buffer is a `Cursor`; the virtual handlers `on_telopt` and
-- `on_sub_neg` are the events that they are called with.
pub mod Stream
pub mod Filter
pub mod Bounds
pub mod Delivery
mod Tests
use libcoda_net.Base.{
  ℕ, zero, suc, Bool, ◌||◌, Option, none, some, List, [], ◌∷◌, ◌++◌, ◌==◌, if◌then◌else◌, Bytes,
  length, before_first, from_first,
}

abbrev pub se : ℕ
se = 240

abbrev pub sb : ℕ
sb = 250

abbrev pub will : ℕ
will = 251

abbrev pub wont : ℕ
wont = 252

abbrev pub do_verb : ℕ
do_verb = 253

abbrev pub dont : ℕ
dont = 254

abbrev pub iac : ℕ
iac = 255

-- The buffer, split at an iterator.
pub record Cursor : Type 0 where
  pub before : Bytes
  pub after : Bytes

pub data Event : Type 0 where
  on_telopt : ℕ → ℕ → Event
  on_sub_neg : ℕ → Bytes → Event

-- `fault` is the exception of a vector built from a range whose end lies before its start.
pub data Outcome {ℓ} (A : Type ℓ) : Type ℓ where
  done : A → Outcome A
  fault : Outcome A
  out_of_fuel : Outcome A

pub handle_telopt : Bytes → Bytes → Outcome (Cursor × List Event)
handle_telopt pre [] = done (record { before = pre; after = [] }, [])
handle_telopt pre (it ∷ []) = done (record { before = pre ++ (it ∷ []); after = [] }, [])
handle_telopt pre (it ∷ pos ∷ rest) =
    done (record { before = pre; after = rest }, on_telopt it pos ∷ [])

-- The range `[it + 2, pos)` where `pos` is the first IAC at or after `it + 1`: with `[it + 1, pos)`
-- empty it is malformed.
sub_neg_params : Bytes → Option Bytes
sub_neg_params [] = none
sub_neg_params (kind ∷ params) = some params

-- The last tests, and the call: `pos` is the iterator's suffix.
sub_neg_close : Bytes → ℕ → ℕ → Bytes → Bytes → Outcome (Cursor × List Event)
sub_neg_close pre it kind rest [] = done (record { before = pre; after = it ∷ kind ∷ rest }, [])
sub_neg_close pre it kind rest (x ∷ []) =
    done (record { before = pre; after = it ∷ kind ∷ rest }, [])
sub_neg_close pre it kind rest (x ∷ y ∷ tail) =
    if y == se
    then elim (sub_neg_params (before_first iac (kind ∷ rest))) [
      | some params ↦ done (record { before = pre; after = tail }, on_sub_neg kind params ∷ [])
      | none ↦ fault
    ]
    else done (record { before = pre; after = it ∷ kind ∷ rest }, [])

pub handle_sub_neg : Bytes → Bytes → Outcome (Cursor × List Event)
unfolding sub_neg_close sub_neg_params
handle_sub_neg pre [] = done (record { before = pre; after = [] }, [])
handle_sub_neg pre (it ∷ []) = done (record { before = pre; after = it ∷ [] }, [])
handle_sub_neg pre (it ∷ kind ∷ rest) =
    sub_neg_close pre it kind rest (from_first iac (kind ∷ rest))

abbrev pub is_verb : ℕ → Bool
is_verb c = c == will || c == wont || c == do_verb || c == dont

-- The `switch` on the byte behind an erased IAC. Where no case matches, `pos` stays at that byte.
pub dispatch : Bytes → ℕ → Bytes → Outcome (Cursor × List Event)
unfolding handle_telopt handle_sub_neg
dispatch pre next rest =
    if next == iac
    then done (record { before = pre; after = rest }, [])
    else if is_verb next
    then handle_telopt pre (next ∷ rest)
    else if next == sb
    then handle_sub_neg pre (next ∷ rest)
    else done (record { before = pre; after = next ∷ rest }, [])

-- The `while` loop, entered with the iterator on an IAC or at the end.
pub recv_loop : ℕ → Bytes → Bytes → List Event → Outcome (Bytes × List Event)
unfolding dispatch
recv_loop fuel pre [] events = done (pre, events)
recv_loop fuel pre (pos ∷ []) events = done (pre ++ (pos ∷ []), events)
recv_loop zero pre (pos ∷ next ∷ rest) events = out_of_fuel
recv_loop (suc fuel) pre (pos ∷ next ∷ rest) events = elim (dispatch pre next rest) [
  | done (c, called) ↦
      recv_loop fuel (c.before ++ before_first iac c.after) (from_first iac c.after)
        (events ++ called)
  | fault ↦ fault
  | out_of_fuel ↦ out_of_fuel
]

-- Each round erases a byte, so the length of the buffer is enough fuel.
unfoldable pub on_recv : Bytes → Outcome (Bytes × List Event)
unfolding recv_loop before_first from_first
on_recv s = recv_loop (length s) (before_first iac s) (from_first iac s) []

-- The packet of `send_telopt`; the assertion on `action` is a hypothesis of the theorems.
unfoldable pub send_telopt : ℕ → ℕ → Bytes
send_telopt action option_value = iac ∷ action ∷ option_value ∷ []
