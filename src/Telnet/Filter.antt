-- ===== src/Telnet/Filter.antt =====
-- The behaviour of `telnet_socket::on_recv` on whole streams, on cut streams, and against the
-- packets of `send_telopt`.
use libcoda_net.Base.{
  zero, suc, List, [], ◌∷◌, ◌++◌, append-nil, ◌≡◌, ◌≢◌, ◌∙◌, refl, arith, Bytes, All, length,
  before_first, from_first, true, ℕ, ◌≤◌,
}
use libcoda_net.Telnet.{
  iac, se, sb, is_verb, on_telopt, Event, done, fault, dispatch, recv_loop, on_recv, send_telopt,
}
use libcoda_net.Telnet.Stream.{
  Item, IsItem, option, encode, text, events, encode_all, text_all, events_all, scan, scan-item,
  scan-items,
}

on_recv-scan : (s : Bytes) → on_recv s ≡ scan (length s) [] s []
unfolding on_recv scan
on_recv-scan s = refl

scan-nil :
    (fuel : ℕ) (pre : Bytes) (called : List Event) → scan fuel pre [] called ≡ done (pre, called)
unfolding scan recv_loop before_first from_first
scan-nil zero pre called = rw (append-nil pre)
scan-nil (suc fuel) pre called = rw (append-nil pre)

scan-cut :
    (fuel : ℕ) (pre : Bytes) (called : List Event)
    → scan fuel pre (iac ∷ []) called ≡ done (pre ++ (iac ∷ []), called)
unfolding scan recv_loop before_first from_first
scan-cut zero pre called = rw (append-nil pre)
scan-cut (suc fuel) pre called = rw (append-nil pre)

-- A stream of whole pieces is filtered piece by piece: the buffer keeps the data bytes and the
-- second byte of every other command, in order, and each negotiation and each subnegotiation
-- reaches its handler once, in order, with the bytes that were sent. A doubled IAC leaves nothing.
pub on_recv-encode_all :
    (is : List Item)
    → All IsItem is
    → on_recv (encode_all is []) ≡ done (text_all is, events_all is)
on_recv-encode_all is h =
    let (left, e, _) = scan-items is (length (encode_all is [])) [] [] [] h (omega arith) in
    on_recv-scan (encode_all is []) ∙ e ∙ scan-nil left (text_all is) (events_all is)

-- A stream that is cut behind an IAC keeps that byte as data. The rest of the command, which
-- comes with the next chunk, is then data too: the two bytes of a negotiation reach the buffer
-- and no handler is called for them.
pub on_recv_cut :
    (is : List Item) (verb o : ℕ)
    → All IsItem is
    → is_verb verb ≡ true
    → o ≢ iac
    → (on_recv (encode_all is (iac ∷ [])) ≡ done (text_all is ++ (iac ∷ []), events_all is))
      × (on_recv (verb ∷ o ∷ []) ≡ done (verb ∷ o ∷ [], []))
on_recv_cut is verb o h v n = (
  let (left, e, _) =
        scan-items is (length (encode_all is (iac ∷ []))) [] (iac ∷ []) [] h (omega arith) in
      on_recv-scan (encode_all is (iac ∷ [])) ∙ e ∙ scan-cut left (text_all is) (events_all is),
  unfold on_recv recv_loop before_first from_first in ground arith,
)

-- The packet that `send_telopt` sends, behind a stream of whole pieces, adds exactly the call of
-- `on_telopt` with its action and option, and no data, when `action` is one that it accepts.
pub on_recv-send_telopt :
    (is : List Item) (action option_value : ℕ)
    → All IsItem is
    → is_verb action ≡ true
    → on_recv (encode_all is (send_telopt action option_value))
      ≡ done (text_all is, events_all is ++ (on_telopt action option_value ∷ []))
unfolding send_telopt encode text events
on_recv-send_telopt is action option_value h v =
    let packet = send_telopt action option_value in
    let (mid, e, enough) =
      scan-items is (length (encode_all is packet)) [] packet [] h (omega arith) in
    let (left, e', _) =
      scan-item (option action option_value) mid (text_all is) [] (events_all is) v enough in
    on_recv-scan (encode_all is packet) ∙ e ∙ e' ∙ scan-nil left _ _ ∙ rw (append-nil (text_all is))

scan_empty_sub_neg :
    (fuel : ℕ) (pre rest : Bytes) (called : List Event)
    → 4 ≤ fuel
    → scan fuel pre (iac ∷ sb ∷ iac ∷ se ∷ rest) called ≡ fault
unfolding scan recv_loop dispatch before_first from_first
scan_empty_sub_neg zero pre rest called h = absurd (omega arith)
scan_empty_sub_neg (suc fuel) pre rest called h = ground arith

-- A peer that sends a subnegotiation with neither an option nor parameters (IAC SB IAC SE), behind
-- any stream of whole pieces and before any bytes, makes the filter build a vector from a range
-- whose end lies before its start.
pub on_recv_empty_sub_neg :
    (is : List Item) (rest : Bytes)
    → All IsItem is
    → on_recv (encode_all is (iac ∷ sb ∷ iac ∷ se ∷ rest)) ≡ fault
on_recv_empty_sub_neg is rest h =
    let (left, e, enough) = scan-items is _ [] _ [] h (omega arith) in
    on_recv-scan _ ∙ e ∙ scan_empty_sub_neg left (text_all is) rest (events_all is) (omega arith)
