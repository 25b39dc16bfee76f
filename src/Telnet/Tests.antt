-- ===== src/Telnet/Tests.antt =====
-- The telnet theorems at concrete streams, and runs of the filter.
use libcoda_net.Base.{false, true, some, List, [], ◌∷◌, ◌++◌, ◌≡◌, refl, All, arith, ap, Bytes}
use libcoda_net.Telnet.{
  iac, will, dont, on_telopt, on_sub_neg, Event, Outcome, done, fault, out_of_fuel, on_recv,
  send_telopt,
}
use libcoda_net.Telnet.Stream.{
  Item, IsItem, data_byte, escaped_iac, command, option, sub_neg, encode_all, text_all, events_all,
}
use libcoda_net.Telnet.Filter.{on_recv-encode_all, on_recv-send_telopt}
use libcoda_net.Buffered.{Buffered, block, not_now, ended, read_to_buffer}
use libcoda_net.Telnet.Delivery.{IsTelnet, texts, read_to_buffer-IsTelnet}
use libcoda_net.Telnet.Bounds.{Within, on_recv-Within}

abbrev session : List Item
session =
    data_byte b'h'
    ∷ option will 1
    ∷ escaped_iac
    ∷ sub_neg 24 (0 ∷ b'v' ∷ b't' ∷ [])
    ∷ command 241
    ∷ data_byte b'i'
    ∷ []

session-IsItem : All IsItem session
session-IsItem = ground arith

on_recv-encode_all_example :
    on_recv (encode_all session []) ≡ done (text_all session, events_all session)
on_recv-encode_all_example = on_recv-encode_all session session-IsItem

session_text :
    on_recv (encode_all session [])
    ≡ done (b'h' ∷ 241 ∷ b'i' ∷ [], on_telopt will 1 ∷ on_sub_neg 24 (0 ∷ b'v' ∷ b't' ∷ []) ∷ [])
unfolding on_recv encode_all
session_text = refl

on_recv-send_telopt_example :
    on_recv (encode_all session (send_telopt dont 31))
    ≡ done (text_all session, events_all session ++ (on_telopt dont 31 ∷ []))
on_recv-send_telopt_example = on_recv-send_telopt session dont 31 session-IsItem refl

on_recv-Within_example : Within 4 (on_recv (iac ∷ will ∷ 1 ∷ iac ∷ []))
on_recv-Within_example = on_recv-Within (iac ∷ will ∷ 1 ∷ iac ∷ [])

abbrev terminal : Buffered
terminal = record {
  socket = record { sock = some 4; non_blocking = true; secure = false };
  in_buffer = b'>' ∷ [];
  out_buffer = [];
  listeners = [];
  fds = 4 ∷ [];
  incoming =
      block (encode_all session [])
      ∷ block (encode_all (data_byte b'!' ∷ []) [])
      ∷ not_now
      ∷ ended
      ∷ [];
  outgoing = [];
  wire = [];
  calls = [];
}

-- The text that `on_recv` returns; there is none where it does not return.
abbrev text_of : Outcome (Bytes × List Event) → Bytes
text_of (done (text, events)) = text
text_of fault = []
text_of out_of_fuel = []

abbrev filtered : Bytes → Bytes
filtered s = text_of (on_recv s)

filtered-IsTelnet : IsTelnet filtered
filtered-IsTelnet s text events e = ap text_of e

read_to_buffer-IsTelnet_example :
    (b' : Buffered) × (read_to_buffer filtered terminal ≡ some (true, b'))
    × (b'.in_buffer ≡ (b'>' ∷ []) ++ texts (session ∷ (data_byte b'!' ∷ []) ∷ []))
    × (b'.incoming ≡ ended ∷ [])
read_to_buffer-IsTelnet_example =
    read_to_buffer-IsTelnet filtered (session ∷ (data_byte b'!' ∷ []) ∷ []) terminal (ended ∷ [])
      filtered-IsTelnet (session-IsItem, (ground arith, tt)) tt refl refl refl
