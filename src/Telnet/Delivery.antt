-- ===== src/Telnet/Delivery.antt =====
-- The telnet filter in the place where `socket::recv` runs it: each block of a read goes through it
-- before it reaches the input buffer.
use libcoda_net.Base.{true, some, List, [], ◌∷◌, ◌++◌, map, Bytes, All, ◌≡◌, refl, ap}
use libcoda_net.Socket.{is_valid}
use libcoda_net.Buffered.{Buffered, Received, block, not_now, read_to_buffer}
use libcoda_net.Buffered.Listeners.{NoNull}
use libcoda_net.Buffered.Receive.{filter_all, read_to_buffer-blocks}
use libcoda_net.Telnet.{Event, done, on_recv}
use libcoda_net.Telnet.Stream.{Item, IsItem, encode_all, text_all}
use libcoda_net.Telnet.Filter.{on_recv-encode_all}

-- A filter that does what `on_recv` does wherever that returns. An exception of `on_recv` would leave
-- the read; a filter is a function, and is not asked what it does there.
abbrev pub IsTelnet : (Bytes → Bytes) → Type 0
IsTelnet filter =
    (s text : Bytes) (events : List Event) → on_recv s ≡ done (text, events) → filter s ≡ text

-- The blocks that the peer sends, and their data bytes.
abbrev pub sent_blocks : List (List Item) → List Bytes
sent_blocks [] = []
sent_blocks (is ∷ iss) = encode_all is [] ∷ sent_blocks iss

abbrev pub texts : List (List Item) → Bytes
texts [] = []
texts (is ∷ iss) = text_all is ++ texts iss

filter_all-IsTelnet :
    (filter : Bytes → Bytes) (iss : List (List Item))
    → IsTelnet filter
    → All (All IsItem) iss
    → filter_all filter (sent_blocks iss) ≡ texts iss
filter_all-IsTelnet filter [] telnet h = refl
filter_all-IsTelnet filter (is ∷ iss) telnet h = λ i.
    telnet (encode_all is []) (text_all is) _ (on_recv-encode_all is h.0) i
    ++ filter_all-IsTelnet filter iss telnet h.1 i

-- A non-blocking read of a valid telnet socket without null listeners, of blocks that each hold whole
-- pieces, appends what the filter leaves of all of them, in order: the data bytes and the second byte
-- of each command of two bytes, and nothing of a doubled IAC, an option or a subnegotiation. On such
-- blocks `on_recv` returns; the filter does what it does wherever it returns.
pub read_to_buffer-IsTelnet :
    (filter : Bytes → Bytes) (iss : List (List Item)) (b : Buffered) (rest : List Received)
    → IsTelnet filter
    → All (All IsItem) iss
    → NoNull b.listeners
    → is_valid b.socket ≡ true
    → b.non_blocking ≡ true
    → b.incoming ≡ map block (sent_blocks iss) ++ (not_now ∷ rest)
    → (b' : Buffered) × (read_to_buffer filter b ≡ some (true, b'))
      × (b'.in_buffer ≡ b.in_buffer ++ texts iss)
      × (b'.incoming ≡ rest)
read_to_buffer-IsTelnet filter iss b rest telnet h n v e i = (
  _,
  read_to_buffer-blocks filter (sent_blocks iss) not_now b rest tt n v e i,
  ap (◌++◌ b.in_buffer) (filter_all-IsTelnet filter iss telnet h),
  refl,
)
