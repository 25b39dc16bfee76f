-- ===== src/Telnet/Stream.antt =====
-- What `on_recv` makes of a telnet stream: the commands in it are described by `Item`.
use libcoda_net.Base.{
  ℕ, zero, suc, ◌≤◌, List, [], ◌∷◌, ◌++◌, append-nil, append_assoc, ◌≡◌, ◌≢◌, ◌∙◌, refl, sym, ap,
  arith, Bytes, Without, All, length, length-append, before_first, from_first, before_first-ne,
  from_first-ne, before_first_self, from_first_self, before_first-hit, from_first-hit, true, false,
}
use libcoda_net.Telnet.{
  iac, se, sb, is_verb, Event, on_telopt, on_sub_neg, Outcome, done, dispatch, recv_loop,
  handle_sub_neg,
}

-- A piece of a stream: a data byte, a doubled IAC, a command of two bytes, an option that is
-- negotiated, or a subnegotiation.
pub data Item : Type 0 where
  data_byte : ℕ → Item
  escaped_iac : Item
  command : ℕ → Item
  option : ℕ → ℕ → Item
  sub_neg : ℕ → Bytes → Item

abbrev pub IsItem : Item → Type 0
IsItem (data_byte c) = c ≢ iac
IsItem escaped_iac = Unit
IsItem (command c) = (c ≢ iac) × (c ≢ sb) × (is_verb c ≡ false)
IsItem (option verb o) = is_verb verb ≡ true
IsItem (sub_neg kind params) = (kind ≢ iac) × Without iac params

-- The bytes that a peer sends for a piece, with what follows it.
unfoldable pub encode : Item → Bytes → Bytes
encode (data_byte c) rest = c ∷ rest
encode escaped_iac rest = iac ∷ iac ∷ rest
encode (command c) rest = iac ∷ c ∷ rest
encode (option verb o) rest = iac ∷ verb ∷ o ∷ rest
encode (sub_neg kind params) rest = iac ∷ sb ∷ kind ∷ (params ++ (iac ∷ se ∷ rest))

unfoldable pub encode_all : List Item → Bytes → Bytes
unfolding encode
encode_all [] rest = rest
encode_all (i ∷ is) rest = encode i (encode_all is rest)

-- What stays in the buffer of a piece: a doubled IAC is dropped, a command keeps its second byte.
unfoldable pub text : Item → Bytes
text (data_byte c) = c ∷ []
text (command c) = c ∷ []
text _ = []

unfoldable pub text_all : List Item → Bytes
unfolding text
text_all [] = []
text_all (i ∷ is) = text i ++ text_all is

unfoldable pub events : Item → List Event
events (option verb o) = on_telopt verb o ∷ []
events (sub_neg kind params) = on_sub_neg kind params ∷ []
events _ = []

unfoldable pub events_all : List Item → List Event
unfolding events
events_all [] = []
events_all (i ∷ is) = events i ++ events_all is

-- The loop, together with the `find` that leads to its head.
unfoldable pub scan : ℕ → Bytes → Bytes → List Event → Outcome (Bytes × List Event)
scan fuel pre s called = recv_loop fuel (pre ++ before_first iac s) (from_first iac s) called

scan-data_byte :
    (fuel c : ℕ) (pre s : Bytes) (called : List Event)
    → c ≢ iac
    → scan fuel pre (c ∷ s) called ≡ scan fuel (pre ++ (c ∷ [])) s called
unfolding scan
scan-data_byte fuel c pre s called h =
    rw (before_first-ne iac c s h, from_first-ne iac c s h)
      (ap (λ p. recv_loop fuel p (from_first iac s) called)
        (sym (append_assoc pre (c ∷ []) (before_first iac s))))

-- One round of the loop, at an IAC with a byte behind it.
scan-iac :
    (fuel next : ℕ) (pre rest after : Bytes) (called more : List Event)
    → dispatch pre next rest ≡ done (record { before = pre; after = after }, more)
    → scan (suc fuel) pre (iac ∷ next ∷ rest) called ≡ scan fuel pre after (called ++ more)
unfolding scan recv_loop
scan-iac fuel next pre rest after called more h =
    rw (before_first_self iac (next ∷ rest), from_first_self iac (next ∷ rest), append-nil pre)
      (rw (h, recv_loop))

dispatch-escaped :
    (pre rest : Bytes) → dispatch pre iac rest ≡ done (record { before = pre; after = rest }, [])
unfolding dispatch
dispatch-escaped pre rest = refl

dispatch-command :
    (pre rest : Bytes) (c : ℕ)
    → IsItem (command c)
    → dispatch pre c rest ≡ done (record { before = pre; after = c ∷ rest }, [])
unfolding dispatch
dispatch-command pre rest c h = ground (arith, h.0, h.1, h.2)

dispatch-option :
    (pre rest : Bytes) (verb o : ℕ)
    → is_verb verb ≡ true
    → dispatch pre verb (o ∷ rest)
      ≡ done (record { before = pre; after = rest }, on_telopt verb o ∷ [])
unfolding dispatch
dispatch-option pre rest verb o h = ground arith

handle_sub_neg-closed :
    (pre rest params : Bytes) (kind : ℕ)
    → kind ≢ iac
    → Without iac params
    → handle_sub_neg pre (sb ∷ kind ∷ (params ++ (iac ∷ se ∷ rest)))
      ≡ done (record { before = pre; after = rest }, on_sub_neg kind params ∷ [])
unfolding handle_sub_neg
handle_sub_neg-closed pre rest params kind k h = rw (
  from_first-ne iac kind (params ++ (iac ∷ se ∷ rest)) k,
  from_first-hit iac params (se ∷ rest) h,
  before_first-ne iac kind (params ++ (iac ∷ se ∷ rest)) k,
  before_first-hit iac params (se ∷ rest) h,
)

dispatch-sub_neg :
    (pre rest params : Bytes) (kind : ℕ)
    → IsItem (sub_neg kind params)
    → dispatch pre sb (kind ∷ (params ++ (iac ∷ se ∷ rest)))
      ≡ done (record { before = pre; after = rest }, on_sub_neg kind params ∷ [])
dispatch-sub_neg pre rest params kind h =
    unfold dispatch in handle_sub_neg-closed pre rest params kind h.0 h.1

-- The scan of one piece, on fuel for the longest way through it.
pub scan-item :
    (i : Item) (fuel : ℕ) (pre rest : Bytes) (called : List Event)
    → IsItem i
    → length (encode i rest) ≤ fuel
    → (left : ℕ) × (scan fuel pre (encode i rest) called
        ≡ scan left (pre ++ text i) rest (called ++ events i))
      × (length rest ≤ left)
unfolding encode text events
scan-item (data_byte c) fuel pre rest called h l =
    (fuel, scan-data_byte fuel c pre rest called h ∙ rw (append-nil called), omega arith)
scan-item escaped_iac zero pre rest called h l = absurd (omega arith)
scan-item escaped_iac (suc fuel) pre rest called h l = (
  fuel,
  scan-iac fuel iac pre rest rest called [] (dispatch-escaped pre rest) ∙ rw (append-nil pre),
  omega arith,
)
scan-item (command c) zero pre rest called h l = absurd (omega arith)
scan-item (command c) (suc fuel) pre rest called h l = (
  fuel,
  scan-iac fuel c pre rest (c ∷ rest) called [] (dispatch-command pre rest c h)
      ∙ scan-data_byte fuel c pre rest (called ++ []) h.0,
  omega arith,
)
scan-item (option verb o) zero pre rest called h l = absurd (omega arith)
scan-item (option verb o) (suc fuel) pre rest called h l = (
  fuel,
  scan-iac fuel verb pre (o ∷ rest) rest called _ (dispatch-option pre rest verb o h)
      ∙ rw (append-nil pre),
  omega arith,
)
scan-item (sub_neg kind params) zero pre rest called h l = absurd (omega arith)
scan-item (sub_neg kind params) (suc fuel) pre rest called h l = (
  fuel,
  scan-iac fuel sb pre _ rest called _ (dispatch-sub_neg pre rest params kind h)
      ∙ rw (append-nil pre),
  omega (arith, length-append {0} params (iac ∷ se ∷ rest)),
)

pub scan-items :
    (is : List Item) (fuel : ℕ) (pre rest : Bytes) (called : List Event)
    → All IsItem is
    → length (encode_all is rest) ≤ fuel
    → (left : ℕ) × (scan fuel pre (encode_all is rest) called
        ≡ scan left (pre ++ text_all is) rest (called ++ events_all is))
      × (length rest ≤ left)
unfolding encode_all text_all events_all
scan-items [] fuel pre rest called h l = (fuel, rw (append-nil pre, append-nil called), l)
scan-items (i ∷ is) fuel pre rest called h l =
    let (mid, first, enough) = scan-item i fuel pre (encode_all is rest) called h.0 l in
    let (left, others, still) =
      scan-items is mid (pre ++ text i) rest (called ++ events i) h.1 enough in
    (
      left,
      first
          ∙ others
          ∙ rw (
            append_assoc pre (text i) (text_all is),
            append_assoc called (events i) (events_all is),
          ),
      still,
    )
