-- ===== src/Http/OneBlock.antt =====
-- What a request over a socket sends, and how much of the answer it reads.
use libcoda_net.Base.{
  ℕ, ◌≤◌, false, none, some, Option, List, [], ◌∷◌, ◌++◌, Bytes, is_empty, length, length-append,
  ◌≡◌, ◌≢◌, ◌∙◌, refl, ap, arith, Bool-cases, inl, inr,
}
use libcoda_net.Socket
use libcoda_net.Socket.{Attempt, connected, fresh, is_valid}
use libcoda_net.Buffered.{
  Buffered, Hook, Received, block, notify, call_all, write_from_buffer, newline, writeln, write,
}
use libcoda_net.Buffered.Lines.{write_lines}
use libcoda_net.Buffered.Transfer.{write_answer_all, all_written}
use libcoda_net.Buffered.Receive.{read_to_buffer_blocking}
use libcoda_net.Http.Scan.{Code}
use libcoda_net.Http.{Method}
use libcoda_net.Http.Client.{Client, is_secure}
use libcoda_net.Http.Request.{write_request, request_lines}
use libcoda_net.Http.Exchange.{
  System, answer, port_of, buffered, receive, transmit, converse, after_connect, exchange,
  request_text, write_lines-same,
}

-- Writing touches the output buffer alone.
write_lines_lem :
    (ls : List Bytes) (b : Buffered)
    → write_lines ls b ≡ record b { out_buffer = (write_lines ls b).out_buffer }
unfolding write_lines writeln
write_lines_lem [] b = refl
write_lines_lem (l ∷ ls) b = write_lines_lem ls (writeln l b)

write_request_lem :
    (c : Client) (method : Method) (path : Bytes) (b : Buffered)
    → write_request c method path b
      ≡ record b { out_buffer = (write_request c method path b).out_buffer }
unfolding write_request write writeln
write_request_lem c method path b = elim (Bool-cases (is_empty c.content)) [
  | inl e ↦
      rw (e, write_request)
        (ap (λ (x : Buffered). writeln [] x) (write_lines_lem (request_lines c method path) b))
  | inr e ↦
      rw (e, write_request)
        (ap (λ (x : Buffered). write c.content (writeln [] x))
          (write_lines_lem (request_lines c method path) b))
]

write_request-same :
    (c : Client) (method : Method) (path : Bytes) (b b' : Buffered)
    → b.out_buffer ≡ b'.out_buffer
    → (write_request c method path b).out_buffer ≡ (write_request c method path b').out_buffer
unfolding write_request write writeln
write_request-same c method path b b' h =
    let e = write_lines-same (request_lines c method path) b b' h in
    elim (Bool-cases (is_empty c.content)) [
      | inl none_ ↦ rw (none_, write_request) (ap (λ o. (o ++ []) ++ newline) e)
      | inr some_ ↦ rw (some_, write_request) (ap (λ o. ((o ++ []) ++ newline) ++ c.content) e)
    ]

length-write_request :
    (c : Client) (method : Method) (path : Bytes) (b : Buffered)
    → 2 ≤ length (write_request c method path b).out_buffer
unfolding write_request write writeln
length-write_request c method path b =
    let lines = (write_lines (request_lines c method path) b).out_buffer in
    elim (Bool-cases (is_empty c.content)) [
      | inl e ↦ rw (e, write_request) (omega (arith, length-append {0} (lines ++ []) newline))
      | inr e ↦
          rw (e, write_request)
            (omega (
              arith,
              length-append {0} (lines ++ []) newline,
              length-append {0} ((lines ++ []) ++ newline) c.content,
            ))
    ]

write_request-ne-nil :
    (c : Client) (method : Method) (path : Bytes) (b : Buffered)
    → (write_request c method path b).out_buffer ≢ []
write_request-ne-nil c method path b h =
    absurd (omega (arith, length-write_request c method path b, ap length h))

-- The connected socket, behind the notification, which no listener hears.
abbrev online : System → ℕ → Buffered
online sys fd = record (buffered sys (record fresh { sock = some fd }) (fd ∷ [])) {
  calls = (none, Hook.connected) ∷ [];
}

abbrev asked : System → Client → Method → Bytes → ℕ → Buffered
asked sys c method path fd = record (online sys fd) { out_buffer = request_text sys c method path }

exchange-connected :
    (sys : System) (c : Client) (method : Method) (path : Bytes) (port : Code) (fd : ℕ)
    (ps : List Attempt)
    → is_secure c ≡ false
    → port_of c ≡ some port
    → sys.resolve c.uri.host port ≡ some (connected fd ∷ ps)
    → exchange sys c method path ≡ transmit (write_from_buffer (asked sys c method path fd))
unfolding exchange after_connect converse Socket.connect Socket.connect_loop Socket.attach notify
    call_all
exchange-connected sys c method path port fd ps plain p r =
    rw (p, exchange)
      (rw (plain, r)
        (ap (λ b. transmit (write_from_buffer b))
          (write_request_lem c method path (online sys fd)
            ∙ ap (λ o. record (online sys fd) { out_buffer = o })
                (write_request-same c method path (online sys fd) (buffered sys fresh []) refl))))

-- A plain request whose first address connects, and whose text the system takes whole, sends exactly
-- that text; the answer that it returns is the first block that `recv` gives, and what comes in
-- later blocks is not read.
pub exchange_one_block :
    (sys : System) (c : Client) (method : Method) (path : Bytes) (port : Code) (fd : ℕ)
    (ps : List Attempt) (s : Bytes) (rest : List Received) (os : List (Option ℕ))
    → is_secure c ≡ false
    → port_of c ≡ some port
    → sys.resolve c.uri.host port ≡ some (connected fd ∷ ps)
    → sys.incoming ≡ block s ∷ rest
    → sys.outgoing ≡ some (length (request_text sys c method path)) ∷ os
    → (b : Buffered) × (exchange sys c method path ≡ answer s b)
      × (b.wire ≡ request_text sys c method path)
      × (b.incoming ≡ rest)
unfolding transmit receive
exchange_one_block sys c method path port fd ps s rest os plain p r i o =
    let b = asked sys c method path fd in
    let sent = all_written b os in
    (
      _,
      exchange-connected sys c method path port fd ps plain p r
          ∙ ap transmit (
              write_answer_all b os tt refl
                (write_request-ne-nil c method path (buffered sys fresh [])) o)
          ∙ ap receive (read_to_buffer_blocking (λ x. x) s sent rest tt refl refl i),
      refl,
      refl,
    )
