-- ===== src/Plc/Link/Served.antt =====
-- The Modbus TCP client against the PLC's own server: the whole way of a read over the wire.
use data_gateway.Base.{
  ℕ, ◌*◌, ◌%◌, ◌≤◌, ◌<◌, bit_and, String, ◌≡◌, refl, sym, ap, ◌∙◌, inl, inr, true, List, [], ◌∷◌,
  append-nil, arith, ◌==◌, length, All,
}
use data_gateway.Base.Bits.{bit_and_ffff, IsWord}
use data_gateway.Modbus.Outcome.{Error, Result, ok, err, ◌>>=◌, Result-cases}
use data_gateway.Modbus.Pdu.{is_read_fc, read_pdu, words_pdu, words_bytes, parse_words_pdu}
use data_gateway.Modbus.Pdu.RoundTrip.{words_pdu-ok, length-words_bytes, parse-words_pdu}
use data_gateway.Modbus.Stream.{mbap, read_mbap}
use data_gateway.Modbus.Stream.RoundTrip.{read_mbap-mbap}
use data_gateway.Plc.Memory.{mem_words, read}
use data_gateway.Plc.Memory.Laws.{IsMemory}
use data_gateway.Plc.Server.{Plc, answer}
use data_gateway.Plc.Server.Serves.{
  InRange, read_pdu-ok, read_fc-cases, length-read, read-IsWord, request, handle-request,
}
use data_gateway.Plc.Link.{
  Peer, silent, answers, ReadResult, Link, send, accept_tcp, tcp_exchange, tcp_read,
}

-- The PLC at the other end of a connection: it gets one request, and its answer takes `rtt`.
abbrev pub plc_peer : ℕ → String → Plc → Peer
plc_peer rtt name p req = elim (answer name req p).0 [
  | err e ↦ silent
  | ok (frame, rest) ↦ answers rtt frame
]

-- A PDU goes through the MBAP layer and back unchanged.
mbap_there :
    (tid unit : ℕ) (pdu : List ℕ)
    → unit < 256
    → 1 ≤ length pdu
    → length pdu ≤ 259
    → (frame : List ℕ) × (mbap tid unit pdu ≡ ok frame)
      × (read_mbap frame ≡ ok ((tid % 65536, unit, pdu), []))
mbap_there tid unit pdu hu lo hi = elim (Result-cases (mbap tid unit pdu)) [
  | inl (frame, e) ↦ (
    frame,
    e,
    ap read_mbap (sym (append-nil frame)) ∙ (rw e at (read_mbap-mbap tid unit pdu [] hu lo hi)),
  )
  | inr (error, e) ↦ absurd (never error (rw e at (read_mbap-mbap tid unit pdu [] hu lo hi)))
]
  where
    never : {A : Type 0} {a : A} (error : Error) → Path (Result A) (err error) (ok a) → ⊥
    never error h = cc

-- The server's answer to a request frame, as the client's reader sees it.
answer_there :
    (tid unit fc addr count : ℕ) (name : String) (p : Plc) (frame : List ℕ)
    → unit < 256
    → is_read_fc fc ≡ true
    → InRange addr count
    → length p.memory.words ≡ mem_words
    → read_mbap frame ≡ ok ((tid % 65536, unit, request fc addr count), [])
    → (reply : List ℕ) × ((answer name frame p).0 ≡ ok (reply, []))
      × (read_mbap reply
          ≡ ok ((tid % 65536, unit, fc ∷ (count * 2) ∷ words_bytes (read addr count p.memory)), []))
unfolding answer
answer_there tid unit fc addr count name p frame hu hf range size e =
    let ws = read addr count p.memory in
    let small = read_fc-cases fc hf in
    let n : length ws ≡ count = length-read addr count p.memory (omega arith) in
    let body : List ℕ = fc ∷ (count * 2) ∷ words_bytes ws in
    let made : words_pdu fc ws ≡ ok body =
      words_pdu-ok fc ws (omega arith) (omega arith)
      ∙ ap (λ k. ok (fc ∷ (k * 2) ∷ words_bytes ws)) n in
    let (reply, there, back) =
      mbap_there (tid % 65536) unit body hu (omega arith) (omega (arith, length-words_bytes ws)) in
    let same_tid : tid % 65536 % 65536 ≡ tid % 65536 = omega arith in
    (
      reply,
      rw (e, answer, handle-request fc addr count name p hf range, made, there) refl,
      rw same_tid at back,
    )

-- The three stages of a read that goes well.
tcp_read-sent :
    (peer : Peer) (next unit fc addr count : ℕ) (req : List ℕ) (l : Link)
    → (read_pdu fc addr count >>= λ pdu. mbap (bit_and next 0xffff) unit pdu) ≡ ok req
    → tcp_read peer next unit fc addr count l
      ≡ tcp_exchange peer (bit_and next 0xffff) fc count req (send req l)
unfolding tcp_read
tcp_read-sent peer next unit fc addr count req l e = rw (e, tcp_read)

tcp_exchange-answered :
    (peer : Peer) (tid fc count rtt rtid unit : ℕ) (req reply pdu rest : List ℕ) (l : Link)
    → peer req ≡ answers rtt reply
    → read_mbap reply ≡ ok ((rtid, unit, pdu), rest)
    → tcp_exchange peer tid fc count req l ≡ accept_tcp tid fc count req rtt rtid pdu l
unfolding tcp_exchange
tcp_exchange-answered peer tid fc count rtt rtid unit req reply pdu rest l e f =
    rw (e, tcp_exchange, f)

accept_tcp-parsed :
    (tid fc count rtt rtid : ℕ) (req pdu ws : List ℕ) (l : Link)
    → rtid ≡ tid
    → parse_words_pdu pdu fc count ≡ ok ws
    → (accept_tcp tid fc count req rtt rtid pdu l).0
      ≡ ok (record { words = ws; tx = req; rx = pdu; rtt = rtt })
unfolding accept_tcp
accept_tcp-parsed tid fc count rtt rtid req pdu ws l e f =
    let same : (rtid == tid) ≡ true = ground arith in rw (same, f)

-- What the words of a response parse to, with their number given.
pub parse-response :
    (fc count : ℕ) (ws : List ℕ)
    → fc < 128
    → length ws ≡ count
    → count ≤ 127
    → All IsWord ws
    → parse_words_pdu (fc ∷ (count * 2) ∷ words_bytes ws) fc count ≡ ok ws
parse-response fc count ws hf n small words =
    ap (λ k. parse_words_pdu (fc ∷ (k * 2) ∷ words_bytes ws) fc k) (sym n)
    ∙ (rw (words_pdu-ok fc ws (omega arith) (omega arith)) at
        (parse-words_pdu fc ws hf (omega arith) words))

-- A Modbus TCP read of 1 to 125 words inside the D area, sent to the PLC's server over a link that
-- delivers its bytes, returns exactly the words that the D area holds.
pub tcp_read-plc :
    (rtt next unit fc addr count : ℕ) (name : String) (p : Plc) (l : Link)
    → unit < 256
    → is_read_fc fc ≡ true
    → InRange addr count
    → IsMemory p.memory
    → length p.memory.words ≡ mem_words
    → (r : ReadResult) × ((tcp_read (plc_peer rtt name p) next unit fc addr count l).0 ≡ ok r)
      × (r.words ≡ read addr count p.memory)
tcp_read-plc rtt next unit fc addr count name p l hu hf range valid size =
    let small = read_fc-cases fc hf in
    let tid = bit_and next 0xffff in
    let ws = read addr count p.memory in
    let n : length ws ≡ count = length-read addr count p.memory (omega arith) in
    let (req, there, back) =
      mbap_there tid unit (request fc addr count) hu (omega arith) (omega arith) in
    let (reply, answered, read_back) =
      answer_there tid unit fc addr count name p req hu hf range size back in
    let built : (read_pdu fc addr count >>= λ pdu. mbap tid unit pdu) ≡ ok req =
      rw (read_pdu-ok fc addr count (omega arith) (omega arith) (omega arith)) there in
    let sent : plc_peer rtt name p req ≡ answers rtt reply = rw (answered, plc_peer) in
    let body : List ℕ = fc ∷ (count * 2) ∷ words_bytes ws in
    let own_tid : tid % 65536 ≡ tid = omega (arith, bit_and_ffff next) in
    (
      record { words = ws; tx = req; rx = body; rtt = rtt },
      ap (λ t. t.0)
            (tcp_read-sent (plc_peer rtt name p) next unit fc addr count req l built
              ∙ tcp_exchange-answered (plc_peer rtt name p) tid fc count rtt (tid % 65536) unit req
                  reply body [] (send req l) sent read_back)
          ∙ accept_tcp-parsed tid fc count rtt (tid % 65536) req body ws (send req l) own_tid (
              parse-response fc count ws small n (omega arith)
                (read-IsWord addr count p.memory valid)),
      refl,
    )
