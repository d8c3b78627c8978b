-- ===== src/Plc/Link/Closes.antt =====
-- When a link stays open after an error, and what a read that succeeds has checked.
use data_gateway.Base.{
  ℕ, ◌-◌, bit_and, bit_or, ◌≡◌, refl, sym, ◌∙◌, ◌⊎◌, inl, inr, Bool, true, false, List, [], ◌∷◌,
  arith, ltb, ◌==◌, if◌then◌else◌, Bool-cases, length, take, drop,
}
use data_gateway.Modbus.Outcome.{
  Error, Result, ok, err, frame_err, exception_response, struct_error, ◌>>=◌, Result-cases,
}
use mathlib.Core.Bool.{false≢true}
use data_gateway.Modbus.Crc.{crc_ok}
use data_gateway.Modbus.Pdu.{read_pdu, rtu_read_request, parse_words_pdu, second}
use data_gateway.Modbus.Stream.{at, read_rtu_frame, mbap, read_mbap}
use data_gateway.Plc.Link.{
  Answer, unreachable, silent, answers, Peer, ReadResult, Link, send, accept_rtu, rtu_exchange,
  in_time, rtu_read, accept_tcp, tcp_exchange, tcp_read,
}

-- The errors that do not come from the connection: the device's own refusal, and a request that
-- could not be packed.
abbrev pub keeps_open : Error → Bool
keeps_open (exception_response _) = true
keeps_open struct_error = true
keeps_open _ = false

abbrev pub Closed : {A : Type 0} → Result A × Link → Type 0
Closed (ok _, l) = Unit
Closed (err e, l) = keeps_open e ≡ false → l.is_open ≡ false

parse_words_pdu-errors :
    (pdu : List ℕ) (fc count : ℕ) (e : Error)
    → parse_words_pdu pdu fc count ≡ err e
    → (e ≡ frame_err) ⊎ ((code : ℕ) × (e ≡ exception_response code))
unfolding parse_words_pdu
parse_words_pdu-errors [] fc count e h = inl (cc)
parse_words_pdu-errors (f ∷ rest) fc count e h = elim (Bool-cases (f == bit_or fc 0x80)) [
  | inl refused ↦
      inr
        (if ltb 1 (length (f ∷ rest)) then second (f ∷ rest) else 0, exception_is f rest refused h)
  | inr normal ↦ inl (ground arith)
]
  where
    exception_is :
        (f : ℕ) (rest : List ℕ)
        → (f == bit_or fc 0x80) ≡ true
        → parse_words_pdu (f ∷ rest) fc count ≡ err e
        → e ≡ exception_response (if ltb 1 (length (f ∷ rest)) then second (f ∷ rest) else 0)
    exception_is f rest r k = ground arith

accept_tcp-Closed :
    (tid fc count : ℕ) (req : List ℕ) (rtt rtid : ℕ) (pdu : List ℕ) (l : Link)
    → Closed (accept_tcp tid fc count req rtt rtid pdu l)
unfolding accept_tcp
accept_tcp-Closed tid fc count req rtt rtid pdu l = elim (Bool-cases (rtid == tid)) [
  | inr other ↦ rw other (λ h. refl)
  | inl same ↦ rw same (elim (Result-cases (parse_words_pdu pdu fc count)) [
    | inl (words, p) ↦ rw p tt
    | inr (e, p) ↦ elim (parse_words_pdu-errors pdu fc count e p) [
      | inl bad ↦ rw (p, bad) (λ h. refl)
      | inr (code, refused) ↦ rw (p, refused) (λ h. absurd (false≢true (sym h)))
    ]
  ])
]

tcp_exchange-Closed :
    (peer : Peer) (tid fc count : ℕ) (req : List ℕ) (l : Link)
    → Closed (tcp_exchange peer tid fc count req l)
unfolding tcp_exchange
tcp_exchange-Closed peer tid fc count req l = by_answer (peer req) refl
  where
    by_answer : (a : Answer) → peer req ≡ a → Closed (tcp_exchange peer tid fc count req l)
    by_answer unreachable e = rw (e, tcp_exchange) (λ h. refl)
    by_answer silent e = rw (e, tcp_exchange) (λ h. refl)
    by_answer (answers rtt stream) e = elim (Result-cases (read_mbap stream)) [
      | inl (((rtid, unit, pdu), rest), p) ↦
          rw (e, tcp_exchange, p) (accept_tcp-Closed tid fc count req rtt rtid pdu l)
      | inr (error, p) ↦ rw (e, tcp_exchange, p) (λ h. refl)
    ]

request-errors :
    (fc addr count tid unit : ℕ) (e : Error)
    → (read_pdu fc addr count >>= λ pdu. mbap tid unit pdu) ≡ err e
    → keeps_open e ≡ true
unfolding read_pdu mbap
request-errors fc addr count tid unit e h = ground arith

tcp_read-Closed :
    (peer : Peer) (next unit fc addr count : ℕ) (l : Link)
    → Closed (tcp_read peer next unit fc addr count l)
unfolding tcp_read
tcp_read-Closed peer next unit fc addr count l =
    let tid = bit_and next 0xffff in
    elim (Result-cases (read_pdu fc addr count >>= λ pdu. mbap tid unit pdu)) [
      | inl (req, p) ↦ rw (p, tcp_read) (tcp_exchange-Closed peer tid fc count req (send req l))
      | inr (e, p) ↦
          rw (p, tcp_read)
            (λ h. absurd (false≢true (sym h ∙ request-errors fc addr count tid unit e p)))
    ]

-- After a Modbus TCP read that failed, the connection is closed, so that a late answer cannot be
-- taken for the answer of a later request; it stays open only where the device itself refused the
-- request, or the request could not be built.
pub tcp_read_closes :
    (peer : Peer) (next unit fc addr count : ℕ) (l : Link) (e : Error)
    → (tcp_read peer next unit fc addr count l).0 ≡ err e
    → keeps_open e ≡ false
    → (tcp_read peer next unit fc addr count l).1.is_open ≡ false
tcp_read_closes peer next unit fc addr count l e failed strict =
    at_error (tcp_read peer next unit fc addr count l) failed
      (tcp_read-Closed peer next unit fc addr count l)
  where
    at_error : (r : Result ReadResult × Link) → r.0 ≡ err e → Closed r → r.1.is_open ≡ false
    at_error (ok _, l') h c = absurd (cc)
    at_error (err f, l') h c = c (cc)

abbrev Checked : ℕ → ℕ → ℕ → ReadResult → Type 0
Checked unit fc count r =
    (crc_ok r.rx ≡ true)
    × (at 0 r.rx ≡ unit)
    × (parse_words_pdu (take (length r.rx - 3) (drop 1 r.rx)) fc count ≡ ok r.words)

accept_rtu-Checked :
    (unit fc count : ℕ) (req : List ℕ) (rtt : ℕ) (resp : List ℕ) (l : Link) (r : ReadResult)
    → (accept_rtu unit fc count req rtt resp l).0 ≡ ok r
    → Checked unit fc count r
unfolding accept_rtu
accept_rtu-Checked unit fc count req rtt resp l r h =
    elim (Result-cases (parse_words_pdu (take (length resp - 3) (drop 1 resp)) fc count)) [
      | inl (words, p) ↦ checked words p
      | inr (e, p) ↦ absurd (refused e p)
    ]
  where
    refused :
        (e : Error) → parse_words_pdu (take (length resp - 3) (drop 1 resp)) fc count ≡ err e → ⊥
    refused e p = ground arith

    checked :
        (words : List ℕ)
        → parse_words_pdu (take (length resp - 3) (drop 1 resp)) fc count ≡ ok words
        → Checked unit fc count r
    checked words p = ground arith

rtu_exchange-Checked :
    (peer : Peer) (timeout unit fc count : ℕ) (req : List ℕ) (l : Link) (r : ReadResult)
    → (rtu_exchange peer timeout unit fc count req l).0 ≡ ok r
    → Checked unit fc count r
rtu_exchange-Checked peer timeout unit fc count req l r h =
    by_answer (in_time timeout (peer req)) refl
  where
    by_answer : (a : Answer) → in_time timeout (peer req) ≡ a → Checked unit fc count r
    by_answer unreachable e = unfold rtu_exchange in cc (rw (e, rtu_exchange) at h)
    by_answer silent e = unfold rtu_exchange in cc (rw (e, rtu_exchange) at h)
    by_answer (answers rtt stream) e =
        unfold rtu_exchange in
        elim (Result-cases (read_rtu_frame false stream)) [
          | inl ((resp, rest), p) ↦
              accept_rtu-Checked unit fc count req rtt resp l r (rw (e, rtu_exchange, p) at h)
          | inr (error, p) ↦ cc (rw (e, rtu_exchange, p) at h)
        ]

-- An RTU read that succeeded has checked the frame's checksum, the device's address, and that
-- the words come from a well-formed response to this request.
pub rtu_read-checked :
    (peer : Peer) (timeout unit fc addr count : ℕ) (l : Link) (r : ReadResult)
    → (rtu_read peer timeout unit fc addr count l).0 ≡ ok r
    → (crc_ok r.rx ≡ true)
      × (at 0 r.rx ≡ unit)
      × (parse_words_pdu (take (length r.rx - 3) (drop 1 r.rx)) fc count ≡ ok r.words)
unfolding rtu_read
rtu_read-checked peer timeout unit fc addr count l r h =
    elim (Result-cases (rtu_read_request unit fc addr count)) [
      | inl (req, p) ↦
          rtu_exchange-Checked peer timeout unit fc count req (send req l) r (rw (p, rtu_read) at h)
      | inr (e, p) ↦ cc (rw (p, rtu_read) at h)
    ]
