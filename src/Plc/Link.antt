-- ===== src/Plc/Link.antt =====
-- The read clients of src/twin/plc/link.py. The other end of a link is an argument: what it does when a
-- request is sent. The monotonic clock is in it too, as the time that the answer took.
pub mod Closes
pub mod Served
use data_gateway.Base.{
  ℕ, zero, suc, ◌+◌, ◌-◌, ◌*◌, ◌/◌, ◌%◌, ◌^◌, ◌≤◌, ◌<◌, min, max, bit_and, bit_or, bit_xor, String,
  ◌≡◌, refl, sym, ap, ap₂, subst, ◌∙◌, ◌≢◌, ◌↔◌, ◌⊎◌, inl, inr, Bool, true, false, not, ◌&&◌, ◌||◌,
  Option, none, some, List, [], ◌∷◌, ◌++◌, map, append-nil, append_assoc, arith, ltb, leb, ◌==◌,
  if◌then◌else◌, ltb→lt, ltb→ge, lt→ltb, leb→le, leb→gt, le→leb, gt→leb, ==_iff, ==_refl, ==_ne,
  Bool-cases, Option-cases, and_parts, length, get_elem?, take, drop, replicate, set, keep,
  count_if, sum_by, All, length-append, length-set, length-take, length-drop, take-append_left,
  drop-append_left, get_elem?-set_self, get_elem?-set_ne, sum_by-append, All-append, get_elem?-take,
  get_elem?-drop, All-keep,
}
use data_gateway.Modbus.Outcome.{
  Error, Result, ok, err, timeout_err, crc_err, frame_err, exception_response, struct_error,
  value_error, index_error, key_error, incomplete_read, assertion_error, type_error, ◌>>=◌, kind,
  index, pack_byte, pack_be, Result-cases,
}
use data_gateway.Modbus.Crc.{crc_ok}
use data_gateway.Modbus.Pdu.{read_pdu, rtu_read_request, parse_words_pdu}
use data_gateway.Modbus.Stream.{at, read_rtu_frame, mbap, read_mbap}

-- What the network does with a request: there is no connection, the answer does not come in time (or
-- the connection breaks), or these bytes come, so many microseconds after the request.
pub data Answer : Type 0 where
  unreachable : Answer
  silent : Answer
  answers : ℕ → List ℕ → Answer

abbrev pub Peer : Type 0
Peer = List ℕ → Answer

pub record ReadResult : Type 0 where
  pub words : List ℕ
  pub tx : List ℕ
  pub rx : List ℕ
  pub rtt : ℕ

-- `_StreamLink`: whether a connection is open, and the last frames. `_ensure` that fails leaves none.
pub record Link : Type 0 where
  pub is_open : Bool
  pub last_tx : List ℕ
  pub last_rx : List ℕ

abbrev pub new_link : Link
new_link = record { is_open = false; last_tx = []; last_rx = [] }

abbrev pub close : Link → Link
close l = record l { is_open = false }

-- `self.last_tx, self.last_rx = req, b""`
abbrev pub send : List ℕ → Link → Link
send req l = record l { last_tx = req; last_rx = [] }

-- `TcpRtuLink.read` from the frame on: checksum, slave address, PDU.
unfoldable pub accept_rtu : ℕ → ℕ → ℕ → List ℕ → ℕ → List ℕ → Link → Result ReadResult × Link
accept_rtu unit fc count req rtt resp l =
    let l' = record l { is_open = true; last_rx = resp } in
    if not (crc_ok resp)
    then (err crc_err, close l')
    else if not (at 0 resp == unit)
    then (err frame_err, close l')
    else (
      do
        words ← parse_words_pdu (take (length resp - 3) (drop 1 resp)) fc count
        ok (record { words = words; tx = req; rx = resp; rtt = rtt }),
      l',
    )

-- `asyncio.wait_for(…, timeout)`: bytes that come later are not waited for.
abbrev pub in_time : ℕ → Answer → Answer
in_time timeout unreachable = unreachable
in_time timeout silent = silent
in_time timeout (answers rtt stream) = if ltb timeout rtt then silent else answers rtt stream

unfoldable pub rtu_exchange : Peer → ℕ → ℕ → ℕ → ℕ → List ℕ → Link → Result ReadResult × Link
unfolding accept_rtu
rtu_exchange peer timeout unit fc count req l = elim (in_time timeout (peer req)) [
  | unreachable ↦ (err timeout_err, close l)
  | silent ↦ (err timeout_err, close l)
  | answers rtt stream ↦ elim (read_rtu_frame false stream) [
    | err e ↦ (err timeout_err, close l)
    | ok (resp, rest) ↦ accept_rtu unit fc count req rtt resp l
  ]
]

-- `TcpRtuLink.read`; the time-out is in microseconds.
unfoldable pub rtu_read : Peer → ℕ → ℕ → ℕ → ℕ → ℕ → Link → Result ReadResult × Link
unfolding rtu_exchange
rtu_read peer timeout unit fc addr count l = elim (rtu_read_request unit fc addr count) [
  | err e ↦ (err e, l)
  | ok req ↦ rtu_exchange peer timeout unit fc count req (send req l)
]

-- `ModbusTcpLink.read` from the PDU on: transaction id, PDU. An exception response leaves the
-- connection open.
unfoldable pub accept_tcp : ℕ → ℕ → ℕ → List ℕ → ℕ → ℕ → List ℕ → Link → Result ReadResult × Link
accept_tcp tid fc count req rtt rtid pdu l =
    let l' = record l { is_open = true; last_rx = pdu } in
    if not (rtid == tid) then (err frame_err, close l') else elim (parse_words_pdu pdu fc count) [
      | ok words ↦ (ok (record { words = words; tx = req; rx = pdu; rtt = rtt }), l')
      | err frame_err ↦ (err frame_err, close l')
      | err e ↦ (err e, l')
    ]

-- `except FrameErr: close; raise`, the other failures of the stream are time-outs.
abbrev pub stream_failure : Error → Error
stream_failure frame_err = frame_err
stream_failure _ = timeout_err

unfoldable pub tcp_exchange : Peer → ℕ → ℕ → ℕ → List ℕ → Link → Result ReadResult × Link
unfolding accept_tcp
tcp_exchange peer tid fc count req l = elim (peer req) [
  | unreachable ↦ (err timeout_err, close l)
  | silent ↦ (err timeout_err, close l)
  | answers rtt stream ↦ elim (read_mbap stream) [
    | err e ↦ (err (stream_failure e), close l)
    | ok ((rtid, unit, pdu), rest) ↦ accept_tcp tid fc count req rtt rtid pdu l
  ]
]

-- `ModbusTcpLink.read`; `next` is what the shared counter of transaction ids gives.
unfoldable pub tcp_read : Peer → ℕ → ℕ → ℕ → ℕ → ℕ → Link → Result ReadResult × Link
unfolding tcp_exchange
tcp_read peer next unit fc addr count l =
    let tid = bit_and next 0xffff in
    elim (do pdu ← read_pdu fc addr count; mbap tid unit pdu) [
      | err e ↦ (err e, l)
      | ok req ↦ tcp_exchange peer tid fc count req (send req l)
    ]
