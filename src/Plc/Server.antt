-- ===== src/Plc/Server.antt =====
-- The Modbus TCP server of `PlcRuntime` (src/twin/plc/runtime.py): `_handle`, and one round of
-- `_on_conn`. Logging is left out; a peer is a text, a record has no time stamp.
pub mod ReadOnly
pub mod Serves
use data_gateway.Base.{
  ℕ, zero, suc, ◌+◌, ◌*◌, String, not, ◌||◌, Option, none, some, List, [], ◌∷◌, ◌++◌, ltb, ◌==◌,
  if◌then◌else◌, length,
}
use data_gateway.Modbus.Outcome.{Error, Result, ok, err, index_error, ◌>>=◌}
use data_gateway.Modbus.Pdu.{
  is_read_fc, exception_pdu, words_pdu, exc_illegal_function, exc_illegal_address,
}
use data_gateway.Modbus.Stream.{at, mbap, read_mbap}
use data_gateway.Plc.Memory.{Memory, mem_words, read}

-- One entry of `write_rejections`.
pub record Rejection : Type 0 where
  pub fc : ℕ
  pub name : String
  pub peer : String
  pub pdu : List ℕ

-- `FC_NAMES.get(fc, "?")`
abbrev pub fc_name : ℕ → String
fc_name fc =
    if fc == 5
    then "Write Single Coil"
    else if fc == 6
    then "Write Single Register"
    else if fc == 15
    then "Write Multiple Coils"
    else if fc == 16
    then "Write Multiple Registers"
    else "?"

-- The part of `PlcRuntime` that a connection can reach.
pub record Plc : Type 0 where
  pub memory : Memory
  pub write_rejections : List Rejection

-- `int.from_bytes(two bytes, "big")`
abbrev pub from_bytes : ℕ → ℕ → ℕ
from_bytes hi lo = hi * 256 + lo

unfoldable pub handle_read : ℕ → List ℕ → Memory → Result (List ℕ)
handle_read fc pdu m =
    let addr = from_bytes (at 1 pdu) (at 2 pdu) in
    let count = from_bytes (at 3 pdu) (at 4 pdu) in
    if not (length pdu == 5)
    then exception_pdu fc exc_illegal_function
    else if ltb count 1 || ltb 125 count || ltb mem_words (addr + count)
    then exception_pdu fc exc_illegal_address
    else words_pdu fc (read addr count m)

unfoldable pub handle : List ℕ → String → Plc → Result (List ℕ) × Plc
unfolding handle_read
handle [] peer p = (err index_error, p)
handle (fc ∷ rest) peer p =
    let pdu : List ℕ = fc ∷ rest in
    if is_read_fc fc then (handle_read fc pdu p.memory, p) else (
      exception_pdu fc exc_illegal_function,
      record p {
        write_rejections =
            p.write_rejections
            ++ (record { fc = fc; name = fc_name fc; peer = peer; pdu = pdu } ∷ []);
      },
    )

-- One round of `_on_conn`: a request is read from the stream, handled, and answered under its own
-- transaction id and unit. The result is the answer and the rest of the stream.
unfoldable pub answer : String → List ℕ → Plc → Result (List ℕ × List ℕ) × Plc
answer peer stream p = elim (read_mbap stream) [
  | err e ↦ (err e, p)
  | ok ((tid, unit, pdu), rest) ↦
      let (body, p') = handle pdu peer p in
      (do b ← body; frame ← mbap tid unit b; ok (frame, rest), p')
]

-- The loop of `_on_conn` for `n` requests: the answers in their order, the rest of the stream, and
-- the exception that ended the connection, if one did.
unfoldable pub connection : ℕ → String → List ℕ → Plc → List (List ℕ) × Option Error × Plc
connection zero peer stream p = ([], none, p)
connection (suc n) peer stream p =
    let (r, p') = answer peer stream p in
    elim r [
      | err e ↦ ([], some e, p')
      | ok (frame, rest) ↦ let (frames, e, q) = connection n peer rest p' in (frame ∷ frames, e, q)
    ]
