-- ===== src/Modbus/Pdu.antt =====
-- The request and response bodies of src/twin/common/modbus.py, and the response parser.
pub mod RoundTrip
use data_gateway.Base.{
  ℕ, ◌+◌, ◌*◌, ◌/◌, ◌%◌, bit_and, bit_or, Bool, not, ◌&&◌, ◌||◌, List, [], ◌∷◌, ◌++◌, ltb, ◌==◌,
  if◌then◌else◌, length, drop,
}
use data_gateway.Modbus.Outcome.{
  Result, ok, err, frame_err, exception_response, value_error, ◌>>=◌, pack_byte, pack_be,
}
use data_gateway.Modbus.Crc.{with_crc}

abbrev pub exc_illegal_function : ℕ
exc_illegal_function = 1

abbrev pub exc_illegal_address : ℕ
exc_illegal_address = 2

-- `fc in READ_FCS`
abbrev pub is_read_fc : ℕ → Bool
is_read_fc fc = fc == 3 || fc == 4

unfoldable pub read_pdu : ℕ → ℕ → ℕ → Result (List ℕ)
read_pdu fc addr count = do
  f ← pack_byte fc
  a ← pack_be addr
  n ← pack_be count
  ok (f ++ (a ++ n))

-- `bytes([unit])` raises ValueError outside 0..255; the arguments are evaluated in this order.
unfoldable pub rtu_read_request : ℕ → ℕ → ℕ → ℕ → Result (List ℕ)
unfolding read_pdu
rtu_read_request unit fc addr count =
    if ltb unit 256
    then (do pdu ← read_pdu fc addr count; ok (with_crc (unit ∷ pdu)))
    else err value_error

-- Every word is masked to sixteen bits, high byte first.
unfoldable pub words_bytes : List ℕ → List ℕ
words_bytes [] = []
words_bytes (w ∷ ws) = (bit_and w 0xffff / 256) ∷ (bit_and w 0xffff % 256) ∷ words_bytes ws

unfoldable pub words_pdu : ℕ → List ℕ → Result (List ℕ)
words_pdu fc words = do
  f ← pack_byte fc
  n ← pack_byte (length words * 2)
  ok (f ++ (n ++ words_bytes words))

-- `bytes([fc | 0x80, code])`
unfoldable pub exception_pdu : ℕ → ℕ → Result (List ℕ)
exception_pdu fc code =
    if ltb (bit_or fc 0x80) 256 && ltb code 256
    then ok (bit_or fc 0x80 ∷ code ∷ [])
    else err value_error

-- `struct.unpack(">{n}H", data)` once the length has been checked
unfoldable pub unpack_words : List ℕ → List ℕ
unpack_words (hi ∷ lo ∷ rest) = (hi * 256 + lo) ∷ unpack_words rest
unpack_words _ = []

-- `pdu[1]`, read only where there are two bytes
abbrev pub second : List ℕ → ℕ
second (_ ∷ n ∷ _) = n
second _ = 0

unfoldable pub parse_words_pdu : List ℕ → ℕ → ℕ → Result (List ℕ)
parse_words_pdu [] fc count = err frame_err
parse_words_pdu (f ∷ rest) fc count =
    let pdu : List ℕ = f ∷ rest in
    if f == bit_or fc 0x80
    then err (exception_response (if ltb 1 (length pdu) then second pdu else 0))
    else if not (f == fc)
        || ltb (length pdu) 2
        || not (second pdu == count * 2)
        || not (length pdu == 2 + count * 2)
    then err frame_err
    else ok (unpack_words (drop 2 pdu))
