-- ===== src/Examples/Modbus.antt =====
-- Examples of the protocol layer: checksums, PDUs, frames and values.
use data_gateway.Base.{
  ℕ, ◌<◌, ◌≡◌, refl, ◌⊎◌, Bool, true, false, ◌&&◌, none, List, [], ◌∷◌, ◌++◌, arith, ltb, length,
  All,
}
use data_gateway.Base.Bits.{IsWord}
use data_gateway.Base.Int.{ℤ, pos}
use data_gateway.Base.Key.{String_key, pair_key}
use data_gateway.Base.Floats.{Floats, whole}
use data_gateway.Modbus.Outcome.{Error, ok, err, overflow_error, ◌>>=◌}
use data_gateway.Modbus.Crc.{shift, shifts, crc_from, crc16, with_crc, crc_ok}
use data_gateway.Modbus.Crc.Detects.{crc_ok_single_byte}
use data_gateway.Modbus.Pdu.{words_pdu, unpack_words, parse_words_pdu}
use data_gateway.Modbus.Pdu.RoundTrip.{parse-words_pdu, parse_words_pdu-exact}
use data_gateway.Modbus.Stream.{read_rtu_frame, mbap, read_mbap}
use data_gateway.Modbus.Stream.RoundTrip.{read_rtu_frame-words_pdu, read_mbap-mbap}
use data_gateway.Modbus.Value.{ItemType, encode_raw, encode_value, quantise}
use data_gateway.Modbus.Value.RoundTrip.{Holds, saturate, encode_value-saturates}

abbrev below : ℕ → List ℕ → Bool
below k [] = true
below k (x ∷ xs) = ltb x k && below k xs

All-below : (k : ℕ) (xs : List ℕ) → below k xs ≡ true → All (λ x. x < k) xs
All-below k [] h = tt
All-below k (x ∷ xs) h = (ground arith, All-below k xs (ground arith))

-- A read of one register from address 0 of slave 1, with its checksum 84 0A.
good_frame : crc_ok (1 ∷ 3 ∷ 0 ∷ 0 ∷ 0 ∷ 1 ∷ 0x84 ∷ 0x0a ∷ []) ≡ true
unfolding crc_ok crc16 crc_from shift shifts
good_frame = refl

crc_ok_single_byte_example : crc_ok (1 ∷ 3 ∷ 0 ∷ 0 ∷ 0 ∷ 2 ∷ 0x84 ∷ 0x0a ∷ []) ≡ false
crc_ok_single_byte_example =
    crc_ok_single_byte (1 ∷ 3 ∷ 0 ∷ 0 ∷ 0 ∷ []) (0x84 ∷ 0x0a ∷ []) 1 2
      (All-below 256 (1 ∷ 3 ∷ 0 ∷ 0 ∷ 0 ∷ []) refl) (All-below 256 (0x84 ∷ 0x0a ∷ []) refl)
      (omega arith) (omega arith) (λ e. absurd (omega arith)) good_frame

abbrev two_words : List ℕ
two_words = 258 ∷ 65535 ∷ []

two_words-IsWord : All IsWord two_words
two_words-IsWord = All-below 65536 two_words refl

parse-words_pdu_example :
    (words_pdu 3 two_words >>= λ pdu. parse_words_pdu pdu 3 (length two_words)) ≡ ok two_words
parse-words_pdu_example = parse-words_pdu 3 two_words (omega arith) (omega arith) two_words-IsWord

parsed_response : parse_words_pdu (3 ∷ 4 ∷ 1 ∷ 2 ∷ 255 ∷ 255 ∷ []) 3 2 ≡ ok two_words
unfolding parse_words_pdu unpack_words
parsed_response = refl

parse_words_pdu-exact_example :
    (length two_words ≡ 2) × (words_pdu 3 two_words ≡ ok (3 ∷ 4 ∷ 1 ∷ 2 ∷ 255 ∷ 255 ∷ []))
parse_words_pdu-exact_example =
    parse_words_pdu-exact 3 2 (3 ∷ 4 ∷ 1 ∷ 2 ∷ 255 ∷ 255 ∷ []) two_words
      (All-below 256 (3 ∷ 4 ∷ 1 ∷ 2 ∷ 255 ∷ 255 ∷ []) refl) parsed_response

read_rtu_frame-words_pdu_example :
    (words_pdu 3 two_words >>= λ pdu. read_rtu_frame false (with_crc (1 ∷ pdu) ++ (7 ∷ [])))
    ≡ (words_pdu 3 two_words >>= λ pdu. ok (with_crc (1 ∷ pdu), 7 ∷ []))
read_rtu_frame-words_pdu_example =
    read_rtu_frame-words_pdu 1 3 two_words (7 ∷ []) (omega arith) (omega arith)

read_mbap-mbap_example :
    (mbap 65537 9 (3 ∷ 2 ∷ 0 ∷ 5 ∷ []) >>= λ frame. read_mbap (frame ++ (0 ∷ [])))
    ≡ ok ((1, 9, 3 ∷ 2 ∷ 0 ∷ 5 ∷ []), 0 ∷ [])
read_mbap-mbap_example =
    read_mbap-mbap 65537 9 (3 ∷ 2 ∷ 0 ∷ 5 ∷ []) (0 ∷ []) (omega arith) (omega arith) (omega arith)

-- Numbers of which none can be rounded, as no infinity can.
abbrev unbounded : Floats
unbounded = record whole { round_int = λ n. none }

encode_value-saturates_example :
    ((n : ℤ) × (ws : List ℕ) × (quantise whole (pos 70000) (pos 1) ≡ ok n)
      × (encode_value whole (pos 70000) ItemType.uint16 (pos 1) ≡ ok ws)
      × Holds ws ItemType.uint16 (saturate ItemType.uint16 n))
    ⊎ ((x : Error) × (quantise whole (pos 70000) (pos 1) ≡ err x)
        × (encode_value whole (pos 70000) ItemType.uint16 (pos 1) ≡ err x))
encode_value-saturates_example =
    encode_value-saturates whole (pos 70000) (pos 1) ItemType.uint16 (λ e. cc) (λ e. cc)

overflows : encode_value unbounded (pos 70000) ItemType.uint16 (pos 1) ≡ err overflow_error
unfolding encode_value quantise
overflows = refl

saturates : encode_value whole (pos 70000) ItemType.uint16 (pos 1) ≡ ok (65535 ∷ [])
unfolding encode_value quantise encode_raw
saturates = refl
