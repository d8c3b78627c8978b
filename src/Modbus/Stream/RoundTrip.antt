-- ===== src/Modbus/Stream/RoundTrip.antt =====
-- The stream readers return exactly the frame that the writers made, and leave what follows it.
use data_gateway.Base.{
  ℕ, ◌+◌, ◌-◌, ◌*◌, ◌/◌, ◌%◌, ◌≤◌, ◌<◌, bit_and, ◌≡◌, refl, true, false, List, [], ◌∷◌, ◌++◌, arith,
  ltb, lt→ltb, le→leb, length, length-append, take-append_left, drop-append_left,
}
use data_gateway.Base.Bits.{bit_and_ffff, bit_and_80}
use data_gateway.Modbus.Outcome.{ok, ◌>>=◌}
use data_gateway.Modbus.Crc.{crc16, with_crc}
use data_gateway.Modbus.Pdu.{rtu_read_request, words_pdu, words_bytes}
use data_gateway.Modbus.Pdu.RoundTrip.{length-words_bytes, words_pdu-ok}
use data_gateway.Modbus.Stream.{readexactly, read_rtu_frame, mbap, read_mbap}

pub readexactly-append :
    (n : ℕ) (xs ys : List ℕ) → length xs ≡ n → readexactly n (xs ++ ys) ≡ ok (xs, ys)
unfolding readexactly
readexactly-append n xs ys e = rw (long, take-append_left n xs ys e, drop-append_left n xs ys e)
  where
    long : ltb (length (xs ++ ys)) n ≡ false
    long = ground (arith, length-append xs ys)

-- A response whose byte count announces its length, then two checksum bytes and what follows.
response_frame :
    (unit fc : ℕ) (body tail rest : List ℕ)
    → fc < 128
    → length tail ≡ 2
    → read_rtu_frame false (unit ∷ fc ∷ length body ∷ ((body ++ tail) ++ rest))
      ≡ ok (unit ∷ fc ∷ length body ∷ (body ++ tail), rest)
unfolding read_rtu_frame
response_frame unit fc body tail rest h two =
    let clear : bit_and fc 0x80 ≡ 0 = omega (arith, bit_and_80 fc) in
    let long : length (body ++ tail) ≡ length body + 2 =
      omega (arith, length-append {0} body tail) in
    rw (
      readexactly-append 2 (unit ∷ fc ∷ []) (length body ∷ ((body ++ tail) ++ rest)) refl,
      clear,
      readexactly-append 1 (length body ∷ []) ((body ++ tail) ++ rest) refl,
      readexactly-append (length body + 2) (body ++ tail) rest long,
    )

-- An RTU response to a read, however it is followed on the line, is read as one frame, and the rest
-- of the line stays for the next read.
pub read_rtu_frame-words_pdu :
    (unit fc : ℕ) (ws rest : List ℕ)
    → fc < 128
    → length ws ≤ 127
    → (words_pdu fc ws >>= λ pdu. read_rtu_frame false (with_crc (unit ∷ pdu) ++ rest))
      ≡ (words_pdu fc ws >>= λ pdu. ok (with_crc (unit ∷ pdu), rest))
unfolding with_crc
read_rtu_frame-words_pdu unit fc ws rest h n = rw (words_pdu-ok fc ws (omega arith) n) (
    rw (← length-words_bytes ws) (
      let body : List ℕ = unit ∷ fc ∷ length (words_bytes ws) ∷ words_bytes ws in
      let tail : List ℕ = crc16 body % 256 ∷ crc16 body / 256 ∷ [] in
      response_frame unit fc (words_bytes ws) tail rest h refl))

-- So is an exception response, five bytes long.
pub read_rtu_frame-exception :
    (unit fc code : ℕ) (rest : List ℕ)
    → fc < 128
    → read_rtu_frame false (with_crc (unit ∷ (fc + 128) ∷ code ∷ []) ++ rest)
      ≡ ok (with_crc (unit ∷ (fc + 128) ∷ code ∷ []), rest)
unfolding read_rtu_frame with_crc
read_rtu_frame-exception unit fc code rest h =
    let body : List ℕ = unit ∷ (fc + 128) ∷ code ∷ [] in
    let tail : List ℕ = crc16 body % 256 ∷ crc16 body / 256 ∷ [] in
    let marked : bit_and (fc + 128) 0x80 ≡ 128 = omega (arith, bit_and_80 (fc + 128)) in
    rw (
      readexactly-append 2 (unit ∷ (fc + 128) ∷ []) (code ∷ (tail ++ rest)) refl,
      marked,
      readexactly-append 3 (code ∷ tail) rest refl,
    )

-- A read request is read whole by the device at the other end of the bus.
pub read_rtu_frame-request :
    (unit fc addr count : ℕ) (rest : List ℕ)
    → unit < 256
    → 1 ≤ fc
    → fc ≤ 6
    → addr < 65536
    → count < 65536
    → (rtu_read_request unit fc addr count >>= λ req. read_rtu_frame true (req ++ rest))
      ≡ (rtu_read_request unit fc addr count >>= λ req. ok (req, rest))
unfolding read_rtu_frame rtu_read_request with_crc
read_rtu_frame-request unit fc addr count rest hu h1 h6 ha hc =
    let body : List ℕ =
      unit ∷ fc ∷ (addr / 256) ∷ (addr % 256) ∷ (count / 256) ∷ (count % 256) ∷ [] in
    let tail : List ℕ = crc16 body % 256 ∷ crc16 body / 256 ∷ [] in
    let six : List ℕ = (addr / 256) ∷ (addr % 256) ∷ (count / 256) ∷ (count % 256) ∷ tail in
    rw (
      lt→ltb unit 256 hu,
      lt→ltb fc 256 (omega arith),
      lt→ltb addr 65536 ha,
      lt→ltb count 65536 hc,
      readexactly-append 2 (unit ∷ fc ∷ []) (six ++ rest) refl,
      le→leb 1 fc h1,
      le→leb fc 6 h6,
      readexactly-append 6 six rest refl,
    )

-- A Modbus TCP frame is read back as its transaction id (modulo 2¹⁶), its unit and its PDU, for
-- every PDU of 1 to 259 bytes, and what follows it stays on the stream.
pub read_mbap-mbap :
    (tid unit : ℕ) (pdu rest : List ℕ)
    → unit < 256
    → 1 ≤ length pdu
    → length pdu ≤ 259
    → (mbap tid unit pdu >>= λ frame. read_mbap (frame ++ rest))
      ≡ ok ((tid % 65536, unit, pdu), rest)
unfolding mbap read_mbap
read_mbap-mbap tid unit pdu rest hu lo hi =
    let n = length pdu + 1 in
    let t : ℕ = tid % 65536 in
    let head : List ℕ = t / 256 ∷ t % 256 ∷ 0 ∷ 0 ∷ n / 256 ∷ n % 256 ∷ unit ∷ [] in
    let same_tid : t / 256 * 256 + t % 256 ≡ t = omega arith in
    let same_len : n / 256 * 256 + n % 256 ≡ n = omega arith in
    let pred : n - 1 ≡ length pdu = omega arith in
    rw (
      bit_and_ffff tid,
      lt→ltb t 65536 (omega arith),
      lt→ltb n 65536 (omega arith),
      lt→ltb unit 256 hu,
      readexactly-append 7 head (pdu ++ rest) refl,
      same_tid,
      same_len,
      ltb_false n 2 (omega arith),
      ltb_false 260 n (omega arith),
      pred,
      readexactly-append (length pdu) pdu rest refl,
    )
  where
    ltb_false : (a b : ℕ) → b ≤ a → ltb a b ≡ false
    ltb_false a b h = ground arith
