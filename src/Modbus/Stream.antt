-- ===== src/Modbus/Stream.antt =====
-- The readers of src/twin/common/modbus.py over a stream: `read_rtu_frame`, `mbap` and `read_mbap`.
-- A stream is the list of bytes that the peer sends before it closes; `readexactly` raises
-- `IncompleteReadError` where it ends too early. A reader returns its value and what is left.
pub mod RoundTrip
use data_gateway.Base.{
  ℕ, ◌+◌, ◌-◌, ◌*◌, bit_and, Bool, not, ◌&&◌, ◌||◌, none, some, List, ◌++◌, ltb, leb, ◌==◌,
  if◌then◌else◌, length, get_elem?, take, drop,
}
use data_gateway.Modbus.Outcome.{
  Result, ok, err, frame_err, incomplete_read, ◌>>=◌, pack_byte, pack_be,
}

abbrev pub Reader : Type 0 → Type 0
Reader A = List ℕ → Result (A × List ℕ)

-- `await reader.readexactly(n)`
unfoldable pub readexactly : ℕ → Reader (List ℕ)
readexactly n s = if ltb (length s) n then err incomplete_read else ok (take n s, drop n s)

-- `xs[i]` on what `readexactly` has returned with more than `i` bytes
abbrev pub at : ℕ → List ℕ → ℕ
at i xs = elim (get_elem? xs i) [ none ↦ 0 | some b ↦ b ]

-- `fc in (1, 2, 3, 4, 5, 6)`
abbrev pub is_fixed_request : ℕ → Bool
is_fixed_request fc = leb 1 fc && leb fc 6

-- The rest of a request, after its first two bytes.
unfoldable pub read_request_rest : ℕ → Reader (List ℕ)
read_request_rest fc s =
    if is_fixed_request fc
    then readexactly 6 s
    else if fc == 15 || fc == 16
    then (do
      (mid, s₁) ← readexactly 5 s
      (data_crc, s₂) ← readexactly (at 4 mid + 2) s₁
      ok (mid ++ data_crc, s₂))
    else err frame_err

-- The rest of a response: three bytes of an exception, or a byte count and what it announces.
unfoldable pub read_response_rest : ℕ → Reader (List ℕ)
read_response_rest fc s = if not (bit_and fc 0x80 == 0) then readexactly 3 s else (do
  (n, s₁) ← readexactly 1 s
  (body, s₂) ← readexactly (at 0 n + 2) s₁
  ok (n ++ body, s₂))

unfoldable pub read_rtu_frame : Bool → Reader (List ℕ)
unfolding read_request_rest read_response_rest
read_rtu_frame request s = do
  (head, s₁) ← readexactly 2 s
  let fc = at 1 head
  (rest, s₂) ← if request then read_request_rest fc s₁ else read_response_rest fc s₁
  ok (head ++ rest, s₂)

-- `struct.pack(">HHHB", tid & 0xFFFF, 0, len(pdu) + 1, unit) + pdu`
unfoldable pub mbap : ℕ → ℕ → List ℕ → Result (List ℕ)
mbap tid unit pdu = do
  t ← pack_be (bit_and tid 0xffff)
  p ← pack_be 0
  n ← pack_be (length pdu + 1)
  u ← pack_byte unit
  ok ((t ++ (p ++ (n ++ u))) ++ pdu)

-- `(tid, unit, pdu)`
unfoldable pub read_mbap : Reader (ℕ × ℕ × List ℕ)
read_mbap s = do
  (head, s₁) ← readexactly 7 s
  let tid = at 0 head * 256 + at 1 head
  let pid = at 2 head * 256 + at 3 head
  let len = at 4 head * 256 + at 5 head
  let unit = at 6 head
  if not (pid == 0) || ltb len 2 || ltb 260 len
      then err frame_err
      else (do (pdu, s₂) ← readexactly (len - 1) s₁; ok ((tid, unit, pdu), s₂))
