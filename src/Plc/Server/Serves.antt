-- ===== src/Plc/Server/Serves.antt =====
-- What a client reads from the PLC is what its D area holds.
use data_gateway.Base.{
  ℕ, zero, suc, ◌+◌, ◌*◌, ◌/◌, ◌%◌, ◌≤◌, ◌<◌, String, ◌≡◌, sym, ap, ◌∙◌, true, false, List, [], ◌∷◌,
  arith, ltb, lt→ltb, length, take, drop, All, length-take, length-drop,
}
use data_gateway.Base.Bits.{IsWord}
use data_gateway.Modbus.Outcome.{Result, ok, ◌>>=◌}
use data_gateway.Modbus.Pdu.{is_read_fc, read_pdu, words_pdu, parse_words_pdu}
use data_gateway.Modbus.Pdu.RoundTrip.{parse-words_pdu}
use data_gateway.Plc.Memory.{Memory, mem_words, read}
use data_gateway.Plc.Memory.Laws.{IsMemory}
use data_gateway.Plc.Server.{Plc, handle_read, handle}

take-IsWord : (n : ℕ) (ws : List ℕ) → All IsWord ws → All IsWord (take n ws)
take-IsWord zero ws h = tt
take-IsWord (suc n) [] h = tt
take-IsWord (suc n) (w ∷ ws) h = (h.0, take-IsWord n ws h.1)

drop-IsWord : (n : ℕ) (ws : List ℕ) → All IsWord ws → All IsWord (drop n ws)
drop-IsWord zero ws h = h
drop-IsWord (suc n) [] h = tt
drop-IsWord (suc n) (w ∷ ws) h = drop-IsWord n ws h.1

pub read-IsWord : (addr count : ℕ) (m : Memory) → IsMemory m → All IsWord (read addr count m)
unfolding read
read-IsWord addr count m h = take-IsWord count _ (drop-IsWord addr m.words h.words)

pub length-read :
    (addr count : ℕ) (m : Memory)
    → addr + count ≤ length m.words
    → length (read addr count m) ≡ count
unfolding read
length-read addr count m h =
    omega (arith, length-take {0} count (drop addr m.words), length-drop {0} addr m.words)

-- The test of `_handle` on the address and the count of a read.
abbrev pub InRange : ℕ → ℕ → Type 0
InRange addr count = (1 ≤ count) × (count ≤ 125) × (addr + count ≤ mem_words)

handle_read-words :
    (fc addr count : ℕ) (m : Memory)
    → addr < 65536
    → count < 65536
    → InRange addr count
    → handle_read fc (fc ∷ (addr / 256) ∷ (addr % 256) ∷ (count / 256) ∷ (count % 256) ∷ []) m
      ≡ words_pdu fc (read addr count m)
unfolding handle_read
handle_read-words fc addr count m ha hc (low, high, fits) =
    let a : addr / 256 * 256 + addr % 256 ≡ addr = omega arith in
    let c : count / 256 * 256 + count % 256 ≡ count = omega arith in
    rw (
      a,
      c,
      not_below count 1 low,
      not_below 125 count high,
      not_below mem_words (addr + count) fits,
    )
  where
    not_below : (a b : ℕ) → b ≤ a → ltb a b ≡ false
    not_below a b h = ground arith

pub read_pdu-ok :
    (fc addr count : ℕ)
    → fc < 256
    → addr < 65536
    → count < 65536
    → read_pdu fc addr count
      ≡ ok (fc ∷ (addr / 256) ∷ (addr % 256) ∷ (count / 256) ∷ (count % 256) ∷ [])
unfolding read_pdu
read_pdu-ok fc addr count hf ha hc =
    rw (lt→ltb fc 256 hf, lt→ltb addr 65536 ha, lt→ltb count 65536 hc)

pub read_fc-cases : (fc : ℕ) → is_read_fc fc ≡ true → fc < 128
read_fc-cases fc h = ground arith

-- The request as it comes off the wire, and the PDU that answers it.
abbrev pub request : ℕ → ℕ → ℕ → List ℕ
request fc addr count = fc ∷ (addr / 256) ∷ (addr % 256) ∷ (count / 256) ∷ (count % 256) ∷ []

pub handle-request :
    (fc addr count : ℕ) (peer : String) (p : Plc)
    → is_read_fc fc ≡ true
    → InRange addr count
    → handle (request fc addr count) peer p ≡ (words_pdu fc (read addr count p.memory), p)
unfolding handle
handle-request fc addr count peer p hf range =
    rw hf (
      ap (λ t. (t, p)) (handle_read-words fc addr count p.memory (omega arith) (omega arith) range))

-- A read of 1 to 125 words inside the D area returns exactly those words to the client, under
-- either read function code.
pub handle_serves :
    (fc addr count : ℕ) (peer : String) (p : Plc)
    → is_read_fc fc ≡ true
    → InRange addr count
    → IsMemory p.memory
    → length p.memory.words ≡ mem_words
    → (read_pdu fc addr count >>= λ req.
        (handle req peer p).0 >>= λ pdu. parse_words_pdu pdu fc count)
      ≡ ok (read addr count p.memory)
handle_serves fc addr count peer p hf range valid size =
    let small = read_fc-cases fc hf in
    let ws = read addr count p.memory in
    let len : length ws ≡ count = length-read addr count p.memory (omega arith) in
    rw (read_pdu-ok fc addr count (omega arith) (omega arith) (omega arith)) (
      ap (λ (r : Result (List ℕ) × Plc). r.0 >>= λ pdu. parse_words_pdu pdu fc count)
        (handle-request fc addr count peer p hf range)
      ∙ ap (λ n. words_pdu fc ws >>= λ pdu. parse_words_pdu pdu fc n) (sym len)
      ∙ parse-words_pdu fc ws small (omega arith) (read-IsWord addr count p.memory valid))
