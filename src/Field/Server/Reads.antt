-- ===== src/Field/Server/Reads.antt =====
-- The bus client of src/twin/plc/link.py against the bus server of src/twin/field/servers/servers.py: the whole
-- way of a read over the line.
use data_gateway.Base.{
  ℕ, zero, suc, ◌+◌, ◌-◌, ◌*◌, ◌/◌, ◌%◌, ◌≤◌, ◌<◌, String, ◌≡◌, refl, sym, ap, ◌∙◌, inl, inr, Bool,
  true, false, some, List, [], ◌∷◌, ◌++◌, append-nil, arith, ltb, ◌==◌, lt→ltb, ==_refl,
  Option-cases, length, take, drop, All, length-append, take-append_left,
}
use data_gateway.Base.Dict.{Dict, get}
use data_gateway.Base.Key.{ℕ_key, pair_key}
use data_gateway.Base.Bits.{IsWord}
use data_gateway.Modbus.Outcome.{ok, Result-cases}
use data_gateway.Modbus.Crc.{with_crc, crc16, crc_ok}
use data_gateway.Modbus.Crc.Bounds.{crc_ok-with_crc}
use data_gateway.Modbus.Pdu.{is_read_fc, rtu_read_request, words_bytes, parse_words_pdu}
use data_gateway.Modbus.Pdu.RoundTrip.{words_pdu-ok}
use data_gateway.Modbus.Stream.{at, read_rtu_frame}
use data_gateway.Modbus.Stream.RoundTrip.{read_rtu_frame-request, read_rtu_frame-words_pdu}
use data_gateway.Plc.Server.{from_bytes}
use data_gateway.Plc.Server.Serves.{read_pdu-ok, read_fc-cases}
use data_gateway.Plc.Link.{answers, ReadResult, Link, send, accept_rtu, rtu_exchange, rtu_read}
use data_gateway.Plc.Link.Served.{parse-response}
use data_gateway.Field.Faults.{FaultManager}
use data_gateway.Field.Device.{RegisterMap, read_registers}
use data_gateway.Field.Server.Quiet.{
  IsQuiet, has_fault-IsFree, has_fault-none, apply_device_faults-IsFree, crc_corrupt-IsFree,
}
use data_gateway.Field.Server.{
  Device, has_fault, apply_device_faults, response_pdu, finish_rtu, handle_rtu, bus_peer,
}

length-read_registers :
    (fc addr n : ℕ) (regs : RegisterMap) (ws : List ℕ)
    → read_registers fc addr n regs ≡ ok ws
    → length ws ≡ n
unfolding read_registers
length-read_registers fc addr zero regs ws h = let e : [] ≡ ws = cc in ap length (sym e)
length-read_registers fc addr (suc n) regs ws h = elim (Option-cases (get (fc, addr) regs)) [
  | inl missing ↦ absurd (cc (rw (read_registers, missing) at h))
  | inr (w, there) ↦ elim (Result-cases (read_registers fc (addr + 1) n regs)) [
    | inr (x, fails) ↦ absurd (cc (rw (read_registers, there, fails) at h))
    | inl (rest, e) ↦
        let same : w ∷ rest ≡ ws = cc (rw (read_registers, there, e) at h) in
        ap length (sym same) ∙ ap suc (length-read_registers fc (addr + 1) n regs rest e)
  ]
]

-- The request of a read, as it goes over the line.
abbrev request_bytes : ℕ → ℕ → ℕ → ℕ → List ℕ
request_bytes unit fc addr count =
    unit ∷ fc ∷ (addr / 256) ∷ (addr % 256) ∷ (count / 256) ∷ (count % 256) ∷ []

rtu_read_request-ok :
    (unit fc addr count : ℕ)
    → unit < 256
    → fc < 256
    → addr < 65536
    → count < 65536
    → rtu_read_request unit fc addr count ≡ ok (with_crc (request_bytes unit fc addr count))
unfolding rtu_read_request
rtu_read_request-ok unit fc addr count hu hf ha hc =
    rw (lt→ltb unit 256 hu, read_pdu-ok fc addr count hf ha hc)

-- The server on such a request, with no fault of the bus or the device active.
handle_rtu-quiet :
    (reads : String → Bool) (now unit fc addr count : ℕ) (bus : String) (unlucky : Bool)
    (devices : Dict ℕ Device) (dev : Device) (ws : List ℕ) (m : FaultManager)
    → IsQuiet now bus dev.code m
    → get unit devices ≡ some dev
    → is_read_fc fc ≡ true
    → fc < 256
    → addr < 65536
    → count < 65536
    → length ws ≤ 127
    → read_registers fc addr count dev.regs ≡ ok ws
    → (handle_rtu reads now bus unlucky devices (with_crc (request_bytes unit fc addr count)) m).0
      ≡ ok (some (with_crc (unit ∷ fc ∷ (length ws * 2) ∷ words_bytes ws)))
unfolding handle_rtu with_crc
handle_rtu-quiet reads now unit fc addr count bus unlucky devices dev ws m quiet known hf small ha
      hc short read =
    let req = with_crc (request_bytes unit fc addr count) in
    let m₁ = (has_fault now "bus_cut" bus m).1 in
    let m₂ = (apply_device_faults reads now dev.code m₁).1 in
    let no_cut = has_fault-none now "bus_cut" bus m quiet.whole_bus in
    let left = λ (type : String). has_fault-IsFree now type dev.code "bus_cut" bus m in
    let (here, intact) =
      apply_device_faults-IsFree reads now "crc_error" dev.code dev.code m₁
        (left "sensor_disconnect" quiet.connected) (left "sensor_delay" quiet.fast)
        (left "crc_error" quiet.intact) in
    let clean = crc_corrupt-IsFree reads now dev.code unlucky m₂ intact in
    let good : crc_ok req ≡ true =
      crc_ok-with_crc (request_bytes unit fc addr count) (omega arith) in
    let a : from_bytes (addr / 256) (addr % 256) ≡ addr = omega arith in
    let c : from_bytes (count / 256) (count % 256) ≡ count = omega arith in
    rw
      (
        handle_rtu,
        no_cut,
        good,
        known,
        here,
        hf,
        a,
        c,
        response_pdu,
        read,
        words_pdu-ok fc ws small short,
        finish_rtu,
        clean,
      )
      refl

-- The server's answer on the line, and the reader of the client.
abbrev response_bytes : ℕ → ℕ → List ℕ → List ℕ
response_bytes unit fc ws = with_crc (unit ∷ fc ∷ (length ws * 2) ∷ words_bytes ws)

read_response :
    (unit fc : ℕ) (ws : List ℕ)
    → fc < 128
    → length ws ≤ 127
    → read_rtu_frame false (response_bytes unit fc ws) ≡ ok (response_bytes unit fc ws, [])
read_response unit fc ws hf short =
    let framed =
      rw (words_pdu-ok fc ws (omega arith) short) at
        (read_rtu_frame-words_pdu unit fc ws [] hf short) in
    ap (read_rtu_frame false) (sym (append-nil (response_bytes unit fc ws))) ∙ framed

read_request :
    (unit fc addr count : ℕ)
    → unit < 256
    → is_read_fc fc ≡ true
    → addr < 65536
    → count < 65536
    → read_rtu_frame true (with_crc (request_bytes unit fc addr count))
      ≡ ok (with_crc (request_bytes unit fc addr count), [])
read_request unit fc addr count hu hf ha hc =
    let req = with_crc (request_bytes unit fc addr count) in
    let framed =
      rw (rtu_read_request-ok unit fc addr count hu (omega (arith, read_fc-cases fc hf)) ha hc) at
        (read_rtu_frame-request unit fc addr count [] hu (ground arith) (ground arith) ha hc) in
    ap (read_rtu_frame true) (sym (append-nil req)) ∙ framed

-- Between the address and the checksum of a frame.
body_of :
    (unit : ℕ) (body : List ℕ)
    → take (length (with_crc (unit ∷ body)) - 3) (drop 1 (with_crc (unit ∷ body))) ≡ body
unfolding with_crc
body_of unit body =
    let tail : List ℕ = crc16 (unit ∷ body) % 256 ∷ crc16 (unit ∷ body) / 256 ∷ [] in
    let n : length body ≡ length (unit ∷ (body ++ tail)) - 3 =
      omega (arith, length-append body tail) in
    take-append_left (length (unit ∷ (body ++ tail)) - 3) body tail n

first_byte : (unit : ℕ) (body : List ℕ) → (at 0 (with_crc (unit ∷ body)) == unit) ≡ true
unfolding with_crc
first_byte unit body = ==_refl unit

-- The client takes the words out of the response.
accept_response :
    (unit fc count rtt : ℕ) (ws req : List ℕ) (l : Link)
    → fc < 128
    → length ws ≡ count
    → count ≤ 127
    → All IsWord ws
    → (accept_rtu unit fc count req rtt (response_bytes unit fc ws) l).0
      ≡ ok (record { words = ws; tx = req; rx = response_bytes unit fc ws; rtt = rtt })
unfolding accept_rtu
accept_response unit fc count rtt ws req l hf n short words =
    let body : List ℕ = fc ∷ (length ws * 2) ∷ words_bytes ws in
    let good : crc_ok (with_crc (unit ∷ body)) ≡ true =
      crc_ok-with_crc (unit ∷ body) (omega arith) in
    let parsed : parse_words_pdu body fc count ≡ ok ws =
      ap (λ k. parse_words_pdu (fc ∷ (k * 2) ∷ words_bytes ws) fc count) n
      ∙ parse-response fc count ws hf n short words in
    rw (accept_rtu, good, first_byte unit body, body_of unit body, parsed) refl

-- A read of registers from a device on a bus, while no fault of the bus or of the device is active, and
-- with an answer that comes within the time-out: the client gets exactly the words that the device's
-- registers hold, through the request, its checksum, the server, the response and its checksum.
pub rtu_read-bus :
    (reads : String → Bool) (rtt timeout now unit fc addr count : ℕ) (bus : String) (unlucky : Bool)
    (devices : Dict ℕ Device) (dev : Device) (ws : List ℕ) (m : FaultManager) (l : Link)
    → unit < 256
    → is_read_fc fc ≡ true
    → addr < 65536
    → count ≤ 125
    → rtt ≤ timeout
    → IsQuiet now bus dev.code m
    → get unit devices ≡ some dev
    → read_registers fc addr count dev.regs ≡ ok ws
    → All IsWord ws
    → (r : ReadResult) × ((rtu_read
          (bus_peer reads rtt now bus unlucky devices m)
          timeout
          unit
          fc
          addr
          count
          l).0
        ≡ ok r)
      × (r.words ≡ ws)
unfolding rtu_read rtu_exchange bus_peer
rtu_read-bus reads rtt timeout now unit fc addr count bus unlucky devices dev ws m l hu hf ha small
      soon quiet known read words =
    let hfc : fc < 128 = read_fc-cases fc hf in
    let n : length ws ≡ count = length-read_registers fc addr count dev.regs ws read in
    let req : List ℕ = with_crc (request_bytes unit fc addr count) in
    let built : rtu_read_request unit fc addr count ≡ ok req =
      rtu_read_request-ok unit fc addr count hu (omega arith) ha (omega arith) in
    let served =
      handle_rtu-quiet reads now unit fc addr count bus unlucky devices dev ws m quiet known hf
        (omega arith) ha (omega arith) (omega arith) read in
    let heard = read_request unit fc addr count hu hf ha (omega arith) in
    let back = read_response unit fc ws hfc (omega arith) in
    let taken = accept_response unit fc count rtt ws req (send req l) hfc n (omega arith) words in
    let r : ReadResult = record {
      words = ws;
      tx = req;
      rx = response_bytes unit fc ws;
      rtt = rtt;
    } in
    let answered : bus_peer reads rtt now bus unlucky devices m req
        ≡ answers rtt (response_bytes unit fc ws) =
      rw (bus_peer, heard, served) refl in
    let waited : ltb timeout rtt ≡ false = ground (arith, soon) in
    (r, rw (rtu_read, built, rtu_exchange, answered, waited, back) taken, refl)
