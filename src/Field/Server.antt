-- ===== src/Field/Server.antt =====
-- `RtuBusServer` and `ModbusTcpDeviceServer` of src/twin/field/servers/servers.py. The registers of a device
-- are what its `register_map` returns; whether the random number of `_crc_corrupt` is below the ratio is an
-- argument. The clock is read once for a request; waiting is left out.
pub mod Quiet
pub mod Reads
use data_gateway.Base.{
  ℕ, zero, suc, ◌+◌, ◌-◌, ◌*◌, ◌/◌, ◌%◌, ◌^◌, ◌≤◌, ◌<◌, min, max, bit_and, bit_or, bit_xor, String,
  ◌≡◌, refl, sym, ap, ap₂, subst, ◌∙◌, ◌≢◌, ◌↔◌, ◌⊎◌, inl, inr, Bool, true, false, not, ◌&&◌, ◌||◌,
  Option, none, some, List, [], ◌∷◌, ◌++◌, map, append-nil, append_assoc, arith, ltb, leb, ◌==◌,
  if◌then◌else◌, ltb→lt, ltb→ge, lt→ltb, leb→le, leb→gt, le→leb, gt→leb, ==_iff, ==_refl, ==_ne,
  Bool-cases, Option-cases, and_parts, length, get_elem?, take, drop, replicate, set, keep,
  count_if, sum_by, All, length-append, length-set, length-take, length-drop, take-append_left,
  drop-append_left, get_elem?-set_self, get_elem?-set_ne, sum_by-append, All-append, get_elem?-take,
  get_elem?-drop, All-keep,
}
use data_gateway.Base.Dict.{
  Dict, get, put, remove, has, get_or, get-put, get-remove, get-put_self, get-put_ne,
  get-remove_self, get-remove_ne,
}
use data_gateway.Base.Key.{ℕ_key, String_key}
use data_gateway.Modbus.Outcome.{
  Error, Result, ok, err, timeout_err, crc_err, frame_err, exception_response, struct_error,
  value_error, index_error, key_error, incomplete_read, assertion_error, type_error, ◌>>=◌, kind,
  index, pack_byte, pack_be, Result-cases,
}
use data_gateway.Modbus.Crc.{with_crc, crc_ok}
use data_gateway.Modbus.Pdu.{
  is_read_fc, exception_pdu, words_pdu, exc_illegal_function, exc_illegal_address,
}
use data_gateway.Modbus.Stream.{at, mbap, read_mbap, read_rtu_frame}
use data_gateway.Plc.Link.{Answer, silent, answers, Peer}
use data_gateway.Plc.Server.{from_bytes}
use data_gateway.Field.Faults.{Fault, FaultManager, find}
use data_gateway.Field.Device.{RegisterMap, read_registers}

pub record Device : Type 0 where
  pub code : String
  pub regs : RegisterMap

-- `faults.has(…)`
unfoldable pub has_fault : ℕ → String → String → FaultManager → Bool × FaultManager
has_fault now type target m =
    let (f, m') = find now type target m in (elim f [ none ↦ false | some _ ↦ true ], m')

-- `float(f.params[k])`: whether it returns; `reads` says of which texts `float` makes a number.
abbrev pub number_param : (String → Bool) → String → Fault → Result (Unit {0})
number_param reads k f = elim (get k f.params) [
  | none ↦ err key_error
  | some text ↦ if reads text then ok tt else err value_error
]

-- `_apply_device_faults`: whether the device answers, or an exception. A delay waits.
unfoldable pub apply_device_faults :
    (String → Bool) → ℕ → String → FaultManager → Result Bool × FaultManager
apply_device_faults reads now code m =
    let (cut, m₁) = has_fault now "sensor_disconnect" code m in
    let (delay, m₂) = find now "sensor_delay" code m₁ in
    if cut then (ok false, m₁) else elim delay [
      | none ↦ (ok true, m₂)
      | some f ↦ (number_param reads "ms" f >>= λ _. ok true, m₂)
    ]

-- `_crc_corrupt`; `unlucky` is `rng.random() < ratio`
unfoldable pub crc_corrupt :
    (String → Bool) → ℕ → String → Bool → FaultManager → Result Bool × FaultManager
crc_corrupt reads now code unlucky m =
    let (fault, m') = find now "crc_error" code m in
    elim fault [
      | none ↦ (ok false, m')
      | some f ↦ (number_param reads "ratio" f >>= λ _. ok unlucky, m')
    ]

-- The response body: the words, or the exception.
unfoldable pub response_pdu : ℕ → ℕ → ℕ → RegisterMap → Result (List ℕ)
response_pdu fc addr count regs = elim (read_registers fc addr count regs) [
  | ok words ↦ words_pdu fc words
  | err (exception_response code) ↦ exception_pdu fc code
  | err e ↦ err e
]

-- `resp[:-1] + bytes([resp[-1] ^ 0xFF])`
abbrev pub flip_last : List ℕ → List ℕ
flip_last [] = []
flip_last (b ∷ []) = bit_xor b 0xff ∷ []
flip_last (b ∷ c ∷ bs) = b ∷ flip_last (c ∷ bs)

-- `_handle` from the PDU on
unfoldable pub finish_rtu :
    (String → Bool)
    → ℕ
    → ℕ
    → Bool
    → String
    → Result (List ℕ)
    → FaultManager
    → Result (Option (List ℕ)) × FaultManager
unfolding crc_corrupt
finish_rtu reads now unit unlucky code pdu m = elim pdu [
  | err e ↦ (err e, m)
  | ok body ↦
      let (corrupt, m') = crc_corrupt reads now code unlucky m in
      let resp = with_crc (unit ∷ body) in
      (corrupt >>= λ c. ok (some (if c then flip_last resp else resp)), m')
]

-- `RtuBusServer._handle`: the response, none where the bus stays silent, or an exception, which ends
-- the connection.
unfoldable pub handle_rtu :
    (String → Bool)
    → ℕ
    → String
    → Bool
    → Dict ℕ Device
    → List ℕ
    → FaultManager
    → Result (Option (List ℕ)) × FaultManager
unfolding apply_device_faults response_pdu finish_rtu
handle_rtu reads now bus unlucky devices req m =
    let (cut, m₁) = has_fault now "bus_cut" bus m in
    let unit = at 0 req in
    let fc = at 1 req in
    let addr = from_bytes (at 2 req) (at 3 req) in
    let count = from_bytes (at 4 req) (at 5 req) in
    if cut || not (crc_ok req) then (ok none, m₁) else elim (get unit devices) [
      | none ↦ (ok none, m₁)
      | some dev ↦
          let (answers?, m₂) = apply_device_faults reads now dev.code m₁ in
          let pdu =
            if is_read_fc fc
            then response_pdu fc addr count dev.regs
            else exception_pdu fc exc_illegal_function in
          elim answers? [
            | err e ↦ (err e, m₂)
            | ok false ↦ (ok none, m₂)
            | ok true ↦ finish_rtu reads now unit unlucky dev.code pdu m₂
          ]
    ]

-- One request on the bus, as the other end of a link sees it: what `serve` writes after so many
-- microseconds. A frame that cannot be read, and an exception, leave the line silent.
unfoldable pub bus_peer :
    (String → Bool) → ℕ → ℕ → String → Bool → Dict ℕ Device → FaultManager → Peer
unfolding handle_rtu
bus_peer reads rtt now bus unlucky devices m req = elim (read_rtu_frame true req) [
  | err e ↦ silent
  | ok (frame, rest) ↦ elim (handle_rtu reads now bus unlucky devices frame m).0 [
    | ok (some resp) ↦ answers rtt resp
    | _ ↦ silent
  ]
]

-- `ModbusTcpDeviceServer.serve`, one round: the transaction id, the unit and the PDU of a request, and
-- the response, none where the device does not answer, or an exception.
unfoldable pub serve_tcp :
    (String → Bool)
    → ℕ
    → Bool
    → Device
    → ℕ
    → ℕ
    → List ℕ
    → FaultManager
    → Result (Option (List ℕ)) × FaultManager
unfolding apply_device_faults response_pdu crc_corrupt
serve_tcp reads now unlucky dev tid unit pdu m =
    let (answers?, m₁) = apply_device_faults reads now dev.code m in
    let fc = at 0 pdu in
    let addr = from_bytes (at 1 pdu) (at 2 pdu) in
    let count = from_bytes (at 3 pdu) (at 4 pdu) in
    let out =
      if not (is_read_fc fc) || not (length pdu == 5)
      then exception_pdu fc exc_illegal_function
      else response_pdu fc addr count dev.regs in
    let (corrupt, m₂) = crc_corrupt reads now dev.code unlucky m₁ in
    elim answers? [
      | err e ↦ (err e, m₁)
      | ok false ↦ (ok none, m₁)
      | ok true ↦ elim out [
        | err e ↦ (err e, m₁)
        | ok body ↦ (
          do
            c ← corrupt
            frame ← mbap tid unit (if c then take (length body - 1) body else body)
            ok (some frame),
          m₂,
        )
      ]
    ]
