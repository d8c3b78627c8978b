-- ===== src/Edge/Driver.antt =====
-- The drivers of src/twin/edge/collectors.py for devices that the Edge reads itself. A link or a client is
-- an argument: a state, with what a request to it does. Times are readings of the monotonic clock in
-- microseconds; a poll reads the clock once.
pub mod Scale
use data_gateway.Base.{
  ℕ, zero, suc, ◌+◌, ◌-◌, ◌*◌, ◌/◌, ◌%◌, ◌^◌, ◌≤◌, ◌<◌, min, max, bit_and, bit_or, bit_xor, String,
  ◌≡◌, refl, sym, ap, ap₂, subst, ◌∙◌, ◌≢◌, ◌↔◌, ◌⊎◌, inl, inr, Bool, true, false, not, ◌&&◌, ◌||◌,
  Option, none, some, List, [], ◌∷◌, ◌++◌, map, append-nil, append_assoc, arith, ltb, leb, ◌==◌,
  if◌then◌else◌, ltb→lt, ltb→ge, lt→ltb, leb→le, leb→gt, le→leb, gt→leb, ==_iff, ==_refl, ==_ne,
  Bool-cases, Option-cases, and_parts, length, get_elem?, take, drop, replicate, set, keep,
  count_if, sum_by, All, length-append, length-set, length-take, length-drop, take-append_left,
  drop-append_left, get_elem?-set_self, get_elem?-set_ne, sum_by-append, All-append, get_elem?-take,
  get_elem?-drop, All-keep,
}
use data_gateway.Base.Dict.{
  Dict, get, put, remove, has, get_or, get-put, get-remove, get-put_self, get-put_ne,
  get-remove_self, get-remove_ne,
}
use data_gateway.Base.Key.{ℕ_key, String_key, pair_key}
use data_gateway.Base.Floats.{Floats}
use Prim.Native.String.{◌++◌ as joined}
use data_gateway.Modbus.Outcome.{
  Error, Result, ok, err, timeout_err, crc_err, frame_err, exception_response, struct_error,
  value_error, index_error, key_error, incomplete_read, assertion_error, type_error, ◌>>=◌, kind,
  index, pack_byte, pack_be, Result-cases,
}
use data_gateway.Modbus.Value.{words_of, decode_value}
use data_gateway.Config.{
  Item, Equip, Kind, edge_modbus_tcp, edge_ascii, edge_opcua, Register, fc_of, address_of, kind_of,
  effective_delay_ms,
}
use data_gateway.Diag.{Diag, new_diag, attempt, poll, add_frame, Shown, raw, quoted}
use data_gateway.Plc.Link.{ReadResult}
use data_gateway.Plc.Scanner.{LinkOps, kind_upper}
use data_gateway.Edge.Sample.{Sample}

-- `it.fc` and `it.address` assert that the item has a register.
abbrev pub reg_of : {fl : Floats} → Item fl → Result Register
reg_of it = elim it.reg [ none ↦ err assertion_error | some r ↦ ok r ]

module _ (fl : Floats) where
  open fl use {Float}

  -- `DirectDriver`, with the link of the driver and what it has emitted.
  pub record Driver (S : Type 0) : Type 0 where
    pub equip : Equip fl
    pub link : S
    pub diag : Diag
    pub values : Dict String Float
    pub emitted : List (Sample fl)
    pub unstable : ℕ

  abbrev pub new_driver : {S : Type 0} → Equip fl → S → Driver S
  new_driver e link = record {
    equip = e;
    link = link;
    diag = new_diag (effective_delay_ms fl e * 1000);
    values = [];
    emitted = [];
    unstable = 0;
  }

  -- `_emit`
  abbrev pub emit : {S : Type 0} → ℕ → Dict String Float → Dict String String → Driver S → Driver S
  emit wall values tags d = record d {
    values = values;
    emitted =
        d.emitted
        ++ (record { equip = d.equip; collect_dt = wall; values = values; tag_addrs = tags } ∷ []);
  }

  -- The loop that fills `by_fc`: from the lowest address to the end of the highest.
  unfoldable pub group_by_fc : List (Item fl) → Dict ℕ (ℕ × ℕ) → Result (Dict ℕ (ℕ × ℕ))
  group_by_fc [] groups = ok groups
  group_by_fc (it ∷ its) groups = reg_of it >>= λ r.
      let lo = address_of r in
      let hi = lo + words_of it.type in
      let (a, b) = get_or (fc_of r) (lo, hi) groups in
      group_by_fc its (put (fc_of r) (min a lo, max b hi) groups)

  -- `words[(fc, a + i)] = w` for each word
  unfoldable pub keep_words : ℕ → ℕ → List ℕ → Dict (ℕ × ℕ) ℕ → Dict (ℕ × ℕ) ℕ
  keep_words fc a [] words = words
  keep_words fc a (w ∷ ws) words = keep_words fc (a + 1) ws (put (fc, a) w words)

  -- `[words[(it.fc, it.address + i)] for i in range(it.words)]`
  unfoldable pub item_words : ℕ → ℕ → ℕ → Dict (ℕ × ℕ) ℕ → Result (List ℕ)
  item_words fc a zero words = ok []
  item_words fc a (suc n) words =
      let rest = item_words fc (a + 1) n words in
      elim (get (fc, a) words) [ none ↦ err key_error | some w ↦ rest >>= λ ws. ok (w ∷ ws) ]

  -- The loop that decodes the items. The text of an item's register is an argument.
  unfoldable pub decode_all :
      (Register → String)
      → String
      → List (Item fl)
      → Dict (ℕ × ℕ) ℕ
      → Dict String Float
      → Dict String String
      → Result (Dict String Float × Dict String String)
  unfolding item_words
  decode_all show code [] words values tags = ok (values, tags)
  decode_all show code (it ∷ its) words values tags = reg_of it >>= λ r.
      item_words (fc_of r) (address_of r) (words_of it.type) words >>= λ ws.
      decode_value fl ws it.type it.scale >>= λ v.
      decode_all show code its words (put it.key v values)
        (put it.key (joined code (joined "." (show r))) tags)

  module _ {S : Type 0} (ops : LinkOps S) (now : ℕ) where
    -- `for _ in range(2)`: the read, none after two failures, or an exception that is no
    -- `ModbusError`.
    unfoldable pub try_read : ℕ → ℕ → ℕ → ℕ → Driver S → Result (Option ReadResult) × Driver S
    try_read zero fc addr count d = (ok none, d)
    try_read (suc n) fc addr count d =
        let (r, l) = ops.read d.equip.via.unit fc addr count d.link in
        let shown = if length (ops.last_rx l) == 0 then quoted "(응답 없음)" else raw (ops.last_rx l) in
        elim r [
          | ok x ↦ (
            ok (some x),
            record d {
              link = l;
              diag =
                  add_frame (raw x.tx) (raw x.rx) "OK" (some x.rtt)
                    (attempt now true (some x.rtt) none d.diag);
            },
          )
          | err e ↦ elim (kind e) [
            | none ↦ (err e, record d { link = l })
            | some k ↦ try_read n fc addr count (record d {
              link = l;
              diag =
                  add_frame (raw (ops.last_tx l)) shown (kind_upper e) none
                    (attempt now false none (some k) d.diag);
            })
          ]
        ]

    -- The loop over `by_fc`: the words, or none where a group could not be read.
    unfoldable pub read_groups :
        Dict ℕ (ℕ × ℕ) → Dict (ℕ × ℕ) ℕ → Driver S → Result (Option (Dict (ℕ × ℕ) ℕ)) × Driver S
    unfolding try_read keep_words
    read_groups [] words d = (ok (some words), d)
    read_groups ((fc, (a, b)) ∷ rest) words d =
        let (r, d') = try_read 2 fc a (b - a) d in
        elim r [
          | err e ↦ (err e, d')
          | ok none ↦ (ok none, record d' { diag = poll now false d'.diag })
          | ok (some x) ↦ read_groups rest (keep_words fc a x.words words) d'
        ]

    -- `ModbusTcpDriver.poll`
    unfoldable pub poll_modbus : (Register → String) → ℕ → Driver S → Result (Unit {0}) × Driver S
    unfolding group_by_fc read_groups decode_all
    poll_modbus show wall d = elim (group_by_fc d.equip.items []) [
      | err e ↦ (err e, d)
      | ok groups ↦
          let (r, d₁) = read_groups groups [] d in
          elim r [
            | err e ↦ (err e, d₁)
            | ok none ↦ (ok tt, d₁)
            | ok (some words) ↦
                let d₂ = record d₁ { diag = poll now true d₁.diag } in
                elim (decode_all show d.equip.code d.equip.items words [] []) [
                  | err e ↦ (err e, d₂)
                  | ok (values, tags) ↦ (ok tt, emit wall values tags d₂)
                ]
          ]
    ]

-- `make_driver`: which driver a device has; the others are a KeyError.
pub data DriverKind : Type 0 where
  modbus_driver ascii_driver opcua_driver : DriverKind

abbrev pub driver_of : Kind → Result DriverKind
driver_of edge_modbus_tcp = ok modbus_driver
driver_of edge_ascii = ok ascii_driver
driver_of edge_opcua = ok opcua_driver
driver_of _ = err key_error
