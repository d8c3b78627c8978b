-- ===== src/Field/Device.antt =====
-- `DeviceModel` of src/twin/field/models/base.py, but for the frozen registers of value_freeze, and `spikes`
-- of src/twin/field/faults.py. The models themselves (`step`) are random simulations.
use data_gateway.Base.{
  ℕ, zero, suc, ◌+◌, String, Bool, not, ◌&&◌, none, some, List, [], ◌∷◌, if◌then◌else◌,
}
use data_gateway.Base.Dict.{Dict, get, put, get_or}
use data_gateway.Base.Key.{ℕ_key, String_key, pair_key}
use data_gateway.Base.Floats.{Floats}
use data_gateway.Base.Int.{pos}
use text.Mathlib.Text.{◌==◌ as text_eq}
use data_gateway.Modbus.Outcome.{Result, ok, err, exception_response, value_error, key_error, ◌>>=◌}
use data_gateway.Modbus.Pdu.{exc_illegal_address}
use data_gateway.Modbus.Value.{encode_value}
use data_gateway.Config.{Item, fc_of, address_of}
use data_gateway.Field.Faults.{Fault, FaultManager, active}

-- `(fc, address) → word`
abbrev pub RegisterMap : Type 0
RegisterMap = Dict (ℕ × ℕ) ℕ

-- `regs[(it.fc, it.address + i)] = w` for each word
unfoldable pub put_words : ℕ → ℕ → List ℕ → RegisterMap → RegisterMap
put_words fc a [] regs = regs
put_words fc a (w ∷ ws) regs = put_words fc (a + 1) ws (put (fc, a) w regs)

-- `read`: the words, or the exception response of a missing address.
unfoldable pub read_registers : ℕ → ℕ → ℕ → RegisterMap → Result (List ℕ)
read_registers fc addr zero regs = ok []
read_registers fc addr (suc n) regs =
    let rest = read_registers fc (addr + 1) n regs in
    elim (get (fc, addr) regs) [
      | none ↦ err (exception_response exc_illegal_address)
      | some w ↦ rest >>= λ ws. ok (w ∷ ws)
    ]

module _ (fl : Floats) where
  open fl use {Float, of_int, parse_float}

  abbrev is_spike : String → Fault → Bool
  is_spike code f = text_eq f.type "value_spike" && text_eq f.target code

  unfoldable pub spikes_of :
      String → List (ℕ × Fault) → Dict String Float → Result (Dict String Float)
  spikes_of code [] found = ok found
  spikes_of code ((n, f) ∷ rest) found =
      if not (is_spike code f) then spikes_of code rest found else elim (get "key" f.params) [
        | none ↦ err key_error
        | some key ↦ elim (get "value" f.params) [
          | none ↦ err key_error
          | some text ↦ elim (parse_float text) [
            | none ↦ err value_error
            | some v ↦ spikes_of code rest (put key v found)
          ]
        ]
      ]

  -- `spikes`
  unfoldable pub spikes : ℕ → String → FaultManager → Result (Dict String Float) × FaultManager
  unfolding spikes_of
  spikes now code m = let m' = active now m in (spikes_of code m'.faults [], m')

  -- `vals.update(…)`
  unfoldable pub updated : Dict String Float → Dict String Float → Dict String Float
  updated vals [] = vals
  updated vals ((key, v) ∷ rest) = updated (put key v vals) rest

  -- `effective`
  unfoldable pub effective :
      ℕ → String → Dict String Float → FaultManager → Result (Dict String Float) × FaultManager
  unfolding spikes updated
  effective now code vals m =
      let (found, m') = spikes now code m in (found >>= λ extra. ok (updated vals extra), m')

  -- `_build_map`
  unfoldable pub build_map : List (Item fl) → Dict String Float → RegisterMap → Result RegisterMap
  build_map [] vals regs = ok regs
  build_map (it ∷ its) vals regs = elim it.reg [
    | none ↦ build_map its vals regs
    | some r ↦ encode_value fl (get_or it.key (of_int (pos 0)) vals) it.type it.scale >>= λ words.
        build_map its vals (put_words (fc_of r) (address_of r) words regs)
  ]
