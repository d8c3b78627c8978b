-- ===== src/Field/Faults.antt =====
-- `FaultManager` of src/twin/field/faults.py. A fault is known by the number in its id "F-n"; its
-- parameters are texts, and what a device keeps in `state` is left out. Times are numbers.
pub mod Active
use text.Mathlib.Text.{◌==◌ as text_eq}
use data_gateway.Base.{
  ℕ, ◌+◌, String, Bool, true, false, not, ◌&&◌, ◌||◌, Option, none, some, List, [], ◌∷◌, leb, ◌==◌,
  if◌then◌else◌, keep,
}
use data_gateway.Base.Dict.{Dict, get, put, remove, has, get_or}
use data_gateway.Base.Key.{ℕ_key, String_key}

-- An entry of `FAULT_TYPES`, without its label.
pub record FaultType : Type 0 where
  pub target : String
  pub params : List String

abbrev pub fault_types : Dict String FaultType
fault_types =
    ("sensor_disconnect", record { target = "equip"; params = [] })
    ∷ ("sensor_delay", record { target = "equip"; params = "ms" ∷ [] })
    ∷ ("crc_error", record { target = "equip"; params = "ratio" ∷ [] })
    ∷ ("value_spike", record { target = "equip"; params = "key" ∷ "value" ∷ [] })
    ∷ ("value_freeze", record { target = "equip"; params = [] })
    ∷ ("bus_cut", record { target = "bus"; params = [] })
    ∷ ("plc_down", record { target = "plc"; params = [] })
    ∷ ("master_slave_link_down", record { target = "link"; params = [] })
    ∷ ("opcua_down", record { target = "opcua"; params = [] })
    ∷ ("mes_link_down", record { target = "mes"; params = [] })
    ∷ ("edge_restart", record { target = "edge"; params = [] })
    ∷ ("metal_ng", record { target = "metal"; params = [] })
    ∷ []

abbrev pub fixed_targets : Dict String (List String)
fixed_targets =
    ("link", "MASTER-SLAVE" ∷ [])
    ∷ ("mes", "EDGE-MES" ∷ [])
    ∷ ("edge", "EDGE" ∷ [])
    ∷ ("plc", "MASTER" ∷ "SLAVE" ∷ [])
    ∷ []

pub record Fault : Type 0 where
  pub target : String
  pub type : String
  pub params : Dict String String
  pub created : ℕ
  pub expires : Option ℕ

pub record FaultManager : Type 0 where
  pub faults : Dict ℕ Fault
  pub seq : ℕ
  pub targets : Dict String (List String)

abbrev pub among : String → List String → Bool
among x [] = false
among x (y ∷ ys) = text_eq x y || among x ys

-- `p in params` for every parameter that the type needs
unfoldable pub has_params : List String → Dict String String → Bool
has_params [] params = true
has_params (p ∷ ps) params = has p params && has_params ps params

-- `validate`: whether it returns.
unfoldable pub is_valid : String → String → Dict String String → FaultManager → Bool
unfolding has_params
is_valid target type params m = elim (get type fault_types) [
  | none ↦ false
  | some spec ↦ among target (get_or spec.target [] m.targets) && has_params spec.params params
]

-- `add`: the id of the new fault, or none where `validate` raises. A duration of 0 is none.
unfoldable pub add :
    ℕ → String → String → Dict String String → Option ℕ → FaultManager → Option ℕ × FaultManager
unfolding is_valid
add now target type params duration m =
    let expires : Option ℕ = elim duration [
      | none ↦ none
      | some d ↦ if d == 0 then none else some (now + d)
    ] in
    let f : Fault = record {
      target = target;
      type = type;
      params = params;
      created = now;
      expires = expires;
    } in
    if is_valid target type params m
    then (some m.seq, record m { faults = put m.seq f m.faults; seq = m.seq + 1 })
    else (none, m)

-- `remove(fid)`
unfoldable pub remove_fault : ℕ → FaultManager → Bool × FaultManager
remove_fault fid m = (has fid m.faults, record m { faults = remove fid m.faults })

-- `f.expires is not None and f.expires <= now`
abbrev pub is_expired : ℕ → Fault → Bool
is_expired now f = elim f.expires [ none ↦ false | some t ↦ leb t now ]

-- `active`: the expired faults are deleted.
unfoldable pub active : ℕ → FaultManager → FaultManager
active now m = record m { faults = keep (λ (e : ℕ × Fault). not (is_expired now e.1)) m.faults }

unfoldable pub first_of : String → String → Dict ℕ Fault → Option Fault
first_of type target [] = none
first_of type target ((n, f) ∷ rest) =
    if text_eq f.type type && text_eq f.target target then some f else first_of type target rest

-- `find`
unfoldable pub find : ℕ → String → String → FaultManager → Option Fault × FaultManager
unfolding active first_of
find now type target m = let m' = active now m in (first_of type target m'.faults, m')
