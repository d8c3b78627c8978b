-- ===== src/Config/Twin.antt =====
-- `TwinConfig` of src/twin/common/config.py and its lookups. Of `PlcDef` the validation reads only the
-- name under which it stands, of the ports only their names and numbers.
use data_gateway.Base.{ℕ, String, Option, none, some, List, [], ◌∷◌, if◌then◌else◌}
use data_gateway.Base.Dict.{Dict, get}
use data_gateway.Base.Key.{String_key}
use data_gateway.Base.Floats.{Floats}
use text.Mathlib.Text.{◌==◌ as text_eq}
use data_gateway.Modbus.Outcome.{Result, ok, err, key_error}
use data_gateway.Config.{Equip, kind_of, bus_kind}

pub record Bus : Type 0 where
  pub plc : String
  pub link : String
  pub baud : ℕ
  pub timeout_ms : ℕ
  pub retries : ℕ
  pub endpoint : Option String

pub record PlcDef : Type 0 where
  pub model : String
  pub name : String
  pub area : String

-- A map whose numbers are not negative.
pub record PlcMap : Type 0 where
  pub block_words : ℕ
  pub diag_base : ℕ
  pub blocks : Dict String (Dict String ℕ)

-- `d[key]` for a key that may be `None`, which no dictionary of the configuration has
abbrev pub get_by {κ} : {V : Type κ} → Option String → Dict String V → Option V
get_by none d = none
get_by (some key) d = get key d

module _ (fl : Floats) where
  pub record TwinConfig : Type 0 where
    pub ports : Dict String ℕ
    pub plcs : Dict String PlcDef
    pub buses : Dict String Bus
    pub equipment : List (Equip fl)
    pub plc_map : PlcMap

  abbrev pub equip_in : String → List (Equip fl) → Result (Equip fl)
  equip_in code [] = err key_error
  equip_in code (e ∷ es) = if text_eq e.code code then ok e else equip_in code es

  -- `equip`
  abbrev pub equip : String → TwinConfig → Result (Equip fl)
  equip code cfg = equip_in code cfg.equipment

  -- `port`
  abbrev pub port : String → TwinConfig → Result ℕ
  port link cfg = elim (get link cfg.ports) [ none ↦ err key_error | some n ↦ ok n ]

  -- `plc_of`
  abbrev pub plc_of : Equip fl → TwinConfig → Result (Option String)
  plc_of e cfg = elim (kind_of e.via) [
    | bus_kind ↦ elim (get_by e.via.bus cfg.buses) [
      | none ↦ err key_error
      | some b ↦ ok (some b.plc)
    ]
    | _ ↦ ok e.via.plc_tcp
  ]

abbrev pub block_in : String → Dict String (Dict String ℕ) → Option (String × ℕ)
block_in code [] = none
block_in code ((plc, blocks) ∷ rest) = elim (get code blocks) [
  | none ↦ block_in code rest
  | some base ↦ some (plc, base)
]

-- `block_base`
abbrev pub block_base : {fl : Floats} → String → TwinConfig fl → Option (String × ℕ)
block_base code cfg = block_in code cfg.plc_map.blocks
