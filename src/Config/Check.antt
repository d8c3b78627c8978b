-- ===== src/Config/Check.antt =====
-- How `validate_semantics` of src/twin/common/config.py refuses a configuration: the first check that
-- fails is the error; its text is left out.
pub mod Devices
pub mod Maps
pub mod Parts
pub mod Apart
pub mod Owner
use data_gateway.Base.{
  ℕ, zero, suc, ◌+◌, ◌-◌, ◌*◌, ◌/◌, ◌%◌, ◌^◌, ◌≤◌, ◌<◌, min, max, bit_and, bit_or, bit_xor, String,
  ◌≡◌, refl, sym, ap, ap₂, subst, ◌∙◌, ◌≢◌, ◌↔◌, ◌⊎◌, inl, inr, Bool, true, false, not, ◌&&◌, ◌||◌,
  Option, none, some, List, [], ◌∷◌, ◌++◌, map, append-nil, append_assoc, arith, ltb, leb, ◌==◌,
  if◌then◌else◌, ltb→lt, ltb→ge, lt→ltb, leb→le, leb→gt, le→leb, gt→leb, ==_iff, ==_refl, ==_ne,
  Bool-cases, Option-cases, and_parts, length, get_elem?, take, drop, replicate, set, keep,
  count_if, sum_by, All, length-append, length-set, length-take, length-drop, take-append_left,
  drop-append_left, get_elem?-set_self, get_elem?-set_ne, sum_by-append, All-append, get_elem?-take,
  get_elem?-drop,
}
use data_gateway.Base.Dict.{
  Dict, get, put, remove, has, get_or, get-put, get-remove, get-put_self, get-put_ne,
  get-remove_self, get-remove_ne,
}
use data_gateway.Base.Key.{ℕ_key, String_key, pair_key}
use data_gateway.Base.Spans.{sort_spans}
use data_gateway.Base.Floats.{Floats}
use text.Mathlib.Text.{◌==◌ as text_eq}
use data_gateway.Modbus.Outcome.{
  Error, Result, ok, err, timeout_err, crc_err, frame_err, exception_response, struct_error,
  value_error, index_error, key_error, incomplete_read, kind, index, pack_byte, pack_be,
  Result-cases,
}
use data_gateway.Config.{
  Item, Via, Equip, Kind, bus_kind, plc_tcp_kind, edge_modbus_tcp, edge_opcua, kind_of, present,
  value_words,
}
use data_gateway.Config.Twin.{Bus, PlcDef, PlcMap, TwinConfig, plc_of, get_by}

-- Why a configuration is refused. `raised` is an exception that is no `ConfigError`.
pub data ConfigError : Type 0 where
  duplicate_code : ConfigError
  unknown_plc : String → ConfigError
  unknown_link : String → ConfigError
  no_bus_or_slave : String → ConfigError
  slave_taken : String → ConfigError
  no_connection : String → ConfigError
  no_register : String → ConfigError
  no_node : String → ConfigError
  too_many_words : String → ConfigError
  unknown_equipment : String → ConfigError
  mapped_twice : String → ConfigError
  wrong_owner : String → ConfigError
  overlap : ℕ → ℕ → ConfigError
  no_block : String → ConfigError
  raised : Error → ConfigError

pub data Checked {ℓ} (A : Type ℓ) : Type ℓ where
  refused : ConfigError → Checked A
  passed : A → Checked A

infixl 5 ◌>>=◌
abbrev pub ◌>>=◌ {ℓ κ} : {A : Type ℓ} {B : Type κ} → Checked A → (A → Checked B) → Checked B
refused x >>= f = refused x
passed a >>= f = f a

-- `if test: raise ConfigError(…)`
abbrev pub refuse_if : Bool → ConfigError → Checked (Unit {0})
refuse_if b x = if b then refused x else passed tt

-- `x is None`
abbrev pub is_none {ℓ} : {A : Type ℓ} → Option A → Bool
is_none none = true
is_none (some _) = false

-- `x in d`, where no key is `None`
abbrev pub has_by {κ} : {V : Type κ} → Option String → Dict String V → Bool
has_by k d = not (is_none (get_by k d))

-- `x or ""` where the test before has made sure that there is a text
abbrev pub text_of : Option String → String
text_of none = ""
text_of (some s) = s

abbrev pub is_bus : Kind → Bool
is_bus bus_kind = true
is_bus _ = false

-- `k in ("bus", "plc_tcp")`
abbrev pub on_plc : Kind → Bool
on_plc bus_kind = true
on_plc plc_tcp_kind = true
on_plc _ = false

-- `k in ("bus", "plc_tcp", "edge_modbus_tcp")`
abbrev pub needs_reg : Kind → Bool
needs_reg edge_modbus_tcp = true
needs_reg k = on_plc k

abbrev pub is_opcua : Kind → Bool
is_opcua edge_opcua = true
is_opcua _ = false
