-- ===== src/Config.antt =====
-- The records of src/twin/common/config.py that the other components read, and their properties. A text
-- of the form "IR30001" is kept as its two parts, which `Item._check_reg` has checked.
pub mod Twin
pub mod Check
use data_gateway.Base.{
  ℕ, zero, suc, ◌+◌, ◌-◌, ◌*◌, ◌/◌, ◌%◌, ◌^◌, ◌≤◌, ◌<◌, min, max, bit_and, bit_or, bit_xor, String,
  ◌≡◌, refl, sym, ap, ap₂, subst, ◌∙◌, ◌≢◌, ◌↔◌, ◌⊎◌, inl, inr, Bool, true, false, not, ◌&&◌, ◌||◌,
  Option, none, some, List, [], ◌∷◌, ◌++◌, map, append-nil, append_assoc, arith, ltb, leb, ◌==◌,
  if◌then◌else◌, ltb→lt, ltb→ge, lt→ltb, leb→le, leb→gt, le→leb, gt→leb, ==_iff, ==_refl, ==_ne,
  Bool-cases, Option-cases, and_parts, length, get_elem?, take, drop, replicate, set, keep,
  count_if, sum_by, All, length-append, length-set, length-take, length-drop, take-append_left,
  drop-append_left, get_elem?-set_self, get_elem?-set_ne, sum_by-append, All-append, get_elem?-take,
  get_elem?-drop,
}
use data_gateway.Base.Floats.{Floats}
use data_gateway.Modbus.Value.{ItemType, words_of}
use text.Mathlib.Text.{◌==◌ as text_eq}

-- `reg`: the prefix (IR or not, which is HR) and the address that `Item.address` makes of its digits, the
-- last four less one. A text that ends in 0000, for which that is -1, has no `Register`.
pub record Register : Type 0 where
  pub is_input : Bool
  pub address : ℕ

-- `Item.fc` and `Item.address`
abbrev pub fc_of : Register → ℕ
fc_of r = if r.is_input then 4 else 3

abbrev pub address_of : Register → ℕ
address_of r = r.address

module _ (fl : Floats) where
  pub record Item : Type 0 where
    pub key : String
    pub name : String
    pub reg : Option Register
    pub node : Option String
    pub type : ItemType
    pub scale : fl.Float
    pub unit : String
    pub data_type : String
    pub range : Option (fl.Float × fl.Float)
    pub max_step : Option fl.Float

-- `Via.edge`
pub data EdgeLink : Type 0 where
  modbus_tcp opcua ascii : EdgeLink

pub record Via : Type 0 where
  pub bus : Option String
  pub slave : Option ℕ
  pub plc_tcp : Option String
  pub edge : Option EdgeLink
  pub link : Option String
  pub unit : ℕ
  pub endpoint : Option String

-- `Equip.kind`; `edge_none` is the text "edge_None" of a device with no connection.
pub data Kind : Type 0 where
  bus_kind plc_tcp_kind edge_modbus_tcp edge_opcua edge_ascii edge_none : Kind

-- The truth value of an optional text: `None` and "" are false.
abbrev pub present : Option String → Bool
present none = false
present (some s) = not (text_eq s "")

abbrev pub edge_kind : Option EdgeLink → Kind
edge_kind none = edge_none
edge_kind (some modbus_tcp) = edge_modbus_tcp
edge_kind (some opcua) = edge_opcua
edge_kind (some ascii) = edge_ascii

abbrev pub kind_of : Via → Kind
kind_of v =
    if present v.bus then bus_kind else if present v.plc_tcp then plc_tcp_kind else edge_kind v.edge

module _ (fl : Floats) where
  pub record Equip : Type 0 where
    pub code : String
    pub name : String
    pub process : String
    pub via : Via
    pub poll_ms : ℕ
    pub delay_ms : Option ℕ
    pub target : String
    pub items : List (Item fl)

  -- `Equip.comm_type`; a device with no connection raises KeyError.
  abbrev pub comm_type : Equip → Option String
  comm_type e = elim (kind_of e.via) [
    | bus_kind ↦ some "RS-485"
    | plc_tcp_kind ↦ some "Ethernet(TCP/IP)"
    | edge_modbus_tcp ↦ some "Ethernet(TCP/IP)"
    | edge_opcua ↦ some "OPC-UA"
    | edge_ascii ↦ some "RS-232"
    | edge_none ↦ none
  ]

  -- `Equip.value_words`
  abbrev pub value_words : Equip → ℕ
  value_words e = sum_by (λ (it : Item fl). words_of it.type) e.items

  -- `Equip.effective_delay_ms`
  abbrev pub effective_delay_ms : Equip → ℕ
  effective_delay_ms e = elim e.delay_ms [
    | some ms ↦ ms
    | none ↦ elim (kind_of e.via) [ bus_kind ↦ 150 | _ ↦ 250 ]
  ]

-- `CcpRule`, with the severity as a text.
module _ (fl : Floats) where
  pub record CcpRule : Type 0 where
    pub id : String
    pub item : String
    pub equip : List String
    pub key : String
    pub low : Option fl.Float
    pub high : Option fl.Float
    pub band : Option fl.Float
    pub band_pct : Option fl.Float
    pub std : Option fl.Float
    pub ng_immediate : Bool
    pub unit : String
    pub hold : ℕ
    pub severity : String
