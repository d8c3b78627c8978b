-- ===== src/Mes/Process.antt =====
-- `route` of src/twin/mes/store.py: what a group of values of a device does to the process tables. The
-- state is that of the store and its alarm engine; times are numbers of seconds. `rounds` bounds the loop
-- of `_tank_opr`; `none` says that it has not ended in so many.
pub mod Handlers
pub mod Route
pub mod Salinity
use data_gateway.Base.{
  ℕ, zero, suc, ◌+◌, ◌-◌, ◌*◌, ◌/◌, ◌%◌, ◌^◌, ◌≤◌, ◌<◌, min, max, bit_and, bit_or, bit_xor, String,
  ◌≡◌, refl, sym, ap, ap₂, subst, ◌∙◌, ◌≢◌, ◌↔◌, ◌⊎◌, inl, inr, Bool, true, false, not, ◌&&◌, ◌||◌,
  Option, none, some, List, [], ◌∷◌, ◌++◌, map, append-nil, append_assoc, arith, ltb, leb, ◌==◌,
  if◌then◌else◌, ltb→lt, ltb→ge, lt→ltb, leb→le, leb→gt, le→leb, gt→leb, ==_iff, ==_refl, ==_ne,
  Bool-cases, Option-cases, and_parts, length, get_elem?, take, drop, replicate, set, keep,
  count_if, sum_by, All, length-append, length-set, length-take, length-drop, take-append_left,
  drop-append_left, get_elem?-set_self, get_elem?-set_ne, sum_by-append, All-append, get_elem?-take,
  get_elem?-drop, All-keep,
}
use data_gateway.Base.Dict.{
  Dict, get, put, remove, has, get_or, get-put, get-remove, get-put_self, get-put_ne,
  get-remove_self, get-remove_ne,
}
use data_gateway.Base.Key.{String_key}
use data_gateway.Base.Floats.{Floats}
use data_gateway.Base.Int.{pos}
use text.Mathlib.Text.{◌==◌ as text_eq}
use data_gateway.Config.{Equip, CcpRule}
use data_gateway.Mes.Alarms.{Alarms}
use data_gateway.Mes.Tables.{
  SalinityLog, EnvLog, EnvAlarm, SanitizerLog, MetalLog, TapingLog, WeightInsp, FillerLog, Judge,
}
use data_gateway.Mes.Tanks.{Tank, Oprs}
use data_gateway.Mes.Runs.{Runs}

module _ (fl : Floats) where
  open fl use {Float, of_int, div}

  -- What a handler adds to the values that are published.
  pub data Extra : Type 0 where
    nothing : Extra
    of_tank : ℕ → Float → Float → Bool → Extra
    deviating : Bool → Extra
    of_metal : Bool → Extra
    judged : Judge → Extra

  pub record Published : Type 0 where
    pub code : String
    pub values : Dict String Float
    pub at : ℕ
    pub extra : Extra

  -- What `route` reads of the configuration and of BAS_EQUIP.
  pub record Setup : Type 0 where
    pub equipment : List (Equip fl)
    pub equip_id : Dict String ℕ
    pub tanks : Dict ℕ (Tank fl)
    pub rules : List (CcpRule fl)

  -- The process tables, and what the store remembers. `last_values` has the time of each device's last
  -- values with them.
  pub record Store : Type 0 where
    pub oprs : Oprs fl
    pub runs : Runs fl
    pub salinity : List (SalinityLog fl)
    pub env : List (EnvLog fl)
    pub next_env : ℕ
    pub env_alarms : List (EnvAlarm fl)
    pub sanitizer : List (SanitizerLog fl)
    pub metal : List (MetalLog fl)
    pub taping : List (TapingLog fl)
    pub weight : List (WeightInsp fl)
    pub filler : List (FillerLog fl)
    pub engine : Alarms
    pub md_prev : Dict String (Float × Float)
    pub pkg_prev : Dict String Float
    pub last_values : Dict String Published
    pub published : List Published

  abbrev pub zero_float : Float
  zero_float = of_int (pos 0)

  -- 0.5
  abbrev pub half : Float
  half = div (of_int (pos 1)) (of_int (pos 2))

  -- `v.get(key)`, or the other if there is none
  abbrev pub first_of : Option Float → Option Float → Option Float
  first_of none b = b
  first_of (some a) b = some a

  -- `code in rule.equip`
  abbrev pub member : String → List String → Bool
  member code [] = false
  member code (c ∷ cs) = text_eq c code || member code cs

  -- `alarms.rules_for`
  abbrev pub rules_for : String → Setup → List (CcpRule fl)
  rules_for code setup = keep (λ (r : CcpRule fl). member code r.equip) setup.rules

  abbrev pub first_rule : String → List (CcpRule fl) → Option (CcpRule fl)
  first_rule key [] = none
  first_rule key (r ∷ rs) = if text_eq r.key key then some r else first_rule key rs

  -- `_rule`
  abbrev pub rule_of : String → String → Setup → Option (CcpRule fl)
  rule_of code key setup = first_rule key (rules_for code setup)
