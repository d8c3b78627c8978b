-- ===== src/Mes/Process/Handlers.antt =====
-- The handlers of src/twin/mes/store.py that `route` chooses from.
use data_gateway.Base.{
  ℕ, ◌+◌, String, Bool, true, false, not, ◌&&◌, ◌||◌, Option, none, some, List, [], ◌∷◌, ◌==◌,
  if◌then◌else◌,
}
use data_gateway.Base.Dict.{Dict, get, put}
use data_gateway.Base.Key.{ℕ_key, String_key}
use data_gateway.Base.Floats.{Floats}
use data_gateway.Base.Int.{pos, negsuc, sub_ℕ}
use text.Mathlib.Text.{◌==◌ as text_eq}
use data_gateway.Modbus.Outcome.{value_error, overflow_error, Result, ok, err, key_error}
use data_gateway.Config.{Equip, CcpRule}
use data_gateway.Mes.Alarms.{check, event}
use data_gateway.Mes.Tables.{TankOpr, EnvLog, EnvAlarm, MetalLog}
use data_gateway.Mes.Tanks.{tank_opr}
use data_gateway.Mes.Process.{
  Extra, nothing, of_tank, deviating, of_metal, Setup, Store, zero_float, first_of, rules_for,
  rule_of,
}

module _ (fl : Floats) where
  open fl use {Float, of_int, add, sub, mul, div, abs, lt, le, truthy, trunc, is_nan, round_to}

  -- `self.alarms.check`, if there is a rule: whether the value deviates.
  unfoldable pub check_rule :
      Option (CcpRule fl) → String → Float → ℕ → String → Option Float → Store fl → Bool × Store fl
  check_rule none code value ts sub_key target s = (false, s)
  check_rule (some rule) code value ts sub_key target s =
      let ((dev, raised), engine) = check fl rule code value ts sub_key target s.engine in
      (dev, record s { engine = engine })

  -- `_salinity` for a tank of which there is a current operation. The label of the tank is an argument.
  unfoldable pub log_salinity :
      Setup fl → String → ℕ → String → Float → ℕ → TankOpr fl → Store fl → Extra fl × Store fl
  unfolding check_rule
  log_salinity setup code tank label value ts o s =
      let elapsed = round_to 2 (div (of_int (sub_ℕ ts o.start)) (of_int (pos 3600))) in
      let (dev, s') =
        check_rule (rule_of fl code "salinity" setup) code value ts label (some o.target) s in
      (
        of_tank tank o.target elapsed dev,
        record s' {
          salinity =
              record {
                opr_id = o.opr_id;
                sensor = code;
                value = value;
                elapsed_hours = elapsed;
                alarm = dev;
                at = ts;
              }
              ∷ s'.salinity;
        },
      )

  -- `_salinity`. No row has a negative tank number, and the configuration has none.
  unfoldable pub salinity :
      ℕ
      → (ℕ → String)
      → Setup fl
      → Equip fl
      → ℕ
      → Dict String Float
      → Store fl
      → Option (Result (Extra fl)) × Store fl
  unfolding log_salinity
  salinity rounds label setup e ts v s = elim (get "salinity" v) [
    | none ↦ (some (ok nothing), s)
    | some value ↦ elim (get "tank_no" v) [
      | none ↦ (some (ok nothing), s)
      | some number ↦ elim (trunc number) [
        | none ↦ (some (err (if is_nan number then value_error else overflow_error)), s)
        | some (negsuc n) ↦ (some (err key_error), s)
        | some (pos tank) ↦
            let (found, oprs) = tank_opr fl setup.tanks rounds tank ts s.oprs in
            let s₁ = record s { oprs = oprs } in
            elim found [
              | none ↦ (none, s₁)
              | some (err x) ↦ (some (err x), s₁)
              | some (ok o) ↦
                  let (extra, s₂) = log_salinity setup e.code tank (label tank) value ts o s₁ in
                  (some (ok extra), s₂)
            ]
      ]
    ]
  ]

  -- `if aid:`
  abbrev pub is_id : Option ℕ → Bool
  is_id none = false
  is_id (some n) = not (n == 0)

  -- `rule.key in ("pv", "temp")`
  abbrev pub is_temp_key : String → Bool
  is_temp_key key = text_eq key "pv" || text_eq key "temp"

  -- The loop over the rules of `_env`: whether any value deviates.
  unfoldable pub env_rules :
      List (CcpRule fl) → String → ℕ → ℕ → Dict String Float → Bool → Store fl → Bool × Store fl
  env_rules [] code env_id ts v dev_any s = (dev_any, s)
  env_rules (rule ∷ rest) code env_id ts v dev_any s = elim (get rule.key v) [
    | none ↦ env_rules rest code env_id ts v dev_any s
    | some value ↦
        let ((dev, aid), engine) = check fl rule code value ts "" none s.engine in
        let alarm : EnvAlarm fl = record {
          env_id = env_id;
          rule_id = rule.id;
          is_temp = is_temp_key rule.key;
          value = value;
          at = ts;
        } in
        env_rules rest code env_id ts v (dev_any || dev) (record s {
          engine = engine;
          env_alarms = if is_id aid then alarm ∷ s.env_alarms else s.env_alarms;
        })
  ]

  -- `_env`
  unfoldable pub env :
      Setup fl → Equip fl → ℕ → ℕ → Dict String Float → Store fl → Extra fl × Store fl
  unfolding env_rules
  env setup e eid ts v s =
      let row : EnvLog fl = record {
        env_id = s.next_env;
        equip_id = eid;
        sensor = e.code;
        temp = first_of fl (get "pv" v) (get "temp" v);
        humid = get "humid" v;
        set_temp = get "sv" v;
        at = ts;
      } in
      let (dev, s') =
        env_rules (rules_for fl e.code setup) e.code s.next_env ts v false
          (record s { env = row ∷ s.env; next_env = s.next_env + 1 }) in
      (deviating dev, s')

  -- `_sanitizer`
  unfoldable pub sanitizer :
      Setup fl → Equip fl → ℕ → ℕ → Dict String Float → Store fl → Extra fl × Store fl
  unfolding check_rule
  sanitizer setup e eid ts v s = elim (get "ppm" v) [
    | none ↦ (nothing, s)
    | some ppm ↦
        let (dev, s') = check_rule (rule_of fl e.code "ppm" setup) e.code ppm ts "" none s in
        (
          deviating dev,
          record s' {
            sanitizer =
                record {
                  equip_id = eid;
                  ppm = ppm;
                  contact = get "contact_min" v;
                  dosing = get "dosing_rate" v;
                  alarm = dev;
                  at = ts;
                }
                ∷ s'.sanitizer;
          },
        )
  ]

  -- `if …: self.alarms.event(rule, …)`, if there is a rule
  abbrev pub raise_event : Bool → Option (CcpRule fl) → String → ℕ → Store fl → Store fl
  raise_event b none code ts s = s
  raise_event false (some rule) code ts s = s
  raise_event true (some rule) code ts s = record s { engine = (event fl rule code ts s.engine).1 }

  -- `_metal`, with the counts before the ones of this call
  unfoldable pub metal_step :
      Setup fl → Equip fl → ℕ → ℕ → Float × Float → Float × Float → Store fl → Extra fl × Store fl
  metal_step setup e eid ts (insp, ng) (insp', ng') s =
      let d_insp = sub insp' insp in
      let more = sub ng' ng in
      let d_ng = if lt (zero_float fl) more then more else zero_float fl in
      let is_ng = lt (zero_float fl) d_ng in
      let row : MetalLog fl = record {
        equip_id = eid;
        ng = is_ng;
        inspected = d_insp;
        rejected = d_ng;
        at = ts;
      } in
      let s' = record s { metal = row ∷ s.metal } in
      if lt insp' insp
      then (nothing, s)
      else if le d_insp (zero_float fl) && le d_ng (zero_float fl)
      then (nothing, s)
      else (of_metal is_ng, raise_event is_ng (rule_of fl e.code "ng_cnt" setup) e.code ts s')

  unfoldable pub metal :
      Setup fl → Equip fl → ℕ → ℕ → Dict String Float → Store fl → Extra fl × Store fl
  unfolding metal_step
  metal setup e eid ts v s = elim (get "inspect_cnt" v) [
    | none ↦ (nothing, s)
    | some insp ↦ elim (get "ng_cnt" v) [
      | none ↦ (nothing, s)
      | some ng ↦
          let cur : Float × Float = (insp, ng) in
          let s' = record s { md_prev = put e.code cur s.md_prev } in
          elim (get e.code s.md_prev) [
            | none ↦ (nothing, s')
            | some prev ↦ metal_step setup e eid ts prev cur s'
          ]
    ]
  ]
