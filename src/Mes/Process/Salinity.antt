-- ===== src/Mes/Process/Salinity.antt =====
-- What `_salinity` of src/twin/mes/store.py logs.
use data_gateway.Base.{
  ℕ, ◌+◌, ◌≤◌, String, ◌≡◌, refl, sym, ap, subst, inl, inr, Bool, false, Option, none, some, ◌∷◌,
  Bool-cases, All,
}
use data_gateway.Base.Dict.{Dict, get}
use data_gateway.Base.Key.{ℕ_key, String_key}
use data_gateway.Base.Floats.{Floats}
use data_gateway.Base.Int.{pos, sub_ℕ}
use data_gateway.Modbus.Outcome.{ok}
use data_gateway.Config.{Equip, CcpRule}
use data_gateway.Mes.Alarms.{check, deviates}
use data_gateway.Mes.Tables.{TankOpr, SalinityLog}
use data_gateway.Mes.Tanks.{Tank, Oprs, tank_opr}
use data_gateway.Mes.Tanks.Ends.{running_oprs, IsCurrent, Planned, tank_opr-ends}
use data_gateway.Mes.Process.{Extra, Setup, Store, rule_of}
use data_gateway.Mes.Process.Handlers.{check_rule, log_salinity, salinity}

module _ (fl : Floats) where
  open fl use {Float, of_int, div, trunc, round_to}

  -- Whether the value deviates by the rule, if there is one.
  abbrev pub deviates_by : Option (CcpRule fl) → Float → Option Float → Bool
  deviates_by none value target = false
  deviates_by (some rule) value target = deviates fl rule value target

  check_rule-deviates :
      (rule : Option (CcpRule fl)) (code : String) (value : Float) (ts : ℕ) (sub_key : String)
      (target : Option Float) (s : Store fl)
      → (check_rule fl rule code value ts sub_key target s).0 ≡ deviates_by rule value target
  unfolding check_rule check
  check_rule-deviates none code value ts sub_key target s = refl
  check_rule-deviates (some rule) code value ts sub_key target s =
      elim (Bool-cases (deviates fl rule value target)) [
        | inl out ↦ rw (check_rule, check, out) refl
        | inr fine ↦ rw (check_rule, check, fine) refl
      ]

  check_rule-keeps :
      (rule : Option (CcpRule fl)) (code : String) (value : Float) (ts : ℕ) (sub_key : String)
      (target : Option Float) (s : Store fl)
      → ((check_rule fl rule code value ts sub_key target s).1.salinity ≡ s.salinity)
        × ((check_rule fl rule code value ts sub_key target s).1.oprs ≡ s.oprs)
  unfolding check_rule
  check_rule-keeps none code value ts sub_key target s = (refl, refl)
  check_rule-keeps (some rule) code value ts sub_key target s = (refl, refl)

  -- A salinity for a tank that is configured with a duration, on tables in which operations have one
  -- and at most one of the tank is running: within `ts + 2` rounds it is logged in one row, under the
  -- operation of the tank that is running at `ts`, and flagged exactly if it deviates by the device's
  -- rule from that operation's target.
  pub salinity-logged :
      (rounds : ℕ) (label : ℕ → String) (setup : Setup fl) (e : Equip fl) (ts tank : ℕ)
      (v : Dict String Float) (s : Store fl) (value number : Float) (tk : Tank fl)
      → get "salinity" v ≡ some value
      → get "tank_no" v ≡ some number
      → trunc number ≡ some (pos tank)
      → get tank setup.tanks ≡ some tk
      → 1 ≤ tk.hours
      → All (Planned fl) s.oprs.rows
      → running_oprs fl tank s.oprs ≤ 1
      → ts + 2 ≤ rounds
      → (o : TankOpr fl) × (x : Extra fl) × (row : SalinityLog fl) × ((salinity fl rounds label
            setup e ts v s).0
          ≡ some (ok x))
        × IsCurrent fl tank ts (salinity fl rounds label setup e ts v s).1.oprs o
        × ((salinity fl rounds label setup e ts v s).1.salinity ≡ row ∷ s.salinity)
        × (row.opr_id ≡ o.opr_id)
        × (row.value ≡ value)
        × (row.at ≡ ts)
        × (row.alarm ≡ deviates_by (rule_of fl e.code "salinity" setup) value (some o.target))
  unfolding salinity log_salinity
  salinity-logged rounds label setup e ts tank v s value number tk hv hn ht known hours planned one
        enough =
      let (o, found, current, since) =
        tank_opr-ends fl setup.tanks rounds tank ts s.oprs tk known hours planned one enough in
      let s₁ : Store fl = record s { oprs = (tank_opr fl setup.tanks rounds tank ts s.oprs).1 } in
      let rule = rule_of fl e.code "salinity" setup in
      let dev = check_rule-deviates rule e.code value ts (label tank) (some o.target) s₁ in
      let (same, same_oprs) =
        check_rule-keeps rule e.code value ts (label tank) (some o.target) s₁ in
      let (x, s₂) = log_salinity fl setup e.code tank (label tank) value ts o s₁ in
      let row : SalinityLog fl = record {
        opr_id = o.opr_id;
        sensor = e.code;
        value = value;
        elapsed_hours = round_to 2 (div (of_int (sub_ℕ ts o.start)) (of_int (pos 3600)));
        alarm = (check_rule fl rule e.code value ts (label tank) (some o.target) s₁).0;
        at = ts;
      } in
      let now : IsCurrent fl tank ts s₂.oprs o =
        subst (λ (t : Oprs fl). IsCurrent fl tank ts t o) (sym same_oprs) current in
      rw (salinity, hv, hn, ht, found)
        (o, x, row, refl, now, ap (λ t. row ∷ t) same, refl, refl, refl, dev)
