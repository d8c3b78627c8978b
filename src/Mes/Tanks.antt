-- ===== src/Mes/Tanks.antt =====
-- `_tank_opr` of src/twin/mes/store.py: the running operation of a salting tank at a time. A tank's rows
-- are in SLT_TANK_OPR, newest first. The loop runs for as many rounds as its first argument says.
pub mod Ends
use data_gateway.Base.{
  ℕ, zero, suc, ◌+◌, ◌-◌, ◌*◌, ◌/◌, ◌%◌, ◌^◌, ◌≤◌, ◌<◌, min, max, bit_and, bit_or, bit_xor, String,
  ◌≡◌, refl, sym, ap, ap₂, subst, ◌∙◌, ◌≢◌, ◌↔◌, ◌⊎◌, inl, inr, Bool, true, false, not, ◌&&◌, ◌||◌,
  Option, none, some, List, [], ◌∷◌, ◌++◌, map, append-nil, append_assoc, arith, ltb, leb, ◌==◌,
  if◌then◌else◌, ltb→lt, ltb→ge, lt→ltb, leb→le, leb→gt, le→leb, gt→leb, ==_iff, ==_refl, ==_ne,
  Bool-cases, Option-cases, and_parts, length, get_elem?, take, drop, replicate, set, keep,
  count_if, sum_by, All, length-append, length-set, length-take, length-drop, take-append_left,
  drop-append_left, get_elem?-set_self, get_elem?-set_ne, sum_by-append, All-append, get_elem?-take,
  get_elem?-drop,
}
use data_gateway.Base.Dict.{
  Dict, get, put, remove, has, get_or, get-put, get-remove, get-put_self, get-put_ne,
  get-remove_self, get-remove_ne,
}
use data_gateway.Base.Key.{ℕ_key}
use data_gateway.Base.Floats.{Floats}
use data_gateway.Modbus.Outcome.{
  Error, Result, ok, err, timeout_err, crc_err, frame_err, exception_response, struct_error,
  value_error, index_error, key_error, incomplete_read, assertion_error, ◌>>=◌, kind, index,
  pack_byte, pack_be, Result-cases,
}
use data_gateway.Mes.Tables.{TankOpr}

module _ (fl : Floats) where
  open fl use {Float}

  -- `Tank` of the configuration, with hours that are a whole number of seconds: that number.
  pub record Tank : Type 0 where
    pub target : Float
    pub hours : ℕ

  pub record Oprs : Type 0 where
    pub rows : List (TankOpr fl)
    pub next_opr : ℕ

  abbrev pub is_running : ℕ → TankOpr fl → Bool
  is_running tank r = (r.tank == tank) && r.running

  -- `WHERE TANK_NO=? AND TANK_STATUS='절임중' ORDER BY TANK_OPR_ID DESC LIMIT 1`
  unfoldable pub newest : ℕ → List (TankOpr fl) → Option (TankOpr fl)
  newest tank [] = none
  newest tank (r ∷ rs) = if is_running tank r then some r else newest tank rs

  -- `INSERT INTO SLT_TANK_OPR`
  abbrev pub open_opr : ℕ → Float → ℕ → ℕ → Oprs → Oprs
  open_opr tank target plan start o = record {
    rows =
        record {
          opr_id = o.next_opr;
          tank = tank;
          target = target;
          plan = plan;
          start = start;
          ended = none;
          running = true;
        }
        ∷ o.rows;
    next_opr = o.next_opr + 1;
  }

  -- `UPDATE SLT_TANK_OPR SET TANK_STATUS='완료', END_DT=? WHERE TANK_OPR_ID=?`
  unfoldable pub finish_opr : ℕ → ℕ → List (TankOpr fl) → List (TankOpr fl)
  finish_opr end id [] = []
  finish_opr end id (r ∷ rs) =
      (if r.opr_id == id then record r { running = false; ended = some end } else r)
      ∷ finish_opr end id rs

  -- `none` is a loop that has not ended in the given rounds; a tank that the configuration does not
  -- have is a KeyError.
  unfoldable pub tank_opr : Dict ℕ Tank → ℕ → ℕ → ℕ → Oprs → Option (Result (TankOpr fl)) × Oprs
  unfolding newest finish_opr
  tank_opr tanks zero tank ts o = (none, o)
  tank_opr tanks (suc rounds) tank ts o = elim (newest tank o.rows) [
    | none ↦ elim (get tank tanks) [
      | none ↦ (some (err key_error), o)
      | some tk ↦ tank_opr tanks rounds tank ts (open_opr tank tk.target tk.hours ts o)
    ]
    | some r ↦
        let end = r.start + r.plan in
        let o' = record o { rows = finish_opr end r.opr_id o.rows } in
        elim (ltb ts end) [
          | true ↦ (some (ok r), o)
          | false ↦ tank_opr tanks rounds tank ts (open_opr tank r.target r.plan end o')
        ]
  ]
