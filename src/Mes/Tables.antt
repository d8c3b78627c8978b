-- ===== src/Mes/Tables.antt =====
-- The process tables that src/twin/mes/store.py fills, with the columns that its code sets or reads.
-- Newest row first. Times are numbers of seconds; constant texts (COLLECT_TYPE, WORK_ORDER_ID, LOT_NO and
-- the like) are left out.
use data_gateway.Base.{ℕ, String, Bool, Option}
use data_gateway.Base.Floats.{Floats}

-- JUDGE_RESULT: 합격, 미달, 초과
pub data Judge : Type 0 where
  fits too_light too_heavy : Judge

module _ (fl : Floats) where
  open fl use {Float}

  -- SLT_TANK_OPR. `running` is TANK_STATUS='절임중', `plan` is PLAN_HOURS in seconds.
  pub record TankOpr : Type 0 where
    pub opr_id : ℕ
    pub tank : ℕ
    pub target : Float
    pub plan : ℕ
    pub start : ℕ
    pub ended : Option ℕ
    pub running : Bool

  -- EQP_RUN_LOG. `running` is RUN_STATUS='가동'.
  pub record RunLog : Type 0 where
    pub run_id : ℕ
    pub equip_id : ℕ
    pub running : Bool
    pub stop_code : Option String
    pub start : ℕ
    pub ended : Option ℕ
    pub stop_minutes : Option Float

  pub record SalinityLog : Type 0 where
    pub opr_id : ℕ
    pub sensor : String
    pub value : Float
    pub elapsed_hours : Float
    pub alarm : Bool
    pub at : ℕ

  pub record EnvLog : Type 0 where
    pub env_id : ℕ
    pub equip_id : ℕ
    pub sensor : String
    pub temp : Option Float
    pub humid : Option Float
    pub set_temp : Option Float
    pub at : ℕ

  pub record EnvAlarm : Type 0 where
    pub env_id : ℕ
    pub rule_id : String
    pub is_temp : Bool
    pub value : Float
    pub at : ℕ

  pub record SanitizerLog : Type 0 where
    pub equip_id : ℕ
    pub ppm : Float
    pub contact : Option Float
    pub dosing : Option Float
    pub alarm : Bool
    pub at : ℕ

  pub record MetalLog : Type 0 where
    pub equip_id : ℕ
    pub ng : Bool
    pub inspected : Float
    pub rejected : Float
    pub at : ℕ

  pub record TapingLog : Type 0 where
    pub equip_id : ℕ
    pub packed : Float
    pub running : Bool
    pub run_minutes : Option Float
    pub at : ℕ

  pub record WeightInsp : Type 0 where
    pub standard : Float
    pub measured : Float
    pub gap : Float
    pub judge : Judge
    pub at : ℕ

  pub record FillerLog : Type 0 where
    pub equip_id : ℕ
    pub speed : Option Float
    pub set_volume : Option Float
    pub at : ℕ
