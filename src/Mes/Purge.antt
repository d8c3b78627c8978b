-- ===== src/Mes/Purge.antt =====
-- `purge` and `next_purge_at` of src/twin/mes/store.py: the daily cleaning of the tables. Left out are the
-- sizes of the file, VACUUM and the elapsed time.
pub mod Safe
use data_gateway.Base.{
  ℕ, zero, suc, ◌+◌, ◌-◌, ◌*◌, ◌/◌, ◌%◌, ◌^◌, ◌≤◌, ◌<◌, min, max, bit_and, bit_or, bit_xor, String,
  ◌≡◌, refl, sym, ap, ap₂, subst, ◌∙◌, ◌≢◌, ◌↔◌, ◌⊎◌, inl, inr, Bool, true, false, not, ◌&&◌, ◌||◌,
  Option, none, some, List, [], ◌∷◌, ◌++◌, map, append-nil, append_assoc, arith, ltb, leb, ◌==◌,
  if◌then◌else◌, ltb→lt, ltb→ge, lt→ltb, leb→le, leb→gt, le→leb, gt→leb, ==_iff, ==_refl, ==_ne,
  Bool-cases, Option-cases, and_parts, length, get_elem?, take, drop, replicate, set, keep,
  count_if, sum_by, All, length-append, length-set, length-take, length-drop, take-append_left,
  drop-append_left, get_elem?-set_self, get_elem?-set_ne, sum_by-append, All-append, get_elem?-take,
  get_elem?-drop,
}
use data_gateway.Base.Dict.{
  Dict, get, put, remove, has, get_or, get-put, get-remove, get-put_self, get-put_ne,
  get-remove_self, get-remove_ne,
}
use data_gateway.Base.Floats.{Floats}
use data_gateway.Mes.Ingest.{RawRow}
use data_gateway.Mes.Alarms.{Alarm, AlarmState, cleared_state}
use data_gateway.Mes.Tables.{
  TankOpr, RunLog, SalinityLog, EnvLog, EnvAlarm, SanitizerLog, MetalLog, TapingLog, WeightInsp,
  FillerLog,
}
use data_gateway.Mes.Process.{Store}

-- A row of TWIN_PURGE_LOG.
pub record PurgeLog : Type 0 where
  pub trigger : String
  pub started : ℕ
  pub cutoff : ℕ
  pub deleted : Dict String ℕ
  pub total : ℕ

-- `DELETE FROM … WHERE …`: the rows that stay, and `rowcount`.
abbrev pub delete {ℓ} : {A : Type ℓ} → (A → Bool) → List A → List A × ℕ
delete p rows = (keep (λ a. not (p a)) rows, count_if p rows)

-- `x < ?`, which is not true of NULL
abbrev pub is_before : ℕ → Option ℕ → Bool
is_before cutoff none = false
is_before cutoff (some t) = ltb t cutoff

-- `x IN (SELECT …)`
abbrev pub is_in : ℕ → List ℕ → Bool
is_in n [] = false
is_in n (m ∷ ms) = m == n || is_in n ms

abbrev pub is_cleared : AlarmState → Bool
is_cleared cleared_state = true
is_cleared _ = false

module _ (fl : Floats) where
  pub record Database : Type 0 where
    pub store : Store fl
    pub raw : List RawRow
    pub purges : List PurgeLog

  abbrev pub env_ids : List (EnvAlarm fl) → List ℕ
  env_ids = map (λ (a : EnvAlarm fl). a.env_id)

  abbrev pub opr_ids : List (SalinityLog fl) → List ℕ
  opr_ids = map (λ (r : SalinityLog fl). r.opr_id)

  -- `… WHERE COLLECT_DT < ? AND ENV_LOG_ID NOT IN (SELECT ENV_LOG_ID FROM AGE_ENV_ALARM)`
  abbrev pub old_env : ℕ → List (EnvAlarm fl) → EnvLog fl → Bool
  old_env cutoff alarms r = ltb r.at cutoff && not (is_in r.env_id (env_ids alarms))

  -- `… WHERE TANK_STATUS='완료' AND END_DT < ? AND TANK_OPR_ID NOT IN (…)`
  abbrev pub old_opr : ℕ → List (SalinityLog fl) → TankOpr fl → Bool
  old_opr cutoff logs r =
      not r.running && is_before cutoff r.ended && not (is_in r.opr_id (opr_ids logs))

  unfoldable pub purge : ℕ → ℕ → String → Database → Database
  purge now cutoff trigger d =
      let s = d.store in
      let oprs = s.oprs in
      let runs = s.runs in
      let engine = s.engine in
      let (env_alarms, n₁) = delete (λ (r : EnvAlarm fl). ltb r.at cutoff) s.env_alarms in
      let (env, n₂) = delete (old_env cutoff env_alarms) s.env in
      let (salinity, n₃) = delete (λ (r : SalinityLog fl). ltb r.at cutoff) s.salinity in
      let (opr_rows, n₄) = delete (old_opr cutoff salinity) oprs.rows in
      let (sanitizer, n₅) = delete (λ (r : SanitizerLog fl). ltb r.at cutoff) s.sanitizer in
      let (metal, n₆) = delete (λ (r : MetalLog fl). ltb r.at cutoff) s.metal in
      let (taping, n₇) = delete (λ (r : TapingLog fl). ltb r.at cutoff) s.taping in
      let (weight, n₈) = delete (λ (r : WeightInsp fl). ltb r.at cutoff) s.weight in
      let (filler, n₉) = delete (λ (r : FillerLog fl). ltb r.at cutoff) s.filler in
      let (run_rows, n₁₀) = delete (λ (r : RunLog fl). is_before cutoff r.ended) runs.rows in
      let (table, n₁₁) =
        delete (λ (a : Alarm). is_cleared a.state && is_before cutoff a.cleared_dt) engine.table in
      let (raw, n₁₂) = delete (λ (r : RawRow). ltb r.item.collect_dt cutoff) d.raw in
      let deleted : Dict String ℕ =
        ("AGE_ENV_ALARM", n₁)
        ∷ ("AGE_ENV_LOG", n₂)
        ∷ ("SLT_SALINITY_LOG", n₃)
        ∷ ("SLT_TANK_OPR", n₄)
        ∷ ("WSH_SANITIZER_LOG", n₅)
        ∷ ("QUA_METAL_LOG", n₆)
        ∷ ("PKG_TAPING_LOG", n₇)
        ∷ ("PKG_WEIGHT_INSP", n₈)
        ∷ ("MIX_FILLER_LOG", n₉)
        ∷ ("EQP_RUN_LOG", n₁₀)
        ∷ ("TWIN_ALARM", n₁₁)
        ∷ ("IF_SENSOR_RAW", n₁₂)
        ∷ [] in
      record {
        store = record s {
          oprs = record oprs { rows = opr_rows };
          runs = record runs { rows = run_rows };
          engine = record engine { table = table };
          env_alarms = env_alarms;
          env = env;
          salinity = salinity;
          sanitizer = sanitizer;
          metal = metal;
          taping = taping;
          weight = weight;
          filler = filler;
        };
        raw = raw;
        purges =
            record {
              trigger = trigger;
              started = now;
              cutoff = cutoff;
              deleted = deleted;
              total = sum_by (λ (x : String × ℕ). x.1) deleted;
            }
            ∷ d.purges;
      }

-- `next_purge_at`, of times in seconds since a midnight and a time of day in seconds
unfoldable pub next_purge_at : ℕ → ℕ → ℕ
next_purge_at now at = let t = now - now % 86400 + at in if ltb now t then t else t + 86400
