-- ===== src/Mes/Runs.antt =====
-- `_run_log` of src/twin/mes/store.py: the intervals in which a device runs or stands. EQP_RUN_LOG is a
-- list, newest row first. Times are numbers of seconds.
pub mod Intervals
use data_gateway.Base.{
  ℕ, zero, suc, ◌+◌, ◌-◌, ◌*◌, ◌/◌, ◌%◌, ◌^◌, ◌≤◌, ◌<◌, min, max, bit_and, bit_or, bit_xor, String,
  ◌≡◌, refl, sym, ap, ap₂, subst, ◌∙◌, ◌≢◌, ◌↔◌, ◌⊎◌, inl, inr, Bool, true, false, not, ◌&&◌, ◌||◌,
  Option, none, some, List, [], ◌∷◌, ◌++◌, map, append-nil, append_assoc, arith, ltb, leb, ◌==◌,
  if◌then◌else◌, ltb→lt, ltb→ge, lt→ltb, leb→le, leb→gt, le→leb, gt→leb, ==_iff, ==_refl, ==_ne,
  Bool-cases, Option-cases, and_parts, length, get_elem?, take, drop, replicate, set, keep,
  count_if, sum_by, All, length-append, length-set, length-take, length-drop, take-append_left,
  drop-append_left, get_elem?-set_self, get_elem?-set_ne, sum_by-append, All-append, get_elem?-take,
  get_elem?-drop,
}
use data_gateway.Base.Dict.{
  Dict, get, put, remove, has, get_or, get-put, get-remove, get-put_self, get-put_ne,
  get-remove_self, get-remove_ne,
}
use data_gateway.Base.Key.{ℕ_key, String_key}
use data_gateway.Base.Int.{pos, sub_ℕ}
use data_gateway.Base.Floats.{Floats}
use data_gateway.Mes.Tables.{RunLog}

-- `prev == state` of two states, the first of which may be unknown
abbrev pub same_state : Option Bool → Bool → Bool
same_state none b = false
same_state (some true) b = b
same_state (some false) b = not b

module _ (fl : Floats) where
  open fl use {Float, of_int, div, round_to}

  -- The table, and `_run_state`: the last state of each device.
  pub record Runs : Type 0 where
    pub rows : List (RunLog fl)
    pub next_run : ℕ
    pub state : Dict String Bool

  -- `EQUIP_ID=? AND END_DT IS NULL`
  abbrev pub is_open : ℕ → RunLog fl → Bool
  is_open eid r = (r.equip_id == eid) && elim r.ended [ none ↦ true | some _ ↦ false ]

  -- `… ORDER BY RUN_LOG_ID DESC LIMIT 1`
  unfoldable pub newest_open : ℕ → List (RunLog fl) → Option (RunLog fl)
  newest_open eid [] = none
  newest_open eid (r ∷ rs) = if is_open eid r then some r else newest_open eid rs

  -- `UPDATE EQP_RUN_LOG SET END_DT=?, STOP_MINUTES=? WHERE RUN_LOG_ID=?`
  unfoldable pub end_run : ℕ → Option Float → ℕ → List (RunLog fl) → List (RunLog fl)
  end_run ts minutes id [] = []
  end_run ts minutes id (r ∷ rs) =
      (if r.run_id == id then record r { ended = some ts; stop_minutes = minutes } else r)
      ∷ end_run ts minutes id rs

  -- The minutes of an interval that ends, for one in which the device stood.
  abbrev pub minutes_of : Bool → ℕ → ℕ → Option Float
  minutes_of true start ts = none
  minutes_of false start ts = some (round_to 2 (div (of_int (sub_ℕ ts start)) (of_int (pos 60))))

  -- The open interval of the device ends; `prev` is the state before.
  unfoldable pub close_open : ℕ → ℕ → Bool → List (RunLog fl) → List (RunLog fl)
  unfolding end_run newest_open
  close_open eid ts prev rows = elim (newest_open eid rows) [
    | none ↦ rows
    | some r ↦ end_run ts (minutes_of prev r.start ts) r.run_id rows
  ]

  -- `prev`: what is remembered, or else what the table says.
  abbrev pub state_before : String → ℕ → Runs → Option Bool
  state_before code eid s = elim (get code s.state) [
    | some b ↦ some b
    | none ↦ elim (newest_open eid s.rows) [ none ↦ none | some r ↦ some r.running ]
  ]

  unfoldable pub run_log : String → ℕ → Bool → ℕ → Runs → Runs
  unfolding close_open
  run_log code eid running ts s =
      let prev = state_before code eid s in
      let rows : List (RunLog fl) = elim prev [
        | none ↦ s.rows
        | some b ↦ close_open eid ts b s.rows
      ] in
      if same_state prev running then record s { state = put code running s.state } else record {
        rows =
            record {
              run_id = s.next_run;
              equip_id = eid;
              running = running;
              stop_code = if running then none else some "SC-AUTO";
              start = ts;
              ended = none;
              stop_minutes = none;
            }
            ∷ rows;
        next_run = s.next_run + 1;
        state = put code running s.state;
      }
