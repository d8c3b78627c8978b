-- ===== src/Examples/Process.antt =====
-- Examples of the MES's process tables. Values are whole numbers, times are seconds.
use data_gateway.Base.{
  ℕ, ◌+◌, ◌%◌, ◌≤◌, ◌<◌, String, ◌≡◌, refl, ◌⊎◌, true, false, Option, none, some, [], ◌∷◌, arith,
}
use data_gateway.Base.Dict.{Dict, get}
use data_gateway.Base.Int.{ℤ, pos}
use data_gateway.Base.Key.{ℕ_key, String_key, pair_key}
use data_gateway.Base.Floats.{whole}
use data_gateway.Modbus.Outcome.{Result, ok}
use data_gateway.Config.{Equip}
use data_gateway.Mes.Alarms.{Alarms}
use data_gateway.Mes.Tables.{TankOpr, RunLog, SalinityLog, EnvLog, EnvAlarm}
use data_gateway.Mes.Tanks.{Tank, Oprs, newest, tank_opr}
use data_gateway.Mes.Tanks.Ends.{IsCurrent, tank_opr-ends}
use data_gateway.Mes.Runs.{Runs, newest_open, run_log}
use data_gateway.Mes.Runs.Intervals.{Reported, IsConsistent, open_runs, run_log-IsConsistent}
use data_gateway.Mes.Process.{Extra, Setup, Store, rule_of}
use data_gateway.Mes.Process.Handlers.{salinity}
use data_gateway.Mes.Process.Salinity.{deviates_by, salinity-logged}
use data_gateway.Mes.Purge.{Database, purge, next_purge_at}
use data_gateway.Mes.Purge.Safe.{HaveParents, purge-safe, next_purge_at-first}

-- Tank 3 is salted at 12 for 100 seconds; its operation started at 50.
abbrev tanks : Dict ℕ (Tank whole)
tanks = (3, record { target = pos 12; hours = 100 }) ∷ []

abbrev salting : Oprs whole
salting = record {
  rows =
      record {
        opr_id = 1;
        tank = 3;
        target = pos 12;
        plan = 100;
        start = 50;
        ended = none;
        running = true;
      }
      ∷ [];
  next_opr = 2;
}

tank_opr-ends_example :
    (s : TankOpr whole) × ((tank_opr whole tanks 262 3 260 salting).0 ≡ some (ok s))
    × IsCurrent whole 3 260 (tank_opr whole tanks 262 3 260 salting).1 s
    × ((newest whole 3 salting.rows ≡ some s) ⊎ (s.start ≤ 260))
unfolding get
tank_opr-ends_example =
    tank_opr-ends whole tanks 262 3 260 salting (record { target = pos 12; hours = 100 }) refl
      (omega arith) (omega arith, tt) (omega arith) (omega arith)

-- Two hundred seconds later the third batch of the tank is running.
third_batch :
    (tank_opr whole tanks 4 3 260 salting).0
    ≡ some (
        ok (record {
          opr_id = 3;
          tank = 3;
          target = pos 12;
          plan = 100;
          start = 250;
          ended = none;
          running = true;
        }))
unfolding tank_opr
third_batch = refl

-- A device that has been standing since 10.
abbrev standing : Runs whole
standing = record {
  rows =
      record {
        run_id = 1;
        equip_id = 7;
        running = false;
        stop_code = some "SC-AUTO";
        start = 10;
        ended = none;
        stop_minutes = none;
      }
      ∷ [];
  next_run = 2;
  state = [];
}

standing-IsConsistent : IsConsistent whole "FIL1" 7 standing
unfolding get
standing-IsConsistent = record { single = omega arith; remembered = λ b h. absurd (cc) }

abbrev started : Runs whole
started = run_log whole "FIL1" 7 true 70 standing

run_log-IsConsistent_example :
    IsConsistent whole "FIL1" 7 started
    × (open_runs whole 7 started ≡ 1)
    × (get "FIL1" started.state ≡ some true)
    × (r : RunLog whole) × (newest_open whole 7 started.rows ≡ some r)
    × (r.running ≡ true)
    × Reported whole 7 70 true r standing started
run_log-IsConsistent_example =
    run_log-IsConsistent whole "FIL1" 7 true 70 standing standing-IsConsistent

abbrev engine : Alarms
engine = record { table = []; next_id = 1; timers = []; active = []; published = [] }

abbrev store : Store whole
store = record {
  oprs = salting;
  runs = standing;
  salinity =
      record {
        opr_id = 1;
        sensor = "SAL1";
        value = pos 12;
        elapsed_hours = pos 0;
        alarm = false;
        at = 60;
      }
      ∷ [];
  env =
      record {
        env_id = 1;
        equip_id = 5;
        sensor = "ENV1";
        temp = some (pos 4);
        humid = none;
        set_temp = none;
        at = 20;
      }
      ∷ [];
  next_env = 2;
  env_alarms =
      record { env_id = 1; rule_id = "CCP-2"; is_temp = true; value = pos 4; at = 80 } ∷ [];
  sanitizer = [];
  metal = [];
  taping = [];
  weight = [];
  filler = [];
  engine = engine;
  md_prev = [];
  pkg_prev = [];
  last_values = [];
  published = [];
}

abbrev saltmeter : Equip whole
saltmeter = record {
  code = "SAL1";
  name = "salt meter";
  process = "salting";
  via = record {
    bus = some "B1";
    slave = some 3;
    plc_tcp = none;
    edge = none;
    link = none;
    unit = 1;
    endpoint = none;
  };
  poll_ms = 1000;
  delay_ms = none;
  target = "SLT_SALINITY_LOG";
  items = [];
}

abbrev setup : Setup whole
setup = record {
  equipment = saltmeter ∷ [];
  equip_id = ("SAL1", 4) ∷ [];
  tanks = tanks;
  rules = [];
}

abbrev measured : Dict String ℤ
measured = ("tank_no", pos 3) ∷ ("salinity", pos 9) ∷ []

abbrev logged : Option (Result (Extra whole)) × Store whole
logged = salinity whole 100 (λ n. "T3") setup saltmeter 90 measured store

salinity-logged_example :
    (o : TankOpr whole) × (x : Extra whole) × (row : SalinityLog whole) × (logged.0 ≡ some (ok x))
    × IsCurrent whole 3 90 logged.1.oprs o
    × (logged.1.salinity ≡ row ∷ store.salinity)
    × (row.opr_id ≡ o.opr_id)
    × (row.value ≡ pos 9)
    × (row.at ≡ 90)
    × (row.alarm
        ≡ deviates_by whole (rule_of whole "SAL1" "salinity" setup) (pos 9) (some o.target))
unfolding get
salinity-logged_example =
    salinity-logged whole 100 (λ n. "T3") setup saltmeter 90 3 measured store (pos 9) (pos 3)
      (record { target = pos 12; hours = 100 }) refl refl refl refl (omega arith) (omega arith, tt)
      (omega arith) (omega arith)

abbrev database : Database whole
database = record { store = store; raw = []; purges = [] }

purge-safe_example :
    HaveParents whole
      (λ (r : EnvLog whole). r.env_id)
      (λ (a : EnvAlarm whole). a.env_id)
      (purge whole 100 50 "SCHEDULE" database).store.env
      (purge whole 100 50 "SCHEDULE" database).store.env_alarms
    × HaveParents whole
        (λ (r : TankOpr whole). r.opr_id)
        (λ (l : SalinityLog whole). l.opr_id)
        (purge whole 100 50 "SCHEDULE" database).store.oprs.rows
        (purge whole 100 50 "SCHEDULE" database).store.salinity
    × ((tank : ℕ)
        → newest whole tank (purge whole 100 50 "SCHEDULE" database).store.oprs.rows
          ≡ newest whole tank salting.rows)
    × ((eid : ℕ)
        → newest_open whole eid (purge whole 100 50 "SCHEDULE" database).store.runs.rows
          ≡ newest_open whole eid standing.rows)
purge-safe_example = purge-safe whole 100 50 "SCHEDULE" database (refl, tt) (refl, tt)

next_purge_at-first_example :
    (10900 < next_purge_at 10900 10800)
    × (next_purge_at 10900 10800 ≤ 10900 + 86400)
    × (next_purge_at 10900 10800 % 86400 ≡ 10800)
next_purge_at-first_example = next_purge_at-first 10900 10800 (omega arith)
