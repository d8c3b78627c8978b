-- ===== src/Mes/Alarms.antt =====
-- `AlarmEngine` of src/twin/mes/alarms.py. A row of TWIN_ALARM is kept without its message and its value,
-- which are formatted texts. Times are numbers; `published` collects the rows that are published.
pub mod Holds
use data_gateway.Base.{
  ℕ, ◌+◌, String, Bool, true, false, ◌&&◌, ◌||◌, Option, none, some, List, [], ◌∷◌, ◌++◌, ltb, ◌==◌,
  if◌then◌else◌,
}
use data_gateway.Base.Dict.{Dict, get, put, remove, has, get_or}
use data_gateway.Base.Key.{String_key, pair_key}
use data_gateway.Base.Int.{pos}
use data_gateway.Base.Floats.{Floats}
use data_gateway.Config.{CcpRule}

-- (rule, equipment, sub-key)
abbrev pub AlarmKey : Type 0
AlarmKey = String × (String × String)

pub data AlarmState : Type 0 where
  raised_state acked_state cleared_state : AlarmState

pub record Alarm : Type 0 where
  pub alarm_id : ℕ
  pub category : String
  pub rule_id : String
  pub item : String
  pub equip_code : String
  pub severity : String
  pub value_key : String
  pub state : AlarmState
  pub raised_dt : ℕ
  pub acked_dt : Option ℕ
  pub cleared_dt : Option ℕ

pub record Alarms : Type 0 where
  pub table : List Alarm
  pub next_id : ℕ
  pub timers : Dict AlarmKey ℕ
  pub active : Dict AlarmKey ℕ
  pub published : List Alarm

-- `get(aid)`
unfoldable pub find : ℕ → List Alarm → Option Alarm
find aid [] = none
find aid (a ∷ as') = if a.alarm_id == aid then some a else find aid as'

-- `_emit`
unfoldable pub emit : ℕ → Alarms → Alarms
unfolding find
emit aid e = elim (find aid e.table) [
  | none ↦ e
  | some row ↦ record e { published = e.published ++ (row ∷ []) }
]

-- `UPDATE TWIN_ALARM SET … WHERE ALARM_ID=?`
unfoldable pub update : ℕ → (Alarm → Alarm) → List Alarm → List Alarm
update aid f [] = []
update aid f (a ∷ as') = (if a.alarm_id == aid then f a else a) ∷ update aid f as'

-- `_raise` under the key that the caller has tested
unfoldable pub raise_alarm : String → String → String → String → ℕ → AlarmKey → Alarms → ℕ × Alarms
unfolding emit
raise_alarm cat rule_id item severity ts (k, (equip, sub)) e =
    let aid = e.next_id in
    let row : Alarm = record {
      alarm_id = aid;
      category = cat;
      rule_id = rule_id;
      item = item;
      equip_code = equip;
      severity = severity;
      value_key = sub;
      state = raised_state;
      raised_dt = ts;
      acked_dt = none;
      cleared_dt = none;
    } in
    (
      aid,
      emit aid (record e {
        table = e.table ++ (row ∷ []);
        next_id = aid + 1;
        active = put (k, (equip, sub)) aid e.active;
      }),
    )

-- `_clear` of an active key
unfoldable pub clear : AlarmKey → ℕ → ℕ → Alarms → Alarms
unfolding emit update
clear key aid ts e = emit aid (record e {
  active = remove key e.active;
  table =
      update aid (λ (a : Alarm). record a { state = cleared_state; cleared_dt = some ts }) e.table;
})

-- What a condition that no longer holds does: the timer goes, and an active alarm is cleared.
unfoldable pub settle_key : AlarmKey → ℕ → Alarms → Alarms
unfolding clear
settle_key key ts e =
    let e' = record e { timers = remove key e.timers } in
    elim (get key e.active) [ none ↦ e' | some aid ↦ clear key aid ts e' ]

-- What a condition that holds does: the timer starts, or, once it has run for `hold`, the alarm is
-- raised. `timers.setdefault(key, t)` keeps an earlier start.
unfoldable pub hold_key :
    String → String → String → String → ℕ → ℕ → AlarmKey → Alarms → Option ℕ × Alarms
unfolding raise_alarm
hold_key cat rule_id item severity hold t key e =
    let start = get_or key t e.timers in
    let e' = record e { timers = put key start e.timers } in
    if has key e.active || ltb t (start + hold)
    then (none, e')
    else (let (aid, e'') = raise_alarm cat rule_id item severity start key e' in (some aid, e''))

-- `comm`: the time is the clock's.
unfoldable pub comm : ℕ → String → String → Bool → String → ℕ → Alarms → Alarms
unfolding settle_key hold_key
comm now key_id equip bad severity hold e =
    let key : AlarmKey = ("COMM", (equip, key_id)) in
    if bad then (hold_key "COMM" "COMM" key_id severity hold now key e).1 else settle_key key now e

module _ (fl : Floats) where
  open fl use {Float, of_int, sub, mul, div, abs, lt, truthy}

  -- `limit is not None and test(limit)`
  abbrev exceeds : Option Float → (Float → Bool) → Bool
  exceeds limit test = elim limit [ none ↦ false | some x ↦ test x ]

  -- `deviates`
  unfoldable pub deviates : CcpRule fl → Float → Option Float → Bool
  deviates rule value target =
      exceeds rule.low (λ low. lt value low)
      || exceeds rule.high (λ high. lt high value)
      || exceeds rule.band (λ band. exceeds target (λ t. lt band (abs (sub value t))))
      || exceeds rule.band_pct (λ pct.
        exceeds rule.std
          (λ std. truthy std && lt pct (mul (div (abs (sub value std)) std) (of_int (pos 100)))))

  -- `check`: whether the value deviates, and the alarm that it raises.
  unfoldable pub check :
      CcpRule fl → String → Float → ℕ → String → Option Float → Alarms → (Bool × Option ℕ) × Alarms
  unfolding deviates settle_key hold_key
  check rule equip value t sub_key target e =
      let key : AlarmKey = (rule.id, (equip, sub_key)) in
      let (raised, e') = hold_key "CCP" rule.id rule.item rule.severity rule.hold t key e in
      if deviates rule value target
      then ((true, raised), e')
      else ((false, none), settle_key key t e)

  -- `event`: a new alarm, or the active one raised again.
  unfoldable pub event : CcpRule fl → String → ℕ → Alarms → ℕ × Alarms
  unfolding raise_alarm emit update
  event rule equip ts e =
      let key : AlarmKey = (rule.id, (equip, "")) in
      elim (get key e.active) [
        | none ↦ raise_alarm "CCP" rule.id rule.item rule.severity ts key e
        | some aid ↦ (
          aid,
          emit aid (record e {
            table =
                update aid (λ (a : Alarm). record a { state = raised_state; raised_dt = ts })
                  e.table;
          }),
        )
      ]

  -- `rule is not None and (rule.ng_immediate or rule.band_pct is not None)`
  abbrev is_event : Option (CcpRule fl) → Bool
  is_event rule = elim rule [
    | none ↦ false
    | some r ↦ r.ng_immediate || (elim r.band_pct [ none ↦ false | some _ ↦ true ])
  ]

  -- `del self.active[k]` for every key of the alarm
  unfoldable pub forget : ℕ → Dict AlarmKey ℕ → Dict AlarmKey ℕ
  forget aid [] = []
  forget aid ((k, v) ∷ rest) = if v == aid then forget aid rest else (k, v) ∷ forget aid rest

  -- `ack(aid)`
  unfoldable pub ack : ℕ → ℕ → Dict String (CcpRule fl) → Alarms → Option Alarm × Alarms
  unfolding find emit update forget
  ack now aid rules e = elim (find aid e.table) [
    | none ↦ (none, e)
    | some row ↦
        let e' : Alarms = elim row.state [
          | raised_state ↦
              (if is_event (get row.rule_id rules)
                then record e {
                  table =
                      update aid
                        (λ (a : Alarm). record a {
                          state = cleared_state;
                          acked_dt = some now;
                          cleared_dt = some now;
                        })
                        e.table;
                  active = forget aid e.active;
                }
                else record e {
                  table =
                      update aid
                        (λ (a : Alarm). record a { state = acked_state; acked_dt = some now })
                        e.table;
                })
          | acked_state ↦ e
          | cleared_state ↦ e
        ] in
        (find aid e'.table, emit aid e')
  ]
