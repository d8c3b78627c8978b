-- ===== src/Mes/Alarms/Holds.antt =====
-- When the conditions of src/twin/mes/alarms.py raise an alarm, and when they clear it.
use data_gateway.Base.{
  ℕ, ◌+◌, ◌≤◌, ◌<◌, String, ◌≡◌, refl, subst, ◌∙◌, inl, inr, Bool, true, false, ◌&&◌, ◌||◌, Option,
  none, some, List, [], ◌∷◌, arith, ltb, leb, if◌then◌else◌, Bool-cases, Option-cases, All,
}
use data_gateway.Base.Dict.{get, put, has, get_or, get-put_self, get-remove_self}
use data_gateway.Base.Key.{String_key, pair_key}
use data_gateway.Base.Floats.{Floats}
use data_gateway.Config.{CcpRule}
use data_gateway.Mes.Alarms.{
  AlarmKey, Alarms, emit, raise_alarm, clear, settle_key, hold_key, deviates, check,
}

emit-active : (aid : ℕ) (e : Alarms) → (emit aid e).active ≡ e.active
unfolding emit
emit-active aid e = ground arith

emit-timers : (aid : ℕ) (e : Alarms) → (emit aid e).timers ≡ e.timers
unfolding emit
emit-timers aid e = ground arith

settle_key-active :
    (key : AlarmKey) (ts : ℕ) (e : Alarms) → get key (settle_key key ts e).active ≡ none
unfolding settle_key clear
settle_key-active key ts e = elim (Option-cases (get key e.active)) [
  | inl idle ↦ rw (idle, settle_key) idle
  | inr (aid, there) ↦ rw (there, settle_key, emit-active aid _) (get-remove_self key e.active)
]

settle_key-timers :
    (key : AlarmKey) (ts : ℕ) (e : Alarms) → get key (settle_key key ts e).timers ≡ none
unfolding settle_key clear
settle_key-timers key ts e = elim (Option-cases (get key e.active)) [
  | inl idle ↦ rw (idle, settle_key) (get-remove_self key e.timers)
  | inr (aid, there) ↦ rw (there, settle_key, emit-timers aid _) (get-remove_self key e.timers)
]

raise_alarm-active :
    (cat rule_id item severity : String) (ts : ℕ) (key : AlarmKey) (e : Alarms)
    → let r = raise_alarm cat rule_id item severity ts key e in get key r.1.active ≡ some r.0
unfolding raise_alarm
raise_alarm-active cat rule_id item severity ts (k, (equip, sub)) e =
    rw (emit-active e.next_id _) (get-put_self (k, (equip, sub)) e.next_id e.active)

-- The alarm that a condition raises is active.
hold_key-active :
    (cat rule_id item severity : String) (hold t : ℕ) (key : AlarmKey) (e : Alarms) (aid : ℕ)
    → (hold_key cat rule_id item severity hold t key e).0 ≡ some aid
    → get key (hold_key cat rule_id item severity hold t key e).1.active ≡ some aid
unfolding hold_key
hold_key-active cat rule_id item severity hold t key e aid h =
    let start = get_or key t e.timers in
    elim (Bool-cases (has key e.active || ltb t (start + hold))) [
      | inl waits ↦ absurd (cc (rw (waits, hold_key) at h))
      | inr over ↦
          let e' : Alarms = record e { timers = put key start e.timers } in
          let made : some (raise_alarm cat rule_id item severity start key e').0 ≡ some aid =
            rw (over, hold_key) at h in
          rw (over, hold_key) (raise_alarm-active cat rule_id item severity start key e' ∙ made)
    ]

hold_key-none :
    (cat rule_id item severity : String) (hold t : ℕ) (key : AlarmKey) (e : Alarms) (aid : ℕ)
    → get key e.active ≡ some aid
    → (hold_key cat rule_id item severity hold t key e).0 ≡ none
unfolding hold_key
hold_key-none cat rule_id item severity hold t key e aid there = ground (arith, there)

module _ (fl : Floats) where
  open fl use {Float}

  -- A value within its limits ends the condition: the timer is gone and no alarm of the key is active.
  pub check_ends :
      (rule : CcpRule fl) (equip : String) (value : Float) (t : ℕ) (sub_key : String)
      (target : Option Float) (e : Alarms)
      → deviates fl rule value target ≡ false
      → let r = check fl rule equip value t sub_key target e in
        (r.0 ≡ (false, none))
        × (get (rule.id, (equip, sub_key)) r.1.active ≡ none)
        × (get (rule.id, (equip, sub_key)) r.1.timers ≡ none)
  unfolding check
  check_ends rule equip value t sub_key target e fine =
      let key : AlarmKey = (rule.id, (equip, sub_key)) in
      rw (fine, check) (refl, settle_key-active key t e, settle_key-timers key t e)

  -- A value at a time, and the target it is compared with.
  pub record Reading : Type 0 where
    pub at : ℕ
    pub value : Float
    pub target : Option Float

  module _ (rule : CcpRule fl) (equip sub_key : String) where
    abbrev pub is_bad : Reading → Bool
    is_bad x = deviates fl rule x.value x.target

    abbrev pub check_one : Reading → Alarms → (Bool × Option ℕ) × Alarms
    check_one x = check fl rule equip x.value x.at sub_key x.target

    abbrev pub check_all : List Reading → Alarms → Alarms
    check_all [] e = e
    check_all (x ∷ xs) e = check_all xs (check_one x e).1

    abbrev own_key : AlarmKey
    own_key = (rule.id, (equip, sub_key))

    -- The timer runs since `start`, and no alarm has been raised.
    record Waits (start next : ℕ) (e : Alarms) : Type 0 where
      timer : get own_key e.timers ≡ some start
      idle : get own_key e.active ≡ none
      id : e.next_id ≡ next

    check_one-Waits :
        (start : ℕ) (x : Reading) (e : Alarms)
        → get_or own_key x.at e.timers ≡ start
        → get own_key e.active ≡ none
        → is_bad x ≡ true
        → x.at < start + rule.hold
        → Waits start e.next_id (check_one x e).1
    unfolding check hold_key
    check_one-Waits start x e since idle bad early =
        let waits : (has own_key e.active || ltb x.at (start + rule.hold)) ≡ true =
          ground (arith, early) in
        rw (bad, check, since, waits)
          (record { timer = get-put_self own_key start e.timers; idle = idle; id = refl })

    check_all-Waits :
        (start next : ℕ) (xs : List Reading) (e : Alarms)
        → Waits start next e
        → All (λ (x : Reading). (is_bad x ≡ true) × (x.at < start + rule.hold)) xs
        → Waits start next (check_all xs e)
    check_all-Waits start next [] e w h = w
    check_all-Waits start next (x ∷ xs) e w ((bad, early), rest) =
        let since : get_or own_key x.at e.timers ≡ start = ground (arith, w.timer) in
        check_all-Waits start next xs (check_one x e).1
          (subst (λ n. Waits start n (check_one x e).1) w.id
            (check_one-Waits start x e since w.idle bad early))
          rest

    check_one-raised :
        (start next : ℕ) (x : Reading) (e : Alarms)
        → Waits start next e
        → (check_one x e).0.1
          ≡ (if is_bad x && leb (start + rule.hold) x.at then some next else none)
    unfolding check hold_key raise_alarm
    check_one-raised start next x e w =
        let since : get_or own_key x.at e.timers ≡ start = ground (arith, w.timer) in
        let free : has own_key e.active ≡ false = ground (arith, w.idle) in
        elim (Bool-cases (is_bad x)) [
          | inl bad ↦ rw (bad, check, since, free, w.id) (ground arith)
          | inr fine ↦ rw (fine, check) refl
        ]

    -- A rule with a hold time of at least one, no alarm and no timer of its key: a value outside its
    -- limits comes, and others outside follow before the hold time has passed since that first one. The
    -- next value then raises an alarm exactly if it lies outside too and the hold time has passed,
    -- counted from the first of these values.
    pub check_raises :
        (first : Reading) (more : List Reading) (x : Reading) (e : Alarms)
        → 1 ≤ rule.hold
        → get (rule.id, (equip, sub_key)) e.timers ≡ none
        → get (rule.id, (equip, sub_key)) e.active ≡ none
        → is_bad first ≡ true
        → All (λ (y : Reading). (is_bad y ≡ true) × (y.at < first.at + rule.hold)) more
        → (check_one x (check_all (first ∷ more) e)).0.1
          ≡ (if is_bad x && leb (first.at + rule.hold) x.at then some e.next_id else none)
    check_raises first more x e held untimed idle bad early =
        let since : get_or own_key first.at e.timers ≡ first.at = ground (arith, untimed) in
        check_one-raised first.at e.next_id x (check_all (first ∷ more) e) (
          check_all-Waits first.at e.next_id more (check_one first e).1
            (check_one-Waits first.at first e since idle bad (omega (arith, held))) early)

  check-none :
      (rule : CcpRule fl) (equip : String) (value : Float) (t : ℕ) (sub_key : String)
      (target : Option Float) (e : Alarms) (aid : ℕ)
      → get (rule.id, (equip, sub_key)) e.active ≡ some aid
      → (check fl rule equip value t sub_key target e).0.1 ≡ none
  unfolding check
  check-none rule equip value t sub_key target e aid there =
      elim (Bool-cases (deviates fl rule value target)) [
        | inl bad ↦
            rw (bad, check)
              (hold_key-none "CCP" rule.id rule.item rule.severity rule.hold t _ e aid there)
        | inr fine ↦ rw (fine, check) refl
      ]

  -- The alarm that is raised is active under its key, so that the same condition raises no second one.
  pub check_raises_once :
      (rule : CcpRule fl) (equip : String) (value again : Float) (t later : ℕ) (sub_key : String)
      (target : Option Float) (e : Alarms) (aid : ℕ)
      → (check fl rule equip value t sub_key target e).0.1 ≡ some aid
      → let e' = (check fl rule equip value t sub_key target e).1 in
        (get (rule.id, (equip, sub_key)) e'.active ≡ some aid)
        × ((check fl rule equip again later sub_key target e').0.1 ≡ none)
  unfolding check
  check_raises_once rule equip value again t later sub_key target e aid h =
      let key : AlarmKey = (rule.id, (equip, sub_key)) in
      let e' = (check fl rule equip value t sub_key target e).1 in
      let there : get key e'.active ≡ some aid = elim (Bool-cases (deviates fl rule value target)) [
        | inr fine ↦ absurd (cc (rw (fine, check) at h))
        | inl bad ↦
            rw (bad, check)
              (hold_key-active "CCP" rule.id rule.item rule.severity rule.hold t key e aid
                (rw (bad, check) at h))
      ] in
      (there, check-none rule equip again later sub_key target e' aid there)
