-- ===== src/Mes/Tanks/Ends.antt =====
-- The loop of `_tank_opr` of src/twin/mes/store.py ends, and what it ends in.
use data_gateway.Base.{
  ℕ, zero, suc, ◌+◌, ◌≤◌, ◌<◌, ◌≡◌, refl, sym, ap, subst, ◌∙◌, ◌⊎◌, inl, inr, true, Option, none,
  some, List, [], ◌∷◌, arith, ltb, ◌==◌, ltb→lt, ltb→ge, ==_refl, Bool-cases, Option-cases,
  count_if, All,
}
use data_gateway.Base.Dict.{Dict, get}
use data_gateway.Base.Key.{ℕ_key}
use data_gateway.Base.Floats.{Floats}
use data_gateway.Modbus.Outcome.{Result, ok}
use data_gateway.Mes.Tables.{TankOpr}
use data_gateway.Mes.Tanks.{Tank, Oprs, is_running, newest, open_opr, finish_opr, tank_opr}

module _ (fl : Floats) where
  -- How many operations of the tank are running.
  abbrev pub running_oprs : ℕ → Oprs fl → ℕ
  running_oprs tank o = count_if (is_running fl tank) o.rows

  -- The operation that is found: it is the newest one that runs and the only one, it has a positive
  -- duration, and it has not ended at `ts`.
  abbrev pub IsCurrent : ℕ → ℕ → Oprs fl → TankOpr fl → Type 0
  IsCurrent tank ts o s =
      (newest fl tank o.rows ≡ some s)
      × (running_oprs tank o ≡ 1)
      × (1 ≤ s.plan)
      × (ts < s.start + s.plan)

  is_running-open :
      (tank plan start id : ℕ) (target : fl.Float)
      → is_running fl tank (record {
        opr_id = id;
        tank = tank;
        target = target;
        plan = plan;
        start = start;
        ended = none;
        running = true;
      })
        ≡ true
  is_running-open tank plan start id target = ground (arith, ==_refl tank)

  newest-none :
      (tank : ℕ) (rs : List (TankOpr fl))
      → newest fl tank rs ≡ none
      → count_if (is_running fl tank) rs ≡ 0
  unfolding newest
  newest-none tank [] h = refl
  newest-none tank (r ∷ rs) h = elim (Bool-cases (is_running fl tank r)) [
    | inl runs ↦ absurd (cc (rw runs at h))
    | inr idle ↦ rw idle (omega (arith, newest-none tank rs (rw idle at h)))
  ]

  count-finish-le :
      (tank end id : ℕ) (rs : List (TankOpr fl))
      → count_if (is_running fl tank) (finish_opr fl end id rs) ≤ count_if (is_running fl tank) rs
  unfolding finish_opr
  count-finish-le tank end id [] = omega arith
  count-finish-le tank end id (r ∷ rs) = ground (arith, count-finish-le tank end id rs)

  -- The newest running operation finished, one fewer runs.
  count-finish :
      (tank end : ℕ) (rs : List (TankOpr fl)) (r : TankOpr fl)
      → newest fl tank rs ≡ some r
      → count_if (is_running fl tank) (finish_opr fl end r.opr_id rs)
        < count_if (is_running fl tank) rs
  unfolding newest finish_opr
  count-finish tank end [] r h = absurd (cc)
  count-finish tank end (q ∷ rs) r h = elim (Bool-cases (is_running fl tank q)) [
    | inl runs ↦
        let same : q ≡ r = cc (rw runs at h) in
        let less = count-finish-le tank end r.opr_id rs in
        let self : (q.opr_id == r.opr_id) ≡ true = ground (arith, ap (λ t. t.opr_id) same) in
        ground arith
    | inr idle ↦ let less = count-finish tank end rs r (rw idle at h) in ground arith
  ]

  Found : ℕ → ℕ → TankOpr fl → Option (Result (TankOpr fl)) × Oprs fl → Type 0
  Found tank ts r out =
      (s : TankOpr fl) × (out.0 ≡ some (ok s))
      × IsCurrent tank ts out.1 s
      × (s.target ≡ r.target)
      × ((s ≡ r) ⊎ (s.start ≤ ts))

  tank_opr-from :
      (tanks : Dict ℕ (Tank fl)) (rounds tank ts : ℕ) (o : Oprs fl) (r : TankOpr fl)
      → newest fl tank o.rows ≡ some r
      → running_oprs tank o ≤ 1
      → 1 ≤ r.plan
      → ts < r.start + rounds
      → 1 ≤ rounds
      → Found tank ts r (tank_opr fl tanks rounds tank ts o)
  unfolding tank_opr Found
  tank_opr-from tanks zero tank ts o r h one plan enough some_left = absurd (omega arith)
  tank_opr-from tanks (suc rounds) tank ts o r h one plan enough some_left =
      let end : ℕ = r.start + r.plan in
      let fewer = count-finish tank end o.rows r h in
      elim (Bool-cases (ltb ts end)) [
        | inl within ↦
            rw (tank_opr, h, within)
              (r, refl, (h, omega arith, plan, ltb→lt ts end within), refl, inl refl)
        | inr over ↦
            let le : end ≤ ts = ltb→ge ts end over in
            let o' : Oprs fl = record o { rows = finish_opr fl end r.opr_id o.rows } in
            let next : TankOpr fl = record {
              opr_id = o.next_opr;
              tank = tank;
              target = r.target;
              plan = r.plan;
              start = end;
              ended = none;
              running = true;
            } in
            let runs : is_running fl tank next ≡ true =
              is_running-open tank r.plan end o.next_opr r.target in
            let opened : Oprs fl = open_opr fl tank r.target r.plan end o' in
            let count : running_oprs tank opened ≤ 1 = rw runs (omega arith) in
            let (s, e, current, target, since) =
              tank_opr-from tanks rounds tank ts opened next (rw (newest, runs) refl) count plan
                (omega arith) (omega arith) in
            let started : s.start ≤ ts = elim since [
              | inl same ↦ subst (λ (t : TankOpr fl). t.start ≤ ts) (sym same) le
              | inr before ↦ before
            ] in
            rw (tank_opr, h, over) (s, e, current, target, inr started)
      ]

  abbrev pub Planned : TankOpr fl → Type 0
  Planned r = 1 ≤ r.plan

  newest-Planned :
      (tank : ℕ) (rs : List (TankOpr fl)) (r : TankOpr fl)
      → newest fl tank rs ≡ some r
      → All Planned rs
      → Planned r
  unfolding newest
  newest-Planned tank [] r h k = absurd (cc)
  newest-Planned tank (q ∷ rs) r h (k, ks) = elim (Bool-cases (is_running fl tank q)) [
    | inl runs ↦
        let same : q ≡ r = cc (rw runs at h) in subst (λ (t : TankOpr fl). 1 ≤ t.plan) same k
    | inr idle ↦ newest-Planned tank rs r (rw idle at h) ks
  ]

  -- The tank is configured with a duration, the operations in the table have one, and at most one of
  -- the tank is running. Then the loop ends within `ts + 2` rounds, whatever has happened before: it
  -- finds an operation that has not ended at `ts`. That is the only running one of the tank, and it is
  -- the one that was running before or started no later than `ts`.
  pub tank_opr-ends :
      (tanks : Dict ℕ (Tank fl)) (rounds tank ts : ℕ) (o : Oprs fl) (tk : Tank fl)
      → get tank tanks ≡ some tk
      → 1 ≤ tk.hours
      → All Planned o.rows
      → running_oprs tank o ≤ 1
      → ts + 2 ≤ rounds
      → (s : TankOpr fl) × ((tank_opr fl tanks rounds tank ts o).0 ≡ some (ok s))
        × IsCurrent tank ts (tank_opr fl tanks rounds tank ts o).1 s
        × ((newest fl tank o.rows ≡ some s) ⊎ (s.start ≤ ts))
  unfolding tank_opr Found
  tank_opr-ends tanks zero tank ts o tk known hours planned one enough = absurd (omega arith)
  tank_opr-ends tanks (suc rounds) tank ts o tk known hours planned one enough =
      elim (Option-cases (newest fl tank o.rows)) [
        | inl idle ↦
            let first : TankOpr fl = record {
              opr_id = o.next_opr;
              tank = tank;
              target = tk.target;
              plan = tk.hours;
              start = ts;
              ended = none;
              running = true;
            } in
            let runs : is_running fl tank first ≡ true =
              is_running-open tank tk.hours ts o.next_opr tk.target in
            let none_runs = newest-none tank o.rows idle in
            let opened : Oprs fl = open_opr fl tank tk.target tk.hours ts o in
            let count : running_oprs tank opened ≤ 1 = rw runs (omega arith) in
            let (s, e, current, target, since) =
              tank_opr-from tanks rounds tank ts opened first (rw (newest, runs) refl) count hours
                (omega arith) (omega arith) in
            let started : s.start ≤ ts = elim since [
              | inl same ↦ subst (λ (t : TankOpr fl). t.start ≤ ts) (sym same) (omega arith)
              | inr before ↦ before
            ] in
            rw (tank_opr, idle, known) (s, e, current, inr started)
        | inr (r, h) ↦
            let (s, e, current, target, since) =
              tank_opr-from tanks (suc rounds) tank ts o r h one
                (newest-Planned tank o.rows r h planned) (omega arith) (omega arith) in
            let from : (newest fl tank o.rows ≡ some s) ⊎ (s.start ≤ ts) = elim since [
              | inl same ↦ inl (h ∙ ap some (sym same))
              | inr before ↦ inr before
            ] in
            (s, e, current, from)
      ]
