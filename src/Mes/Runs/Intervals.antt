-- ===== src/Mes/Runs/Intervals.antt =====
-- The open interval of a device in EQP_RUN_LOG, as `_run_log` of src/twin/mes/store.py keeps it.
use data_gateway.Base.{
  ℕ, ◌+◌, ◌≤◌, ◌<◌, String, ◌≡◌, refl, sym, ap, ◌∙◌, ◌≢◌, ◌⊎◌, inl, inr, Bool, true, false, Option,
  none, some, List, [], ◌∷◌, arith, ◌==◌, if◌then◌else◌, ==_refl, Bool-cases, Option-cases,
  count_if,
}
use data_gateway.Base.Dict.{Dict, get, put, get-put_self}
use data_gateway.Base.Key.{ℕ_key, String_key}
use data_gateway.Base.Floats.{Floats}
use data_gateway.Mes.Tables.{RunLog}
use data_gateway.Mes.Runs.{
  Runs, is_open, newest_open, end_run, close_open, state_before, run_log, same_state, minutes_of,
}

module _ (fl : Floats) where
  abbrev pub open_runs : ℕ → Runs fl → ℕ
  open_runs eid s = count_if (is_open fl eid) s.rows

  -- The device has no interval that is open twice, and what is remembered of it is the state of its
  -- open interval.
  pub record IsConsistent (code : String) (eid : ℕ) (s : Runs fl) : Type 0 where
    pub single : open_runs eid s ≤ 1
    pub remembered :
        (b : Bool)
        → get code s.state ≡ some b
        → (r : RunLog fl) × (newest_open fl eid s.rows ≡ some r) × (r.running ≡ b)

  newest_open-none :
      (eid : ℕ) (rs : List (RunLog fl))
      → newest_open fl eid rs ≡ none
      → count_if (is_open fl eid) rs ≡ 0
  unfolding newest_open
  newest_open-none eid [] h = refl
  newest_open-none eid (r ∷ rs) h = elim (Bool-cases (is_open fl eid r)) [
    | inl yes' ↦ absurd (cc (rw yes' at h))
    | inr no' ↦ rw no' (omega (arith, newest_open-none eid rs (rw no' at h)))
  ]

  count-end_run-le :
      (eid ts id : ℕ) (minutes : Option fl.Float) (rs : List (RunLog fl))
      → count_if (is_open fl eid) (end_run fl ts minutes id rs) ≤ count_if (is_open fl eid) rs
  unfolding end_run
  count-end_run-le eid ts id minutes [] = omega arith
  count-end_run-le eid ts id minutes (r ∷ rs) =
      ground (arith, count-end_run-le eid ts id minutes rs)

  count-end_run :
      (eid ts : ℕ) (minutes : Option fl.Float) (rs : List (RunLog fl)) (r : RunLog fl)
      → newest_open fl eid rs ≡ some r
      → count_if (is_open fl eid) (end_run fl ts minutes r.run_id rs) < count_if (is_open fl eid) rs
  unfolding newest_open end_run
  count-end_run eid ts minutes [] r h = absurd (cc)
  count-end_run eid ts minutes (q ∷ rs) r h = elim (Bool-cases (is_open fl eid q)) [
    | inl yes' ↦
        let same : q ≡ r = cc (rw yes' at h) in
        let less = count-end_run-le eid ts r.run_id minutes rs in
        let self : (q.run_id == r.run_id) ≡ true = ground (arith, ap (λ t. t.run_id) same) in
        ground arith
    | inr no' ↦ let less = count-end_run eid ts minutes rs r (rw no' at h) in ground arith
  ]

  -- After the open interval has been closed none is open.
  count-close_open :
      (eid ts : ℕ) (prev : Bool) (rs : List (RunLog fl))
      → count_if (is_open fl eid) rs ≤ 1
      → count_if (is_open fl eid) (close_open fl eid ts prev rs) ≡ 0
  unfolding close_open
  count-close_open eid ts prev rs h = elim (Option-cases (newest_open fl eid rs)) [
    | inl nothing ↦ rw (close_open, nothing) (newest_open-none eid rs nothing)
    | inr (r, there) ↦
        rw (close_open, there)
          (omega (arith, count-end_run eid ts (minutes_of fl prev r.start ts) rs r there, h))
  ]

  state_before-none :
      (code : String) (eid : ℕ) (s : Runs fl)
      → IsConsistent code eid s
      → newest_open fl eid s.rows ≡ none
      → state_before fl code eid s ≡ none
  state_before-none code eid s c h = elim (Option-cases (get code s.state)) [
    | inl unknown ↦ rw (state_before, unknown, h) refl
    | inr (b, known) ↦ let (r, there, same) = c.remembered b known in absurd (cc)
  ]

  state_before-some :
      (code : String) (eid : ℕ) (s : Runs fl) (r : RunLog fl)
      → IsConsistent code eid s
      → newest_open fl eid s.rows ≡ some r
      → state_before fl code eid s ≡ some r.running
  state_before-some code eid s r c h = elim (Option-cases (get code s.state)) [
    | inl unknown ↦ rw (state_before, unknown, h) refl
    | inr (b, known) ↦
        let (q, there, same) = c.remembered b known in
        let same_row : q ≡ r = cc in
        rw (state_before, known) (ap some (sym same ∙ ap (λ (t : RunLog fl). t.running) same_row))
  ]

  -- A device with one open interval, of the state that is remembered.
  settled :
      (code : String) (eid : ℕ) (running : Bool) (d : Dict String Bool) (next : ℕ)
      (rows : List (RunLog fl)) (r : RunLog fl)
      → count_if (is_open fl eid) rows ≡ 1
      → newest_open fl eid rows ≡ some r
      → r.running ≡ running
      → IsConsistent code eid (record { rows = rows; next_run = next; state = put code running d })
  settled code eid running d next rows r one there same = record {
    single = omega (arith, one);
    remembered = λ b known.
        let now : running ≡ b = cc (rw (get-put_self code running d) at known) in
        (r, there, same ∙ now);
  }

  same_state-eq : (a b : Bool) → same_state (some a) b ≡ true → a ≡ b
  same_state-eq true b h = sym h
  same_state-eq false b h = ground arith

  -- The open interval of the device is not of this state, or there is none.
  abbrev pub Differs : ℕ → Bool → Runs fl → Type 0
  Differs eid running s =
      (newest_open fl eid s.rows ≡ none)
      ⊎ ((r : RunLog fl) × (newest_open fl eid s.rows ≡ some r) × (r.running ≢ running))

  -- What a call has done to the table: nothing, where the open interval is of the reported state, or
  -- that interval is closed and a new one is opened.
  abbrev pub Reported : ℕ → ℕ → Bool → RunLog fl → Runs fl → Runs fl → Type 0
  Reported eid ts running r s s' =
      ((newest_open fl eid s.rows ≡ some r) × (s'.rows ≡ s.rows))
      ⊎ (Differs eid running s × (r.start ≡ ts) × (r.run_id ≡ s.next_run))

  changed-ne : (a b : Bool) → same_state (some a) b ≡ false → a ≢ b
  changed-ne true b h e = absurd (cc)
  changed-ne false b h e = absurd (ground arith)

  abbrev After : String → ℕ → Bool → ℕ → Runs fl → Runs fl → Type 0
  After code eid running ts s s' =
      IsConsistent code eid s'
      × (open_runs eid s' ≡ 1)
      × (get code s'.state ≡ some running)
      × (r : RunLog fl) × (newest_open fl eid s'.rows ≡ some r)
      × (r.running ≡ running)
      × Reported eid ts running r s s'

  abbrev opened : ℕ → Bool → ℕ → Runs fl → RunLog fl
  opened eid running ts s = record {
    run_id = s.next_run;
    equip_id = eid;
    running = running;
    stop_code = if running then none else some "SC-AUTO";
    start = ts;
    ended = none;
    stop_minutes = none;
  }

  -- A new interval, where none is open any more.
  opens :
      (code : String) (eid : ℕ) (running : Bool) (ts : ℕ) (s : Runs fl) (rows : List (RunLog fl))
      → count_if (is_open fl eid) rows ≡ 0
      → Differs eid running s
      → After code eid running ts s (record {
        rows = opened eid running ts s ∷ rows;
        next_run = s.next_run + 1;
        state = put code running s.state;
      })
  unfolding newest_open
  opens code eid running ts s rows closed differs =
      let r = opened eid running ts s in
      let fresh : is_open fl eid r ≡ true = ground (arith, ==_refl eid) in
      let one : count_if (is_open fl eid) (r ∷ rows) ≡ 1 = rw fresh (omega (arith, closed)) in
      let newest : newest_open fl eid (r ∷ rows) ≡ some r = rw (newest_open, fresh) refl in
      (
        settled code eid running s.state (s.next_run + 1) (r ∷ rows) r one newest refl,
        one,
        get-put_self code running s.state,
        r,
        newest,
        refl,
        inr (differs, refl, refl),
      )

  -- The open interval, which is of the reported state.
  stays :
      (code : String) (eid : ℕ) (running : Bool) (ts : ℕ) (s : Runs fl) (r : RunLog fl)
      → open_runs eid s ≤ 1
      → newest_open fl eid s.rows ≡ some r
      → r.running ≡ running
      → After code eid running ts s (record s { state = put code running s.state })
  stays code eid running ts s r single there same =
      let one : count_if (is_open fl eid) s.rows ≡ 1 =
        omega (arith, count-end_run eid ts none s.rows r there, single) in
      (
        settled code eid running s.state s.next_run s.rows r one there same,
        one,
        get-put_self code running s.state,
        r,
        there,
        same,
        inl (there, refl),
      )

  -- After the call the device has exactly one open interval, it is of the state that was reported, and
  -- this state is remembered. Where the interval that was open is of this state already, it stays open
  -- and no row changes; only where there is none, or one of the other state, a new one is opened.
  pub run_log-IsConsistent :
      (code : String) (eid : ℕ) (running : Bool) (ts : ℕ) (s : Runs fl)
      → IsConsistent code eid s
      → let s' = run_log fl code eid running ts s in
        IsConsistent code eid s'
        × (open_runs eid s' ≡ 1)
        × (get code s'.state ≡ some running)
        × (r : RunLog fl) × (newest_open fl eid s'.rows ≡ some r)
        × (r.running ≡ running)
        × Reported eid ts running r s s'
  unfolding run_log
  run_log-IsConsistent code eid running ts s c = elim (Option-cases (newest_open fl eid s.rows)) [
    | inl nothing ↦
        rw (run_log, state_before-none code eid s c nothing)
          (opens code eid running ts s s.rows (newest_open-none eid s.rows nothing) (inl nothing))
    | inr (r, there) ↦
        let before = state_before-some code eid s r c there in
        elim (Bool-cases (same_state (some r.running) running)) [
          | inl same ↦
              rw (run_log, before, same)
                (stays code eid running ts s r c.single there
                  (same_state-eq r.running running same))
          | inr changed ↦
              rw (run_log, before, changed)
                (opens code eid running ts s (close_open fl eid ts r.running s.rows)
                  (count-close_open eid ts r.running s.rows c.single)
                  (inr (r, there, changed-ne r.running running changed)))
        ]
  ]
