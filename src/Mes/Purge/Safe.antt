-- ===== src/Mes/Purge/Safe.antt =====
-- What `purge` of src/twin/mes/store.py leaves in the tables.
use data_gateway.Base.{
  ℕ, ◌+◌, ◌%◌, ◌≤◌, ◌<◌, String, ◌≡◌, refl, ap, ◌∙◌, inl, inr, Bool, true, false, not, List, [],
  ◌∷◌, map, arith, ltb, ◌==◌, ==_iff, ==_refl, Bool-cases, keep, All, All-keep,
}
use data_gateway.Base.Floats.{Floats}
use data_gateway.Mes.Tables.{TankOpr, RunLog, SalinityLog, EnvLog, EnvAlarm}
use data_gateway.Mes.Tanks.{newest}
use data_gateway.Mes.Runs.{newest_open}
use data_gateway.Mes.Purge.{
  Database, is_before, is_in, env_ids, opr_ids, old_env, old_opr, purge, next_purge_at,
}

-- `next_purge_at` is the first moment after `now` that has the time of day `at`.
pub next_purge_at-first :
    (now at : ℕ)
    → at < 86400
    → (now < next_purge_at now at)
      × (next_purge_at now at ≤ now + 86400)
      × (next_purge_at now at % 86400 ≡ at)
unfolding next_purge_at
next_purge_at-first now at h = ground arith

module _ (fl : Floats) where
  newest-keep :
      (tank cutoff : ℕ) (logs : List (SalinityLog fl)) (rs : List (TankOpr fl))
      → newest fl tank (keep (λ (r : TankOpr fl). not (old_opr fl cutoff logs r)) rs)
        ≡ newest fl tank rs
  unfolding newest
  newest-keep tank cutoff logs [] = refl
  newest-keep tank cutoff logs (r ∷ rs) = let rest = newest-keep tank cutoff logs rs in ground arith

  newest_open-keep :
      (eid cutoff : ℕ) (rs : List (RunLog fl))
      → newest_open fl eid (keep (λ (r : RunLog fl). not (is_before cutoff r.ended)) rs)
        ≡ newest_open fl eid rs
  unfolding newest_open
  newest_open-keep eid cutoff [] = refl
  newest_open-keep eid cutoff (r ∷ rs) = let rest = newest_open-keep eid cutoff rs in ground arith

  -- Deleting rows that no child names keeps the rows that a child names.
  parents-kept :
      {A : Type 0} (id_of : A → ℕ) (old : A → Bool) (named : List ℕ) (n : ℕ) (rows : List A)
      → ((r : A) → is_in (id_of r) named ≡ true → old r ≡ false)
      → is_in n named ≡ true
      → is_in n (map id_of rows) ≡ true
      → is_in n (map id_of (keep (λ r. not (old r)) rows)) ≡ true
  parents-kept id_of old named n [] spared child h = h
  parents-kept id_of old named n (r ∷ rs) spared child h =
      let rest = parents-kept id_of old named n rs spared child in
      elim (Bool-cases (id_of r == n)) [
        | inl here ↦
            let e : id_of r ≡ n = (==_iff (id_of r) n).0 here in
            let stays : old r ≡ false = spared r (ap (λ t. is_in t named) e ∙ child) in
            rw (stays, here) refl
        | inr there ↦
            let below : is_in n (map id_of rs) ≡ true = rw there at h in
            elim (Bool-cases (old r)) [
              | inl goes ↦ rw goes (rest below)
              | inr stays ↦ rw (stays, there) (rest below)
            ]
      ]

  names_more :
      {A : Type 0} (id_of : A → ℕ) (m : ℕ) (ids : List ℕ) (rows : List A)
      → All (λ (r : A). is_in (id_of r) ids ≡ true) rows
      → All (λ (r : A). is_in (id_of r) (m ∷ ids) ≡ true) rows
  names_more id_of m ids [] h = tt
  names_more id_of m ids (r ∷ rs) (h, hs) = (ground arith, names_more id_of m ids rs hs)

  -- Each row of a list is named by the list.
  names_itself :
      {A : Type 0} (id_of : A → ℕ) (rows : List A)
      → All (λ (r : A). is_in (id_of r) (map id_of rows) ≡ true) rows
  names_itself id_of [] = tt
  names_itself id_of (r ∷ rs) = (
    rw (==_refl (id_of r)) refl,
    names_more id_of (id_of r) (map id_of rs) rs (names_itself id_of rs),
  )

  -- Every child has its parent among the rows.
  abbrev pub HaveParents : {A B : Type 0} → (A → ℕ) → (B → ℕ) → List A → List B → Type 0
  HaveParents id_of parent_of rows children =
      All (λ c. is_in (parent_of c) (map id_of rows) ≡ true) children

  kept-HaveParents :
      {A B : Type 0} (id_of : A → ℕ) (parent_of : B → ℕ) (old : A → Bool) (named : List ℕ)
      (rows : List A) (children : List B)
      → ((r : A) → is_in (id_of r) named ≡ true → old r ≡ false)
      → All (λ c. is_in (parent_of c) named ≡ true) children
      → HaveParents id_of parent_of rows children
      → HaveParents id_of parent_of (keep (λ r. not (old r)) rows) children
  kept-HaveParents id_of parent_of old named rows [] spared n h = tt
  kept-HaveParents id_of parent_of old named rows (c ∷ cs) spared (n, ns) (h, hs) = (
    parents-kept id_of old named (parent_of c) rows spared n h,
    kept-HaveParents id_of parent_of old named rows cs spared ns hs,
  )

  -- If before a purge every alarm of a store room names one of the logged measurements, and every
  -- salinity one of the tank operations, the same holds after it. The running operation of each tank
  -- and the open interval of each device are what they were.
  pub purge-safe :
      (now cutoff : ℕ) (trigger : String) (d : Database fl)
      → HaveParents
          (λ (r : EnvLog fl). r.env_id)
          (λ (a : EnvAlarm fl). a.env_id)
          d.store.env
          d.store.env_alarms
      → HaveParents
          (λ (r : TankOpr fl). r.opr_id)
          (λ (l : SalinityLog fl). l.opr_id)
          d.store.oprs.rows
          d.store.salinity
      → HaveParents
          (λ (r : EnvLog fl). r.env_id)
          (λ (a : EnvAlarm fl). a.env_id)
          (purge fl now cutoff trigger d).store.env
          (purge fl now cutoff trigger d).store.env_alarms
        × HaveParents
            (λ (r : TankOpr fl). r.opr_id)
            (λ (l : SalinityLog fl). l.opr_id)
            (purge fl now cutoff trigger d).store.oprs.rows
            (purge fl now cutoff trigger d).store.salinity
        × ((tank : ℕ)
            → newest fl tank (purge fl now cutoff trigger d).store.oprs.rows
              ≡ newest fl tank d.store.oprs.rows)
        × ((eid : ℕ)
            → newest_open fl eid (purge fl now cutoff trigger d).store.runs.rows
              ≡ newest_open fl eid d.store.runs.rows)
  unfolding purge
  purge-safe now cutoff trigger d alarms logs =
      let kept : List (EnvAlarm fl) =
        keep (λ (a : EnvAlarm fl). not (ltb a.at cutoff)) d.store.env_alarms in
      let kept_logs : List (SalinityLog fl) =
        keep (λ (l : SalinityLog fl). not (ltb l.at cutoff)) d.store.salinity in
      (
        kept-HaveParents (λ (r : EnvLog fl). r.env_id) (λ (a : EnvAlarm fl). a.env_id)
            (old_env fl cutoff kept) (env_ids fl kept) d.store.env kept (λ r n. ground arith)
            (names_itself (λ (a : EnvAlarm fl). a.env_id) kept)
            (All-keep _ (λ (a : EnvAlarm fl). not (ltb a.at cutoff)) d.store.env_alarms alarms),
        kept-HaveParents (λ (r : TankOpr fl). r.opr_id) (λ (l : SalinityLog fl). l.opr_id)
            (old_opr fl cutoff kept_logs) (opr_ids fl kept_logs) d.store.oprs.rows kept_logs
            (λ r n. ground arith) (names_itself (λ (l : SalinityLog fl). l.opr_id) kept_logs)
            (All-keep _ (λ (l : SalinityLog fl). not (ltb l.at cutoff)) d.store.salinity logs),
        λ tank. newest-keep tank cutoff kept_logs d.store.oprs.rows,
        λ eid. newest_open-keep eid cutoff d.store.runs.rows,
      )
