-- ===== src/Mes/Ingest/Ledger.antt =====
-- The ledger of src/twin/mes/store.py over a whole `ingest`, also one that is rolled back.
use data_gateway.Base.{
  ℕ, ◌+◌, String, ◌≡◌, refl, ap, ◌∙◌, ◌≢◌, ◌⊎◌, inl, inr, true, none, some, List, [], ◌∷◌, arith,
  Option-cases, length, All,
}
use data_gateway.Base.Dict.{Dict}
use data_gateway.Base.Floats.{Floats}
use data_gateway.Edge.Sample.{RawItem}
use data_gateway.Mes.Ingest.{
  MesStore, recorded, Loading, load_all, group_items, by_time, route_all, finish_ingest, ingest,
}
use data_gateway.Mes.Ingest.Loop.{
  Known, msg_ids, Unique, load_all-Unique, recorded-load_all, loaded, accepted-load_all, load_again,
  load_all-length, load_all-fresh,
}

module _ (fl : Floats) {R : Type 0}
    (route : String → ℕ → Dict String (Floats.Float fl) → R → R) where
  open fl use {parse_float}

  abbrev start : MesStore R → Loading
  start m = record { raw = m.raw; dup = m.counts.dup; accepted = []; fresh = [] }

  abbrev pub Numeric : RawItem → Type 0
  Numeric it = parse_float it.raw_value ≢ none

  group_items-some :
      (items : List RawItem) (groups : Dict (String × ℕ) (Dict String (Floats.Float fl)))
      → All Numeric items
      → group_items fl items groups ≢ none
  unfolding group_items
  group_items-some [] groups h = λ e. absurd (ground arith)
  group_items-some (it ∷ its) groups h = elim (Option-cases (parse_float it.raw_value)) [
    | inl bad ↦ absurd (h.0 bad)
    | inr (v, good) ↦ rw (good, group_items) (group_items-some its _ h.1)
  ]

  -- A rolled-back batch leaves everything but the counter of duplicates.
  finish_ingest-cases :
      (now : ℕ) (l : Loading) (m : MesStore R)
      → let r = finish_ingest fl route now l m in
        ((r.0 ≡ none) × (r.1.raw ≡ m.raw) × (r.1.tables ≡ m.tables))
        ⊎ ((r.0 ≡ some l.accepted) × (r.1.raw ≡ l.raw))
  unfolding finish_ingest
  finish_ingest-cases now l m = elim (Option-cases (group_items fl l.fresh [])) [
    | inl bad ↦ inl (rw (bad, finish_ingest) (refl, refl, refl))
    | inr (groups, good) ↦ inr (rw (good, finish_ingest) (refl, refl))
  ]

  -- However a batch ends, the ledger has no id twice afterwards if it had none before.
  pub ingest-Unique :
      (now : ℕ) (items : List RawItem) (m : MesStore R)
      → Unique m.raw
      → Unique (ingest fl route now items m).1.raw
  unfolding ingest
  ingest-Unique now items m u =
      let l = load_all m.equip_id now items (start m) in
      elim (finish_ingest-cases now l m) [
        | inl (_, kept, _) ↦ rw kept u
        | inr (_, new) ↦ rw new (load_all-Unique m.equip_id now items (start m) u)
      ]

  finish_ingest-Numeric :
      (now : ℕ) (l : Loading) (m : MesStore R)
      → All Numeric l.fresh
      → let r = finish_ingest fl route now l m in (r.0 ≡ some l.accepted) × (r.1.raw ≡ l.raw)
  unfolding finish_ingest
  finish_ingest-Numeric now l m h = elim (Option-cases (group_items fl l.fresh [])) [
    | inl bad ↦ absurd (group_items-some l.fresh [] h bad)
    | inr (groups, good) ↦ rw (good, finish_ingest) (refl, refl)
  ]

  finish_ingest-tables :
      (now : ℕ) (l : Loading) (m : MesStore R)
      → l.fresh ≡ []
      → (finish_ingest fl route now l m).1.tables ≡ m.tables
  unfolding finish_ingest group_items by_time route_all
  finish_ingest-tables now l m none_new = rw (finish_ingest, none_new) refl

  finish_ingest-ingested :
      (now : ℕ) (l : Loading) (m : MesStore R)
      → length l.raw ≡ length m.raw + length l.fresh
      → let r = finish_ingest fl route now l m in
        length r.1.raw + m.counts.ingested ≡ length m.raw + r.1.counts.ingested
  unfolding finish_ingest
  finish_ingest-ingested now l m after = elim (Option-cases (group_items fl l.fresh [])) [
    | inl bad ↦ rw (bad, finish_ingest) refl
    | inr (groups, good) ↦ rw (good, finish_ingest) (omega (arith, after))
  ]

  -- An id that is in the ledger stays there, however a batch ends.
  pub ingest_keeps :
      (now n : ℕ) (items : List RawItem) (m : MesStore R)
      → recorded n m.raw ≡ true
      → recorded n (ingest fl route now items m).1.raw ≡ true
  unfolding ingest
  ingest_keeps now n items m h =
      let l = load_all m.equip_id now items (start m) in
      elim (finish_ingest-cases now l m) [
        | inl (_, kept, _) ↦ rw kept h
        | inr (_, new) ↦ rw new (recorded-load_all m.equip_id now n items (start m) h)
      ]

  ingest-Numeric :
      (now : ℕ) (items : List RawItem) (m : MesStore R)
      → All Numeric items
      → let r = ingest fl route now items m in
        (r.0 ≡ some (msg_ids items)) × (r.1.raw ≡ (load_all m.equip_id now items (start m)).raw)
  unfolding ingest
  ingest-Numeric now items m numeric =
      let l = load_all m.equip_id now items (start m) in
      let (answer, raw) =
        finish_ingest-Numeric now l m
          (load_all-fresh Numeric m.equip_id now items (start m) numeric tt) in
      (answer ∙ ap some (accepted-load_all m.equip_id now items (start m)), raw)

  pub ingest_answers :
      (now : ℕ) (items : List RawItem) (m : MesStore R)
      → All Numeric items
      → (ingest fl route now items m).0 ≡ some (msg_ids items)
  ingest_answers now items m numeric = (ingest-Numeric now items m numeric).0

  -- A batch of known equipment and readable values is acknowledged id by id, and each of its ids is in
  -- the ledger afterwards.
  pub ingest_records :
      (now : ℕ) (items : List RawItem) (m : MesStore R)
      → All (Known m.equip_id) items
      → All Numeric items
      → let r = ingest fl route now items m in
        (r.0 ≡ some (msg_ids items))
        × All (λ (it : RawItem). recorded it.msg_id r.1.raw ≡ true) items
  ingest_records now items m known numeric =
      let (answer, raw) = ingest-Numeric now items m numeric in
      (answer, rw raw (loaded m.equip_id now items (start m) known))

  -- A batch whose ids are all in the ledger is acknowledged again, and neither the ledger nor the
  -- process tables change.
  pub ingest_again :
      (now : ℕ) (items : List RawItem) (m : MesStore R)
      → All (λ (it : RawItem). recorded it.msg_id m.raw ≡ true) items
      → let r = ingest fl route now items m in
        (r.0 ≡ some (msg_ids items)) × (r.1.raw ≡ m.raw) × (r.1.tables ≡ m.tables)
  unfolding ingest
  ingest_again now items m h =
      let l = load_all m.equip_id now items (start m) in
      let (same_raw, same_fresh) = load_again m.equip_id now items (start m) h in
      let (answer, raw) = finish_ingest-Numeric now l m (rw same_fresh tt) in
      (
        answer ∙ ap some (accepted-load_all m.equip_id now items (start m)),
        raw ∙ same_raw,
        finish_ingest-tables now l m same_fresh,
      )

  -- However a batch ends, the counter of ingested items grows by as much as the ledger does: a
  -- duplicate, an unknown device and a rolled-back batch count nothing.
  pub ingest-ingested :
      (now : ℕ) (items : List RawItem) (m : MesStore R)
      → let r = ingest fl route now items m in
        length r.1.raw + m.counts.ingested ≡ length m.raw + r.1.counts.ingested
  unfolding ingest
  ingest-ingested now items m =
      let grown = load_all-length m.equip_id now items (start m) (length m.raw) (ground arith) in
      finish_ingest-ingested now (load_all m.equip_id now items (start m)) m grown

  finish_ingest-equip_id :
      (now : ℕ) (l : Loading) (m : MesStore R)
      → (finish_ingest fl route now l m).1.equip_id ≡ m.equip_id
  unfolding finish_ingest
  finish_ingest-equip_id now l m = elim (Option-cases (group_items fl l.fresh [])) [
    | inl bad ↦ rw (bad, finish_ingest) refl
    | inr (groups, good) ↦ rw (good, finish_ingest) refl
  ]

  pub ingest-equip_id :
      (now : ℕ) (items : List RawItem) (m : MesStore R)
      → (ingest fl route now items m).1.equip_id ≡ m.equip_id
  unfolding ingest
  ingest-equip_id now items m =
      finish_ingest-equip_id now (load_all m.equip_id now items (start m)) m

  -- Where a batch is acknowledged, its items of known equipment are in the ledger.
  pub ingest_delivers :
      (now : ℕ) (items : List RawItem) (m : MesStore R) (ids : List ℕ)
      → All (Known m.equip_id) items
      → (ingest fl route now items m).0 ≡ some ids
      → All (λ (it : RawItem). recorded it.msg_id (ingest fl route now items m).1.raw ≡ true) items
  unfolding ingest
  ingest_delivers now items m ids known answered =
      let l = load_all m.equip_id now items (start m) in
      elim (finish_ingest-cases now l m) [
        | inl (refused, _, _) ↦ absurd (cc)
        | inr (_, new) ↦ rw new (loaded m.equip_id now items (start m) known)
      ]
