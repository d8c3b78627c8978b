-- ===== src/Transfer/Once.antt =====
-- Every sequence of events from the start, on the way from src/twin/edge/collector.py to
-- src/twin/mes/store.py.
use data_gateway.Base.{
  ℕ, ◌≤◌, String, ◌≡◌, refl, ◌≢◌, inl, inr, Bool, true, ◌||◌, Option, none, some, List, [], ◌∷◌,
  arith, Bool-cases, Option-cases, get_elem?, length, All,
}
use data_gateway.Base.Dict.{Dict, get}
use data_gateway.Base.Key.{String_key}
use data_gateway.Base.Floats.{Floats}
use data_gateway.Edge.Sample.{Sample}
use data_gateway.Edge.Buffer.{empty, counter, member}
use data_gateway.Edge.Buffer.Pending.{numbers_of, issued}
use data_gateway.Edge.Sender.{Request, prepare, is_accepted, Edge, on_sample, conclude}
use data_gateway.Edge.Sender.Sampled.{on_sample-Sampled}
use data_gateway.Mes.Ingest.{MesStore, recorded}
use data_gateway.Mes.Ingest.Loop.{Unique}
use data_gateway.Transfer.{
  Flight, idle, waiting, replied, Event, samples, purges, sends, arrives, reply_comes, times_out,
  arrives_late, Settings, System, step, run,
}
use data_gateway.Transfer.Safe.{IsSafe, enqueue-IsSafe}
use data_gateway.Transfer.Steps.{purge-IsSafe, fail-IsSafe, ack-IsSafe}
use data_gateway.Transfer.Delivery.{prepare-Fits, ingest-IsSafe, arrives-IsSafe}

module _ (equip_id : Dict String ℕ) (fl : Floats) {R : Type 0}
    (route : String → ℕ → Dict String (Floats.Float fl) → R → R) (cfg : Settings fl) where
  -- The MES knows the device of every sample that comes.
  abbrev pub IsKnown : Event fl → Type 0
  IsKnown (samples now x) = get x.equip.code equip_id ≢ none
  IsKnown _ = Unit

  abbrev pub Safe : System fl R → Type 0
  Safe s = IsSafe equip_id s.edge.buffer s.store s.flight s.purged

  conclude-IsSafe :
      (reply : Option (List ℕ)) (req : Request) (e : Edge fl) (m : MesStore R) (gone : List ℕ)
      → IsSafe equip_id e.buffer m (replied req reply) gone
      → IsSafe equip_id (conclude fl cfg.backoff_max reply req e).buffer m idle gone
  unfolding conclude
  conclude-IsSafe none req e m gone h = fail-IsSafe equip_id e.buffer m _ gone h
  conclude-IsSafe (some accepted) req e m gone h =
      elim (Bool-cases (is_accepted accepted req.items)) [
        | inl all ↦ rw all (ack-IsSafe equip_id e.buffer m req accepted (length req.items) gone h)
        | inr some_left ↦ rw some_left (fail-IsSafe equip_id e.buffer m _ gone h)
      ]

  samples-IsSafe :
      (now : ℕ) (x : Sample fl) (e : Edge fl) (m : MesStore R) (flight : Flight) (gone : List ℕ)
      → get x.equip.code equip_id ≢ none
      → IsSafe equip_id e.buffer m flight gone
      → IsSafe equip_id (on_sample fl now x e).buffer m flight gone
  samples-IsSafe now x e m flight gone known h =
      elim (on_sample-Sampled fl (λ (code : String). get code equip_id ≢ none) now x e known) [
        | inl same ↦ rw same h
        | inr (at, items, prio, buffered, all, added) ↦
            rw added (enqueue-IsSafe equip_id at items prio buffered e.buffer m flight gone all h)
      ]

  sends-IsSafe :
      (s : System fl R) (flight : Flight)
      → s.flight ≡ flight
      → Safe s
      → Safe (step fl route cfg sends s)
  unfolding step
  sends-IsSafe s (waiting req) f h = rw (f, step) h
  sends-IsSafe s (replied req reply) f h = rw (f, step) h
  sends-IsSafe s idle f h = elim (Option-cases (prepare cfg.batch_max s.edge.buffer)) [
    | inl nothing ↦ rw (f, step, nothing) h
    | inr (req, ready) ↦
        rw (f, step, ready)
          (record {
            same = h.same;
            unique = h.unique;
            stock = h.stock;
            flying = prepare-Fits equip_id cfg.batch_max s.edge.buffer req h.stock ready;
            tracked = h.tracked;
          })
  ]

  arrives-Safe :
      (now : ℕ) (s : System fl R) (flight : Flight)
      → s.flight ≡ flight
      → Safe s
      → Safe (step fl route cfg (arrives now) s)
  unfolding step
  arrives-Safe now s idle f h = rw (f, step) h
  arrives-Safe now s (replied req reply) f h = rw (f, step) h
  arrives-Safe now s (waiting req) f h =
      rw (f, step)
        (arrives-IsSafe equip_id fl route now req s.edge.buffer s.store s.purged (rw f at h))

  reply_comes-Safe :
      (s : System fl R) (flight : Flight)
      → s.flight ≡ flight
      → Safe s
      → Safe (step fl route cfg reply_comes s)
  unfolding step
  reply_comes-Safe s idle f h = rw (f, step) h
  reply_comes-Safe s (waiting req) f h = rw (f, step) h
  reply_comes-Safe s (replied req reply) f h =
      rw (f, step) (conclude-IsSafe reply req s.edge s.store s.purged (rw f at h))

  times_out-Safe :
      (on_its_way : Bool) (s : System fl R) (flight : Flight)
      → s.flight ≡ flight
      → Safe s
      → Safe (step fl route cfg (times_out on_its_way) s)
  unfolding step
  times_out-Safe on_its_way s idle f h = rw (f, step) h
  times_out-Safe on_its_way s (waiting req) f h =
      rw (f, step) (fail-IsSafe equip_id s.edge.buffer s.store s.flight s.purged h)
  times_out-Safe on_its_way s (replied req reply) f h =
      rw (f, step) (fail-IsSafe equip_id s.edge.buffer s.store s.flight s.purged h)

  arrives_late-Safe :
      (now k : ℕ) (s : System fl R) → Safe s → Safe (step fl route cfg (arrives_late now k) s)
  unfolding step
  arrives_late-Safe now k s h = elim (Option-cases (get_elem? s.strays k)) [
    | inl nothing ↦ rw (step, nothing) h
    | inr (items, late) ↦
        rw (step, late)
          (ingest-IsSafe equip_id fl route now items s.edge.buffer s.store s.flight s.purged h)
  ]

  step-Safe : (e : Event fl) (s : System fl R) → IsKnown e → Safe s → Safe (step fl route cfg e s)
  unfolding step
  step-Safe (samples now x) s k h = samples-IsSafe now x s.edge s.store s.flight s.purged k h
  step-Safe (purges now) s k h =
      purge-IsSafe equip_id now cfg.retention s.edge.buffer s.store s.flight s.purged h
  step-Safe sends s k h = sends-IsSafe s s.flight refl h
  step-Safe (arrives now) s k h = arrives-Safe now s s.flight refl h
  step-Safe reply_comes s k h = reply_comes-Safe s s.flight refl h
  step-Safe (times_out on_its_way) s k h = times_out-Safe on_its_way s s.flight refl h
  step-Safe (arrives_late now i) s k h = arrives_late-Safe now i s h

  pub run-Safe :
      (es : List (Event fl)) (s : System fl R)
      → All IsKnown es
      → Safe s
      → Safe (run fl route cfg es s)
  unfolding run
  run-Safe [] s k h = h
  run-Safe (e ∷ es) s k h = run-Safe es (step fl route cfg e s) k.1 (step-Safe e s k.0 h)

  -- Nothing has been sampled, sent or stored.
  pub record IsNew (s : System fl R) : Type 0 where
    pub buffer : s.edge.buffer ≡ empty
    pub known : s.store.equip_id ≡ equip_id
    pub ledger : s.store.raw ≡ []
    pub flight : s.flight ≡ idle
    pub strays : s.strays ≡ []
    pub purged : s.purged ≡ []

  empty-IsSafe :
      (m : MesStore R) (gone : List ℕ)
      → m.equip_id ≡ equip_id
      → m.raw ≡ []
      → IsSafe equip_id empty m idle gone
  unfolding counter get
  empty-IsSafe m gone same none_there = record {
    same = same;
    unique = rw none_there tt;
    stock = record { distinct = tt; below = tt; known = tt };
    flying = tt;
    tracked = λ n lo hi. absurd (omega (arith, hi));
  }

  pub IsNew-Safe : (s : System fl R) → IsNew s → Safe s
  IsNew-Safe s h = rw (h.buffer, h.flight) (empty-IsSafe s.store s.purged h.known h.ledger)

  -- Whatever the order of samples, purges, requests, replies, time-outs and late arrivals, and
  -- whichever of them are lost: every number that the Edge has given to an item is still in its
  -- buffer, or in the ledger of the MES, or was deleted by a purge, if the MES knows the devices.
  pub run_loses_nothing :
      (es : List (Event fl)) (s : System fl R) (n : ℕ)
      → IsNew s
      → All IsKnown es
      → 1 ≤ n
      → n ≤ issued (run fl route cfg es s).edge.buffer
      → let s' = run fl route cfg es s in
        (member n (numbers_of s'.edge.buffer.rows) || recorded n s'.store.raw || member n s'.purged)
        ≡ true
  run_loses_nothing es s n new known lo hi =
      (run-Safe es s known (IsNew-Safe s new)).tracked n lo hi

  -- In any such sequence of events the ledger never holds a number twice, although requests are
  -- repeated and may arrive late.
  pub run-Unique :
      (es : List (Event fl)) (s : System fl R)
      → IsNew s
      → All IsKnown es
      → Unique (run fl route cfg es s).store.raw
  run-Unique es s new known = (run-Safe es s known (IsNew-Safe s new)).unique
