-- ===== src/Transfer.antt =====
-- The way of a sample from the Edge collector to the MES: `EdgeCollector` (src/twin/edge/collector.py) and
-- `MesStore.ingest` (src/twin/mes/store.py) with the network between them. An event is one step of one of
-- the tasks; the tasks are interleaved in any order. A POST may reach the MES after the sender has
-- given it up, and it may be lost, or its reply.
pub mod Safe
pub mod Steps
pub mod Delivery
pub mod Once
pub mod Rounds
pub mod Settles
use data_gateway.Base.{
  ℕ, String, Bool, Option, none, some, List, [], ◌∷◌, ◌++◌, if◌then◌else◌, keep, ◌+◌, get_elem?,
  take, drop,
}
use data_gateway.Base.Dict.{Dict}
use data_gateway.Base.Floats.{Floats}
use data_gateway.Edge.Sample.{RawItem, Sample}
use data_gateway.Edge.Buffer.{is_stale, purge}
use data_gateway.Edge.Buffer.Pending.{numbers_of}
use data_gateway.Edge.Sender.{Request, prepare, Edge, on_sample, fail, conclude}
use data_gateway.Mes.Ingest.{MesStore, ingest}

-- What the sender is at: no POST, one that has not been handled, or one with its reply under way
-- (none if the MES raised, which it answers with an error status).
pub data Flight : Type 0 where
  idle : Flight
  waiting : Request → Flight
  replied : Request → Option (List ℕ) → Flight

module _ (fl : Floats) where
  -- A time-out says whether the request is still on its way. Of the requests that arrive late any one may
  -- come next: its place in the list is given.
  pub data Event : Type 0 where
    samples : ℕ → Sample fl → Event
    purges : ℕ → Event
    sends : Event
    arrives : ℕ → Event
    reply_comes : Event
    times_out : Bool → Event
    arrives_late : ℕ → ℕ → Event

  pub record Settings : Type 0 where
    pub retention : ℕ
    pub batch_max : ℕ
    pub backoff_max : ℕ

  -- `strays` are the requests that were given up before they arrived; `purged` collects the numbers
  -- that `purge` has deleted.
  pub record System (R : Type 0) : Type 0 where
    pub edge : Edge fl
    pub store : MesStore R
    pub flight : Flight
    pub strays : List (List RawItem)
    pub purged : List ℕ

  module _ {R : Type 0} (route : String → ℕ → Dict String fl.Float → R → R) (cfg : Settings) where
    -- An event that does not fit the state leaves it.
    unfoldable pub step : Event → System R → System R
    step (samples now x) s = record s { edge = on_sample fl now x s.edge }
    step (purges now) s =
        let e = s.edge in
        record s {
          edge = record e { buffer = (purge now cfg.retention e.buffer).1 };
          purged = numbers_of (keep (is_stale now cfg.retention) e.buffer.rows) ++ s.purged;
        }
    step sends s = elim s.flight [
      | idle ↦ elim (prepare cfg.batch_max s.edge.buffer) [
        | none ↦ s
        | some req ↦ record s { flight = waiting req }
      ]
      | waiting _ ↦ s
      | replied _ _ ↦ s
    ]
    step (arrives now) s = elim s.flight [
      | idle ↦ s
      | waiting req ↦
          let (reply, store) = ingest fl route now req.items s.store in
          record s { store = store; flight = replied req reply }
      | replied _ _ ↦ s
    ]
    step reply_comes s = elim s.flight [
      | idle ↦ s
      | waiting _ ↦ s
      | replied req reply ↦ record s {
        edge = conclude fl cfg.backoff_max reply req s.edge;
        flight = idle;
      }
    ]
    step (times_out on_its_way) s = elim s.flight [
      | idle ↦ s
      | waiting req ↦ record s {
        edge = fail fl cfg.backoff_max s.edge;
        flight = idle;
        strays = if on_its_way then req.items ∷ s.strays else s.strays;
      }
      | replied _ _ ↦ record s { edge = fail fl cfg.backoff_max s.edge; flight = idle }
    ]
    step (arrives_late now k) s = elim (get_elem? s.strays k) [
      | none ↦ s
      | some items ↦ record s {
        store = (ingest fl route now items s.store).1;
        strays = take k s.strays ++ drop (k + 1) s.strays;
      }
    ]

    unfoldable pub run : List Event → System R → System R
    unfolding step
    run [] s = s
    run (e ∷ es) s = run es (step e s)
