-- ===== src/Transfer/Settles.antt =====
-- The buffer of src/twin/edge/core.py empties into src/twin/mes/store.py while the network and the MES work.
use data_gateway.Base.{
  ℕ, zero, suc, ◌≤◌, String, ◌≡◌, refl, subst, ◌∙◌, true, ◌||◌, List, [], arith, length, All,
}
use data_gateway.Base.Dict.{Dict}
use data_gateway.Base.Key.{String_key}
use data_gateway.Base.Floats.{Floats}
use data_gateway.Edge.Buffer.{member}
use data_gateway.Edge.Buffer.Pending.{issued}
use data_gateway.Mes.Ingest.{recorded}
use data_gateway.Transfer.{idle, Event, Settings, System, run}
use data_gateway.Transfer.Once.{IsKnown, Safe, IsNew, run-Safe, IsNew-Safe}
use data_gateway.Transfer.Rounds.{IsReadable, rounds, one_round, nothing_left}

module _ (fl : Floats) {R : Type 0} (route : String → ℕ → Dict String (Floats.Float fl) → R → R)
    (cfg : Settings fl) where
  all_rounds :
      (now k : ℕ) (s : System fl R)
      → 1 ≤ cfg.batch_max
      → s.flight ≡ idle
      → IsReadable fl route cfg s.edge.buffer.rows
      → length s.edge.buffer.rows ≤ k
      → let t = run fl route cfg (rounds fl route cfg now k) s in
        (t.edge.buffer.rows ≡ [])
        × (issued t.edge.buffer ≡ issued s.edge.buffer)
        × (t.purged ≡ s.purged)
  unfolding run
  all_rounds now zero s positive still h few = (nothing_left s.edge.buffer.rows few, refl, refl)
  all_rounds now (suc k) s positive still h few =
      let p = one_round fl route cfg now s positive still h in
      let (empty, same, purged) =
        all_rounds now k (run fl route cfg (rounds fl route cfg now 1) s) positive p.flight
          p.readable (omega (arith, few, p.shorter)) in
      (empty, same ∙ p.same, purged ∙ p.purged)

  module _ (equip_id : Dict String ℕ) where
    rounds-IsKnown : (now k : ℕ) → All (IsKnown equip_id fl route cfg) (rounds fl route cfg now k)
    rounds-IsKnown now zero = tt
    rounds-IsKnown now (suc k) = (tt, (tt, (tt, rounds-IsKnown now k)))

    -- Whatever has happened before, however many requests were lost or repeated: where no POST is under
    -- way and each buffered value is the text of a number, as many undisturbed rounds of the sender as
    -- the buffer has rows, or more, empty the buffer, and then every number that the Edge has given to
    -- an item is in the ledger of the MES or had been deleted by a purge, if the MES knows the devices
    -- and a batch may have an item.
    pub rounds_deliver :
        (es : List (Event fl)) (start s : System fl R) (now k n : ℕ)
        → IsNew equip_id fl route cfg start
        → All (IsKnown equip_id fl route cfg) es
        → run fl route cfg es start ≡ s
        → 1 ≤ cfg.batch_max
        → s.flight ≡ idle
        → IsReadable fl route cfg s.edge.buffer.rows
        → length s.edge.buffer.rows ≤ k
        → 1 ≤ n
        → n ≤ issued s.edge.buffer
        → let t = run fl route cfg (rounds fl route cfg now k) s in
          (t.edge.buffer.rows ≡ []) × ((recorded n t.store.raw || member n s.purged) ≡ true)
    rounds_deliver es start s now k n new known reached positive still h few lo hi =
        let (empty, same, purged) = all_rounds now k s positive still h few in
        let before : Safe equip_id fl route cfg s = subst (Safe equip_id fl route cfg) reached (
          run-Safe equip_id fl route cfg es start known
            (IsNew-Safe equip_id fl route cfg start new)) in
        let after =
          run-Safe equip_id fl route cfg (rounds fl route cfg now k) s (rounds-IsKnown now k)
            before in
        let found = after.tracked n lo (rw same hi) in (empty, rw (empty, purged) at found)
