-- ===== src/Transfer/Delivery.antt =====
-- The sender's batch and the MES: what `prepare` sends, and what a request does when it arrives.
use data_gateway.Base.{
  ℕ, ◌<◌, String, ◌≡◌, refl, subst, ◌∙◌, inl, inr, Bool, true, Option, none, some, List, [], ◌∷◌,
  map, arith, ◌==◌, Bool-cases, length, All, All-append,
}
use data_gateway.Base.Dict.{Dict}
use data_gateway.Base.Key.{String_key}
use data_gateway.Base.Floats.{Floats}
use data_gateway.Edge.Sample.{RawItem}
use data_gateway.Edge.Buffer.{Row, Buffer, next_batch}
use data_gateway.Edge.Buffer.Batch.{All-from, All-In, In-next_batch, row_ids}
use data_gateway.Edge.Buffer.Stock.{IsStock, next_batch-Covers, msg_ids-flagged}
use data_gateway.Edge.Sender.{Request, resend_flag, flagged, request_of, prepare}
use data_gateway.Mes.Ingest.{MesStore, recorded, ingest}
use data_gateway.Mes.Ingest.Loop.{Known}
use data_gateway.Mes.Ingest.Ledger.{ingest-Unique, ingest_keeps, ingest-equip_id, ingest_delivers}
use data_gateway.Transfer.{Flight, idle, waiting, replied}
use data_gateway.Transfer.Safe.{Fits, Delivered, Flying, IsSafe}

-- What holds of the items of a batch, whatever their flags, holds of the items that are sent.
pub All-flagged :
    (P : RawItem → Type 0)
    → ((it : RawItem) (flag : Bool) → P it → P (record it { resend_yn = flag }))
    → (batch : List Row) → All (λ (r : Row). All P r.payload) batch
    → All P (flagged batch).0
unfolding flagged
All-flagged P keeps [] h = tt
All-flagged P keeps (r ∷ batch) h =
    All-append P _ (flagged batch).0 (marked (resend_flag r) r.payload h.0)
      (All-flagged P keeps batch h.1)
  where
    marked :
        (flag : Bool) (items : List RawItem)
        → All P items
        → All P (map (λ (it : RawItem). record it { resend_yn = flag }) items)
    marked flag [] k = tt
    marked flag (it ∷ items) k = (keeps it flag k.0, marked flag items k.1)

All-row_ids :
    (k : ℕ) (batch : List Row)
    → All (λ (r : Row). r.id < k) batch
    → All (λ (i : ℕ). i < k) (row_ids batch)
All-row_ids k [] h = tt
All-row_ids k (r ∷ batch) h = (h.0, All-row_ids k batch h.1)

-- What is sent fits the buffer that it is taken from.
request_of-Fits :
    (equip_id : Dict String ℕ) (batch_max : ℕ) (b : Buffer)
    → IsStock (Known equip_id) b
    → Fits equip_id (request_of (next_batch batch_max b)) b
unfolding request_of
request_of-Fits equip_id batch_max b h =
    let batch = next_batch batch_max b in
    record {
      covers = rw (msg_ids-flagged batch) (next_batch-Covers batch_max b h.distinct);
      old =
          All-row_ids b.next_id batch
            (All-from _ batch (λ r i. All-In _ b.rows r h.below (In-next_batch batch_max b r i)));
      known =
          All-flagged (Known equip_id) (λ it flag k. k) batch
            (All-from _ batch (λ r i. All-In _ b.rows r h.known (In-next_batch batch_max b r i)));
    }

pub prepare-Fits :
    (equip_id : Dict String ℕ) (batch_max : ℕ) (b : Buffer) (req : Request)
    → IsStock (Known equip_id) b
    → prepare batch_max b ≡ some req
    → Fits equip_id req b
unfolding prepare
prepare-Fits equip_id batch_max b req h e =
    elim (Bool-cases (length (next_batch batch_max b) == 0)) [
      | inl nothing ↦ absurd (cc (rw nothing at e))
      | inr ready ↦
          let same : request_of (next_batch batch_max b) ≡ req = cc (rw ready at e) in
          subst (λ r. Fits equip_id r b) same (request_of-Fits equip_id batch_max b h)
    ]

module _ (equip_id : Dict String ℕ) (fl : Floats) {R : Type 0}
    (route : String → ℕ → Dict String (Floats.Float fl) → R → R) where
  -- Whatever items come to the MES, and whenever, nothing is lost and nothing comes twice.
  pub ingest-IsSafe :
      (now : ℕ) (items : List RawItem) (b : Buffer) (m : MesStore R) (flight : Flight)
      (gone : List ℕ)
      → IsSafe equip_id b m flight gone
      → IsSafe equip_id b (ingest fl route now items m).1 flight gone
  ingest-IsSafe now items b m flight gone h = record {
    same = ingest-equip_id fl route now items m ∙ h.same;
    unique = ingest-Unique fl route now items m h.unique;
    stock = h.stock;
    flying = still flight h.flying;
    tracked = λ n lo hi.
        let t = h.tracked n lo hi in
        elim (Bool-cases (recorded n m.raw)) [
          | inl there ↦ ground (arith, ingest_keeps fl route now n items m there)
          | inr elsewhere ↦ ground (arith, t)
        ];
  }
    where
      all_kept :
          (its : List RawItem)
          → All (λ (it : RawItem). recorded it.msg_id m.raw ≡ true) its
          → All
              (λ (it : RawItem). recorded it.msg_id (ingest fl route now items m).1.raw ≡ true)
              its
      all_kept [] d = tt
      all_kept (it ∷ its) d = (ingest_keeps fl route now it.msg_id items m d.0, all_kept its d.1)

      still :
          (flight : Flight)
          → Flying equip_id flight b m
          → Flying equip_id flight b (ingest fl route now items m).1
      still idle f = tt
      still (waiting req) f = f
      still (replied req none) f = f
      still (replied req (some a)) f = (f.0, all_kept req.items f.1)

  pub arrives-IsSafe :
      (now : ℕ) (req : Request) (b : Buffer) (m : MesStore R) (gone : List ℕ)
      → IsSafe equip_id b m (waiting req) gone
      → IsSafe equip_id b
          (ingest fl route now req.items m).1
          (replied req (ingest fl route now req.items m).0)
          gone
  arrives-IsSafe now req b m gone h =
      let safe = ingest-IsSafe now req.items b m (waiting req) gone h in
      record {
        same = safe.same;
        unique = safe.unique;
        stock = safe.stock;
        flying = (h.flying, answered (ingest fl route now req.items m).0 refl);
        tracked = safe.tracked;
      }
    where
      answered :
          (reply : Option (List ℕ))
          → (ingest fl route now req.items m).0 ≡ reply
          → Delivered equip_id reply req.items (ingest fl route now req.items m).1
      answered none e = tt
      answered (some ids) e =
          ingest_delivers fl route now req.items m ids (rw h.same h.flying.known) e
