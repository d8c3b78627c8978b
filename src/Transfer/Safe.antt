-- ===== src/Transfer/Safe.antt =====
-- What holds of the buffer, the batch under way and the ledger between any two events of the way from
-- src/twin/edge/collector.py to src/twin/mes/store.py.
use data_gateway.Base.{
  ℕ, ◌≤◌, ◌<◌, String, ◌≡◌, refl, inl, inr, Bool, true, false, ◌||◌, Option, none, some, List, [],
  ◌∷◌, arith, leb, leb→le, Bool-cases, All,
}
use data_gateway.Base.Dict.{Dict}
use data_gateway.Base.Key.{String_key}
use data_gateway.Edge.Sample.{RawItem}
use data_gateway.Edge.Buffer.{Buffer, enqueue, member}
use data_gateway.Edge.Buffer.Pending.{msg_ids, numbers_of, issued, numbers_of-enqueue}
use data_gateway.Edge.Buffer.Stock.{IsStock, Covers, enqueue-IsStock, enqueue-Covers}
use data_gateway.Edge.Sender.{Request}
use data_gateway.Mes.Ingest.{MesStore, recorded}
use data_gateway.Mes.Ingest.Loop.{Known, Unique}
use data_gateway.Transfer.{Flight, idle, waiting, replied}

module _ (equip_id : Dict String ℕ) where
  pub record Fits (req : Request) (b : Buffer) : Type 0 where
    pub covers : All (Covers req.row_ids (msg_ids req.items)) b.rows
    pub old : All (λ (i : ℕ). i < b.next_id) req.row_ids
    pub known : All (Known equip_id) req.items

  old-member : (k : ℕ) (ids : List ℕ) → All (λ (i : ℕ). i < k) ids → member k ids ≡ false
  old-member k [] h = refl
  old-member k (i ∷ ids) h = ground (arith, h.0, old-member k ids h.1)

  older : (k j : ℕ) (ids : List ℕ) → k ≤ j → All (λ (i : ℕ). i < k) ids → All (λ (i : ℕ). i < j) ids
  older k j [] le h = tt
  older k j (i ∷ ids) le h = (omega (arith, h.0), older k j ids le h.1)

  enqueue-next_id :
      (now : ℕ) (items : List RawItem) (priority : ℕ) (buffered : Bool) (b : Buffer)
      → b.next_id ≤ (enqueue now items priority buffered b).1.next_id
  unfolding enqueue
  enqueue-next_id now items priority buffered b = ground arith

  enqueue-Fits :
      (now : ℕ) (items : List RawItem) (priority : ℕ) (buffered : Bool) (b : Buffer) (req : Request)
      → Fits req b
      → Fits req (enqueue now items priority buffered b).1
  enqueue-Fits now items priority buffered b req h = record {
    covers =
        enqueue-Covers req.row_ids (msg_ids req.items) now items priority buffered b
          (old-member b.next_id req.row_ids h.old) h.covers;
    old = older b.next_id _ req.row_ids (enqueue-next_id now items priority buffered b) h.old;
    known = h.known;
  }

  module _ {R : Type 0} where
    abbrev pub Delivered : Option (List ℕ) → List RawItem → MesStore R → Type 0
    Delivered none items m = Unit
    Delivered (some _) items m = All (λ (it : RawItem). recorded it.msg_id m.raw ≡ true) items

    abbrev pub Flying : Flight → Buffer → MesStore R → Type 0
    Flying idle b m = Unit
    Flying (waiting req) b m = Fits req b
    Flying (replied req reply) b m = Fits req b × Delivered reply req.items m

    -- A number is in the buffer, in the ledger, or has been purged.
    abbrev pub is_tracked : ℕ → Buffer → MesStore R → List ℕ → Bool
    is_tracked n b m gone = member n (numbers_of b.rows) || recorded n m.raw || member n gone

    pub record IsSafe (b : Buffer) (m : MesStore R) (flight : Flight) (gone : List ℕ) : Type 0 where
      pub same : m.equip_id ≡ equip_id
      pub unique : Unique m.raw
      pub stock : IsStock (Known equip_id) b
      pub flying : Flying flight b m
      pub tracked : (n : ℕ) → 1 ≤ n → n ≤ issued b → is_tracked n b m gone ≡ true

    pub enqueue-IsSafe :
        (now : ℕ) (items : List RawItem) (priority : ℕ) (buffered : Bool) (b : Buffer)
        (m : MesStore R) (flight : Flight) (gone : List ℕ)
        → All (Known equip_id) items
        → IsSafe b m flight gone
        → IsSafe (enqueue now items priority buffered b).1 m flight gone
    enqueue-IsSafe now items priority buffered b m flight gone known h = record {
      same = h.same;
      unique = h.unique;
      stock =
          enqueue-IsStock (Known equip_id) (λ it n k. k) now items priority buffered b known
            h.stock;
      flying = still flight h.flying;
      tracked = λ n lo hi.
          let new = numbers_of-enqueue now items priority buffered b n in
          elim (Bool-cases (leb n (issued b))) [
            | inl before ↦
                let t = h.tracked n lo (leb→le n (issued b) before) in ground (arith, new, t)
            | inr after ↦ ground (arith, new)
          ];
    }
      where
        still :
            (flight : Flight)
            → Flying flight b m
            → Flying flight (enqueue now items priority buffered b).1 m
        still idle f = tt
        still (waiting req) f = enqueue-Fits now items priority buffered b req f
        still (replied req reply) f = (enqueue-Fits now items priority buffered b req f.0, f.1)
