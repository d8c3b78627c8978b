-- ===== src/Transfer/Steps.antt =====
-- Each event on the way from src/twin/edge/collector.py to src/twin/mes/store.py keeps `IsSafe`.
use data_gateway.Base.{
  ℕ, String, ◌≡◌, refl, inl, inr, true, not, ◌||◌, some, List, [], ◌∷◌, ◌++◌, arith, ◌==◌, ==_iff,
  Bool-cases, keep, All,
}
use data_gateway.Base.Dict.{Dict}
use data_gateway.Base.Key.{String_key}
use data_gateway.Edge.Sample.{RawItem}
use data_gateway.Edge.Buffer.{
  Row, Buffer, member, ack, mark_failed_all, is_stale, items_in, purge, bump,
}
use data_gateway.Edge.Buffer.Accounts.{counter-bump}
use data_gateway.Edge.Buffer.Pending.{
  msg_ids, numbers_of, issued, member-append, numbers_of-keep, numbers_of-mark_failed,
}
use data_gateway.Edge.Buffer.Stock.{
  purge-IsStock, ack-IsStock, mark_failed_all-IsStock, purge-Covers, numbers_of-Covers,
}
use data_gateway.Edge.Sender.{Request}
use data_gateway.Mes.Ingest.{MesStore, recorded}
use data_gateway.Mes.Ingest.Loop.{Known}
use data_gateway.Transfer.{Flight, idle, waiting, replied}
use data_gateway.Transfer.Safe.{Fits, Flying, IsSafe}

purge-numbers :
    (now retention n : ℕ) (b : Buffer)
    → member n (numbers_of b.rows) ≡ true
    → (member n (numbers_of (purge now retention b).1.rows)
        || member n (numbers_of (keep (is_stale now retention) b.rows)))
      ≡ true
unfolding purge
purge-numbers now retention n b h =
    elim (Bool-cases (items_in (keep (is_stale now retention) b.rows) == 0)) [
      | inl nothing ↦ rw nothing (ground arith)
      | inr stale ↦ rw stale (ground (arith, numbers_of-keep n (is_stale now retention) b.rows))
    ]

purge-issued : (now retention : ℕ) (b : Buffer) → issued (purge now retention b).1 ≡ issued b
unfolding purge
purge-issued now retention b =
    ground
      (arith, counter-bump "purged" "seq" (items_in (keep (is_stale now retention) b.rows)) b.meta)

purge-next_id : (now retention : ℕ) (b : Buffer) → (purge now retention b).1.next_id ≡ b.next_id
unfolding purge
purge-next_id now retention b = ground arith

pub ack-issued : (ids : List ℕ) (n resent : ℕ) (b : Buffer) → issued (ack ids n resent b) ≡ issued b
unfolding ack
ack-issued ids n resent b = ground (
  arith,
  counter-bump "sent" "seq" n b.meta,
  counter-bump "resent" "seq" resent (bump "sent" n b.meta),
)

pub ack-rows :
    (ids : List ℕ) (n resent : ℕ) (b : Buffer)
    → (ack ids n resent b).rows ≡ keep (λ (r : Row). not (member r.id ids)) b.rows
unfolding ack
ack-rows ids n resent b = refl

module _ (equip_id : Dict String ℕ) {R : Type 0} where
  pub purge-IsSafe :
      (now retention : ℕ) (b : Buffer) (m : MesStore R) (flight : Flight) (gone : List ℕ)
      → IsSafe equip_id b m flight gone
      → IsSafe equip_id
          (purge now retention b).1
          m
          flight
          (numbers_of (keep (is_stale now retention) b.rows) ++ gone)
  purge-IsSafe now retention b m flight gone h = record {
    same = h.same;
    unique = h.unique;
    stock = purge-IsStock (Known equip_id) now retention b h.stock;
    flying = still flight h.flying;
    tracked = λ n lo hi.
        let stale = numbers_of (keep (is_stale now retention) b.rows) in
        let t = h.tracked n lo (rw (← purge-issued now retention b) hi) in
        elim (Bool-cases (member n (numbers_of b.rows))) [
          | inl there ↦
              ground (arith, purge-numbers now retention n b there, member-append n stale gone)
          | inr elsewhere ↦ ground (arith, t, member-append n stale gone)
        ];
  }
    where
      fits : (req : Request) → Fits equip_id req b → Fits equip_id req (purge now retention b).1
      fits req f = record {
        covers = purge-Covers req.row_ids (msg_ids req.items) now retention b f.covers;
        old = rw (purge-next_id now retention b) f.old;
        known = f.known;
      }

      still :
          (flight : Flight)
          → Flying equip_id flight b m
          → Flying equip_id flight (purge now retention b).1 m
      still idle f = tt
      still (waiting req) f = fits req f
      still (replied req reply) f = (fits req f.0, f.1)

  -- A failed POST leaves every row where it was.
  pub fail-IsSafe :
      (b : Buffer) (m : MesStore R) (flight : Flight) (gone : List ℕ)
      → IsSafe equip_id b m flight gone
      → IsSafe equip_id (mark_failed_all b) m idle gone
  unfolding mark_failed_all
  fail-IsSafe b m flight gone h = record {
    same = h.same;
    unique = h.unique;
    stock = mark_failed_all-IsStock (Known equip_id) b h.stock;
    flying = tt;
    tracked = λ n lo hi. rw (numbers_of-mark_failed b.rows) (h.tracked n lo hi);
  }

  -- A number of a row of the batch is in the ledger once the batch has been delivered.
  delivered :
      (items : List RawItem) (m : MesStore R) (n : ℕ)
      → All (λ (it : RawItem). recorded it.msg_id m.raw ≡ true) items
      → member n (msg_ids items) ≡ true
      → recorded n m.raw ≡ true
  delivered [] m n h i = absurd (cc)
  delivered (it ∷ items) m n h i = elim (Bool-cases (n == it.msg_id)) [
    | inl here ↦ rw ((==_iff n it.msg_id).0 here) h.0
    | inr there ↦ delivered items m n h.1 (ground arith)
  ]

  -- Rows are deleted only after their items have come to the ledger.
  pub ack-IsSafe :
      (b : Buffer) (m : MesStore R) (req : Request) (accepted : List ℕ) (k : ℕ) (gone : List ℕ)
      → IsSafe equip_id b m (replied req (some accepted)) gone
      → IsSafe equip_id (ack req.row_ids k req.resent b) m idle gone
  ack-IsSafe b m req accepted k gone h = record {
    same = h.same;
    unique = h.unique;
    stock = ack-IsStock (Known equip_id) req.row_ids k req.resent b h.stock;
    flying = tt;
    tracked = λ n lo hi.
        let p = λ (r : Row). member r.id req.row_ids in
        let t = h.tracked n lo (rw (← ack-issued req.row_ids k req.resent b) hi) in
        rw (ack-rows req.row_ids k req.resent b)
          (elim (Bool-cases (member n (numbers_of (keep p b.rows)))) [
            | inl deleted ↦
                let there = delivered req.items m n h.flying.1 (
                  numbers_of-Covers req.row_ids (msg_ids req.items) n b.rows h.flying.0.covers
                    deleted) in
                ground (arith, there)
            | inr left ↦ ground (arith, t, numbers_of-keep n p b.rows)
          ]);
  }
