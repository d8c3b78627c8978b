-- ===== src/Transfer/Rounds.antt =====
-- The way from src/twin/edge/collector.py to src/twin/mes/store.py while the network and the MES work: one
-- round of `_sender` is a request, its arrival and its reply.
use data_gateway.Base.{
  ℕ, zero, suc, ◌-◌, ◌≤◌, ◌<◌, String, ◌≡◌, refl, sym, ap, subst, ◌∙◌, inl, inr, true, false, not,
  Option, none, some, List, [], ◌∷◌, arith, leb, ◌==◌, leb→le, leb→gt, Bool-cases, length, take,
  All, All-keep,
}
use data_gateway.Base.Dict.{Dict}
use data_gateway.Base.Key.{String_key}
use data_gateway.Base.Floats.{Floats}
use data_gateway.Edge.Sample.{RawItem}
use data_gateway.Edge.Buffer.{Row, Buffer, sort_rows, take_rows, next_batch, member, ack}
use data_gateway.Edge.Buffer.Batch.{
  All-from, All-In, In-next_batch, row_ids, next_batch-cons, length-keep_less,
}
use data_gateway.Edge.Buffer.Pending.{issued}
use data_gateway.Edge.Sender.{Request, request_of, prepare, is_accepted, Edge, conclude, succeed}
use data_gateway.Mes.Ingest.{MesStore}
use data_gateway.Mes.Ingest.Loop.{msg_ids}
use data_gateway.Mes.Ingest.Ledger.{Numeric, ingest_answers}
use data_gateway.Transfer.{
  Flight, idle, waiting, replied, Event, sends, arrives, reply_comes, Settings, System, step, run,
}
use data_gateway.Transfer.Steps.{ack-issued, ack-rows}
use data_gateway.Transfer.Delivery.{All-flagged}

-- The MES acknowledges each id that it is sent, and the sender sees that all are there.
is_accepted-weaken :
    (n : ℕ) (ids : List ℕ) (items : List RawItem)
    → is_accepted ids items ≡ true
    → is_accepted (n ∷ ids) items ≡ true
unfolding is_accepted
is_accepted-weaken n ids [] h = refl
is_accepted-weaken n ids (it ∷ items) h =
    let rest = is_accepted-weaken n ids items in ground (arith, h, rest)

is_accepted-msg_ids : (items : List RawItem) → is_accepted (msg_ids items) items ≡ true
unfolding is_accepted
is_accepted-msg_ids [] = refl
is_accepted-msg_ids (it ∷ items) =
    let rest = is_accepted-weaken it.msg_id (msg_ids items) items (is_accepted-msg_ids items) in
    ground (arith, rest)

ack-shorter :
    (batch_max n resent : ℕ) (b : Buffer)
    → 1 ≤ batch_max
    → 1 ≤ length b.rows
    → length (ack (row_ids (next_batch batch_max b)) n resent b).rows < length b.rows
ack-shorter batch_max n resent b positive stocked =
    let (s, others, picked) = next_batch-cons batch_max b positive stocked in
    let ids = row_ids (next_batch batch_max b) in
    rw (ack-rows ids n resent b) (
      length-keep_less (λ (r : Row). not (member r.id ids)) b.rows s
        (In-next_batch batch_max b s (rw picked (inl refl))) (rw picked (ground arith)))

nothing_taken : (k : ℕ) → take_rows k false 0 (take k (sort_rows [])) ≡ []
unfolding take_rows sort_rows
nothing_taken zero = refl
nothing_taken (suc k) = refl

pub nothing_left : (rows : List Row) → length rows ≤ 0 → rows ≡ []
nothing_left [] h = refl
nothing_left (r ∷ rows) h = absurd (omega (arith, h))

module _ (fl : Floats) {R : Type 0} (route : String → ℕ → Dict String (Floats.Float fl) → R → R)
    (cfg : Settings fl) where
  open fl use {parse_float}

  -- Each value that the buffer holds is the text of a number.
  abbrev pub IsReadable : List Row → Type 0
  IsReadable = All (λ (r : Row). All (Numeric fl route) r.payload)

  -- The rounds of the sender in which nothing is lost; the MES handles each request at `now`.
  abbrev pub rounds : ℕ → ℕ → List (Event fl)
  rounds now zero = []
  rounds now (suc k) = sends ∷ arrives now ∷ reply_comes ∷ rounds now k

  -- What a round does to the sender.
  pub record Progress (s t : System fl R) : Type 0 where
    pub flight : t.flight ≡ idle
    pub readable : IsReadable t.edge.buffer.rows
    pub shorter : length t.edge.buffer.rows ≤ length s.edge.buffer.rows - 1
    pub same : issued t.edge.buffer ≡ issued s.edge.buffer
    pub purged : t.purged ≡ s.purged

  concluded :
      (reply : Option (List ℕ)) (req : Request) (e : Edge fl)
      → reply ≡ some (msg_ids req.items)
      → conclude fl cfg.backoff_max reply req e ≡ succeed fl req e
  unfolding conclude
  concluded reply req e answered = rw (answered, conclude, is_accepted-msg_ids req.items) refl

  prepared :
      (b : Buffer)
      → 1 ≤ cfg.batch_max
      → 1 ≤ length b.rows
      → prepare cfg.batch_max b ≡ some (request_of (next_batch cfg.batch_max b))
  unfolding prepare
  prepared b positive stocked =
      let (s, others, picked) = next_batch-cons cfg.batch_max b positive stocked in
      let full : (length (next_batch cfg.batch_max b) == 0) ≡ false = rw picked (ground arith) in
      rw full refl

  readable_items :
      (b : Buffer)
      → IsReadable b.rows
      → All (Numeric fl route) (request_of (next_batch cfg.batch_max b)).items
  unfolding request_of
  readable_items b h =
      let batch = next_batch cfg.batch_max b in
      All-flagged (Numeric fl route) (λ it flag k. k) batch
        (All-from _ batch (λ r i. All-In _ b.rows r h (In-next_batch cfg.batch_max b r i)))

  acked :
      (now : ℕ) (s : System fl R) (e : Edge fl) (store : MesStore R)
      → 1 ≤ cfg.batch_max
      → 1 ≤ length s.edge.buffer.rows
      → IsReadable s.edge.buffer.rows
      → e ≡ succeed fl (request_of (next_batch cfg.batch_max s.edge.buffer)) s.edge
      → Progress s (record s { edge = e; store = store; flight = idle })
  unfolding request_of
  acked now s e store positive stocked h done =
      let req = request_of (next_batch cfg.batch_max s.edge.buffer) in
      let b = s.edge.buffer in
      rw done (record {
        flight = refl;
        readable =
            rw (ack-rows req.row_ids (length req.items) req.resent b)
              (All-keep _ (λ (r : Row). not (member r.id req.row_ids)) b.rows h);
        shorter =
            let fewer =
              ack-shorter cfg.batch_max (length req.items) req.resent b positive stocked in
            omega (arith, fewer);
        same = ack-issued req.row_ids (length req.items) req.resent b;
        purged = refl;
      })

  sent : System fl R → Option Request → System fl R
  sent s p = elim p [ none ↦ s | some r ↦ record s { flight = waiting r } ]

  sending :
      (s : System fl R) (p : Option Request)
      → s.flight ≡ idle
      → prepare cfg.batch_max s.edge.buffer ≡ p
      → step fl route cfg sends s ≡ sent s p
  unfolding step sent
  sending s p still ready =
      ap
        (λ (f : Flight). elim f [
          | idle ↦ sent s (prepare cfg.batch_max s.edge.buffer)
          | waiting _ ↦ s
          | replied _ _ ↦ s
        ])
        still
      ∙ ap (sent s) ready

  busy_round :
      (now : ℕ) (s : System fl R)
      → 1 ≤ cfg.batch_max
      → 1 ≤ length s.edge.buffer.rows
      → s.flight ≡ idle
      → IsReadable s.edge.buffer.rows
      → Progress s (run fl route cfg (rounds now 1) s)
  unfolding run step sent
  busy_round now s positive stocked still h =
      let req = request_of (next_batch cfg.batch_max s.edge.buffer) in
      let went = sending s (some req) still (prepared s.edge.buffer positive stocked) in
      subst (λ t. Progress s (step fl route cfg reply_comes (step fl route cfg (arrives now) t)))
        (sym went)
        (acked now s _ _ positive stocked h (
          concluded _ req s.edge
            (ingest_answers fl route now req.items s.store (readable_items s.edge.buffer h))))

  arrives-idle :
      (now : ℕ) (s : System fl R) → s.flight ≡ idle → step fl route cfg (arrives now) s ≡ s
  unfolding step
  arrives-idle now s still = simp (step, still) refl

  reply_comes-idle : (s : System fl R) → s.flight ≡ idle → step fl route cfg reply_comes s ≡ s
  unfolding step
  reply_comes-idle s still = simp (step, still) refl

  nothing_prepared : (b : Buffer) → b.rows ≡ [] → prepare cfg.batch_max b ≡ none
  unfolding prepare next_batch
  nothing_prepared b empty = rw (empty, nothing_taken cfg.batch_max) refl

  idle_round :
      (now : ℕ) (s : System fl R)
      → s.edge.buffer.rows ≡ []
      → s.flight ≡ idle
      → run fl route cfg (rounds now 1) s ≡ s
  unfolding run sent
  idle_round now s empty still =
      ap (λ t. step fl route cfg reply_comes (step fl route cfg (arrives now) t))
        (sending s none still (nothing_prepared s.edge.buffer empty))
      ∙ ap (step fl route cfg reply_comes) (arrives-idle now s still)
      ∙ reply_comes-idle s still

  pub one_round :
      (now : ℕ) (s : System fl R)
      → 1 ≤ cfg.batch_max
      → s.flight ≡ idle
      → IsReadable s.edge.buffer.rows
      → Progress s (run fl route cfg (rounds now 1) s)
  one_round now s positive still h = elim (Bool-cases (leb 1 (length s.edge.buffer.rows))) [
    | inl stocked ↦ busy_round now s positive (leb→le 1 (length s.edge.buffer.rows) stocked) still h
    | inr left ↦
        let empty =
          nothing_left s.edge.buffer.rows
            (omega (arith, leb→gt 1 (length s.edge.buffer.rows) left)) in
        subst (λ t. Progress s t) (sym (idle_round now s empty still))
          (record {
            flight = still;
            readable = h;
            shorter = rw empty (omega arith);
            same = refl;
            purged = refl;
          })
  ]
