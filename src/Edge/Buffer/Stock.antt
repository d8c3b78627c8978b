-- ===== src/Edge/Buffer/Stock.antt =====
-- The table of the buffer of src/twin/edge/core.py while a batch of it is under way.
use data_gateway.Base.{
  ℕ, ◌+◌, ◌<◌, ◌≡◌, refl, ap, ◌∙◌, ◌≢◌, inl, inr, Bool, true, false, not, List, [], ◌∷◌, ◌++◌, map,
  arith, ◌==◌, ==_iff, ==_refl, Bool-cases, length, keep, All, All-append, All-keep,
}
use data_gateway.Edge.Sample.{RawItem}
use data_gateway.Edge.Buffer.{
  Row, Buffer, number_from, enqueue, next_batch, member, ack, mark_failed, mark_failed_all,
  is_stale, items_in, purge,
}
use data_gateway.Edge.Buffer.Batch.{
  In, All-from, In-next_batch, row_ids, In-row_ids, Distinct, Distinct-In,
}
use data_gateway.Edge.Buffer.Pending.{msg_ids, numbers_of, member-append}
use data_gateway.Edge.Sender.{resend_flag, flagged}

-- What the rows know of the items holds of `K`, a property that the number of an item does not touch.
pub record IsStock (K : RawItem → Type 0) (b : Buffer) : Type 0 where
  pub distinct : Distinct b.rows
  pub below : All (λ (r : Row). r.id < b.next_id) b.rows
  pub known : All (λ (r : Row). All K r.payload) b.rows

-- Every row with one of the ids has no items but these numbers.
abbrev pub Covers : List ℕ → List ℕ → Row → Type 0
Covers ids numbers r =
    member r.id ids ≡ true → All (λ (n : ℕ). member n numbers ≡ true) (msg_ids r.payload)

Distinct-keep : (p : Row → Bool) (rows : List Row) → Distinct rows → Distinct (keep p rows)
Distinct-keep p [] d = tt
Distinct-keep p (r ∷ rows) d = elim (Bool-cases (p r)) [
  | inl keeps ↦ rw keeps (All-keep _ p rows d.0, Distinct-keep p rows d.1)
  | inr drops ↦ rw drops (Distinct-keep p rows d.1)
]

Distinct-append :
    (rows : List Row) (r : Row)
    → Distinct rows
    → All (λ (s : Row). s.id < r.id) rows
    → Distinct (rows ++ (r ∷ []))
Distinct-append [] r d h = (tt, tt)
Distinct-append (s ∷ rows) r d h = (
  All-append _ rows (r ∷ []) d.0 ((λ e. absurd (omega (arith, h.0))), tt),
  Distinct-append rows r d.1 h.1,
)

below_more :
    (k : ℕ) (rows : List Row)
    → All (λ (r : Row). r.id < k) rows
    → All (λ (r : Row). r.id < k + 1) rows
below_more k [] h = tt
below_more k (r ∷ rows) h = (omega (arith, h.0), below_more k rows h.1)

module _ (K : RawItem → Type 0) where
  number_from-known :
      ((it : RawItem) (n : ℕ) → K it → K (record it { msg_id = n }))
      → (start : ℕ) (items : List RawItem) → All K items
      → All K (number_from start items)
  unfolding number_from
  number_from-known stable start [] h = tt
  number_from-known stable start (it ∷ items) h =
      (stable it start h.0, number_from-known stable (start + 1) items h.1)

  pub enqueue-IsStock :
      ((it : RawItem) (n : ℕ) → K it → K (record it { msg_id = n }))
      → (now : ℕ) (items : List RawItem) (priority : ℕ) (buffered : Bool) (b : Buffer) → All K items
      → IsStock K b
      → IsStock K (enqueue now items priority buffered b).1
  unfolding enqueue
  enqueue-IsStock stable now items priority buffered b known h =
      elim (Bool-cases (length items == 0)) [
        | inl nothing ↦ rw nothing h
        | inr some_new ↦ rw some_new (record {
          distinct = Distinct-append b.rows _ h.distinct h.below;
          below = All-append _ b.rows _ (below_more b.next_id b.rows h.below) (omega arith, tt);
          known = All-append _ b.rows _ h.known (number_from-known stable _ items known, tt);
        })
      ]

  pub purge-IsStock :
      (now retention : ℕ) (b : Buffer) → IsStock K b → IsStock K (purge now retention b).1
  unfolding purge
  purge-IsStock now retention b h =
      elim (Bool-cases (items_in (keep (is_stale now retention) b.rows) == 0)) [
        | inl nothing ↦ rw nothing h
        | inr stale ↦
            let p = λ (r : Row). not (is_stale now retention r) in
            rw stale (record {
              distinct = Distinct-keep p b.rows h.distinct;
              below = All-keep _ p b.rows h.below;
              known = All-keep _ p b.rows h.known;
            })
      ]

  pub ack-IsStock :
      (ids : List ℕ) (n resent : ℕ) (b : Buffer) → IsStock K b → IsStock K (ack ids n resent b)
  unfolding ack
  ack-IsStock ids n resent b h =
      let p = λ (r : Row). not (member r.id ids) in
      record {
        distinct = Distinct-keep p b.rows h.distinct;
        below = All-keep _ p b.rows h.below;
        known = All-keep _ p b.rows h.known;
      }

  pub mark_failed_all-IsStock : (b : Buffer) → IsStock K b → IsStock K (mark_failed_all b)
  unfolding mark_failed_all
  mark_failed_all-IsStock b h = record {
    distinct = marked_distinct b.rows h.distinct;
    below = marked _ b.rows h.below;
    known = marked _ b.rows h.known;
  }
    where
      marked :
          (P : Row → Type 0) (rows : List Row)
          → All (λ r. P (mark_failed r)) rows
          → All P (map mark_failed rows)
      marked P [] h = tt
      marked P (r ∷ rows) h = (h.0, marked P rows h.1)

      marked_distinct : (rows : List Row) → Distinct rows → Distinct (map mark_failed rows)
      marked_distinct [] d = tt
      marked_distinct (r ∷ rows) d =
          (marked (λ (s : Row). r.id ≢ s.id) rows d.0, marked_distinct rows d.1)

-- ### the batch under way

module _ (ids numbers : List ℕ) where
  -- A new row has an id that no batch under way has.
  pub enqueue-Covers :
      (now : ℕ) (items : List RawItem) (priority : ℕ) (buffered : Bool) (b : Buffer)
      → member b.next_id ids ≡ false
      → All (Covers ids numbers) b.rows
      → All (Covers ids numbers) (enqueue now items priority buffered b).1.rows
  unfolding enqueue
  enqueue-Covers now items priority buffered b fresh h = elim (Bool-cases (length items == 0)) [
    | inl nothing ↦ rw nothing h
    | inr some_new ↦ rw some_new (All-append _ b.rows _ h ((λ e. absurd (cc)), tt))
  ]

  pub purge-Covers :
      (now retention : ℕ) (b : Buffer)
      → All (Covers ids numbers) b.rows
      → All (Covers ids numbers) (purge now retention b).1.rows
  unfolding purge
  purge-Covers now retention b h =
      elim (Bool-cases (items_in (keep (is_stale now retention) b.rows) == 0)) [
        | inl nothing ↦ rw nothing h
        | inr stale ↦ rw stale (All-keep _ (λ (r : Row). not (is_stale now retention r)) b.rows h)
      ]

  -- The numbers of the rows with these ids are among these numbers.
  pub numbers_of-Covers :
      (n : ℕ) (rows : List Row)
      → All (Covers ids numbers) rows
      → member n (numbers_of (keep (λ (r : Row). member r.id ids) rows)) ≡ true
      → member n numbers ≡ true
  numbers_of-Covers n [] h i = absurd (cc)
  numbers_of-Covers n (r ∷ rows) h i = elim (Bool-cases (member r.id ids)) [
    | inr drops ↦ numbers_of-Covers n rows h.1 (rw drops at i)
    | inl keeps ↦
        let kept = numbers_of (keep (λ (r : Row). member r.id ids) rows) in
        let j : member n (msg_ids r.payload ++ kept) ≡ true = rw keeps at i in
        elim (Bool-cases (member n (msg_ids r.payload))) [
          | inl here ↦ among n (msg_ids r.payload) (h.0 keeps) here
          | inr gone ↦
              numbers_of-Covers n rows h.1
                (ground (arith, member-append n (msg_ids r.payload) kept))
        ]
  ]
    where
      among :
          (n : ℕ) (xs : List ℕ)
          → All (λ (m : ℕ). member m numbers ≡ true) xs
          → member n xs ≡ true
          → member n numbers ≡ true
      among n [] h i = absurd (cc)
      among n (x ∷ xs) h i = elim (Bool-cases (n == x)) [
        | inl same ↦ rw ((==_iff n x).0 same) h.0
        | inr other ↦ among n xs h.1 (ground arith)
      ]

-- The numbers that are sent are those of the batch.
pub msg_ids-flagged : (batch : List Row) → msg_ids (flagged batch).0 ≡ numbers_of batch
unfolding flagged
msg_ids-flagged [] = refl
msg_ids-flagged (r ∷ batch) =
    unflag (resend_flag r) r.payload (flagged batch).0
    ∙ ap (λ t. msg_ids r.payload ++ t) (msg_ids-flagged batch)
  where
    unflag :
        (flag : Bool) (items rest : List RawItem)
        → msg_ids (map (λ (it : RawItem). record it { resend_yn = flag }) items ++ rest)
          ≡ msg_ids items ++ msg_ids rest
    unflag flag [] rest = refl
    unflag flag (it ∷ items) rest = ap (λ t. it.msg_id ∷ t) (unflag flag items rest)

numbers_of-In :
    (n : ℕ) (r : Row) (batch : List Row)
    → In r batch
    → member n (msg_ids r.payload) ≡ true
    → member n (numbers_of batch) ≡ true
numbers_of-In n r [] i m = absurd i
numbers_of-In n r (s ∷ batch) (inl e) m =
    let here : member n (msg_ids s.payload) ≡ true = rw (← ap (λ (x : Row). x.payload) e) m in
    ground (arith, member-append n (msg_ids s.payload) (numbers_of batch))
numbers_of-In n r (s ∷ batch) (inr i) m =
    ground
      (arith, member-append n (msg_ids s.payload) (numbers_of batch), numbers_of-In n r batch i m)

all_members :
    (xs ys : List ℕ)
    → ((n : ℕ) → member n xs ≡ true → member n ys ≡ true)
    → All (λ (n : ℕ). member n ys ≡ true) xs
all_members [] ys h = tt
all_members (x ∷ xs) ys h =
    (h x (ground (arith, ==_refl x)), all_members xs ys (λ n m. h n (ground arith)))

-- What is sent covers the rows that it was made from.
pub next_batch-Covers :
    (limit : ℕ) (b : Buffer)
    → Distinct b.rows
    → All (Covers (row_ids (next_batch limit b)) (numbers_of (next_batch limit b))) b.rows
next_batch-Covers limit b d =
    let batch = next_batch limit b in
    All-from _ b.rows (λ r i m.
      let (s, j, e) = In-row_ids r.id batch m in
      let same : r ≡ s = Distinct-In b.rows r s d i (In-next_batch limit b s j) e in
      all_members (msg_ids r.payload) (numbers_of batch)
        (λ n here. numbers_of-In n s batch j (rw (← ap (λ (x : Row). x.payload) same) here)))
