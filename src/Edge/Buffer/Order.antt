-- ===== src/Edge/Buffer/Order.antt =====
-- `ORDER BY priority, id` and the LIMIT in `next_batch` of src/twin/edge/core.py: urgent samples go first.
use data_gateway.Base.{
  ℕ, zero, suc, ◌+◌, ◌≤◌, ◌<◌, ◌≡◌, refl, ap, subst, ◌∙◌, ◌⊎◌, inl, inr, Bool, true, false, ◌&&◌,
  List, [], ◌∷◌, ◌++◌, append_assoc, arith, ltb, ltb→lt, Bool-cases, take, All,
}
use data_gateway.Edge.Buffer.{Row, Buffer, before, insert_row, sort_rows, take_rows, next_batch}
use data_gateway.Edge.Buffer.Batch.{In, All-In}

-- `a` is more urgent than `b`, or as urgent, and its id is no larger.
abbrev pub Precedes : Row → Row → Type 0
Precedes a b = (a.priority < b.priority) ⊎ ((a.priority ≡ b.priority) × (a.id ≤ b.id))

before-Precedes : (a b : Row) → before a b ≡ true → Precedes a b
before-Precedes a b h = elim (Bool-cases (ltb a.priority b.priority)) [
  | inl urgent ↦ inl (ltb→lt a.priority b.priority urgent)
  | inr same ↦
      let (p, i) : (a.priority ≡ b.priority) × (a.id ≤ b.id) = ground (arith, h, same) in inr (p, i)
]

not_before-Precedes : (a b : Row) → before a b ≡ false → Precedes b a
not_before-Precedes a b h = elim (Bool-cases (ltb b.priority a.priority)) [
  | inl urgent ↦ inl (ltb→lt b.priority a.priority urgent)
  | inr same ↦
      let (p, i) : (b.priority ≡ a.priority) × (b.id ≤ a.id) = ground (arith, h, same) in inr (p, i)
]

later_still : (a b c : Row) → Precedes a b → Precedes b c → Precedes a c
later_still a b c (inl h) (inl k) = inl (omega (arith, h, k))
later_still a b c (inl h) (inr k) = inl (omega (arith, h, k.0))
later_still a b c (inr h) (inl k) = inl (omega (arith, h.0, k))
later_still a b c (inr h) (inr k) = inr (omega (arith, h.0, k.0), omega (arith, h.1, k.1))

-- Each row stands before all that follow it.
abbrev pub Sorted : List Row → Type 0
Sorted [] = Unit
Sorted (r ∷ rest) = All (λ (s : Row). Precedes r s) rest × Sorted rest

all_later :
    (a b : Row) (rows : List Row)
    → Precedes a b
    → All (λ (s : Row). Precedes b s) rows
    → All (λ (s : Row). Precedes a s) rows
all_later a b [] h k = tt
all_later a b (s ∷ rows) h k = (later_still a b s h k.0, all_later a b rows h k.1)

All-insert_row :
    (P : Row → Type 0) (r : Row) (rows : List Row) → P r → All P rows → All P (insert_row r rows)
unfolding insert_row
All-insert_row P r [] p h = (p, tt)
All-insert_row P r (s ∷ rows) p h = elim (Bool-cases (before r s)) [
  | inl first ↦ rw first (p, h)
  | inr later ↦ rw later (h.0, All-insert_row P r rows p h.1)
]

insert_row-Sorted : (r : Row) (rows : List Row) → Sorted rows → Sorted (insert_row r rows)
unfolding insert_row
insert_row-Sorted r [] h = (tt, tt)
insert_row-Sorted r (s ∷ rows) h = elim (Bool-cases (before r s)) [
  | inl first ↦
      rw first ((before-Precedes r s first, all_later r s rows (before-Precedes r s first) h.0), h)
  | inr later ↦ rw later (
    All-insert_row (λ (t : Row). Precedes s t) r rows (not_before-Precedes r s later) h.0,
    insert_row-Sorted r rows h.1,
  )
]

sort_rows-Sorted : (rows : List Row) → Sorted (sort_rows rows)
unfolding sort_rows
sort_rows-Sorted [] = tt
sort_rows-Sorted (r ∷ rows) = insert_row-Sorted r (sort_rows rows) (sort_rows-Sorted rows)

In-inserted : (x r : Row) (rows : List Row) → (x ≡ r) ⊎ In x rows → In x (insert_row r rows)
unfolding insert_row
In-inserted x r [] h = h
In-inserted x r (s ∷ rows) h = elim (Bool-cases (before r s)) [
  | inl first ↦ rw first h
  | inr later ↦ rw later (elim h [
    | inl e ↦ inr (In-inserted x r rows (inl e))
    | inr i ↦ elim i [ inl e ↦ inl e | inr j ↦ inr (In-inserted x r rows (inr j)) ]
  ])
]

In-sorted : (x : Row) (rows : List Row) → In x rows → In x (sort_rows rows)
unfolding sort_rows
In-sorted x [] i = i
In-sorted x (r ∷ rows) (inl e) = In-inserted x r (sort_rows rows) (inl e)
In-sorted x (r ∷ rows) (inr i) = In-inserted x r (sort_rows rows) (inr (In-sorted x rows i))

-- The rest of a list after the rows that were taken from its front.
abbrev Starts : List Row → List Row → Type 0
Starts front rows = (rest : List Row) × (rows ≡ front ++ rest)

take-Starts : (k : ℕ) (rows : List Row) → Starts (take k rows) rows
take-Starts zero rows = (rows, refl)
take-Starts (suc k) [] = ([], refl)
take-Starts (suc k) (r ∷ rows) = let (rest, e) = take-Starts k rows in (rest, ap (λ t. r ∷ t) e)

take_rows-Starts :
    (limit : ℕ) (started : Bool) (total : ℕ) (rows : List Row)
    → Starts (take_rows limit started total rows) rows
unfolding take_rows
take_rows-Starts limit started total [] = ([], refl)
take_rows-Starts limit started total (r ∷ rows) =
    elim (Bool-cases (started && ltb limit (total + r.n_items))) [
      | inl full ↦ rw full (r ∷ rows, refl)
      | inr fits ↦
          let (rest, e) = take_rows-Starts limit true (total + r.n_items) rows in
          rw fits (rest, ap (λ t. r ∷ t) e)
    ]

next_batch-Starts : (limit : ℕ) (b : Buffer) → Starts (next_batch limit b) (sort_rows b.rows)
unfolding next_batch
next_batch-Starts limit b =
    let rows = take limit (sort_rows b.rows) in
    let (left, e) = take_rows-Starts limit false 0 rows in
    let (more, f) = take-Starts limit (sort_rows b.rows) in
    (
      left ++ more,
      f ∙ ap (λ t. t ++ more) e ∙ append_assoc (take_rows limit false 0 rows) left more,
    )

All-front : (P : Row → Type 0) (front rest : List Row) → All P (front ++ rest) → All P front
All-front P [] rest h = tt
All-front P (x ∷ front) rest h = (h.0, All-front P front rest h.1)

Sorted-front : (front rest : List Row) → Sorted (front ++ rest) → Sorted front
Sorted-front [] rest h = tt
Sorted-front (x ∷ front) rest h = (All-front _ front rest h.0, Sorted-front front rest h.1)

before_rest :
    (front rest : List Row) (r s : Row)
    → Sorted (front ++ rest)
    → In r front
    → In s (front ++ rest)
    → In s front ⊎ Precedes r s
before_rest [] rest r s h i j = absurd i
before_rest (x ∷ front) rest r s h i (inl e) = inl (inl e)
before_rest (x ∷ front) rest r s h (inl e) (inr j) = inr (rw e (All-In _ (front ++ rest) s h.0 j))
before_rest (x ∷ front) rest r s h (inr i) (inr j) = elim (before_rest front rest r s h.1 i j) [
  | inl k ↦ inl (inr k)
  | inr k ↦ inr k
]

-- The rows of a batch are in the order of their priorities, those of one priority in the order of
-- their ids, and each row of the buffer is in the batch or comes after every row of it in that order.
pub next_batch-first :
    (limit : ℕ) (b : Buffer) (r s : Row)
    → In r (next_batch limit b)
    → In s b.rows
    → Sorted (next_batch limit b) × (In s (next_batch limit b) ⊎ Precedes r s)
next_batch-first limit b r s i j =
    let (rest, e) = next_batch-Starts limit b in
    let sorted = subst Sorted e (sort_rows-Sorted b.rows) in
    (
      Sorted-front (next_batch limit b) rest sorted,
      before_rest (next_batch limit b) rest r s sorted i (subst (In s) e (In-sorted s b.rows j)),
    )
