-- ===== src/Edge/Buffer/Batch.antt =====
-- What `next_batch` of src/twin/edge/core.py picks: rows of the table, each with the items it has there.
use data_gateway.Base.{
  ℕ, zero, suc, ◌+◌, ◌≤◌, ◌<◌, ◌≡◌, refl, sym, ap, subst, ◌∙◌, ◌≢◌, ◌⊎◌, inl, inr, Bool, true,
  false, ◌&&◌, List, [], ◌∷◌, map, arith, ltb, ◌==◌, ==_iff, Bool-cases, length, take, keep, All,
}
use data_gateway.Edge.Buffer.{
  Row, Buffer, before, insert_row, sort_rows, take_rows, next_batch, member,
}

abbrev pub In : Row → List Row → Type 0
In r [] = ⊥
In r (s ∷ rest) = (r ≡ s) ⊎ In r rest

pub All-from {κ} : (P : Row → Type κ) (rows : List Row) → ((r : Row) → In r rows → P r) → All P rows
All-from P [] h = tt
All-from P (r ∷ rows) h = (h r (inl refl), All-from P rows (λ s i. h s (inr i)))

pub All-In {κ} : (P : Row → Type κ) (rows : List Row) (r : Row) → All P rows → In r rows → P r
All-In P [] r h i = absurd i
All-In P (s ∷ rows) r h (inl e) = subst P (sym e) h.0
All-In P (s ∷ rows) r h (inr i) = All-In P rows r h.1 i

In-insert_row : (x r : Row) (rows : List Row) → In x (insert_row r rows) → (x ≡ r) ⊎ In x rows
unfolding insert_row
In-insert_row x r [] (inl e) = inl e
In-insert_row x r [] (inr i) = absurd i
In-insert_row x r (s ∷ rest) i = elim (Bool-cases (before r s)) [
  | inl first ↦ (rw first at i)
  | inr later ↦
      let j : In x (s ∷ insert_row r rest) = rw later at i in
      elim j [
        | inl e ↦ inr (inl e)
        | inr k ↦ elim (In-insert_row x r rest k) [ inl e ↦ inl e | inr l ↦ inr (inr l) ]
      ]
]

In-sort_rows : (x : Row) (rows : List Row) → In x (sort_rows rows) → In x rows
unfolding sort_rows
In-sort_rows x [] i = i
In-sort_rows x (r ∷ rest) i = elim (In-insert_row x r (sort_rows rest) i) [
  | inl e ↦ inl e
  | inr j ↦ inr (In-sort_rows x rest j)
]

In-take : (k : ℕ) (x : Row) (rows : List Row) → In x (take k rows) → In x rows
In-take zero x rows i = absurd i
In-take (suc k) x [] i = absurd i
In-take (suc k) x (r ∷ rows) (inl e) = inl e
In-take (suc k) x (r ∷ rows) (inr i) = inr (In-take k x rows i)

In-take_rows :
    (limit : ℕ) (started : Bool) (total : ℕ) (x : Row) (rows : List Row)
    → In x (take_rows limit started total rows)
    → In x rows
unfolding take_rows
In-take_rows limit started total x [] i = i
In-take_rows limit started total x (r ∷ rows) i =
    elim (Bool-cases (started && ltb limit (total + r.n_items))) [
      | inl full ↦ absurd (rw full at i)
      | inr fits ↦
          let j : In x (r ∷ take_rows limit true (total + r.n_items) rows) = rw fits at i in
          elim j [
            | inl e ↦ inl e
            | inr k ↦ inr (In-take_rows limit true (total + r.n_items) x rows k)
          ]
    ]

-- Nothing is sent that is not in the table.
pub In-next_batch : (limit : ℕ) (b : Buffer) (x : Row) → In x (next_batch limit b) → In x b.rows
unfolding next_batch
In-next_batch limit b x i = In-sort_rows x b.rows (
    In-take limit x (sort_rows b.rows)
      (In-take_rows limit false 0 x (take limit (sort_rows b.rows)) i))

abbrev pub row_ids : List Row → List ℕ
row_ids = map (λ (r : Row). r.id)

pub In-row_ids :
    (n : ℕ) (rows : List Row) → member n (row_ids rows) ≡ true → (r : Row) × In r rows × (n ≡ r.id)
In-row_ids n [] h = absurd (cc)
In-row_ids n (r ∷ rows) h = elim (Bool-cases (n == r.id)) [
  | inl same ↦ (r, inl refl, (==_iff n r.id).0 same)
  | inr other ↦ let (s, i, e) = In-row_ids n rows (ground arith) in (s, inr i, e)
]

-- The ids of the table: no two rows have one, and all are below the next one.
abbrev pub Distinct : List Row → Type 0
Distinct [] = Unit
Distinct (r ∷ rows) = All (λ (s : Row). r.id ≢ s.id) rows × Distinct rows

pub Distinct-In :
    (rows : List Row) (r s : Row) → Distinct rows → In r rows → In s rows → r.id ≡ s.id → r ≡ s
Distinct-In [] r s d i j e = absurd i
Distinct-In (t ∷ rows) r s d (inl p) (inl q) e = p ∙ sym q
Distinct-In (t ∷ rows) r s d (inl p) (inr j) e =
    absurd (All-In _ rows s d.0 j (ap (λ (x : Row). x.id) (sym p) ∙ e))
Distinct-In (t ∷ rows) r s d (inr i) (inl q) e =
    absurd (All-In _ rows r d.0 i (ap (λ (x : Row). x.id) (sym q) ∙ sym e))
Distinct-In (t ∷ rows) r s d (inr i) (inr j) e = Distinct-In rows r s d.1 i j e

insert_row-cons :
    (r : Row) (rows : List Row) → (s : Row) × (others : List Row) × (insert_row r rows ≡ s ∷ others)
unfolding insert_row
insert_row-cons r [] = (r, [], refl)
insert_row-cons r (s ∷ rows) = elim (Bool-cases (before r s)) [
  | inl first ↦ (r, s ∷ rows, rw first refl)
  | inr later ↦ (s, insert_row r rows, rw later refl)
]

take_rows-cons :
    (k : ℕ) (rows : List Row)
    → 1 ≤ k
    → 1 ≤ length rows
    → (s : Row) × (others : List Row) × (take_rows k false 0 (take k (sort_rows rows)) ≡ s ∷ others)
unfolding take_rows sort_rows
take_rows-cons zero rows p q = absurd (omega (arith, p))
take_rows-cons (suc k) [] p q = absurd (omega (arith, q))
take_rows-cons (suc k) (r ∷ rows) p q =
    let (s, others, sorted) = insert_row-cons r (sort_rows rows) in
    (s, take_rows (suc k) true (0 + s.n_items) (take k others), rw sorted refl)

-- A batch always has its first row, however many items that has.
pub next_batch-cons :
    (limit : ℕ) (b : Buffer)
    → 1 ≤ limit
    → 1 ≤ length b.rows
    → (s : Row) × (others : List Row) × (next_batch limit b ≡ s ∷ others)
unfolding next_batch
next_batch-cons limit b positive stocked = take_rows-cons limit b.rows positive stocked

keep_fewer : (p : Row → Bool) (rows : List Row) → length (keep p rows) ≤ length rows
keep_fewer p [] = omega arith
keep_fewer p (r ∷ rows) = let rest = keep_fewer p rows in ground arith

-- Deleting something leaves fewer rows.
pub length-keep_less :
    (p : Row → Bool) (rows : List Row) (r : Row)
    → In r rows
    → p r ≡ false
    → length (keep p rows) < length rows
length-keep_less p [] r i e = absurd i
length-keep_less p (s ∷ rows) r (inl same) e =
    let gone : p s ≡ false = ap p (sym same) ∙ e in
    let rest = keep_fewer p rows in rw gone (omega (arith, rest))
length-keep_less p (s ∷ rows) r (inr i) e = let rest = length-keep_less p rows r i e in ground arith
