-- ===== src/Edge/Buffer/Pending.antt =====
-- The rows that wait in the buffer of src/twin/edge/core.py, and the numbers that their items have.
use data_gateway.Base.{
  ℕ, ◌+◌, ◌-◌, ◌≤◌, ◌≡◌, refl, ap, inl, inr, Bool, not, ◌&&◌, ◌||◌, List, [], ◌∷◌, ◌++◌, map, arith,
  ltb, leb, ◌==◌, Bool-cases, length, keep,
}
use data_gateway.Base.Key.{String_key}
use data_gateway.Edge.Sample.{RawItem}
use data_gateway.Edge.Buffer.{Row, Buffer, counter, bump, number_from, enqueue, member, mark_failed}
use data_gateway.Edge.Buffer.Accounts.{counter-bump}

abbrev pub msg_ids : List RawItem → List ℕ
msg_ids = map (λ (it : RawItem). it.msg_id)

abbrev pub numbers_of : List Row → List ℕ
numbers_of [] = []
numbers_of (r ∷ rows) = msg_ids r.payload ++ numbers_of rows

pub member-append : (n : ℕ) (xs ys : List ℕ) → member n (xs ++ ys) ≡ (member n xs || member n ys)
member-append n [] ys = refl
member-append n (x ∷ xs) ys = ground (arith, member-append n xs ys)

numbers_of-append :
    (n : ℕ) (xs ys : List Row)
    → member n (numbers_of (xs ++ ys)) ≡ (member n (numbers_of xs) || member n (numbers_of ys))
numbers_of-append n [] ys = refl
numbers_of-append n (x ∷ xs) ys = ground (
  arith,
  member-append n (msg_ids x.payload) (numbers_of (xs ++ ys)),
  member-append n (msg_ids x.payload) (numbers_of xs),
  numbers_of-append n xs ys,
)

-- A number is in the rows of one kind or in the others.
pub numbers_of-keep :
    (n : ℕ) (p : Row → Bool) (rows : List Row)
    → member n (numbers_of rows)
      ≡ (member n (numbers_of (keep p rows)) || member n (numbers_of (keep (λ r. not (p r)) rows)))
numbers_of-keep n p [] = refl
numbers_of-keep n p (r ∷ rows) = ground (
  arith,
  member-append n (msg_ids r.payload) (numbers_of rows),
  member-append n (msg_ids r.payload) (numbers_of (keep p rows)),
  member-append n (msg_ids r.payload) (numbers_of (keep (λ r. not (p r)) rows)),
  numbers_of-keep n p rows,
)

pub numbers_of-mark_failed : (rows : List Row) → numbers_of (map mark_failed rows) ≡ numbers_of rows
numbers_of-mark_failed [] = refl
numbers_of-mark_failed (r ∷ rows) = ap (λ t. msg_ids r.payload ++ t) (numbers_of-mark_failed rows)

member-number_from :
    (n start : ℕ) (items : List RawItem)
    → member n (msg_ids (number_from start items)) ≡ (leb start n && ltb n (start + length items))
unfolding number_from
member-number_from n start [] = ground arith
member-number_from n start (it ∷ items) = ground (arith, member-number_from n (start + 1) items)

abbrev pub issued : Buffer → ℕ
issued b = counter "seq" b.meta

-- A number given out by `enqueue` is in the rows, and no other one is new.
pub numbers_of-enqueue :
    (now : ℕ) (items : List RawItem) (priority : ℕ) (buffered : Bool) (b : Buffer) (n : ℕ)
    → let b' = (enqueue now items priority buffered b).1 in
      (member n (numbers_of b'.rows)
        ≡ (member n (numbers_of b.rows) || ltb (issued b) n && leb n (issued b')))
      × (issued b ≤ issued b')
unfolding enqueue
numbers_of-enqueue now items priority buffered b n = elim (Bool-cases (length items == 0)) [
  | inl nothing ↦ rw nothing (ground arith, omega arith)
  | inr some_new ↦
      let k = length items in
      let seq = counter-bump "seq" "seq" k b.meta in
      let start = counter "seq" (bump "seq" k b.meta) - k + 1 in
      rw some_new (
        ground (
          arith,
          numbers_of-append n b.rows (
              record {
                id = b.next_id;
                priority = priority;
                created_at = now;
                attempts = 0;
                buffered = buffered;
                n_items = k;
                payload = number_from start items;
              }
              ∷ []),
          member-append n (msg_ids (number_from start items)) [],
          member-number_from n start items,
          seq,
        ),
        omega (arith, seq),
      )
]
