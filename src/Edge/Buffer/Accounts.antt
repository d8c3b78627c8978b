-- ===== src/Edge/Buffer/Accounts.antt =====
-- The accounts of the buffer: what has been numbered is pending, sent or purged.
use data_gateway.Base.{
  ℕ, ◌+◌, String, ◌≡◌, refl, inl, inr, Bool, not, List, [], ◌∷◌, map, arith, ◌==◌, if◌then◌else◌,
  Bool-cases, length, keep, sum_by-append,
}
use data_gateway.Base.Dict.{Dict, get, get_or, get-put}
use data_gateway.Base.Key.{String_key}
use data_gateway.Edge.Sample.{RawItem}
use data_gateway.Edge.Buffer.{
  Row, Buffer, counter, bump, enqueue, member, ack, mark_failed, mark_failed_all, is_stale,
  items_in, purge, empty,
}

-- The items of the rows that are there.
abbrev pub pending : Buffer → ℕ
pending b = items_in b.rows

-- Every item that got a number is waiting, was sent, or was purged.
pub record IsBalanced (b : Buffer) : Type 0 where
  pub balance : counter "seq" b.meta ≡ pending b + counter "sent" b.meta + counter "purged" b.meta

pub empty-IsBalanced : IsBalanced empty
unfolding counter get
empty-IsBalanced = record { balance = refl }

pub counter-bump :
    (k j : String) (n : ℕ) (meta : Dict String ℕ)
    → counter j (bump k n meta)
      ≡ (if String_key.beq k j then counter j meta + n else counter j meta)
unfolding counter bump
counter-bump k j n meta =
    ground (arith, get-put k j (get_or k 0 meta + n) meta, String_key.beq_iff k j)

module _ (n : ℕ) (meta : Dict String ℕ) where
  seq-bump :
      (counter "seq" (bump "seq" n meta) ≡ counter "seq" meta + n)
      × (counter "sent" (bump "seq" n meta) ≡ counter "sent" meta)
      × (counter "purged" (bump "seq" n meta) ≡ counter "purged" meta)
  seq-bump = (
    counter-bump "seq" "seq" n meta,
    counter-bump "seq" "sent" n meta,
    counter-bump "seq" "purged" n meta,
  )

  sent-bump :
      (counter "seq" (bump "sent" n meta) ≡ counter "seq" meta)
      × (counter "sent" (bump "sent" n meta) ≡ counter "sent" meta + n)
      × (counter "purged" (bump "sent" n meta) ≡ counter "purged" meta)
  sent-bump = (
    counter-bump "sent" "seq" n meta,
    counter-bump "sent" "sent" n meta,
    counter-bump "sent" "purged" n meta,
  )

  resent-bump :
      (counter "seq" (bump "resent" n meta) ≡ counter "seq" meta)
      × (counter "sent" (bump "resent" n meta) ≡ counter "sent" meta)
      × (counter "purged" (bump "resent" n meta) ≡ counter "purged" meta)
  resent-bump = (
    counter-bump "resent" "seq" n meta,
    counter-bump "resent" "sent" n meta,
    counter-bump "resent" "purged" n meta,
  )

  purged-bump :
      (counter "seq" (bump "purged" n meta) ≡ counter "seq" meta)
      × (counter "sent" (bump "purged" n meta) ≡ counter "sent" meta)
      × (counter "purged" (bump "purged" n meta) ≡ counter "purged" meta + n)
  purged-bump = (
    counter-bump "purged" "seq" n meta,
    counter-bump "purged" "sent" n meta,
    counter-bump "purged" "purged" n meta,
  )

-- Enqueuing keeps the accounts: as many numbers have been given out as items wait in the rows, were
-- counted as sent, or were counted as purged.
pub enqueue-IsBalanced :
    (now : ℕ) (items : List RawItem) (priority : ℕ) (buffered : Bool) (b : Buffer)
    → IsBalanced b
    → IsBalanced (enqueue now items priority buffered b).1
unfolding enqueue
enqueue-IsBalanced now items priority buffered b h = elim (Bool-cases (length items == 0)) [
  | inl none_new ↦ rw none_new h
  | inr some_new ↦ rw some_new (record {
    balance = omega (
      arith,
      h.balance,
      seq-bump (length items) b.meta,
      sum_by-append {0} (λ (r : Row). r.n_items) b.rows _,
    );
  })
]

items_in-mark_failed : (rows : List Row) → items_in (map mark_failed rows) ≡ items_in rows
items_in-mark_failed [] = refl
items_in-mark_failed (r ∷ rs) = omega (arith, items_in-mark_failed rs)

pub mark_failed_all-IsBalanced : (b : Buffer) → IsBalanced b → IsBalanced (mark_failed_all b)
unfolding mark_failed_all
mark_failed_all-IsBalanced b h = record {
  balance = omega (arith, h.balance, items_in-mark_failed b.rows);
}

-- A split of the rows by a test splits their items.
items_in-keep :
    (p : Row → Bool) (rows : List Row)
    → items_in (keep p rows) + items_in (keep (λ r. not (p r)) rows) ≡ items_in rows
items_in-keep p [] = refl
items_in-keep p (r ∷ rs) = ground (arith, items_in-keep p rs)

-- Purging keeps the accounts, whichever rows are stale.
pub purge-IsBalanced :
    (now retention : ℕ) (b : Buffer) → IsBalanced b → IsBalanced (purge now retention b).1
unfolding purge
purge-IsBalanced now retention b h =
    elim (Bool-cases (items_in (keep (is_stale now retention) b.rows) == 0)) [
      | inl nothing ↦ rw nothing h
      | inr stale ↦ rw stale (record {
        balance = omega (
          arith,
          h.balance,
          items_in-keep (is_stale now retention) b.rows,
          purged-bump (items_in (keep (is_stale now retention) b.rows)) b.meta,
        );
      })
    ]

-- An acknowledgement keeps the accounts if it reports as many items as its rows hold.
pub ack-IsBalanced :
    (ids : List ℕ) (resent : ℕ) (b : Buffer)
    → IsBalanced b
    → IsBalanced (ack ids (items_in (keep (λ (r : Row). member r.id ids) b.rows)) resent b)
unfolding ack
ack-IsBalanced ids resent b h =
    let p = λ (r : Row). member r.id ids in
    let n = items_in (keep p b.rows) in
    elim (Bool-cases (resent == 0)) [
      | inl first ↦ rw first (record {
        balance = omega (arith, h.balance, items_in-keep p b.rows, sent-bump n b.meta);
      })
      | inr again ↦ rw again (record {
        balance = omega (
          arith,
          h.balance,
          items_in-keep p b.rows,
          sent-bump n b.meta,
          resent-bump resent (bump "sent" n b.meta),
        );
      })
    ]
