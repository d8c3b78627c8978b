-- ===== src/Edge/Buffer.antt =====
-- `Buffer` of src/twin/edge/core.py: one row for each sample, in an SQLite table whose ids grow, and the
-- counters of the table `meta`. The clock is an argument, in microseconds. SQLite itself is taken to
-- carry out each statement; its errors are not modelled.
pub mod Accounts
pub mod Batch
pub mod Order
pub mod Pending
pub mod Stock
use data_gateway.Base.{
  ℕ, ◌+◌, ◌-◌, String, Bool, true, false, not, ◌&&◌, ◌||◌, List, [], ◌∷◌, ◌++◌, map, ltb, leb, ◌==◌,
  if◌then◌else◌, length, take, keep, sum_by,
}
use data_gateway.Base.Dict.{Dict, put, get_or}
use data_gateway.Base.Key.{String_key}
use data_gateway.Edge.Sample.{RawItem}

pub record Row : Type 0 where
  pub id : ℕ
  pub priority : ℕ
  pub created_at : ℕ
  pub attempts : ℕ
  pub buffered : Bool
  pub n_items : ℕ
  pub payload : List RawItem

pub record Buffer : Type 0 where
  pub rows : List Row
  pub next_id : ℕ
  pub meta : Dict String ℕ

abbrev pub empty : Buffer
empty = record { rows = []; next_id = 1; meta = [] }

-- `_meta(k)` and `_bump(k, n)`: insert n, or add it to what is there.
unfoldable pub counter : String → Dict String ℕ → ℕ
counter k meta = get_or k 0 meta

unfoldable pub bump : String → ℕ → Dict String ℕ → Dict String ℕ
bump k n meta = put k (get_or k 0 meta + n) meta

-- `for i, it in enumerate(items): it["msg_id"] = …`
unfoldable pub number_from : ℕ → List RawItem → List RawItem
number_from start [] = []
number_from start (it ∷ its) = record it { msg_id = start } ∷ number_from (start + 1) its

unfoldable pub enqueue : ℕ → List RawItem → ℕ → Bool → Buffer → List ℕ × Buffer
unfolding number_from
enqueue now items priority buffered b =
    if length items == 0
    then ([], b)
    else let meta' = bump "seq" (length items) b.meta in
      let start = counter "seq" meta' - length items + 1 in
      let numbered = number_from start items in
      (
        map (λ (it : RawItem). it.msg_id) numbered,
        record b {
          rows =
              b.rows
              ++ (record {
                id = b.next_id;
                priority = priority;
                created_at = now;
                attempts = 0;
                buffered = buffered;
                n_items = length items;
                payload = numbered;
              }
                  ∷ []);
          next_id = b.next_id + 1;
          meta = meta';
        },
      )

-- `ORDER BY priority, id`
abbrev pub before : Row → Row → Bool
before a b = ltb a.priority b.priority || a.priority == b.priority && leb a.id b.id

unfoldable pub insert_row : Row → List Row → List Row
insert_row r [] = r ∷ []
insert_row r (s ∷ rest) = if before r s then r ∷ s ∷ rest else s ∷ insert_row r rest

unfoldable pub sort_rows : List Row → List Row
unfolding insert_row
sort_rows [] = []
sort_rows (r ∷ rest) = insert_row r (sort_rows rest)

-- `for …: if out and total + n > max_items: break`
unfoldable pub take_rows : ℕ → Bool → ℕ → List Row → List Row
take_rows max_items started total [] = []
take_rows max_items started total (r ∷ rest) =
    let more = take_rows max_items true (total + r.n_items) rest in
    if started && ltb max_items (total + r.n_items) then [] else r ∷ more

unfoldable pub next_batch : ℕ → Buffer → List Row
unfolding sort_rows take_rows
next_batch max_items b = take_rows max_items false 0 (take max_items (sort_rows b.rows))

abbrev pub member : ℕ → List ℕ → Bool
member x [] = false
member x (y ∷ ys) = x == y || member x ys

-- `DELETE FROM buffer WHERE id=?` for each id
unfoldable pub ack : List ℕ → ℕ → ℕ → Buffer → Buffer
ack row_ids n_items resent b =
    let sent = bump "sent" n_items b.meta in
    record b {
      rows = keep (λ (r : Row). not (member r.id row_ids)) b.rows;
      meta = if resent == 0 then sent else bump "resent" resent sent;
    }

abbrev pub mark_failed : Row → Row
mark_failed r = record r { attempts = r.attempts + 1; buffered = true }

unfoldable pub mark_failed_all : Buffer → Buffer
mark_failed_all b = record b { rows = map mark_failed b.rows }

-- `created_at < time.time() - retention`
abbrev pub is_stale : ℕ → ℕ → Row → Bool
is_stale now retention r = ltb (r.created_at + retention) now

abbrev pub items_in : List Row → ℕ
items_in = sum_by (λ (r : Row). r.n_items)

unfoldable pub purge : ℕ → ℕ → Buffer → ℕ × Buffer
purge now retention b =
    let n = items_in (keep (is_stale now retention) b.rows) in
    if n == 0 then (0, b) else (
      n,
      record b {
        rows = keep (λ r. not (is_stale now retention r)) b.rows;
        meta = bump "purged" n b.meta;
      },
    )
