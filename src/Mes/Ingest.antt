-- ===== src/Mes/Ingest.antt =====
-- `MesStore.ingest` of src/twin/mes/store.py. What `route` does to the process tables is an argument: a
-- function on the state `R` of everything that it changes, also where it raises.
pub mod Ledger
pub mod Loop
use data_gateway.Base.{
  ℕ, ◌+◌, String, Bool, false, ◌||◌, Option, none, some, List, [], ◌∷◌, ◌++◌, leb, ◌==◌,
  if◌then◌else◌, length,
}
use data_gateway.Base.Dict.{Dict, get, put, get_or}
use data_gateway.Base.Key.{ℕ_key, String_key, pair_key}
use data_gateway.Base.Floats.{Floats}
use data_gateway.Edge.Sample.{RawItem}

-- A row of IF_SENSOR_RAW. `MSG_ID` is unique there.
pub record RawRow : Type 0 where
  pub equip_id : ℕ
  pub item : RawItem
  pub received_dt : ℕ

pub record Counts : Type 0 where
  pub ingested : ℕ
  pub dup : ℕ
  pub last_ingest : Option ℕ

pub record MesStore (R : Type 0) : Type 0 where
  pub equip_id : Dict String ℕ
  pub raw : List RawRow
  pub counts : Counts
  pub tables : R

-- Whether the unique index holds the id.
abbrev pub recorded : ℕ → List RawRow → Bool
recorded n [] = false
recorded n (r ∷ rs) = r.item.msg_id == n || recorded n rs

-- What the loop over the items carries: the table, the duplicates, the acknowledged ids and the
-- items that were new.
pub record Loading : Type 0 where
  pub raw : List RawRow
  pub dup : ℕ
  pub accepted : List ℕ
  pub fresh : List RawItem

-- One round: `accepted.append`, then the insertion that a duplicate id turns into nothing.
unfoldable pub load_item : Dict String ℕ → ℕ → RawItem → Loading → Loading
load_item equip_id now it l =
    let accepted = l.accepted ++ (it.msg_id ∷ []) in
    elim (get it.equip_code equip_id) [
      | none ↦ record l { accepted = accepted }
      | some eid ↦
          (if recorded it.msg_id l.raw
            then record l { accepted = accepted; dup = l.dup + 1 }
            else record l {
              raw = l.raw ++ (record { equip_id = eid; item = it; received_dt = now } ∷ []);
              accepted = accepted;
              fresh = l.fresh ++ (it ∷ []);
            })
    ]

unfoldable pub load_all : Dict String ℕ → ℕ → List RawItem → Loading → Loading
load_all equip_id now [] l = l
load_all equip_id now (it ∷ its) l = load_all equip_id now its (load_item equip_id now it l)

module _ (fl : Floats) where
  open fl use {Float, parse_float}

  abbrev pub Group : Type 0
  Group = (String × ℕ) × Dict String Float

  -- `groups.setdefault((code, ts), {})[key] = float(raw_value)`; `none` is the ValueError of `float`.
  unfoldable pub group_items :
      List RawItem
      → Dict (String × ℕ) (Dict String Float)
      → Option (Dict (String × ℕ) (Dict String Float))
  group_items [] groups = some groups
  group_items (it ∷ its) groups = elim (parse_float it.raw_value) [
    | none ↦ none
    | some v ↦
        let k : String × ℕ = (it.equip_code, it.collect_dt) in
        group_items its (put k (put it.item_key v (get_or k [] groups)) groups)
  ]

  -- `sorted(groups.items(), key=lambda kv: kv[0][1])`, which keeps the order of equal times.
  unfoldable pub insert_group : Group → List Group → List Group
  insert_group g [] = g ∷ []
  insert_group ((c, t), v) (((d, u), w) ∷ rest) =
      if leb t u
      then ((c, t), v) ∷ ((d, u), w) ∷ rest
      else ((d, u), w) ∷ insert_group ((c, t), v) rest

  unfoldable pub by_time : List Group → List Group
  unfolding insert_group
  by_time [] = []
  by_time (g ∷ gs) = insert_group g (by_time gs)

  module _ {R : Type 0} (route : String → ℕ → Dict String Float → R → R) where
    unfoldable pub route_all : List Group → R → R
    route_all [] r = r
    route_all (((code, ts), values) ∷ gs) r = route_all gs (route code ts values r)

    -- After the loop: COMMIT, or ROLLBACK if a value is no number. The counter of duplicates is not
    -- part of the transaction.
    unfoldable pub finish_ingest : ℕ → Loading → MesStore R → Option (List ℕ) × MesStore R
    unfolding group_items by_time route_all
    finish_ingest now l m =
        let counts = m.counts in
        elim (group_items l.fresh []) [
          | none ↦ (none, record m { counts = record counts { dup = l.dup } })
          | some groups ↦ (
            some l.accepted,
            record m {
              raw = l.raw;
              tables = route_all (by_time groups) m.tables;
              counts = record counts {
                dup = l.dup;
                ingested = counts.ingested + length l.fresh;
                last_ingest = if length l.fresh == 0 then counts.last_ingest else some now;
              };
            },
          )
        ]

    -- `ingest(items)`: the acknowledged ids, or none if it raises.
    unfoldable pub ingest : ℕ → List RawItem → MesStore R → Option (List ℕ) × MesStore R
    unfolding load_item load_all finish_ingest
    ingest now items m =
        let start : Loading = record {
          raw = m.raw;
          dup = m.counts.dup;
          accepted = [];
          fresh = [];
        } in
        finish_ingest now (load_all m.equip_id now items start) m
