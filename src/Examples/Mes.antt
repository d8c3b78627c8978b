-- ===== src/Examples/Mes.antt =====
-- Examples of the MES ledger.
use data_gateway.Base.{ℕ, ◌+◌, String, ◌≡◌, refl, true, none, some, List, [], ◌∷◌, length, All}
use data_gateway.Base.Dict.{Dict, get, put}
use data_gateway.Base.Int.{ℤ}
use data_gateway.Base.Key.{String_key}
use data_gateway.Base.Floats.{whole}
use data_gateway.Edge.Sample.{RawItem}
use data_gateway.Examples.Edge.{reading}
use data_gateway.Mes.Ingest.{
  MesStore, recorded, load_item, load_all, group_items, by_time, route_all, insert_group,
  finish_ingest, ingest,
}
use data_gateway.Mes.Ingest.Loop.{Known, Unique}
use data_gateway.Mes.Ingest.Ledger.{
  ingest-Unique, ingest_keeps, ingest_records, ingest_again, ingest-ingested,
}

-- The tables are the list of what was routed.
abbrev pub note : String → ℕ → Dict String ℤ → List ℕ → List ℕ
note code ts values r = ts ∷ r

abbrev pub new_mes : MesStore (List ℕ)
new_mes = record {
  equip_id = ("TK1", 1) ∷ [];
  raw = [];
  counts = record { ingested = 0; dup = 0; last_ingest = none };
  tables = [];
}

abbrev two_items : List RawItem
two_items = record (reading "|") { msg_id = 1 } ∷ record (reading "||") { msg_id = 2 } ∷ []

abbrev full_mes : MesStore (List ℕ)
full_mes = (ingest whole note 50 two_items new_mes).1

two_items-Known : All (Known new_mes.equip_id) two_items
unfolding get
two_items-Known = (λ e. cc, (λ e. cc, tt))

ingest_records_example :
    ((ingest whole note 50 two_items new_mes).0 ≡ some (1 ∷ 2 ∷ []))
    × All (λ (it : RawItem). recorded it.msg_id full_mes.raw ≡ true) two_items
ingest_records_example =
    ingest_records whole note 50 two_items new_mes two_items-Known (λ e. cc, (λ e. cc, tt))

one_recorded : recorded 1 full_mes.raw ≡ true
unfolding ingest load_all load_item finish_ingest group_items by_time insert_group route_all get put
one_recorded = refl

both_recorded : All (λ (it : RawItem). recorded it.msg_id full_mes.raw ≡ true) two_items
unfolding ingest load_all load_item finish_ingest group_items by_time insert_group route_all get put
both_recorded = (refl, (refl, tt))

ingest_again_example :
    ((ingest whole note 60 two_items full_mes).0 ≡ some (1 ∷ 2 ∷ []))
    × ((ingest whole note 60 two_items full_mes).1.raw ≡ full_mes.raw)
    × ((ingest whole note 60 two_items full_mes).1.tables ≡ full_mes.tables)
ingest_again_example = ingest_again whole note 60 two_items full_mes both_recorded

ingest_keeps_example : recorded 1 (ingest whole note 60 two_items full_mes).1.raw ≡ true
ingest_keeps_example = ingest_keeps whole note 60 1 two_items full_mes one_recorded

ingest-Unique_example : Unique (ingest whole note 50 two_items new_mes).1.raw
ingest-Unique_example = ingest-Unique whole note 50 two_items new_mes tt

ingest-ingested_example :
    length (ingest whole note 60 two_items full_mes).1.raw + full_mes.counts.ingested
    ≡ length full_mes.raw + (ingest whole note 60 two_items full_mes).1.counts.ingested
ingest-ingested_example = ingest-ingested whole note 60 two_items full_mes
