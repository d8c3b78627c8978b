-- ===== src/Examples/Edge.antt =====
-- Examples of the Edge collector's filter and buffer. Values are whole numbers.
use data_gateway.Base.{ℕ, ◌⊎◌, inl, String, ◌≡◌, refl, false, Option, none, some, [], ◌∷◌}
use data_gateway.Base.Dict.{get, put}
use data_gateway.Base.Int.{ℤ, pos}
use data_gateway.Base.Key.{String_key, pair_key}
use data_gateway.Base.Floats.{whole}
use data_gateway.Modbus.Value.{ItemType}
use data_gateway.Config.{Item, Equip}
use data_gateway.Edge.Sample.{RawItem, Sample}
use data_gateway.Edge.Filter.{NoiseFilter, no_history, accept, apply_items, apply}
use data_gateway.Edge.Filter.Keeps.{Fits, apply_keeps}
use data_gateway.Edge.Buffer.{
  Row, Buffer, empty, enqueue, insert_row, sort_rows, take_rows, next_batch,
}
use data_gateway.Edge.Buffer.Batch.{In}
use data_gateway.Edge.Buffer.Order.{Precedes, Sorted, next_batch-first}
use data_gateway.Edge.Buffer.Accounts.{IsBalanced, empty-IsBalanced, enqueue-IsBalanced}

-- A temperature from 0 to 100 that may move by 5 from one value to the next.
abbrev temp : Item whole
temp = record {
  key = "temp";
  name = "temperature";
  reg = none;
  node = none;
  type = ItemType.int16;
  scale = pos 1;
  unit = "C";
  data_type = "NUM";
  range = some (pos 0, pos 100);
  max_step = some (pos 5);
}

abbrev tank : Equip whole
tank = record {
  code = "TK1";
  name = "tank";
  process = "salting";
  via = record {
    bus = none;
    slave = none;
    plc_tcp = some "10.0.0.9";
    edge = none;
    link = none;
    unit = 1;
    endpoint = none;
  };
  poll_ms = 1000;
  delay_ms = none;
  target = "SLT_SALINITY_LOG";
  items = temp ∷ [];
}

-- The last accepted temperature is 20.
abbrev pub at_twenty : NoiseFilter whole
at_twenty = record (no_history whole) { last = (("TK1", "temp"), pos 20) ∷ [] }

-- 300 degrees are filtered out, 21 are kept.
abbrev pub sampled : ℤ → Sample whole
sampled v = record {
  equip = tank;
  collect_dt = 100;
  values = ("temp", v) ∷ [];
  tag_addrs = ("temp", "D100") ∷ [];
}

kept_21 : get "temp" (apply whole (sampled (pos 21)) at_twenty).0.values ≡ some (pos 21)
unfolding apply apply_items accept get put
kept_21 = refl

dropped_300 : get "temp" (apply whole (sampled (pos 300)) at_twenty).0.values ≡ none
unfolding apply apply_items accept get put
dropped_300 = refl

apply_keeps_example :
    ◌≡◌ {A = Option ℤ} (get "temp" (sampled (pos 21)).values) (some (pos 21))
    × Fits whole (temp ∷ []) "temp" (pos 21)
apply_keeps_example = apply_keeps whole (sampled (pos 21)) at_twenty "temp" (pos 21) kept_21

-- ### the buffer

abbrev pub reading : String → RawItem
reading v = record {
  msg_id = 0;
  equip_code = "TK1";
  item_key = "temp";
  tag_addr = "D100";
  data_type = "NUM";
  raw_value = v;
  unit_cd = "C";
  comm_type = "RS-485";
  target_table = "SLT_SALINITY_LOG";
  resend_yn = false;
  collect_dt = 100;
}

abbrev one_row : Buffer
one_row = (enqueue 7 (reading "|" ∷ reading "||" ∷ []) 1 false empty).1

one_row-IsBalanced : IsBalanced one_row
one_row-IsBalanced =
    enqueue-IsBalanced 7 (reading "|" ∷ reading "||" ∷ []) 1 false empty empty-IsBalanced

abbrev row : ℕ → ℕ → Row
row id priority = record {
  id = id;
  priority = priority;
  created_at = 7;
  attempts = 0;
  buffered = false;
  n_items = 1;
  payload = reading "|" ∷ [];
}

-- A normal sample, then an urgent one.
abbrev two_rows : Buffer
two_rows = record { rows = row 1 1 ∷ row 2 0 ∷ []; next_id = 3; meta = ("seq", 2) ∷ [] }

urgent_goes : In (row 2 0) (next_batch 1 two_rows)
unfolding next_batch sort_rows insert_row take_rows
urgent_goes = inl refl

next_batch-first_example :
    Sorted (next_batch 1 two_rows)
    × (In (row 1 1) (next_batch 1 two_rows) ⊎ Precedes (row 2 0) (row 1 1))
next_batch-first_example = next_batch-first 1 two_rows (row 2 0) (row 1 1) urgent_goes (inl refl)
