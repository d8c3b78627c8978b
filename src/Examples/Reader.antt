-- ===== src/Examples/Reader.antt =====
-- Examples of the Edge's reader of a D area. Values are whole numbers.
use data_gateway.Base.{
  ℕ, zero, suc, ◌+◌, ◌≤◌, ◌<◌, String, ◌≡◌, refl, ◌∙◌, true, false, none, some, List, [], ◌∷◌,
  arith, ◌==◌, if◌then◌else◌, length, get_elem?, replicate, All,
}
use data_gateway.Base.Dict.{Dict, get, put}
use data_gateway.Base.Int.{ℤ, pos}
use data_gateway.Base.Key.{ℕ_key, String_key}
use data_gateway.Base.Floats.{whole}
use data_gateway.Modbus.Outcome.{ok, err, timeout_err}
use data_gateway.Modbus.Value.{ItemType, decode_raw, decode_value}
use data_gateway.Config.{Item, Equip}
use data_gateway.Diag.{new_diag, code, status}
use data_gateway.Base.Bits.{IsWord}
use data_gateway.Plc.Server.{Plc}
use data_gateway.Plc.Link.{Link, new_link}
use data_gateway.Plc.Memory.{Memory, mem_words, blank}
use data_gateway.Plc.Memory.Laws.{IsMemory}
use data_gateway.Edge.Reader.Decodes.{device_values}
use data_gateway.Edge.Reader.Wire.{wire_read, wire_read-Delivers}
use data_gateway.Plc.Scanner.{Slot, LinkOps, Point, store_values}
use data_gateway.Plc.Scanner.Packs.{values_of}
use data_gateway.Base.Spans.{insert_span, sort_spans}
use data_gateway.Edge.Reader.{Layout, merge_from, merge_spans, ranges, new_device, update_device}
use data_gateway.Edge.Reader.Ranges.{covers, wanted, covers-ranges, IsShort, ranges-IsShort}
use data_gateway.Edge.Reader.Poll.{Reader, read_ranges}
use data_gateway.Edge.Reader.Serves.{Delivers, read_ranges-wanted}
use data_gateway.Edge.Reader.Blocks.{store_values-IsMemory, scanned_block-sample}

-- A block at D0000, and the diagnosis words right behind it.
abbrev layout : Layout
layout = record { block_words = 10; diag_base = 10; blocks = ("PR1", 0) ∷ [] }

one_read : ranges layout ≡ (0, 16) ∷ []
unfolding ranges sort_spans insert_span merge_spans merge_from
one_read = refl

covers-ranges_example : covers 15 (ranges layout) ≡ wanted 15 layout
covers-ranges_example = covers-ranges 15 layout

ranges-IsShort_example : All IsShort (ranges layout)
ranges-IsShort_example = ranges-IsShort layout (omega arith)

-- A pressure in one signed word and a count in two words.
abbrev pressure : Item whole
pressure = record {
  key = "pressure";
  name = "pressure";
  reg = some (record { is_input = true; address = 1 });
  node = none;
  type = ItemType.int16;
  scale = pos 1;
  unit = "bar";
  data_type = "NUM";
  range = none;
  max_step = none;
}

abbrev count : Item whole
count = record pressure {
  key = "count";
  name = "count";
  reg = some (record { is_input = false; address = 0 });
  type = ItemType.uint32;
  unit = "";
}

abbrev press : Equip whole
press = record {
  code = "PR1";
  name = "press";
  process = "pressing";
  via = record {
    bus = some "B1";
    slave = some 3;
    plc_tcp = none;
    edge = none;
    link = none;
    unit = 1;
    endpoint = none;
  };
  poll_ms = 1000;
  delay_ms = none;
  target = "PRS_LOG";
  items = pressure ∷ count ∷ [];
}

abbrev slots : List Slot
slots =
    record { reg = record { is_input = true; address = 1 }; type = ItemType.int16 }
    ∷ record { reg = record { is_input = false; address = 0 }; type = ItemType.uint32 }
    ∷ []

-- The pressure is 9, the count 65538.
abbrev registers : ℕ → List ℕ
registers fc = if fc == 4 then 5 ∷ 9 ∷ [] else 1 ∷ 2 ∷ []

abbrev scanner_ops : LinkOps (Unit {0})
scanner_ops = record {
  read = λ unit fc a n l. (err timeout_err, l);
  last_tx = λ l. [];
  last_rx = λ l. [];
}

abbrev point : Point (Unit {0})
point = record {
  slots = slots;
  base = 0;
  unit = 3;
  retries = 2;
  link = tt;
  diag = record (new_diag 150000) { counter = 7; ever_ok = true };
}

-- The scanner stores the block in a D area that was blank.
abbrev area_after : Memory
area_after = (store_values scanner_ops 5 (values_of registers slots) point blank).1

length-replicate : (n : ℕ) → length {A = ℕ} (replicate n 0) ≡ n
length-replicate zero = refl
length-replicate (suc n) = omega (arith, length-replicate n)

All-replicate : (n : ℕ) → All IsWord (replicate n 0)
All-replicate zero = tt
All-replicate (suc n) = (omega arith, All-replicate n)

-- A PLC with this D area at the other end of the reader's link.
abbrev plc_of : Memory → Plc
plc_of m = record { memory = m; write_rejections = [] }

blank-IsMemory : IsMemory blank
blank-IsMemory = record { words = All-replicate mem_words }

blank-Delivers : Delivers (wire_read 40 "edge" (plc_of blank)) blank.words
blank-Delivers =
    wire_read-Delivers 40 "edge" (plc_of blank) blank-IsMemory (length-replicate mem_words)

area_after-Delivers : Delivers (wire_read 40 "edge" (plc_of area_after)) area_after.words
area_after-Delivers =
    let (valid, size) =
      store_values-IsMemory scanner_ops 5 (values_of registers slots) point blank
        (omega (arith, length-replicate mem_words)) (omega arith) blank-IsMemory in
    wire_read-Delivers 40 "edge" (plc_of area_after) valid (size ∙ length-replicate mem_words)

in_blank : All (λ (r : ℕ × ℕ). r.0 + r.1 ≤ length blank.words) (ranges layout)
unfolding ranges sort_spans insert_span merge_spans merge_from
in_blank = (omega (arith, length-replicate mem_words), tt)

abbrev reader : Reader whole (Link × ℕ)
reader = record {
  id = "SLAVE";
  layout = layout;
  equips = ("PR1", press) ∷ [];
  poll_ms = 1000;
  stale_milli = 3000;
  link = (new_link, 1);
  link_ok = false;
  link_diag = new_diag 200000;
  heartbeat = none;
  hb_changed = 0;
  slave_mirror = none;
  mirror_changed = 0;
  diag_words = [];
  dev = [];
}

in_block : (i : ℕ) → 0 ≤ i → i < 9 → wanted i layout ≡ true
in_block i h k = ground arith

read_ranges-wanted_example :
    (mem : Dict ℕ ℕ) × ((read_ranges whole
        (wire_read 40 "edge" (plc_of blank))
        5
        (ranges layout)
        []
        reader).0
      ≡ ok mem)
    × ((i : ℕ) → get i mem ≡ (if wanted i layout then get_elem? blank.words i else none))
read_ranges-wanted_example =
    read_ranges-wanted whole (wire_read 40 "edge" (plc_of blank)) 5 blank.words reader
      blank-Delivers (omega arith) (omega arith) in_blank

abbrev readings : Dict String ℤ
readings = ("pressure", pos 9) ∷ ("count", pos 65538) ∷ []

decoded : device_values whole registers press.items slots [] ≡ ok readings
unfolding decode_value decode_raw put
decoded = refl

scanned_block-sample_example :
    ((store_values scanner_ops 5 (values_of registers slots) point blank).0 ≡ ok tt)
    × (mem : Dict ℕ ℕ) × ((read_ranges whole
          (wire_read 40 "edge" (plc_of area_after))
          6
          (ranges layout)
          []
          reader).0
        ≡ ok mem)
    × (tags : Dict String String) × (update_device whole "SLAVE" press 0 mem 6 77 (new_device whole)
        ≡ (
          ok (record { equip = press; collect_dt = 77; values = readings; tag_addrs = tags } ∷ []),
          record {
            counter = some 7;
            changed = 6;
            plc_status = code (status 5 point.diag);
            fails = 0;
            values = readings;
          },
        ))
scanned_block-sample_example =
    scanned_block-sample whole scanner_ops (wire_read 40 "edge" (plc_of area_after)) "SLAVE" press
      slots registers point blank reader 5 6 77 (new_device whole) readings
      (refl, refl, (refl, refl, tt)) (omega arith, (omega arith, tt))
      (omega arith, (omega arith, (omega arith, tt))) (omega arith) (omega arith)
      (omega (arith, length-replicate mem_words)) in_block (omega arith) (omega arith) in_blank
      area_after-Delivers refl decoded
