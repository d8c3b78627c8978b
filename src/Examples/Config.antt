-- ===== src/Examples/Config.antt =====
-- Examples of the validation of a configuration.
use data_gateway.Base.{ℕ, String, ◌≡◌, refl, true, Option, none, some, [], ◌∷◌, All}
use data_gateway.Base.Dict.{get, put}
use data_gateway.Base.Spans.{insert_span, sort_spans}
use data_gateway.Base.Int.{pos}
use data_gateway.Base.Key.{ℕ_key, String_key, pair_key}
use data_gateway.Base.Floats.{whole}
use data_gateway.Modbus.Value.{ItemType}
use data_gateway.Config.{Item, Via, Equip}
use data_gateway.Config.Twin.{TwinConfig}
use data_gateway.Config.Check.{overlap, refused, passed}
use data_gateway.Config.Check.Devices.{
  check_buses, check_via, check_items, check_equip, check_equipment,
}
use data_gateway.Config.Check.Maps.{
  check_blocks, check_order, check_maps, check_mapped, validate_memory_map, validate_semantics,
}
use data_gateway.Config.Check.Apart.{BlocksApart, validated-apart}
use data_gateway.Config.Check.Owner.{HasBlock, validated-placed}

abbrev level : Item whole
level = record {
  key = "level";
  name = "level";
  reg = some (record { is_input = true; address = 0 });
  node = none;
  type = ItemType.uint32;
  scale = pos 1;
  unit = "mm";
  data_type = "NUM";
  range = none;
  max_step = none;
}

abbrev on_bus : Option ℕ → Via
on_bus slave = record {
  bus = some "B1";
  slave = slave;
  plc_tcp = none;
  edge = none;
  link = none;
  unit = 1;
  endpoint = none;
}

abbrev device : String → Option ℕ → Equip whole
device code slave = record {
  code = code;
  name = "tank";
  process = "salting";
  via = on_bus slave;
  poll_ms = 1000;
  delay_ms = none;
  target = "SLT_SALINITY_LOG";
  items = level ∷ level ∷ [];
}

-- Two tanks on one bus, the blocks at D0100 and wherever the argument says.
abbrev plant : ℕ → TwinConfig whole
plant second = record {
  ports = ("plc_P1", 1502) ∷ ("bus1", 1601) ∷ [];
  plcs = ("P1", record { model = "m"; name = "master"; area = "salting" }) ∷ [];
  buses =
      (
        "B1",
        record {
          plc = "P1";
          link = "bus1";
          baud = 9600;
          timeout_ms = 300;
          retries = 2;
          endpoint = none;
        },
      )
      ∷ [];
  equipment = device "TK1" (some 3) ∷ device "TK2" (some 4) ∷ [];
  plc_map = record {
    block_words = 10;
    diag_base = 900;
    blocks = ("P1", ("TK1", 100) ∷ ("TK2", second) ∷ []) ∷ [];
  };
}

is_accepted : validate_semantics whole (plant 110) ≡ passed tt
unfolding validate_semantics check_buses check_equipment check_equip check_via check_items
    validate_memory_map check_maps check_blocks check_order check_mapped sort_spans insert_span get
    put
is_accepted = refl

-- The second block starts in the first.
is_refused : validate_semantics whole (plant 109) ≡ refused (overlap 109 100)
unfolding validate_semantics check_buses check_equipment check_equip check_via check_items
    validate_memory_map check_maps check_blocks check_order check_mapped sort_spans insert_span get
    put
is_refused = refl

validated-apart_example : All (BlocksApart whole (plant 110)) (plant 110).plc_map.blocks
validated-apart_example = validated-apart whole (plant 110) is_accepted

validated-placed_example : All (HasBlock whole (plant 110)) (plant 110).equipment
validated-placed_example = validated-placed whole (plant 110) is_accepted
