-- ===== src/Edge/Sample.antt =====
-- `Sample`, `fmt_value` and `to_raw_items` of src/twin/edge/core.py. Wall clock times are numbers.
pub mod Items
use data_gateway.Base.{
  ℕ, String, Bool, false, Option, none, some, List, [], ◌∷◌, map, if◌then◌else◌,
}
use mathlib.Core.Option
use data_gateway.Base.Dict.{Dict, get, get_or}
use data_gateway.Base.Int.{pos, neg_part}
use data_gateway.Base.Key.{String_key}
use data_gateway.Base.Floats.{Floats}
use data_gateway.Modbus.Value.{ItemType}
use data_gateway.Config.{Item, Equip, comm_type}

-- One entry of IF_SENSOR_RAW as the Edge collector sends it. `msg_id` is the number in
-- f"{edge_id}-{n:012d}"; 0 until the buffer has given one.
pub record RawItem : Type 0 where
  pub msg_id : ℕ
  pub equip_code : String
  pub item_key : String
  pub tag_addr : String
  pub data_type : String
  pub raw_value : String
  pub unit_cd : String
  pub comm_type : String
  pub target_table : String
  pub resend_yn : Bool
  pub collect_dt : ℕ

module _ (fl : Floats) where
  open fl use {Float, of_int, le, round_int, fixed, int_text, floor_log10}

  pub record Sample : Type 0 where
    pub equip : Equip fl
    pub collect_dt : ℕ
    pub values : Dict String Float
    pub tag_addrs : Dict String String

  -- `max(0, -int(math.floor(math.log10(it.scale) + 1e-9)))` decimals; none where `round` raises.
  unfoldable pub fmt_value : Float → Item fl → Option String
  fmt_value v it = elim it.type [
    | ItemType.float ↦ some (fixed 3 v)
    | _ ↦
        (if le (of_int (pos 1)) it.scale
          then Option.map int_text (round_int v)
          else some (fixed (neg_part (floor_log10 it.scale)) v))
  ]

  unfoldable pub raw_item : Sample → Item fl → String → String → RawItem
  raw_item s it text comm = record {
    msg_id = 0;
    equip_code = s.equip.code;
    item_key = it.key;
    tag_addr = get_or it.key "" s.tag_addrs;
    data_type = it.data_type;
    raw_value = text;
    unit_cd = it.unit;
    comm_type = comm;
    target_table = s.equip.target;
    resend_yn = false;
    collect_dt = s.collect_dt;
  }

  -- `none` is the exception of `fmt_value`, or the KeyError of `comm_type` for a device with no
  -- connection.
  unfoldable pub raw_items_of : Sample → List (Item fl) → Option (List RawItem)
  raw_items_of s [] = some []
  raw_items_of s (it ∷ its) =
      let rest = raw_items_of s its in
      elim (get it.key s.values) [
        | none ↦ rest
        | some v ↦ elim (fmt_value v it) [
          | none ↦ none
          | some text ↦ elim (comm_type fl s.equip) [
            | none ↦ none
            | some comm ↦ Option.map (λ items. raw_item s it text comm ∷ items) rest
          ]
        ]
      ]

  unfoldable pub to_raw_items : Sample → Option (List RawItem)
  unfolding raw_items_of raw_item
  to_raw_items s = raw_items_of s s.equip.items
