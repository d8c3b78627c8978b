-- ===== src/Edge/Filter.antt =====
-- `NoiseFilter` of src/twin/edge/core.py: the physical range, and sudden steps.
pub mod Steps
pub mod Keeps
use data_gateway.Base.{
  ℕ, ◌+◌, ◌-◌, String, Bool, true, false, not, ◌&&◌, Option, none, some, List, [], ◌∷◌, ◌++◌, ltb,
  if◌then◌else◌, length, drop,
}
use data_gateway.Base.Dict.{Dict, get, put, get_or}
use data_gateway.Base.Key.{String_key, pair_key}
use data_gateway.Base.Floats.{Floats}
use data_gateway.Config.{Item}
use data_gateway.Edge.Sample.{Sample}

-- (equipment code, item key)
abbrev pub Tag : Type 0
Tag = String × String

module _ (fl : Floats) where
  open fl use {Float, sub, abs, lt, le}

  -- An entry of `recent`.
  pub record Dropped : Type 0 where
    pub equip : String
    pub key : String
    pub value : Float
    pub ts : ℕ

  pub record NoiseFilter : Type 0 where
    pub last : Dict Tag Float
    pub pending : Dict Tag ℕ
    pub filtered : Dict String ℕ
    pub recent : List Dropped

  abbrev pub no_history : NoiseFilter
  no_history = record { last = []; pending = []; filtered = []; recent = [] }

  -- `it.range is None or it.range[0] <= v <= it.range[1]`
  abbrev pub in_range : Item fl → Float → Bool
  in_range it v = elim it.range [ none ↦ true | some (lo, hi) ↦ le lo v && le v hi ]

  -- `it.max_step is not None and prev is not None and abs(v - prev) > it.max_step`
  abbrev pub is_sudden : Item fl → Option Float → Float → Bool
  is_sudden it prev v = elim it.max_step [
    | none ↦ false
    | some step ↦ elim prev [ none ↦ false | some p ↦ lt step (abs (sub v p)) ]
  ]

  -- `self.pending[k] = 0; self.last[k] = v; return True`
  abbrev pub settle : Tag → Float → NoiseFilter → Bool × NoiseFilter
  settle k v f = (true, record f { last = put k v f.last; pending = put k 0 f.pending })

  -- `_accept`
  unfoldable pub accept : String → Item fl → Float → NoiseFilter → Bool × NoiseFilter
  accept code it v f =
      let k : Tag = (code, it.key) in
      let n = get_or k 0 f.pending + 1 in
      let counted = record f { pending = put k n f.pending } in
      if not (in_range it v)
      then (false, f)
      else if is_sudden it (get k f.last) v
      then (if ltb n 3 then (false, counted) else settle k v counted)
      else settle k v f

  -- `del self.recent[:-50]`
  abbrev pub last_fifty : List Dropped → List Dropped
  last_fifty ds = drop (length ds - 50) ds

  abbrev pub note_drop : String → Item fl → Float → ℕ → NoiseFilter → NoiseFilter
  note_drop code it v ts f = record f {
    filtered = put code (get_or code 0 f.filtered + 1) f.filtered;
    recent =
        last_fifty (f.recent ++ (record { equip = code; key = it.key; value = v; ts = ts } ∷ []));
  }

  -- The loop of `apply` over the items: the values that are kept, and the filter.
  unfoldable pub apply_items :
      String
      → ℕ
      → Dict String Float
      → List (Item fl)
      → Dict String Float
      → NoiseFilter
      → Dict String Float × NoiseFilter
  apply_items code ts values [] kept f = (kept, f)
  apply_items code ts values (it ∷ its) kept f = elim (get it.key values) [
    | none ↦ apply_items code ts values its kept f
    | some v ↦
        let (fine, f') = accept code it v f in
        apply_items code ts values its (if fine then put it.key v kept else kept)
          (if fine then f' else note_drop code it v ts f')
  ]

  unfoldable pub apply : Sample fl → NoiseFilter → Sample fl × NoiseFilter
  unfolding apply_items
  apply s f =
      let (kept, f') = apply_items s.equip.code s.collect_dt s.values s.equip.items [] f in
      (record s { values = kept }, f')
