-- ===== src/Config/Check/Maps.antt =====
-- `_validate_memory_map` of src/twin/common/config.py, and `validate_semantics` as a whole.
use data_gateway.Base.{
  ℕ, ◌+◌, String, Bool, false, not, ◌&&◌, ◌||◌, Option, none, some, List, [], ◌∷◌, ◌++◌, map, ltb,
  if◌then◌else◌, count_if,
}
use data_gateway.Base.Dict.{Dict, get, put, has}
use data_gateway.Base.Key.{ℕ_key, String_key, pair_key}
use data_gateway.Base.Spans.{sort_spans}
use data_gateway.Base.Floats.{Floats}
use text.Mathlib.Text.{◌==◌ as text_eq}
use data_gateway.Modbus.Outcome.{ok, err}
use data_gateway.Config.{Equip, kind_of}
use data_gateway.Config.Twin.{TwinConfig, plc_of}
use data_gateway.Config.Check.{
  duplicate_code, unknown_plc, unknown_equipment, mapped_twice, wrong_owner, overlap, no_block,
  raised, Checked, refused, passed, ◌>>=◌, refuse_if, on_plc,
}
use data_gateway.Config.Check.Devices.{check_buses, check_equipment}

-- `codes.count(c)`
abbrev pub count : String → List String → ℕ
count c codes = count_if (λ d. text_eq d c) codes

abbrev pub any_twice : List String → List String → Bool
any_twice [] codes = false
any_twice (c ∷ cs) codes = ltb 1 (count c codes) || any_twice cs codes

-- `zip(spans, spans[1:])`: each span starts behind the one before.
unfoldable pub check_order : List (ℕ × ℕ) → Checked (Unit {0})
check_order [] = passed tt
check_order ((s, e) ∷ []) = passed tt
check_order ((s₁, e₁) ∷ (s₂, e₂) ∷ rest) =
    let more = check_order ((s₂, e₂) ∷ rest) in if ltb s₂ e₁ then refused (overlap s₂ s₁) else more

-- `owner != plc`
abbrev pub owner_is : String → Option String → Bool
owner_is plc none = false
owner_is plc (some owner) = text_eq owner plc

module _ (fl : Floats) where
  -- `{e.code: e for e in cfg.equipment}`
  abbrev pub by_code : List (Equip fl) → Dict String (Equip fl) → Dict String (Equip fl)
  by_code [] d = d
  by_code (e ∷ es) d = by_code es (put e.code e d)

  -- The inner loop: the spans of the blocks of one PLC, in their order, and what is mapped so far.
  unfoldable pub check_blocks :
      TwinConfig fl
      → String
      → Dict String ℕ
      → Dict String String
      → Checked (List (ℕ × ℕ) × Dict String String)
  check_blocks cfg plc [] mapped = passed ([], mapped)
  check_blocks cfg plc ((code, base) ∷ rest) mapped =
      let more = check_blocks cfg plc rest (put code plc mapped) in
      let span : ℕ × ℕ = (base, base + cfg.plc_map.block_words) in
      elim (get code (by_code cfg.equipment [])) [
        | none ↦ refused (unknown_equipment code)
        | some e ↦ if has code mapped then refused (mapped_twice code) else elim (plc_of fl e cfg) [
          | err x ↦ refused (raised x)
          | ok owner ↦
              if owner_is plc owner
              then (more >>= λ (r : List (ℕ × ℕ) × Dict String String). passed (span ∷ r.0, r.1))
              else refused (wrong_owner code)
        ]
      ]

  unfoldable pub check_maps :
      TwinConfig fl
      → Dict String (Dict String ℕ)
      → Dict String String
      → Checked (Dict String String)
  unfolding check_blocks check_order
  check_maps cfg [] mapped = passed mapped
  check_maps cfg ((plc, blocks) ∷ rest) mapped =
      let pm = cfg.plc_map in
      let diag : ℕ × ℕ = (pm.diag_base, pm.diag_base + pm.block_words) in
      let one = refuse_if (not (has plc cfg.plcs)) (unknown_plc plc) >>= λ _.
      check_blocks cfg plc blocks mapped >>= λ (r : List (ℕ × ℕ) × Dict String String).
      check_order (sort_spans (r.0 ++ (diag ∷ []))) >>= λ _. passed r.1 in
      one >>= λ mapped'. check_maps cfg rest mapped'

  unfoldable pub check_mapped : Dict String String → List (Equip fl) → Checked (Unit {0})
  check_mapped mapped [] = passed tt
  check_mapped mapped (e ∷ es) =
      let more = check_mapped mapped es in
      refuse_if (on_plc (kind_of e.via) && not (has e.code mapped)) (no_block e.code) >>= λ _. more

  unfoldable pub validate_memory_map : TwinConfig fl → Checked (Unit {0})
  unfolding check_maps check_mapped
  validate_memory_map cfg =
      check_maps cfg cfg.plc_map.blocks [] >>= λ mapped. check_mapped mapped cfg.equipment

  unfoldable pub validate_semantics : TwinConfig fl → Checked (Unit {0})
  unfolding check_buses check_equipment validate_memory_map
  validate_semantics cfg =
      let codes = map (λ (e : Equip fl). e.code) cfg.equipment in
      refuse_if (any_twice codes codes) duplicate_code >>= λ _.
      check_buses fl cfg cfg.buses >>= λ _.
      check_equipment fl cfg cfg.equipment [] >>= λ _. validate_memory_map cfg
