-- ===== src/Config/Check/Parts.antt =====
-- What a check of src/twin/common/config.py that passes has found.
use data_gateway.Base.{
  ℕ, ◌+◌, String, ◌≡◌, refl, sym, ap, ◌∙◌, ◌⊎◌, inl, inr, Bool, true, false, not, Option, some,
  List, [], ◌∷◌, ◌++◌, map, Bool-cases, Option-cases,
}
use data_gateway.Base.Dict.{Dict, get, put, has}
use data_gateway.Base.Key.{ℕ_key, String_key, pair_key}
use data_gateway.Base.Spans.{sort_spans}
use data_gateway.Base.Floats.{Floats}
use data_gateway.Modbus.Outcome.{ok, Result-cases}
use data_gateway.Config.{Equip}
use data_gateway.Config.Twin.{TwinConfig, plc_of}
use data_gateway.Config.Check.{
  Checked, ConfigError, unknown_plc, duplicate_code, refused, passed, refuse_if, ◌>>=◌,
}
use data_gateway.Config.Check.Devices.{check_buses, check_equipment}
use data_gateway.Config.Check.Maps.{
  by_code, owner_is, check_blocks, check_order, check_maps, check_mapped, validate_memory_map,
  validate_semantics, any_twice,
}

pub Checked-cases {ℓ} :
    {A : Type ℓ} (r : Checked A)
    → ((a : A) × (r ≡ passed a)) ⊎ ((x : ConfigError) × (r ≡ refused x))
Checked-cases (passed a) = inl (a, refl)
Checked-cases (refused x) = inr (x, refl)

-- A check that passes was passed by each of its parts.
pub bind-passed {ℓ κ} :
    {A : Type ℓ} {B : Type κ} (r : Checked A) (f : A → Checked B) (b : B)
    → (r >>= f) ≡ passed b
    → (a : A) × (r ≡ passed a) × (f a ≡ passed b)
bind-passed (passed a) f b h = (a, refl, h)
bind-passed (refused x) f b h = absurd (cc)

pub refuse_if-passed :
    (b : Bool) (x : ConfigError) (u : Unit {0}) → refuse_if b x ≡ passed u → b ≡ false
refuse_if-passed true x u h = absurd (cc)
refuse_if-passed false x u h = refl

module _ (fl : Floats) where
  -- The device of a block, and that it is new and belongs to the PLC.
  abbrev pub Found : TwinConfig fl → String → String → Dict String String → Type 0
  Found cfg plc code mapped =
      (e : Equip fl) × (owner : Option String) × (get code (by_code fl cfg.equipment []) ≡ some e)
      × (has code mapped ≡ false)
      × (plc_of fl e cfg ≡ ok owner)
      × (owner_is plc owner ≡ true)

  pub check_blocks-parts :
      (cfg : TwinConfig fl) (plc code : String) (base : ℕ) (bs : List (String × ℕ))
      (mapped after : Dict String String) (spans : List (ℕ × ℕ))
      → check_blocks fl cfg plc ((code, base) ∷ bs) mapped ≡ passed (spans, after)
      → Found cfg plc code mapped
        × (rest : List (ℕ × ℕ)) × (check_blocks fl cfg plc bs (put code plc mapped)
            ≡ passed (rest, after))
        × (spans ≡ (base, base + cfg.plc_map.block_words) ∷ rest)
  unfolding check_blocks
  check_blocks-parts cfg plc code base bs mapped after spans h =
      elim (Option-cases (get code (by_code fl cfg.equipment []))) [
        | inl unknown ↦ absurd (cc (rw (check_blocks, unknown) at h))
        | inr (e, known) ↦ elim (Bool-cases (has code mapped)) [
          | inl twice ↦ absurd (cc (rw (check_blocks, known, twice) at h))
          | inr new ↦ elim (Result-cases (plc_of fl e cfg)) [
            | inr (x, fails) ↦ absurd (cc (rw (check_blocks, known, new, fails) at h))
            | inl (owner, owned) ↦ elim (Bool-cases (owner_is plc owner)) [
              | inr other ↦ absurd (cc (rw (check_blocks, known, new, owned, other) at h))
              | inl same ↦
                  let (r, all, last) =
                    bind-passed (check_blocks fl cfg plc bs (put code plc mapped))
                      (λ (r : List (ℕ × ℕ) × Dict String String).
                        passed ((base, base + cfg.plc_map.block_words) ∷ r.0, r.1))
                      (spans, after) (rw (check_blocks, known, new, owned, same) at h) in
                  let pair : ◌≡◌ {A = List (ℕ × ℕ) × Dict String String}
                      ((base, base + cfg.plc_map.block_words) ∷ r.0, r.1) (spans, after) =
                    cc in
                  (
                    (e, owner, known, new, owned, same),
                    r.0,
                    all ∙ ap (λ t. passed (r.0, t)) (ap (λ t. t.1) pair),
                    sym (ap (λ t. t.0) pair),
                  )
            ]
          ]
        ]
      ]

  pub check_maps-parts :
      (cfg : TwinConfig fl) (plc : String) (blocks : Dict String ℕ)
      (rest : Dict String (Dict String ℕ)) (mapped last : Dict String String)
      → check_maps fl cfg ((plc, blocks) ∷ rest) mapped ≡ passed last
      → (spans : List (ℕ × ℕ)) × (after : Dict String String) × (check_blocks fl cfg plc blocks
            mapped
          ≡ passed (spans, after))
        × (check_order (
              sort_spans (
                spans
                ++ ((cfg.plc_map.diag_base, cfg.plc_map.diag_base + cfg.plc_map.block_words) ∷ [])))
            ≡ passed tt)
        × (check_maps fl cfg rest after ≡ passed last)
  unfolding check_maps
  check_maps-parts cfg plc blocks rest mapped last h =
      let diag : ℕ × ℕ = (cfg.plc_map.diag_base, cfg.plc_map.diag_base + cfg.plc_map.block_words) in
      let ordered =
        λ (r : List (ℕ × ℕ) × Dict String String). check_order (sort_spans (r.0 ++ (diag ∷ []))) in
      let finish = λ (r : List (ℕ × ℕ) × Dict String String). ordered r >>= λ _. passed r.1 in
      let known = refuse_if (not (has plc cfg.plcs)) (unknown_plc plc) in
      let blocks_of = check_blocks fl cfg plc blocks mapped in
      let (after, one, others) =
        bind-passed (known >>= λ _. blocks_of >>= finish) (check_maps fl cfg rest) last h in
      let (u, is_known, one₁) = bind-passed known (λ _. blocks_of >>= finish) after one in
      let (r, in_blocks, one₂) = bind-passed blocks_of finish after one₁ in
      let (v, in_order, same) = bind-passed (ordered r) (λ _. passed r.1) after one₂ in
      let e : r.1 ≡ after = cc in
      (r.0, after, in_blocks ∙ ap (λ t. passed (r.0, t)) e, in_order, others)

  pub validate_semantics-parts :
      (cfg : TwinConfig fl)
      → validate_semantics fl cfg ≡ passed tt
      → (any_twice
            (map (λ (e : Equip fl). e.code) cfg.equipment)
            (map (λ (e : Equip fl). e.code) cfg.equipment)
          ≡ false)
        × (check_equipment fl cfg cfg.equipment [] ≡ passed tt)
        × (mapped : Dict String String) × (check_maps fl cfg cfg.plc_map.blocks [] ≡ passed mapped)
        × (check_mapped fl mapped cfg.equipment ≡ passed tt)
  unfolding validate_semantics validate_memory_map
  validate_semantics-parts cfg h =
      let codes = map (λ (e : Equip fl). e.code) cfg.equipment in
      let maps = validate_memory_map fl cfg in
      let devices = check_equipment fl cfg cfg.equipment [] in
      let buses = check_buses fl cfg cfg.buses in
      let once = refuse_if (any_twice codes codes) duplicate_code in
      let (u, is_once, h₁) = bind-passed once (λ _. buses >>= λ _. devices >>= λ _. maps) tt h in
      let (v, _, h₂) = bind-passed buses (λ _. devices >>= λ _. maps) tt h₁ in
      let (w, of_devices, h₃) = bind-passed devices (λ _. maps) tt h₂ in
      let (mapped, of_maps, last) =
        bind-passed (check_maps fl cfg cfg.plc_map.blocks []) (λ m. check_mapped fl m cfg.equipment)
          tt h₃ in
      (
        refuse_if-passed (any_twice codes codes) duplicate_code u is_once,
        of_devices,
        mapped,
        of_maps,
        last,
      )
