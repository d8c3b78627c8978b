-- ===== src/Config/Check/Owner.antt =====
-- The block of a device in a configuration that src/twin/common/config.py accepts.
use data_gateway.Base.{
  ℕ, ◌≤◌, String, ◌≡◌, refl, sym, ap, ◌∙◌, ◌⊎◌, inl, inr, true, false, not, ◌&&◌, Option, none,
  some, List, [], ◌∷◌, map, arith, ltb, ltb→ge, Bool-cases, Option-cases, All,
}
use data_gateway.Base.Dict.{Dict, get, put, has, get-put, get-put_self}
use data_gateway.Base.Key.{ℕ_key, String_key, pair_key}
use data_gateway.Base.Floats.{Floats}
use text.Mathlib.Text.{◌==◌ as text_eq}
use data_gateway.Modbus.Outcome.{ok}
use data_gateway.Config.{Equip, kind_of}
use data_gateway.Config.Twin.{TwinConfig, plc_of, block_in, block_base}
use data_gateway.Config.Check.{no_block, passed, refuse_if, on_plc}
use data_gateway.Config.Check.Maps.{
  count, any_twice, by_code, owner_is, check_blocks, check_maps, check_mapped, validate_semantics,
}
use data_gateway.Config.Check.Parts.{
  bind-passed, refuse_if-passed, check_blocks-parts, check_maps-parts, validate_semantics-parts,
}

owner_is-same :
    (plc : String) (owner : Option String) → owner_is plc owner ≡ true → owner ≡ some plc
owner_is-same plc none h = absurd (cc)
owner_is-same plc (some o) h = ap some ((String_key.beq_iff o plc).0 h)

module _ (fl : Floats) where
  -- The device of the code belongs to the PLC.
  abbrev pub Owned : TwinConfig fl → String → String → Type 0
  Owned cfg plc code =
      (e : Equip fl) × (get code (by_code fl cfg.equipment []) ≡ some e)
      × (plc_of fl e cfg ≡ ok (some plc))

  check_blocks-Owned :
      (cfg : TwinConfig fl) (plc code : String) (base : ℕ) (bs : List (String × ℕ))
      (mapped after : Dict String String) (spans : List (ℕ × ℕ))
      → check_blocks fl cfg plc bs mapped ≡ passed (spans, after)
      → get code bs ≡ some base
      → Owned cfg plc code
  unfolding get
  check_blocks-Owned cfg plc code base [] mapped after spans h k = absurd (cc)
  check_blocks-Owned cfg plc code base ((c, b) ∷ bs) mapped after spans h k =
      let ((e, owner, known, new, owned, same), rest, others, eq) =
        check_blocks-parts fl cfg plc c b bs mapped after spans h in
      elim (Bool-cases (text_eq c code)) [
        | inl here ↦
            let name : c ≡ code = (String_key.beq_iff c code).0 here in
            (
              e,
              ap (λ t. get t (by_code fl cfg.equipment [])) (sym name) ∙ known,
              owned ∙ ap ok (owner_is-same plc owner same),
            )
        | inr there ↦
            check_blocks-Owned cfg plc code base bs (put c plc mapped) after rest others
              (rw there at k)
      ]

  check_blocks-others :
      (cfg : TwinConfig fl) (plc code : String) (bs : List (String × ℕ))
      (mapped after : Dict String String) (spans : List (ℕ × ℕ))
      → check_blocks fl cfg plc bs mapped ≡ passed (spans, after)
      → get code bs ≡ none
      → get code after ≡ get code mapped
  unfolding get check_blocks
  check_blocks-others cfg plc code [] mapped after spans h k =
      let pair : ◌≡◌ {A = List (ℕ × ℕ) × Dict String String} ([], mapped) (spans, after) = cc in
      ap (λ t. get code t) (sym (ap (λ t. t.1) pair))
  check_blocks-others cfg plc code ((c, b) ∷ bs) mapped after spans h k =
      let (found, rest, others, eq) = check_blocks-parts fl cfg plc c b bs mapped after spans h in
      elim (Bool-cases (text_eq c code)) [
        | inl here ↦ absurd (cc (rw here at k))
        | inr there ↦
            check_blocks-others cfg plc code bs (put c plc mapped) after rest others (rw there at k)
            ∙ get-put c code plc mapped
            ∙ rw there refl
      ]

  -- The code has a block, in the area of the PLC to which its device belongs.
  abbrev pub Placed : TwinConfig fl → Dict String (Dict String ℕ) → String → Type 0
  Placed cfg maps code =
      (plc : String) × (base : ℕ) × (block_in code maps ≡ some (plc, base)) × Owned cfg plc code

  check_maps-Placed :
      (cfg : TwinConfig fl) (code : String) (maps : Dict String (Dict String ℕ))
      (mapped last : Dict String String)
      → check_maps fl cfg maps mapped ≡ passed last
      → get code mapped ≡ none
      → has code last ≡ true
      → Placed cfg maps code
  unfolding check_maps
  check_maps-Placed cfg code [] mapped last h new k =
      let same : mapped ≡ last = cc in
      let there : has code mapped ≡ true = ap (λ t. has code t) same ∙ k in absurd (ground arith)
  check_maps-Placed cfg code ((plc, blocks) ∷ rest) mapped last h new k =
      let (spans, after, in_blocks, in_order, others) =
        check_maps-parts fl cfg plc blocks rest mapped last h in
      elim (Option-cases (get code blocks)) [
        | inr (base, here) ↦ (
          plc,
          base,
          rw (block_in, here) refl,
          check_blocks-Owned cfg plc code base blocks mapped after spans in_blocks here,
        )
        | inl not_here ↦
            let still =
              check_blocks-others cfg plc code blocks mapped after spans in_blocks not_here in
            let (p, b, there, owned) =
              check_maps-Placed cfg code rest after last others (still ∙ new) k in
            (p, b, rw (block_in, not_here) there, owned)
      ]

  check_mapped-has :
      (mapped : Dict String String) (es : List (Equip fl))
      → check_mapped fl mapped es ≡ passed tt
      → All (λ (e : Equip fl). (on_plc (kind_of e.via) && not (has e.code mapped)) ≡ false) es
  unfolding check_mapped
  check_mapped-has mapped [] h = tt
  check_mapped-has mapped (e ∷ es) h =
      let missing = on_plc (kind_of e.via) && not (has e.code mapped) in
      let (u, is_there, others) =
        bind-passed (refuse_if missing (no_block e.code)) (λ _. check_mapped fl mapped es) tt h in
      (refuse_if-passed missing (no_block e.code) u is_there, check_mapped-has mapped es others)

  abbrev codes : List (Equip fl) → List String
  codes es = map (λ (e : Equip fl). e.code) es

  -- A device whose code no later one has is found under its code.
  get-by_code_new :
      (code : String) (es : List (Equip fl)) (d : Dict String (Equip fl))
      → count code (codes es) ≡ 0
      → get code (by_code fl es d) ≡ get code d
  get-by_code_new code [] d h = refl
  get-by_code_new code (e ∷ es) d h = elim (Bool-cases (text_eq e.code code)) [
    | inl same ↦ let n = rw same at h in absurd (omega arith)
    | inr other ↦
        let n : count code (codes es) ≡ 0 = omega (arith, rw other at h) in
        get-by_code_new code es (put e.code e d) n ∙ get-put e.code code e d ∙ rw other refl
  ]

  abbrev FoundByCode : List (Equip fl) → Dict String (Equip fl) → Equip fl → Type 0
  FoundByCode es d e = get e.code (by_code fl es d) ≡ some e

  abbrev AtMostOne : List String → Equip fl → Type 0
  AtMostOne cs e = count e.code cs ≤ 1

  get-by_code_unique :
      (es : List (Equip fl)) (d : Dict String (Equip fl))
      → All (AtMostOne (codes es)) es
      → All (FoundByCode es d) es
  get-by_code_unique [] d h = tt
  get-by_code_unique (e ∷ es) d (h, hs) =
      let self : text_eq e.code e.code ≡ true = (String_key.beq_iff e.code e.code).1 refl in
      let n : count e.code (codes es) ≡ 0 = omega (arith, rw self at h) in
      (
        get-by_code_new e.code es (put e.code e d) n ∙ get-put_self e.code e d,
        get-by_code_unique es (put e.code e d) (fewer es hs),
      )
    where
      fewer :
          (fs : List (Equip fl))
          → All (AtMostOne (codes (e ∷ es))) fs
          → All (AtMostOne (codes es)) fs
      fewer [] h = tt
      fewer (f ∷ fs) (h, hs) = (omega (arith, h), fewer fs hs)

  any_twice-none :
      (es : List (Equip fl)) (cs : List String)
      → any_twice (codes es) cs ≡ false
      → All (AtMostOne cs) es
  any_twice-none [] cs h = tt
  any_twice-none (e ∷ es) cs h =
      let once : ltb 1 (count e.code cs) ≡ false = ground arith in
      let others : any_twice (codes es) cs ≡ false = ground arith in
      (ltb→ge 1 (count e.code cs) once, any_twice-none es cs others)

  -- The memory map has the block of the device under the PLC that reads it, or no PLC reads it.
  abbrev pub HasBlock : TwinConfig fl → Equip fl → Type 0
  HasBlock cfg e =
      (on_plc (kind_of e.via) ≡ false)
      ⊎ ((plc : String) × (base : ℕ) × (block_base e.code cfg ≡ some (plc, base))
          × (plc_of fl e cfg ≡ ok (some plc)))

  -- In a configuration that the validation accepts, every device on a bus or on a PLC's own network has
  -- a block in the memory map: `block_base` finds a PLC and a base address for its code, and this PLC
  -- is the one that `plc_of` says the device belongs to.
  pub validated-placed :
      (cfg : TwinConfig fl)
      → validate_semantics fl cfg ≡ passed tt
      → All (HasBlock cfg) cfg.equipment
  unfolding get
  validated-placed cfg h =
      let (once, devices, mapped, maps, last) = validate_semantics-parts fl cfg h in
      all cfg.equipment mapped maps (check_mapped-has mapped cfg.equipment last) (
        get-by_code_unique cfg.equipment []
          (any_twice-none cfg.equipment (codes cfg.equipment) once))
    where
      all :
          (es : List (Equip fl)) (mapped : Dict String String)
          → check_maps fl cfg cfg.plc_map.blocks [] ≡ passed mapped
          → All (λ (e : Equip fl). (on_plc (kind_of e.via) && not (has e.code mapped)) ≡ false) es
          → All (FoundByCode cfg.equipment []) es
          → All (HasBlock cfg) es
      all [] mapped maps h k = tt
      all (e ∷ es) mapped maps (h, hs) (k, ks) = (
        elim (Bool-cases (on_plc (kind_of e.via))) [
          | inr free ↦ inl free
          | inl on ↦
              let there : has e.code mapped ≡ true = ground arith in
              let (plc, base, placed, (e', known, owned)) =
                check_maps-Placed cfg e.code cfg.plc_map.blocks [] mapped maps refl there in
              let same : e' ≡ e = cc in
              inr (plc, base, placed, ap (λ t. plc_of fl t cfg) (sym same) ∙ owned)
        ],
        all es mapped maps hs ks,
      )
