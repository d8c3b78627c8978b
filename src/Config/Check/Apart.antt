-- ===== src/Config/Check/Apart.antt =====
-- The D area of a configuration that src/twin/common/config.py accepts.
use data_gateway.Base.{
  ℕ, ◌+◌, ◌≤◌, String, ◌≡◌, sym, ap, ◌∙◌, ◌⊎◌, inl, inr, List, [], ◌∷◌, ◌++◌, arith, ltb, ltb→ge,
  Bool-cases, All, All-append,
}
use data_gateway.Base.Dict.{Dict, put}
use data_gateway.Base.Key.{ℕ_key, String_key, pair_key}
use data_gateway.Base.Spans.{
  span_leb, insert_span, sort_spans, Proper, FromOn, Ordered, sort_spans-Ordered,
}
use data_gateway.Base.Floats.{Floats}
use data_gateway.Config.Twin.{TwinConfig}
use data_gateway.Config.Check.{passed}
use data_gateway.Config.Check.Maps.{check_blocks, check_order, check_maps, validate_semantics}
use data_gateway.Config.Check.Parts.{check_blocks-parts, check_maps-parts, validate_semantics-parts}

-- Two spans with no address in common.
abbrev pub Apart : ℕ × ℕ → ℕ × ℕ → Type 0
Apart s t = (s.1 ≤ t.0) ⊎ (t.1 ≤ s.0)

abbrev pub AllApart : List (ℕ × ℕ) → Type 0
AllApart [] = Unit
AllApart (s ∷ ss) = All (Apart s) ss × AllApart ss

Apart-sym : (s t : ℕ × ℕ) → Apart s t → Apart t s
Apart-sym s t (inl h) = inr h
Apart-sym s t (inr h) = inl h

-- What holds of all spans after an insertion holds of the one and of the others.
All-insert :
    (P : ℕ × ℕ → Type 0) (s : ℕ × ℕ) (ss : List (ℕ × ℕ)) → All P (insert_span s ss) → P s × All P ss
unfolding insert_span
All-insert P s [] h = h
All-insert P s (u ∷ us) h = elim (Bool-cases (span_leb s u)) [
  | inl first ↦ rw first at h
  | inr later ↦ let (hu, hs) = rw later at h in let (k, ks) = All-insert P s us hs in (k, (hu, ks))
]

All-sort : (P : ℕ × ℕ → Type 0) (ss : List (ℕ × ℕ)) → All P (sort_spans ss) → All P ss
unfolding sort_spans
All-sort P [] h = tt
All-sort P (s ∷ ss) h = let (k, ks) = All-insert P s (sort_spans ss) h in (k, All-sort P ss ks)

-- Spans that are apart after an insertion were apart before it.
insert-AllApart :
    (s : ℕ × ℕ) (ss : List (ℕ × ℕ)) → AllApart (insert_span s ss) → All (Apart s) ss × AllApart ss
unfolding insert_span
insert-AllApart s [] h = (tt, tt)
insert-AllApart s (u ∷ us) h = elim (Bool-cases (span_leb s u)) [
  | inl first ↦ rw first at h
  | inr later ↦
      let (hu, hs) = rw later at h in
      let (k, ks) = insert-AllApart s us hs in
      let (us_s, us_us) = All-insert (Apart u) s us hu in ((Apart-sym u s us_s, k), (us_us, ks))
]

sort-AllApart : (ss : List (ℕ × ℕ)) → AllApart (sort_spans ss) → AllApart ss
unfolding sort_spans
sort-AllApart [] h = tt
sort-AllApart (s ∷ ss) h =
    let (k, ks) = insert-AllApart s (sort_spans ss) h in
    (All-sort (Apart s) ss k, sort-AllApart ss ks)

-- Spans in order that pass the check.
check_order-behind :
    (s : ℕ × ℕ) (ss : List (ℕ × ℕ))
    → Ordered (s ∷ ss)
    → check_order (s ∷ ss) ≡ passed tt
    → All (FromOn s.1) ss × AllApart (s ∷ ss)
unfolding check_order
check_order-behind s [] o h = (tt, (tt, tt))
check_order-behind (s₁, e₁) ((s₂, e₂) ∷ rest) (p, from, (p₂, from₂, o)) h =
    elim (Bool-cases (ltb s₂ e₁)) [
      | inl overlaps ↦ absurd (cc (rw overlaps at h))
      | inr apart ↦
          let (behind, all) = check_order-behind (s₂, e₂) rest (p₂, from₂, o) (rw apart at h) in
          let le : e₁ ≤ s₂ = omega (arith, ltb→ge s₂ e₁ apart) in
          let first : All (FromOn e₁) rest = later e₁ s₂ rest le from₂ in
          ((le, first), ((inl le, lefts e₁ rest first), all))
    ]
  where
    later : (lo hi : ℕ) (ts : List (ℕ × ℕ)) → lo ≤ hi → All (FromOn hi) ts → All (FromOn lo) ts
    later lo hi [] h k = tt
    later lo hi (t ∷ ts) h (k, ks) = (omega (arith, h, k), later lo hi ts h ks)

    lefts : (hi : ℕ) (ts : List (ℕ × ℕ)) → All (FromOn hi) ts → All (Apart (s₁, hi)) ts
    lefts hi [] k = tt
    lefts hi (t ∷ ts) (k, ks) = (inl k, lefts hi ts ks)

sorted-AllApart : (ss : List (ℕ × ℕ)) → Ordered ss → check_order ss ≡ passed tt → AllApart ss
sorted-AllApart [] o h = tt
sorted-AllApart (s ∷ ss) o h = (check_order-behind s ss o h).1

-- The spans of the blocks of a PLC and of its diagnosis area.
abbrev pub block_spans : ℕ → List (String × ℕ) → List (ℕ × ℕ)
block_spans w [] = []
block_spans w ((code, base) ∷ rest) = (base, base + w) ∷ block_spans w rest

block_spans-Proper : (w : ℕ) (bs : List (String × ℕ)) → All Proper (block_spans w bs)
block_spans-Proper w [] = tt
block_spans-Proper w (b ∷ bs) = (omega arith, block_spans-Proper w bs)

module _ (fl : Floats) where
  check_blocks-spans :
      (cfg : TwinConfig fl) (plc : String) (bs : List (String × ℕ))
      (mapped after : Dict String String) (spans : List (ℕ × ℕ))
      → check_blocks fl cfg plc bs mapped ≡ passed (spans, after)
      → spans ≡ block_spans cfg.plc_map.block_words bs
  unfolding check_blocks
  check_blocks-spans cfg plc [] mapped after spans h =
      let pair : ◌≡◌ {A = List (ℕ × ℕ) × Dict String String} ([], mapped) (spans, after) = cc in
      sym (ap (λ t. t.0) pair)
  check_blocks-spans cfg plc ((code, base) ∷ bs) mapped after spans h =
      let (found, rest, others, e) =
        check_blocks-parts fl cfg plc code base bs mapped after spans h in
      e
      ∙ ap (λ t. (base, base + cfg.plc_map.block_words) ∷ t)
          (check_blocks-spans cfg plc bs (put code plc mapped) after rest others)

  -- The blocks and the diagnosis area of one PLC.
  abbrev pub area_spans : TwinConfig fl → Dict String ℕ → List (ℕ × ℕ)
  area_spans cfg blocks =
      block_spans cfg.plc_map.block_words blocks
      ++ ((cfg.plc_map.diag_base, cfg.plc_map.diag_base + cfg.plc_map.block_words) ∷ [])

  abbrev pub BlocksApart : TwinConfig fl → String × Dict String ℕ → Type 0
  BlocksApart cfg p = AllApart (area_spans cfg p.1)

  check_maps-apart :
      (cfg : TwinConfig fl) (maps : Dict String (Dict String ℕ)) (mapped last : Dict String String)
      → check_maps fl cfg maps mapped ≡ passed last
      → All (BlocksApart cfg) maps
  check_maps-apart cfg [] mapped last h = tt
  check_maps-apart cfg ((plc, blocks) ∷ rest) mapped last h =
      let diag : ℕ × ℕ = (cfg.plc_map.diag_base, cfg.plc_map.diag_base + cfg.plc_map.block_words) in
      let (spans, after, in_blocks, in_order, others) =
        check_maps-parts fl cfg plc blocks rest mapped last h in
      let e = check_blocks-spans cfg plc blocks mapped after spans in_blocks in
      let ordered : check_order (sort_spans (area_spans cfg blocks)) ≡ passed tt =
        ap (λ t. check_order (sort_spans (t ++ (diag ∷ [])))) (sym e) ∙ in_order in
      let proper : All Proper (area_spans cfg blocks) =
        All-append Proper (block_spans cfg.plc_map.block_words blocks) (diag ∷ [])
          (block_spans-Proper cfg.plc_map.block_words blocks) (omega arith, tt) in
      (
        sort-AllApart (area_spans cfg blocks) (
            sorted-AllApart (sort_spans (area_spans cfg blocks))
              (sort_spans-Ordered (area_spans cfg blocks) proper) ordered),
        check_maps-apart cfg rest after last others,
      )

  -- In a configuration that the validation accepts, no two blocks of a PLC have a word in common,
  -- and none has a word in common with the PLC's diagnosis area.
  pub validated-apart :
      (cfg : TwinConfig fl)
      → validate_semantics fl cfg ≡ passed tt
      → All (BlocksApart cfg) cfg.plc_map.blocks
  validated-apart cfg h =
      let (once, devices, mapped, maps, last) = validate_semantics-parts fl cfg h in
      check_maps-apart cfg cfg.plc_map.blocks [] mapped maps
