-- ===== src/Edge/Reader.antt =====
-- `PlcReader` of src/twin/edge/collectors.py: the reads of a PLC's D area, and the samples of the
-- devices whose counter has changed. The link is an argument: a state, with what a read of it does.
-- Times are readings of the monotonic clock in microseconds; a poll reads the clock once.
pub mod Ranges
pub mod Poll
pub mod Decodes
pub mod Serves
pub mod Blocks
pub mod Sizes
pub mod Wire
use data_gateway.Base.{
  ℕ, zero, suc, ◌+◌, ◌-◌, ◌*◌, ◌/◌, ◌%◌, ◌^◌, ◌≤◌, ◌<◌, min, max, bit_and, bit_or, bit_xor, String,
  ◌≡◌, refl, sym, ap, ap₂, subst, ◌∙◌, ◌≢◌, ◌↔◌, ◌⊎◌, inl, inr, Bool, true, false, not, ◌&&◌, ◌||◌,
  Option, none, some, List, [], ◌∷◌, ◌++◌, map, append-nil, append_assoc, arith, ltb, leb, ◌==◌,
  if◌then◌else◌, ltb→lt, ltb→ge, lt→ltb, leb→le, leb→gt, le→leb, gt→leb, ==_iff, ==_refl, ==_ne,
  Bool-cases, Option-cases, and_parts, length, get_elem?, take, drop, replicate, set, keep,
  count_if, sum_by, All, length-append, length-set, length-take, length-drop, take-append_left,
  drop-append_left, get_elem?-set_self, get_elem?-set_ne, sum_by-append, All-append, get_elem?-take,
  get_elem?-drop,
}
use data_gateway.Base.Dict.{
  Dict, get, put, remove, has, get_or, get-put, get-remove, get-put_self, get-put_ne,
  get-remove_self, get-remove_ne,
}
use data_gateway.Base.Key.{ℕ_key, String_key}
use data_gateway.Base.Text.{decimal_4}
use data_gateway.Base.Spans.{sort_spans}
use data_gateway.Base.Floats.{Floats}
use Prim.Native.String.{◌++◌ as joined}
use text.Mathlib.Text.{◌==◌ as text_eq}
use data_gateway.Modbus.Outcome.{
  Error, Result, ok, err, timeout_err, crc_err, frame_err, exception_response, struct_error,
  value_error, index_error, key_error, incomplete_read, ◌>>=◌, kind, index, pack_byte, pack_be,
  Result-cases,
}
use data_gateway.Modbus.Value.{words_of, decode_value}
use data_gateway.Config.{Item, Equip, value_words}
use data_gateway.Diag.{Diag, new_diag, attempt, poll, down_status, code}
use data_gateway.Plc.Link.{ReadResult}
use data_gateway.Edge.Sample.{Sample}

-- The loop of `_ranges`; `lo` and `hi` are `merged[-1]`.
unfoldable pub merge_from : ℕ → ℕ → List (ℕ × ℕ) → List (ℕ × ℕ)
merge_from lo hi [] = (lo, hi) ∷ []
merge_from lo hi ((a, b) ∷ rest) =
    let wider = merge_from lo (max hi b) rest in
    let next = merge_from a b rest in
    if leb a hi && leb (b - lo) 125 then wider else (lo, hi) ∷ next

unfoldable pub merge_spans : List (ℕ × ℕ) → List (ℕ × ℕ)
unfolding merge_from
merge_spans [] = []
merge_spans ((a, b) ∷ rest) = merge_from a b rest

-- `plc_map`, with the blocks of one PLC
pub record Layout : Type 0 where
  pub block_words : ℕ
  pub diag_base : ℕ
  pub blocks : Dict String ℕ

abbrev pub block_spans : Layout → List (ℕ × ℕ)
block_spans y = map (λ (b : String × ℕ). (b.1, b.1 + y.block_words)) y.blocks

-- `_ranges`: the first address and the number of words of each read
unfoldable pub ranges : Layout → List (ℕ × ℕ)
unfolding sort_spans merge_spans
ranges y =
    map (λ (r : ℕ × ℕ). (r.0, r.1 - r.0))
      (merge_spans
        (sort_spans (sort_spans (block_spans y) ++ ((y.diag_base, y.diag_base + 6) ∷ []))))

-- `mem[addr + i] = w` for each word
unfoldable pub keep_words : ℕ → List ℕ → Dict ℕ ℕ → Dict ℕ ℕ
keep_words addr [] mem = mem
keep_words addr (w ∷ ws) mem = keep_words (addr + 1) ws (put addr w mem)

-- `mem[a]`
abbrev pub word_at : ℕ → Dict ℕ ℕ → Result ℕ
word_at a mem = elim (get a mem) [ none ↦ err key_error | some w ↦ ok w ]

-- `[mem[a + i] for i in range(n)]`
unfoldable pub words_at : ℕ → ℕ → Dict ℕ ℕ → Result (List ℕ)
words_at a zero mem = ok []
words_at a (suc n) mem =
    let rest = words_at (a + 1) n mem in word_at a mem >>= λ w. rest >>= λ ws. ok (w ∷ ws)

module _ (fl : Floats) where
  open fl use {Float}

  -- An entry of `dev`.
  pub record Device : Type 0 where
    pub counter : Option ℕ
    pub changed : ℕ
    pub plc_status : ℕ
    pub fails : ℕ
    pub values : Dict String Float

  abbrev pub new_device : Device
  new_device = record {
    counter = none;
    changed = 0;
    plc_status = code down_status;
    fails = 0;
    values = [];
  }

  -- The loop over the items, from the word `off` of the values on.
  unfoldable pub decode_items :
      String
      → ℕ
      → List ℕ
      → ℕ
      → List (Item fl)
      → Dict String Float
      → Dict String String
      → Result (Dict String Float × Dict String String)
  decode_items plc base words off [] values tags = ok (values, tags)
  decode_items plc base words off (it ∷ its) values tags =
      let rest = λ (v : Float).
        decode_items plc base words (off + words_of it.type) its (put it.key v values)
          (put it.key (joined plc (joined ".D" (decimal_4 (base + 2 + off)))) tags) in
      decode_value fl (take (words_of it.type) (drop off words)) it.type it.scale >>= rest

  -- `_update_device`, after `st["counter"], st["changed"] = counter, now`
  unfoldable pub sample_device :
      String → Equip fl → ℕ → Dict ℕ ℕ → ℕ → Device → Result (List (Sample fl)) × Device
  unfolding words_at decode_items
  sample_device plc e base mem wall st =
      let decoded = words_at (base + 2) (value_words fl e) mem >>= λ words.
      decode_items plc base words 0 e.items [] [] in
      elim decoded [
        | err x ↦ (err x, st)
        | ok (values, tags) ↦ (
          ok (record { equip = e; collect_dt = wall; values = values; tag_addrs = tags } ∷ []),
          record st { values = values },
        )
      ]

  -- `counter == 0 or counter == st["counter"]`
  abbrev pub is_old : ℕ → Option ℕ → Bool
  is_old counter none = counter == 0
  is_old counter (some last) = (counter == 0) || (counter == last)

  -- `_update_device`: the samples that it emits, and the entry of the device.
  unfoldable pub update_device :
      String → Equip fl → ℕ → Dict ℕ ℕ → ℕ → ℕ → Device → Result (List (Sample fl)) × Device
  unfolding sample_device
  update_device plc e base mem now wall st =
      let heads : Result (ℕ × ℕ) =
        word_at base mem >>= λ status. word_at (base + 1) mem >>= λ fails. ok (status, fails) in
      elim heads [
        | err x ↦ (err x, st)
        | ok (status, fails) ↦
            let st₁ = record st { plc_status = status; fails = fails } in
            elim (word_at (base + 8) mem) [
              | err x ↦ (err x, st₁)
              | ok counter ↦
                  if is_old counter st.counter
                  then (ok [], st₁)
                  else sample_device plc e base mem wall
                      (record st₁ { counter = some counter; changed = now })
            ]
      ]
