-- ===== src/Edge/Reader/Decodes.antt =====
-- `_update_device` of src/twin/edge/collectors.py on a block that the scanner of
-- src/twin/plc/runtime.py has written.
use data_gateway.Base.{
  ℕ, zero, suc, ◌+◌, ◌≤◌, String, ◌≡◌, refl, sym, ap, ap₂, ◌∙◌, inl, inr, false, some, List, [],
  ◌∷◌, arith, length, take, drop, sum_by, All, length-append, length-take, length-drop,
  take-append_left, drop-append_left,
}
use data_gateway.Base.Dict.{Dict, get, put}
use data_gateway.Base.Key.{ℕ_key, String_key}
use data_gateway.Base.Text.{decimal_4}
use data_gateway.Base.Floats.{Floats}
use Prim.Native.String.{◌++◌ as joined}
use data_gateway.Modbus.Outcome.{Result, ok, ◌>>=◌, Result-cases}
use data_gateway.Modbus.Value.{words_of, decode_value}
use data_gateway.Config.{Item, Equip, value_words, fc_of}
use data_gateway.Plc.Scanner.{Slot, slot_lo, slot_hi}
use data_gateway.Plc.Scanner.Packs.{values_of, drop-drop}
use data_gateway.Edge.Reader.{words_at, decode_items, sample_device, update_device, Device, is_old}

-- The registers of the device have every word of the slot.
abbrev pub InRegisters : (ℕ → List ℕ) → Slot → Type 0
InRegisters regs s = slot_hi s ≤ length (regs (fc_of s.reg))

length-part :
    {A : Type 0} (a n : ℕ) (xs : List A) → a + n ≤ length xs → length (take n (drop a xs)) ≡ n
length-part a n xs h = omega (arith, length-take n (drop a xs), length-drop a xs)

module _ (fl : Floats) where
  open fl use {Float}

  -- The slots are those of the items.
  abbrev pub SlotsOf : List (Item fl) → List Slot → Type 0
  SlotsOf [] [] = Unit
  SlotsOf (it ∷ its) (s ∷ ss) = (it.reg ≡ some s.reg) × (it.type ≡ s.type) × SlotsOf its ss
  SlotsOf _ _ = ⊥

  -- Each item decoded from its own registers on the device.
  abbrev pub device_values :
      (ℕ → List ℕ) → List (Item fl) → List Slot → Dict String Float → Result (Dict String Float)
  device_values regs (it ∷ its) (s ∷ ss) values =
      let rest = λ (v : Float). device_values regs its ss (put it.key v values) in
      decode_value fl (take (words_of s.type) (drop (slot_lo s) (regs (fc_of s.reg)))) it.type
        it.scale
      >>= rest
  device_values regs _ _ values = ok values

  decode-values_of :
      (plc : String) (base off : ℕ) (regs : ℕ → List ℕ) (words : List ℕ) (its : List (Item fl))
      (ss : List Slot) (values got : Dict String Float) (tags : Dict String String)
      → SlotsOf its ss
      → All (InRegisters regs) ss
      → drop off words ≡ values_of regs ss
      → device_values regs its ss values ≡ ok got
      → (t : Dict String String) × (decode_items fl plc base words off its values tags
          ≡ ok (got, t))
  unfolding decode_items
  decode-values_of plc base off regs words [] [] values got tags m r w d =
      (tags, ap (λ (t : Result (Dict String Float)). t >>= λ g. ok (g, tags)) d)
  decode-values_of plc base off regs words [] (s ∷ ss) values got tags m r w d = elim m [ ]
  decode-values_of plc base off regs words (it ∷ its) [] values got tags m r w d = elim m [ ]
  decode-values_of plc base off regs words (it ∷ its) (s ∷ ss) values got tags (mr, mt, m) (r, rs) w
        d =
      let part : List ℕ = take (words_of s.type) (drop (slot_lo s) (regs (fc_of s.reg))) in
      let n : length part ≡ words_of s.type =
        length-part (slot_lo s) (words_of s.type) (regs (fc_of s.reg)) r in
      let here : take (words_of it.type) (drop off words) ≡ part =
        rw (w, mt) (take-append_left (words_of s.type) part (values_of regs ss) n) in
      let there : drop (off + words_of it.type) words ≡ values_of regs ss =
        sym (drop-drop (words_of it.type) off (off + words_of it.type) words refl)
        ∙ rw (w, mt) (drop-append_left (words_of s.type) part (values_of regs ss) n) in
      let tag : String = joined plc (joined ".D" (decimal_4 (base + 2 + off))) in
      elim (Result-cases (decode_value fl part it.type it.scale)) [
        | inl (v, e) ↦
            let (t, ih) =
              decode-values_of plc base (off + words_of it.type) regs words its ss
                (put it.key v values) got (put it.key tag tags) m rs there (rw e at d) in
            (t, rw (here, e) ih)
        | inr (x, e) ↦ absurd (cc (rw e at d))
      ]

  value_words-values_of :
      (regs : ℕ → List ℕ) (its : List (Item fl)) (ss : List Slot)
      → SlotsOf its ss
      → All (InRegisters regs) ss
      → length (values_of regs ss) ≡ sum_by (λ (it : Item fl). words_of it.type) its
  value_words-values_of regs [] [] m r = refl
  value_words-values_of regs [] (s ∷ ss) m r = elim m [ ]
  value_words-values_of regs (it ∷ its) [] m r = elim m [ ]
  value_words-values_of regs (it ∷ its) (s ∷ ss) (mr, mt, m) (r, rs) =
      length-append (take (words_of s.type) (drop (slot_lo s) (regs (fc_of s.reg))))
        (values_of regs ss)
      ∙ ap₂ (λ a b. a + b)
          (length-part (slot_lo s) (words_of s.type) (regs (fc_of s.reg)) r ∙ ap words_of (sym mt))
          (value_words-values_of regs its ss m rs)

-- The words of `vs` are in the memory from the address on.
abbrev pub Holds : ℕ → List ℕ → Dict ℕ ℕ → Type 0
Holds a [] mem = Unit
Holds a (v ∷ vs) mem = (get a mem ≡ some v) × Holds (a + 1) vs mem

words_at-Holds :
    (a n : ℕ) (vs : List ℕ) (mem : Dict ℕ ℕ)
    → n ≡ length vs
    → Holds a vs mem
    → words_at a n mem ≡ ok vs
unfolding words_at
words_at-Holds a zero [] mem n h = refl
words_at-Holds a zero (v ∷ vs) mem n h = absurd (omega arith)
words_at-Holds a (suc k) [] mem n h = absurd (omega arith)
words_at-Holds a (suc k) (v ∷ vs) mem n (h, hs) =
    ground (arith, h, words_at-Holds (a + 1) k vs mem (omega arith) hs)

module _ (fl : Floats) where
  open fl use {Float}

  -- The block of a device, as the scanner lays it out.
  abbrev pub HoldsBlock : ℕ → ℕ → ℕ → List ℕ → ℕ → Dict ℕ ℕ → Type 0
  HoldsBlock base status fails values counter mem =
      (get base mem ≡ some status)
      × (get (base + 1) mem ≡ some fails)
      × Holds (base + 2) values mem
      × (get (base + 8) mem ≡ some counter)

  -- The reader has read a block in which the counter has moved on, and whose values are the words
  -- of the items at their own addresses on the device, which can all be decoded. Then it emits one
  -- sample, in which each item has the value that its own registers stand for, and takes note of the
  -- status, the failures and the counter.
  pub update_device-values :
      (plc : String) (e : Equip fl) (ss : List Slot) (regs : ℕ → List ℕ)
      (base status fails counter now wall : ℕ) (mem : Dict ℕ ℕ) (st : Device fl)
      (got : Dict String Float)
      → SlotsOf fl e.items ss
      → All (InRegisters regs) ss
      → HoldsBlock base status fails (values_of regs ss) counter mem
      → is_old fl counter st.counter ≡ false
      → device_values fl regs e.items ss [] ≡ ok got
      → (tags : Dict String String) × (update_device fl plc e base mem now wall st ≡ (
        ok (record { equip = e; collect_dt = wall; values = got; tag_addrs = tags } ∷ []),
        record {
          counter = some counter;
          changed = now;
          plc_status = status;
          fails = fails;
          values = got;
        },
      ))
  unfolding update_device sample_device
  update_device-values plc e ss regs base status fails counter now wall mem st got m r
        (h, k, hv, hc) new d =
      let words : List ℕ = values_of regs ss in
      let (tags, decoded) =
        decode-values_of fl plc base 0 regs words e.items ss [] got [] m r refl d in
      let read : words_at (base + 2) (value_words fl e) mem ≡ ok words =
        words_at-Holds (base + 2) (value_words fl e) words mem
          (sym (value_words-values_of fl regs e.items ss m r)) hv in
      (tags, rw (update_device, h, k, hc, new, sample_device, read, decoded) refl)
