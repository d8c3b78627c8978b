-- ===== src/Edge/Reader/Blocks.antt =====
-- From the registers of a device to the sample: what the scanner of src/twin/plc/runtime.py stores in a
-- block is what the reader of src/twin/edge/collectors.py makes the sample of.
use data_gateway.Base.{
  ℕ, zero, suc, ◌+◌, ◌-◌, ◌≤◌, ◌<◌, min, bit_and, String, ◌≡◌, refl, sym, ap, ◌∙◌, true, false,
  ◌&&◌, some, List, [], ◌∷◌, arith, ltb, leb, if◌then◌else◌, length, get_elem?, All,
}
use data_gateway.Base.Dict.{Dict, get}
use data_gateway.Base.Key.{ℕ_key, String_key}
use data_gateway.Base.Bits.{bit_and_ffff, IsWord}
use data_gateway.Base.Floats.{Floats}
use mathlib.Core.Option
use data_gateway.Modbus.Outcome.{Result, ok}
use data_gateway.Config.{Equip}
use data_gateway.Diag.{Status, ok_status, delay_status, down_status, error_status, code, status}
use data_gateway.Plc.Link.{ReadResult}
use data_gateway.Plc.Memory.{Memory, write}
use data_gateway.Plc.Memory.Laws.{IsMemory, write-IsMemory, word_at-write, length-write}
use data_gateway.Plc.Scanner.{Slot, LinkOps, Point, write_status, store_values}
use data_gateway.Plc.Scanner.Packs.{values_of}
use data_gateway.Edge.Reader.{ranges, is_old, Device, update_device}
use data_gateway.Edge.Reader.Ranges.{wanted}
use data_gateway.Edge.Reader.Poll.{Reader, read_ranges}
use data_gateway.Edge.Reader.Decodes.{
  InRegisters, SlotsOf, device_values, Holds, HoldsBlock, update_device-values,
}
use data_gateway.Edge.Reader.Serves.{Delivers, Fits, read_ranges-wanted}

words_kept :
    (vs : List ℕ) (i : ℕ)
    → All IsWord vs
    → Option.map (λ v. bit_and v 0xffff) (get_elem? vs i) ≡ get_elem? vs i
words_kept [] i h = refl
words_kept (v ∷ vs) zero (h, hs) =
    let e : bit_and v 0xffff ≡ v = omega (arith, bit_and_ffff v, h) in ap some e
words_kept (v ∷ vs) (suc i) (h, hs) = words_kept vs i hs

-- A write of words that fits.
word-write :
    (now addr i : ℕ) (vs : List ℕ) (m : Memory)
    → addr + length vs ≤ length m.words
    → All IsWord vs
    → get_elem? (write now addr vs m).1.words i ≡ (
        if leb addr i && ltb i (addr + length vs)
        then get_elem? vs (i - addr)
        else get_elem? m.words i)
word-write now addr i vs m h k =
    rw (sym (words_kept vs (i - addr) k)) ((word_at-write now addr i vs m h).1)

-- Where the memory agrees with the list, it holds it.
agrees-Holds :
    (a : ℕ) (vs : List ℕ) (mem : Dict ℕ ℕ)
    → ((i : ℕ) → i < length vs → get (a + i) mem ≡ get_elem? vs i)
    → Holds a vs mem
agrees-Holds a [] mem h = tt
agrees-Holds a (v ∷ vs) mem h = (
  ap (λ t. get t mem) here ∙ h 0 (omega arith),
  agrees-Holds (a + 1) vs mem (λ i k. ap (λ t. get t mem) (next i) ∙ h (suc i) (omega (arith, k))),
)
  where
    here : a ≡ a + 0
    here = omega arith

    next : (i : ℕ) → a + 1 + i ≡ a + suc i
    next i = omega arith

get_elem?-shift : (a i : ℕ) (vs : List ℕ) → get_elem? vs (a + i - a) ≡ get_elem? vs i
get_elem?-shift a i vs = let e : a + i - a ≡ i = omega arith in ap (get_elem? vs) e

code-IsWord : (s : Status) → IsWord (code s)
code-IsWord ok_status = omega arith
code-IsWord delay_status = omega arith
code-IsWord down_status = omega arith
code-IsWord error_status = omega arith

module _ {S : Type 0} (ops : LinkOps S) (now : ℕ) where
  abbrev heads : Point S → List ℕ
  heads p = code (status now p.diag) ∷ min p.diag.consecutive_fail 0xffff ∷ []

  -- The three writes at the end of a poll, one after the other.
  abbrev stored : List ℕ → Point S → Memory → Memory
  stored vs p m =
      (write now (p.base + 8) (p.diag.counter ∷ [])
        (write now p.base (heads p) (write now (p.base + 2) vs m).1).1).1

  heads-IsWord : (p : Point S) → All IsWord (heads p)
  heads-IsWord p = (code-IsWord (status now p.diag), (omega arith, tt))

  length-stored :
      (vs : List ℕ) (p : Point S) (m : Memory) → length (stored vs p m).words ≡ length m.words
  length-stored vs p m =
      length-write now (p.base + 8) (p.diag.counter ∷ [])
        (write now p.base (heads p) (write now (p.base + 2) vs m).1).1
      ∙ length-write now p.base (heads p) (write now (p.base + 2) vs m).1
      ∙ length-write now (p.base + 2) vs m

  stored_word :
      (vs : List ℕ) (p : Point S) (m : Memory) (i : ℕ)
      → p.base + 9 ≤ length m.words
      → length vs ≤ 6
      → All IsWord vs
      → IsWord p.diag.counter
      → get_elem? (stored vs p m).words i ≡ (
          if leb (p.base + 8) i && ltb i (p.base + 9)
          then get_elem? (p.diag.counter ∷ []) (i - (p.base + 8))
          else if leb p.base i && ltb i (p.base + 2)
          then get_elem? (heads p) (i - p.base)
          else if leb (p.base + 2) i && ltb i (p.base + 2 + length vs)
          then get_elem? vs (i - (p.base + 2))
          else get_elem? m.words i)
  stored_word vs p m i fits short words counter =
      let m₁ : Memory = (write now (p.base + 2) vs m).1 in
      let m₂ : Memory = (write now p.base (heads p) m₁).1 in
      let n₁ : length m₁.words ≡ length m.words = length-write now (p.base + 2) vs m in
      let n₂ : length m₂.words ≡ length m₁.words = length-write now p.base (heads p) m₁ in
      let w₁ = word-write now (p.base + 2) i vs m (omega arith) words in
      let w₂ = word-write now p.base i (heads p) m₁ (omega arith) (heads-IsWord p) in
      let w₃ = word-write now (p.base + 8) i (p.diag.counter ∷ []) m₂ (omega arith) (counter, tt) in
      ground arith

  -- The three writes of a block that fits succeed.
  store_values-stored :
      (vs : List ℕ) (p : Point S) (m : Memory)
      → p.base + 9 ≤ length m.words
      → length vs ≤ 6
      → store_values ops now vs p m ≡ (ok tt, stored vs p m)
  unfolding store_values write_status
  store_values-stored vs p m fits short =
      let m₁ : Memory = (write now (p.base + 2) vs m).1 in
      let m₂ : Memory = (write now p.base (heads p) m₁).1 in
      let n₁ : length m₁.words ≡ length m.words = length-write now (p.base + 2) vs m in
      let n₂ : length m₂.words ≡ length m₁.words = length-write now p.base (heads p) m₁ in
      let o₁ = (word_at-write now (p.base + 2) 0 vs m (omega arith)).0 in
      let o₂ = (word_at-write now p.base 0 (heads p) m₁ (omega arith)).0 in
      let o₃ = (word_at-write now (p.base + 8) 0 (p.diag.counter ∷ []) m₂ (omega arith)).0 in
      rw (store_values, o₁, write_status, o₂) (λ i. (o₃ i, stored vs p m))

  -- A stored block leaves a D area of the same size.
  pub store_values-IsMemory :
      (vs : List ℕ) (p : Point S) (m : Memory)
      → p.base + 9 ≤ length m.words
      → length vs ≤ 6
      → IsMemory m
      → IsMemory (store_values ops now vs p m).1
        × (length (store_values ops now vs p m).1.words ≡ length m.words)
  store_values-IsMemory vs p m fits short valid =
      let m₁ : Memory = (write now (p.base + 2) vs m).1 in
      let m₂ : Memory = (write now p.base (heads p) m₁).1 in
      let kept : IsMemory m₂ =
        write-IsMemory now p.base (heads p) m₁ (write-IsMemory now (p.base + 2) vs m valid) in
      rw (store_values-stored vs p m fits short)
        (write-IsMemory now (p.base + 8) (p.diag.counter ∷ []) m₂ kept, length-stored vs p m)

  -- What is read from a stored block is laid out as the reader expects it.
  stored-HoldsBlock :
      (fl : Floats) (vs : List ℕ) (p : Point S) (m : Memory) (mem : Dict ℕ ℕ)
      → p.base + 9 ≤ length m.words
      → length vs ≤ 6
      → All IsWord vs
      → IsWord p.diag.counter
      → ((i : ℕ) → p.base ≤ i → i < p.base + 9 → get i mem ≡ get_elem? (stored vs p m).words i)
      → HoldsBlock fl p.base
          (code (status now p.diag))
          (min p.diag.consecutive_fail 0xffff)
          vs
          p.diag.counter
          mem
  stored-HoldsBlock fl vs p m mem fits short words counter agrees =
      let at = λ (i : ℕ). stored_word vs p m i fits short words counter in
      let e₀ : p.base - p.base ≡ 0 = omega arith in
      let e₁ : p.base + 1 - p.base ≡ 1 = omega arith in
      let e₈ : p.base + 8 - (p.base + 8) ≡ 0 = omega arith in
      let shift = λ (i : ℕ). get_elem?-shift (p.base + 2) i vs in
      (
        agrees p.base (omega arith) (omega arith)
            ∙ ground (arith, at p.base, ap (get_elem? (heads p)) e₀),
        agrees (p.base + 1) (omega arith) (omega arith)
            ∙ ground (arith, at (p.base + 1), ap (get_elem? (heads p)) e₁),
        agrees-Holds (p.base + 2) vs mem (λ i k.
            agrees (p.base + 2 + i) (omega arith) (omega arith)
            ∙ ground (arith, k, at (p.base + 2 + i), shift i)),
        agrees (p.base + 8) (omega arith) (omega arith)
            ∙ ground (arith, at (p.base + 8), ap (get_elem? (p.diag.counter ∷ [])) e₈),
      )

module _ (fl : Floats) {S T : Type 0} (ops : LinkOps S)
    (read : ℕ → ℕ → T → Result ReadResult × T) where
  open fl use {Float}

  -- The scanner ends a poll of a device: it stores the words of the device's items, six at most, in
  -- a block that lies in the D area. The store succeeds. When the reader of that PLC then reads its
  -- ranges, which have the words of the block and lie in the D area, over a link that delivers the D
  -- area's words in reads of 1 to 125, with blocks of 1 to 125 words, and the counter is not the one it has seen, it emits one sample. In this sample each
  -- item has the value that its own registers on the device stand for, and the reader has noted the
  -- status that the scanner gave the device.
  pub scanned_block-sample :
      (plc : String) (e : Equip fl) (ss : List Slot) (regs : ℕ → List ℕ) (p : Point S) (m : Memory)
      (r : Reader fl T) (now later wall : ℕ) (st : Device fl) (got : Dict String Float)
      → SlotsOf fl e.items ss
      → All (InRegisters regs) ss
      → All IsWord (values_of regs ss)
      → length (values_of regs ss) ≤ 6
      → IsWord p.diag.counter
      → p.base + 9 ≤ length m.words
      → ((i : ℕ) → p.base ≤ i → i < p.base + 9 → wanted i r.layout ≡ true)
      → 1 ≤ r.layout.block_words
      → r.layout.block_words ≤ 125
      → All (Fits (length m.words)) (ranges r.layout)
      → Delivers read (store_values ops now (values_of regs ss) p m).1.words
      → is_old fl p.diag.counter st.counter ≡ false
      → device_values fl regs e.items ss [] ≡ ok got
      → ((store_values ops now (values_of regs ss) p m).0 ≡ ok tt)
        × (mem : Dict ℕ ℕ) × ((read_ranges fl read later (ranges r.layout) [] r).0 ≡ ok mem)
        × (tags : Dict String String) × (update_device fl plc e p.base mem later wall st ≡ (
          ok (record { equip = e; collect_dt = wall; values = got; tag_addrs = tags } ∷ []),
          record {
            counter = some p.diag.counter;
            changed = later;
            plc_status = code (status now p.diag);
            fails = min p.diag.consecutive_fail 0xffff;
            values = got;
          },
        ))
  scanned_block-sample plc e ss regs p m r now later wall st got slots regs_fit words short counter
        fits block some_words few in_area delivers new decoded =
      let vs : List ℕ = values_of regs ss in
      let done = store_values-stored ops now vs p m fits short in
      let after : Memory = stored ops now vs p m in
      let size : length after.words ≡ length m.words = length-stored ops now vs p m in
      let served : Delivers read after.words = rw done at delivers in
      let area : All (Fits (length after.words)) (ranges r.layout) = rw size in_area in
      let (mem, reads, words_of_area) =
        read_ranges-wanted fl read later after.words r served some_words few area in
      let holds =
        stored-HoldsBlock ops now fl vs p m mem fits short words counter
          (λ i h k. words_of_area i ∙ rw (block i h k) refl) in
      let (tags, updated) =
        update_device-values fl plc e ss regs p.base (code (status now p.diag))
          (min p.diag.consecutive_fail 0xffff) p.diag.counter later wall mem st got slots regs_fit
          holds new decoded in
      (ap (λ t. t.0) done, mem, reads, tags, updated)
