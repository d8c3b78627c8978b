-- ===== src/Plc/Scanner/Packs.antt =====
-- What the scanner of src/twin/plc/runtime.py reads in groups is what each item has on the device.
use data_gateway.Base.{
  ℕ, zero, suc, ◌+◌, ◌-◌, ◌≤◌, min, max, ◌≡◌, refl, sym, ap, ◌∙◌, ◌≢◌, inl, inr, false, some, List,
  [], ◌∷◌, ◌++◌, arith, ◌==◌, if◌then◌else◌, ==_iff, Bool-cases, Option-cases, take, drop, All,
}
use data_gateway.Base.Dict.{Dict, get, put, get-put_self, get-put_ne}
use data_gateway.Base.Key.{ℕ_key}
use data_gateway.Config.{fc_of}
use data_gateway.Modbus.Outcome.{ok}
use data_gateway.Modbus.Value.{words_of}
use data_gateway.Plc.Scanner.Extent.{extent, get-groups_of}
use data_gateway.Plc.Scanner.{
  Slot, slot_lo, slot_hi, widen, groups_of, insert_group, sort_groups, read_groups, pack_values,
}

-- The group of the function code reaches from `lo` to `hi` or further.
abbrev pub Reaches : ℕ → ℕ → ℕ → Dict ℕ (ℕ × ℕ) → Type 0
Reaches fc lo hi groups = (a : ℕ) × (b : ℕ) × (get fc groups ≡ some (a, b)) × (a ≤ lo) × (hi ≤ b)

widen_self :
    (s : Slot) (groups : Dict ℕ (ℕ × ℕ))
    → Reaches (fc_of s.reg) (slot_lo s) (slot_hi s) (widen s groups)
unfolding widen
widen_self s groups = elim (Option-cases (get (fc_of s.reg) groups)) [
  | inl first ↦
      rw (first, widen)
        (
          slot_lo s,
          slot_hi s,
          get-put_self (fc_of s.reg) (slot_lo s, slot_hi s) groups,
          omega arith,
          omega arith,
        )
  | inr ((a, b), there) ↦
      let r : ℕ × ℕ = (min a (slot_lo s), max b (slot_hi s)) in
      rw (there, widen) (r.0, r.1, get-put_self (fc_of s.reg) r groups, omega arith, omega arith)
]

widen_keeps :
    (s : Slot) (fc lo hi : ℕ) (groups : Dict ℕ (ℕ × ℕ))
    → Reaches fc lo hi groups
    → Reaches fc lo hi (widen s groups)
unfolding widen
widen_keeps s fc lo hi groups (a, b, e, h, k) = elim (Bool-cases (fc_of s.reg == fc)) [
  | inl same ↦
      let f : fc_of s.reg ≡ fc = (==_iff (fc_of s.reg) fc).0 same in
      let there : get (fc_of s.reg) groups ≡ some (a, b) = ap (λ t. get t groups) f ∙ e in
      let r : ℕ × ℕ = (min a (slot_lo s), max b (slot_hi s)) in
      let now_there : get fc (put (fc_of s.reg) r groups) ≡ some r =
        ap (λ t. get t (put (fc_of s.reg) r groups)) (sym f)
        ∙ get-put_self (fc_of s.reg) r groups in
      rw (there, widen) (r.0, r.1, now_there, omega (arith, h), omega (arith, k))
  | inr other ↦ elim (Option-cases (get (fc_of s.reg) groups)) [
    | inl first ↦
        rw (first, widen) (a, b, get-put_ne (fc_of s.reg) fc _ groups (ne other) ∙ e, h, k)
    | inr ((c, d), there) ↦
        rw (there, widen) (a, b, get-put_ne (fc_of s.reg) fc _ groups (ne other) ∙ e, h, k)
  ]
]
  where
    ne : (fc_of s.reg == fc) ≡ false → fc_of s.reg ≢ fc
    ne other p = absurd (ground arith)

groups_of-keeps :
    (ss : List Slot) (fc lo hi : ℕ) (groups : Dict ℕ (ℕ × ℕ))
    → Reaches fc lo hi groups
    → Reaches fc lo hi (groups_of ss groups)
unfolding groups_of
groups_of-keeps [] fc lo hi groups h = h
groups_of-keeps (s ∷ ss) fc lo hi groups h =
    groups_of-keeps ss fc lo hi (widen s groups) (widen_keeps s fc lo hi groups h)

abbrev Grouped : Dict ℕ (ℕ × ℕ) → Slot → Type 0
Grouped groups s = Reaches (fc_of s.reg) (slot_lo s) (slot_hi s) groups

groups_of-Grouped :
    (ss : List Slot) (groups : Dict ℕ (ℕ × ℕ)) → All (Grouped (groups_of ss groups)) ss
unfolding groups_of
groups_of-Grouped [] groups = tt
groups_of-Grouped (s ∷ ss) groups = (
  groups_of-keeps ss (fc_of s.reg) (slot_lo s) (slot_hi s) (widen s groups) (widen_self s groups),
  groups_of-Grouped ss (widen s groups),
)

-- Sorting changes no entry.
get-insert_group :
    (f fc : ℕ) (r : ℕ × ℕ) (d : Dict ℕ (ℕ × ℕ))
    → get fc (insert_group (f, r) d) ≡ (if f == fc then some r else get fc d)
unfolding insert_group get
get-insert_group f fc r [] = refl
get-insert_group f fc r ((g, q) ∷ rest) = ground (arith, get-insert_group f fc r rest)

get-sort_groups : (fc : ℕ) (d : Dict ℕ (ℕ × ℕ)) → get fc (sort_groups d) ≡ get fc d
unfolding sort_groups get
get-sort_groups fc [] = refl
get-sort_groups fc ((f, r) ∷ d) =
    ground (arith, get-insert_group f fc r (sort_groups d), get-sort_groups fc d)

-- Parts of lists.
pub drop-take :
    {A : Type 0} (k n m : ℕ) (xs : List A) → m ≡ k + n → drop k (take m xs) ≡ take n (drop k xs)
drop-take zero n m xs e = let same : m ≡ n = omega arith in ap (λ t. take t xs) same
drop-take (suc k) n zero xs e = absurd (omega arith)
drop-take (suc k) zero (suc m) [] e = refl
drop-take (suc k) (suc n) (suc m) [] e = refl
drop-take (suc k) n (suc m) (x ∷ xs) e = drop-take k n m xs (omega arith)

pub take-take : {A : Type 0} (k n : ℕ) (xs : List A) → k ≤ n → take k (take n xs) ≡ take k xs
take-take zero n xs h = refl
take-take (suc k) zero xs h = absurd (omega arith)
take-take (suc k) (suc n) [] h = refl
take-take (suc k) (suc n) (x ∷ xs) h = ap (λ t. x ∷ t) (take-take k n xs (omega arith))

pub drop-drop : {A : Type 0} (k a m : ℕ) (xs : List A) → m ≡ a + k → drop k (drop a xs) ≡ drop m xs
drop-drop k zero m xs e = let same : k ≡ m = omega arith in ap (λ t. drop t xs) same
drop-drop k (suc a) zero xs e = absurd (omega arith)
drop-drop zero (suc a) (suc m) [] e = refl
drop-drop (suc k) (suc a) (suc m) [] e = refl
drop-drop k (suc a) (suc m) (x ∷ xs) e = drop-drop k a m xs (omega arith)

part_of_part :
    {A : Type 0} (a b lo w : ℕ) (xs : List A)
    → a ≤ lo
    → lo + w ≤ b
    → take w (drop (lo - a) (take (b - a) (drop a xs))) ≡ take w (drop lo xs)
part_of_part a b lo w xs h k =
    ap (take w) (drop-take (lo - a) (b - lo) (b - a) (drop a xs) (omega arith))
    ∙ take-take w (b - lo) (drop (lo - a) (drop a xs)) (omega arith)
    ∙ ap (take w) (drop-drop (lo - a) a lo xs (omega arith))

-- What a device answers to the reads of the groups, by function code, if these are its registers.
abbrev pub reads_of : (ℕ → List ℕ) → Dict ℕ (ℕ × ℕ) → Dict ℕ (ℕ × List ℕ)
reads_of regs [] = []
reads_of regs ((fc, (a, b)) ∷ rest) =
    (fc, (a, take (b - a) (drop a (regs fc)))) ∷ reads_of regs rest

get-reads_of :
    (regs : ℕ → List ℕ) (fc a b : ℕ) (groups : Dict ℕ (ℕ × ℕ))
    → get fc groups ≡ some (a, b)
    → get fc (reads_of regs groups) ≡ some (a, take (b - a) (drop a (regs fc)))
unfolding get
get-reads_of regs fc a b [] h = absurd (cc)
get-reads_of regs fc a b ((f, (c, d)) ∷ rest) h = elim (Bool-cases (f == fc)) [
  | inl found ↦
      let same : ◌≡◌ {A = ℕ × ℕ} (c, d) (a, b) = cc (rw found at h) in
      let part = λ (r : ℕ × ℕ). take (r.1 - r.0) (drop r.0 (regs f)) in
      rw found (
        ap (λ (r : ℕ × ℕ). some (r.0, part r)) same
        ∙ ap (λ t. some (a, take (b - a) (drop a (regs t)))) ((==_iff f fc).0 found))
  | inr there ↦ rw there (get-reads_of regs fc a b rest (rw there at h))
]

-- The words of each item at its own address, in the order of the items.
abbrev pub values_of : (ℕ → List ℕ) → List Slot → List ℕ
values_of regs [] = []
values_of regs (s ∷ ss) =
    take (words_of s.type) (drop (slot_lo s) (regs (fc_of s.reg))) ++ values_of regs ss

pack-Grouped :
    (regs : ℕ → List ℕ) (groups : Dict ℕ (ℕ × ℕ)) (ss : List Slot)
    → All (Grouped groups) ss
    → pack_values ss (reads_of regs groups) ≡ ok (values_of regs ss)
unfolding pack_values
pack-Grouped regs groups [] h = refl
pack-Grouped regs groups (s ∷ ss) ((a, b, e, lo, hi), rest) =
    rw
      (
        get-reads_of regs (fc_of s.reg) a b groups e,
        pack_values,
        pack-Grouped regs groups ss rest,
        part_of_part a b (slot_lo s) (words_of s.type) (regs (fc_of s.reg)) lo hi,
      )
      refl

-- The scanner reads the registers of each function code in one request, which reaches from the lowest
-- address that an item of it has to the highest and no further. Packed from a device's answers to these
-- requests, the block holds the words of every item at its own address, in the order of the items.
pub pack_values-read_groups :
    (regs : ℕ → List ℕ) (slots : List Slot) (fc : ℕ)
    → (get fc (read_groups slots) ≡ extent fc slots)
      × (pack_values slots (reads_of regs (read_groups slots)) ≡ ok (values_of regs slots))
unfolding read_groups get
pack_values-read_groups regs slots fc = (
  get-sort_groups fc (groups_of slots []) ∙ get-groups_of fc slots [],
  pack-Grouped regs (sort_groups (groups_of slots [])) slots
      (sorted slots (groups_of-Grouped slots [])),
)
  where
    sorted :
        (ss : List Slot)
        → All (Grouped (groups_of slots [])) ss
        → All (Grouped (sort_groups (groups_of slots []))) ss
    sorted [] h = tt
    sorted (s ∷ ss) ((a, b, e, lo, hi), rest) =
        ((a, b, get-sort_groups (fc_of s.reg) (groups_of slots []) ∙ e, lo, hi), sorted ss rest)
