-- ===== src/Edge/Reader/Sizes.antt =====
-- The reads of `_ranges` of src/twin/edge/collectors.py against what a Modbus read may ask for.
use data_gateway.Base.{
  ℕ, ◌+◌, ◌-◌, ◌≤◌, ◌<◌, max, String, inl, inr, ◌&&◌, List, [], ◌∷◌, ◌++◌, map, arith, leb,
  Bool-cases, All, All-append,
}
use data_gateway.Base.Spans.{sort_spans, sort_spans-All}
use data_gateway.Edge.Reader.{merge_from, merge_spans, Layout, block_spans, ranges}
use data_gateway.Edge.Reader.Ranges.{ranges-IsShort}

-- What a server answers: one register at least, 125 at most.
abbrev pub IsReadable : ℕ × ℕ → Type 0
IsReadable r = (1 ≤ r.1) × (r.1 ≤ 125)

abbrev Filled : ℕ × ℕ → Type 0
Filled s = s.0 < s.1

merge_from-Filled :
    (lo hi : ℕ) (ss : List (ℕ × ℕ)) → lo < hi → All Filled ss → All Filled (merge_from lo hi ss)
unfolding merge_from
merge_from-Filled lo hi [] h hs = (h, tt)
merge_from-Filled lo hi ((a, b) ∷ ss) h (k, ks) = elim (Bool-cases (leb a hi && leb (b - lo) 125)) [
  | inl joins ↦ rw joins (merge_from-Filled lo (max hi b) ss (omega (arith, h)) ks)
  | inr apart ↦ rw apart (h, merge_from-Filled a b ss k ks)
]

merge_spans-Filled : (ss : List (ℕ × ℕ)) → All Filled ss → All Filled (merge_spans ss)
unfolding merge_spans
merge_spans-Filled [] h = tt
merge_spans-Filled ((a, b) ∷ ss) (h, hs) = merge_from-Filled a b ss h hs

block_spans-Filled : (y : Layout) → 1 ≤ y.block_words → All Filled (block_spans y)
block_spans-Filled y h = go y.blocks
  where
    go :
        (bs : List (String × ℕ))
        → All Filled (map (λ (b : String × ℕ). (b.1, b.1 + y.block_words)) bs)
    go [] = tt
    go (b ∷ bs) = (omega (arith, h), go bs)

counts-IsReadable :
    (ss : List (ℕ × ℕ))
    → All Filled ss
    → All (λ (r : ℕ × ℕ). r.1 ≤ 125) (map (λ (r : ℕ × ℕ). (r.0, r.1 - r.0)) ss)
    → All IsReadable (map (λ (r : ℕ × ℕ). (r.0, r.1 - r.0)) ss)
counts-IsReadable [] h k = tt
counts-IsReadable (s ∷ ss) (h, hs) (k, ks) = ((omega (arith, h), k), counts-IsReadable ss hs ks)

pub ranges-IsReadable :
    (y : Layout) → 1 ≤ y.block_words → y.block_words ≤ 125 → All IsReadable (ranges y)
unfolding ranges
ranges-IsReadable y some_words few =
    let diag : List (ℕ × ℕ) = (y.diag_base, y.diag_base + 6) ∷ [] in
    let ss : List (ℕ × ℕ) = sort_spans (block_spans y) ++ diag in
    let filled : All Filled ss =
      All-append Filled (sort_spans (block_spans y)) diag
        (sort_spans-All Filled (block_spans y) (block_spans-Filled y some_words))
        (omega arith, tt) in
    counts-IsReadable (merge_spans (sort_spans ss))
      (merge_spans-Filled (sort_spans ss) (sort_spans-All Filled ss filled)) (ranges-IsShort y few)
