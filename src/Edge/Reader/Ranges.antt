-- ===== src/Edge/Reader/Ranges.antt =====
-- The reads of `_ranges` of src/twin/edge/collectors.py: what they cover, and how long they are.
use data_gateway.Base.{
  ℕ, ◌+◌, ◌-◌, ◌≤◌, max, String, ◌≡◌, refl, ap, ◌∙◌, inl, inr, Bool, true, false, ◌&&◌, ◌||◌, List,
  [], ◌∷◌, ◌++◌, map, arith, ltb, leb, Bool-cases, All, All-append,
}
use data_gateway.Base.Spans.{
  insert_span, sort_spans, Proper, FromOn, Ordered, sort_spans-All, sort_spans-Ordered,
}
use data_gateway.Edge.Reader.{merge_from, merge_spans, Layout, block_spans, ranges}

-- Whether one of the reads, given by the first address and the number of words, has the address.
abbrev pub covers : ℕ → List (ℕ × ℕ) → Bool
covers i [] = false
covers i ((a, n) ∷ rest) = (leb a i && ltb i (a + n)) || covers i rest

-- The same, of spans from a first address to the one after the last.
abbrev in_spans : ℕ → List (ℕ × ℕ) → Bool
in_spans i [] = false
in_spans i ((a, b) ∷ rest) = (leb a i && ltb i b) || in_spans i rest

in_spans-insert_span :
    (i : ℕ) (s : ℕ × ℕ) (ss : List (ℕ × ℕ)) → in_spans i (insert_span s ss) ≡ in_spans i (s ∷ ss)
unfolding insert_span
in_spans-insert_span i (a, b) [] = refl
in_spans-insert_span i (a, b) ((c, d) ∷ ts) = ground (arith, in_spans-insert_span i (a, b) ts)

in_spans-sort_spans : (i : ℕ) (ss : List (ℕ × ℕ)) → in_spans i (sort_spans ss) ≡ in_spans i ss
unfolding sort_spans
in_spans-sort_spans i [] = refl
in_spans-sort_spans i ((a, b) ∷ ss) =
    in_spans-insert_span i (a, b) (sort_spans ss)
    ∙ ap (λ t. (leb a i && ltb i b) || t) (in_spans-sort_spans i ss)

in_spans-append :
    (i : ℕ) (ss ts : List (ℕ × ℕ)) → in_spans i (ss ++ ts) ≡ (in_spans i ss || in_spans i ts)
in_spans-append i [] ts = refl
in_spans-append i ((a, b) ∷ ss) ts = ground (arith, in_spans-append i ss ts)

in_spans-merge_from :
    (i lo hi : ℕ) (ss : List (ℕ × ℕ))
    → All (FromOn lo) ss
    → Ordered ss
    → in_spans i (merge_from lo hi ss) ≡ in_spans i ((lo, hi) ∷ ss)
unfolding merge_from
in_spans-merge_from i lo hi [] h k = refl
in_spans-merge_from i lo hi ((a, b) ∷ ss) (h, hs) (p, from, rest) =
    ground (
      arith,
      in_spans-merge_from i lo (max hi b) ss hs rest,
      in_spans-merge_from i a b ss from rest,
    )

in_spans-merge_spans :
    (i : ℕ) (ss : List (ℕ × ℕ)) → Ordered ss → in_spans i (merge_spans ss) ≡ in_spans i ss
unfolding merge_spans
in_spans-merge_spans i [] h = refl
in_spans-merge_spans i ((a, b) ∷ ss) (p, from, rest) = in_spans-merge_from i a b ss from rest

-- A read of `n` words from `a` on has the addresses of the span.
covers-counts :
    (i : ℕ) (ss : List (ℕ × ℕ))
    → covers i (map (λ (r : ℕ × ℕ). (r.0, r.1 - r.0)) ss) ≡ in_spans i ss
covers-counts i [] = refl
covers-counts i ((a, b) ∷ ss) = ground (arith, covers-counts i ss)

block_spans-Proper : (y : Layout) → All Proper (block_spans y)
block_spans-Proper y = go y.blocks
  where
    go :
        (bs : List (String × ℕ))
        → All Proper (map (λ (b : String × ℕ). (b.1, b.1 + y.block_words)) bs)
    go [] = tt
    go (b ∷ bs) = (omega arith, go bs)

-- Whether an address lies in the block of a device, or in the diagnosis words.
abbrev pub wanted : ℕ → Layout → Bool
wanted i y =
    covers i (map (λ (b : String × ℕ). (b.1, y.block_words)) y.blocks)
    || (leb y.diag_base i && ltb i (y.diag_base + 6))

covers-blocks :
    (i w : ℕ) (bs : List (String × ℕ))
    → covers i (map (λ (b : String × ℕ). (b.1, w)) bs)
      ≡ in_spans i (map (λ (b : String × ℕ). (b.1, b.1 + w)) bs)
covers-blocks i w [] = refl
covers-blocks i w ((c, a) ∷ bs) = ground (arith, covers-blocks i w bs)

-- The reads of a poll have an address exactly if it lies in the block of a device of this PLC or in
-- the diagnosis words: merging spans loses no word and adds none.
pub covers-ranges : (i : ℕ) (y : Layout) → covers i (ranges y) ≡ wanted i y
unfolding ranges
covers-ranges i y =
    let ss : List (ℕ × ℕ) = sort_spans (block_spans y) ++ ((y.diag_base, y.diag_base + 6) ∷ []) in
    let proper : All Proper ss =
      All-append Proper (sort_spans (block_spans y)) ((y.diag_base, y.diag_base + 6) ∷ [])
        (sort_spans-All Proper (block_spans y) (block_spans-Proper y)) (omega arith, tt) in
    covers-counts i (merge_spans (sort_spans ss))
    ∙ in_spans-merge_spans i (sort_spans ss) (sort_spans-Ordered ss proper)
    ∙ in_spans-sort_spans i ss
    ∙ in_spans-append i (sort_spans (block_spans y)) ((y.diag_base, y.diag_base + 6) ∷ [])
    ∙ ground (arith, in_spans-sort_spans i (block_spans y), covers-blocks i y.block_words y.blocks)

-- Lengths.
abbrev Within : ℕ → ℕ × ℕ → Type 0
Within n s = s.1 ≤ s.0 + n

merge_from-Within :
    (lo hi : ℕ) (ss : List (ℕ × ℕ))
    → hi ≤ lo + 125
    → All (FromOn lo) ss
    → Ordered ss
    → All (Within 125) ss
    → All (Within 125) (merge_from lo hi ss)
unfolding merge_from
merge_from-Within lo hi [] h f o k = (h, tt)
merge_from-Within lo hi ((a, b) ∷ ss) h (f, fs) (p, from, rest) (k, ks) =
    elim (Bool-cases (leb a hi && leb (b - lo) 125)) [
      | inl joins ↦ rw joins (merge_from-Within lo (max hi b) ss (bounded joins) fs rest ks)
      | inr apart ↦ rw apart (h, merge_from-Within a b ss k from rest ks)
    ]
  where
    bounded : (leb a hi && leb (b - lo) 125) ≡ true → max hi b ≤ lo + 125
    bounded e = ground arith

block_spans-Within : (y : Layout) → y.block_words ≤ 125 → All (Within 125) (block_spans y)
block_spans-Within y h = go y.blocks
  where
    go :
        (bs : List (String × ℕ))
        → All (Within 125) (map (λ (b : String × ℕ). (b.1, b.1 + y.block_words)) bs)
    go [] = tt
    go (b ∷ bs) = (omega (arith, h), go bs)

abbrev pub IsShort : ℕ × ℕ → Type 0
IsShort r = r.1 ≤ 125

counts-IsShort :
    (ss : List (ℕ × ℕ))
    → All (Within 125) ss
    → All IsShort (map (λ (r : ℕ × ℕ). (r.0, r.1 - r.0)) ss)
counts-IsShort [] h = tt
counts-IsShort (s ∷ ss) (h, hs) = (omega (arith, h), counts-IsShort ss hs)

merge_spans-Within :
    (ss : List (ℕ × ℕ)) → Ordered ss → All (Within 125) ss → All (Within 125) (merge_spans ss)
unfolding merge_spans
merge_spans-Within [] o h = tt
merge_spans-Within ((a, b) ∷ ss) (p, from, rest) (h, hs) = merge_from-Within a b ss h from rest hs

-- If a block has 125 words at most, no read of a poll asks for more than 125 words, the number that a
-- Modbus read may have.
pub ranges-IsShort : (y : Layout) → y.block_words ≤ 125 → All IsShort (ranges y)
unfolding ranges
ranges-IsShort y h =
    let diag : List (ℕ × ℕ) = (y.diag_base, y.diag_base + 6) ∷ [] in
    let ss : List (ℕ × ℕ) = sort_spans (block_spans y) ++ diag in
    let proper : All Proper ss =
      All-append Proper (sort_spans (block_spans y)) diag
        (sort_spans-All Proper (block_spans y) (block_spans-Proper y)) (omega arith, tt) in
    let within : All (Within 125) ss =
      All-append (Within 125) (sort_spans (block_spans y)) diag
        (sort_spans-All (Within 125) (block_spans y) (block_spans-Within y h)) (omega arith, tt) in
    counts-IsShort (merge_spans (sort_spans ss)) (
      merge_spans-Within (sort_spans ss) (sort_spans-Ordered ss proper)
        (sort_spans-All (Within 125) ss within))
