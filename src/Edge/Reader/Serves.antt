-- ===== src/Edge/Reader/Serves.antt =====
-- The poll of src/twin/edge/collectors.py over a link that serves the words of a D area.
use data_gateway.Base.{
  ℕ, suc, ◌+◌, ◌-◌, ◌≤◌, ◌<◌, ◌≡◌, refl, sym, ap, ◌∙◌, true, ◌&&◌, none, some, List, [], ◌∷◌, arith,
  ltb, leb, if◌then◌else◌, length, get_elem?, take, drop, All, length-take, length-drop,
  get_elem?-take, get_elem?-drop,
}
use data_gateway.Base.Dict.{Dict, get, put, get-put}
use data_gateway.Base.Key.{ℕ_key, String_key}
use data_gateway.Base.Floats.{Floats}
use data_gateway.Modbus.Outcome.{Result, ok}
use data_gateway.Diag.{attempt}
use data_gateway.Plc.Link.{ReadResult}
use data_gateway.Edge.Reader.{keep_words, ranges}
use data_gateway.Edge.Reader.Ranges.{covers, wanted, covers-ranges}
use data_gateway.Edge.Reader.Sizes.{IsReadable, ranges-IsReadable}
use data_gateway.Edge.Reader.Poll.{Reader, read_ranges}

-- A read of 1 to 125 words, as many as a Modbus read may have, returns them if they are all there.
abbrev pub Delivers : {S : Type 0} → (ℕ → ℕ → S → Result ReadResult × S) → List ℕ → Type 0
Delivers {S} read words =
    (a n : ℕ) (l : S)
    → 1 ≤ n
    → n ≤ 125
    → a + n ≤ length words
    → (x : ReadResult) × ((read a n l).0 ≡ ok x) × (x.words ≡ take n (drop a words))

get-keep_words :
    (i a : ℕ) (ws : List ℕ) (mem : Dict ℕ ℕ)
    → get i (keep_words a ws mem)
      ≡ (if leb a i && ltb i (a + length ws) then get_elem? ws (i - a) else get i mem)
unfolding keep_words
get-keep_words i a [] mem = ground arith
get-keep_words i a (w ∷ ws) mem =
    ground (arith, get-keep_words i (a + 1) ws (put a w mem), get-put a i w mem, shifted)
  where
    shifted : a < i → get_elem? (w ∷ ws) (i - a) ≡ get_elem? ws (i - (a + 1))
    shifted h = let e : i - a ≡ suc (i - (a + 1)) = omega arith in ap (get_elem? (w ∷ ws)) e

part_at :
    (a n i : ℕ) (words : List ℕ)
    → a ≤ i
    → i < a + n
    → get_elem? (take n (drop a words)) (i - a) ≡ get_elem? words i
part_at a n i words h k =
    get_elem?-take n (i - a) (drop a words) (omega arith)
    ∙ get_elem?-drop a (i - a) words
    ∙ (let e : a + (i - a) ≡ i = omega arith in ap (get_elem? words) e)

-- One read leaves the words of its range.
get-keep_read :
    (i a n : ℕ) (words : List ℕ) (mem : Dict ℕ ℕ)
    → a + n ≤ length words
    → get i (keep_words a (take n (drop a words)) mem)
      ≡ (if leb a i && ltb i (a + n) then get_elem? words i else get i mem)
get-keep_read i a n words mem h =
    let size : length (take n (drop a words)) ≡ n =
      omega (arith, length-take n (drop a words), length-drop a words) in
    get-keep_words i a (take n (drop a words)) mem ∙ rw size (ground (arith, part_at a n i words))

abbrev pub Fits : ℕ → ℕ × ℕ → Type 0
Fits n r = r.0 + r.1 ≤ n

module _ (fl : Floats) {S : Type 0} (read : ℕ → ℕ → S → Result ReadResult × S) where
  -- What the loop over the reads ends in: the words of the reads, over what was there before.
  abbrev pub ReadsAll : List ℕ → List (ℕ × ℕ) → Dict ℕ ℕ → Result (Dict ℕ ℕ) × Reader fl S → Type 0
  ReadsAll words rs mem out =
      (mem' : Dict ℕ ℕ) × (out.0 ≡ ok mem')
      × ((i : ℕ) → get i mem' ≡ (if covers i rs then get_elem? words i else get i mem))

  read_ranges-all :
      (now : ℕ) (words : List ℕ) (rs : List (ℕ × ℕ)) (mem : Dict ℕ ℕ) (r : Reader fl S)
      → Delivers read words
      → All (Fits (length words)) rs
      → All IsReadable rs
      → ReadsAll words rs mem (read_ranges fl read now rs mem r)
  unfolding read_ranges
  read_ranges-all now words [] mem r d h k = (mem, refl, λ i. refl)
  read_ranges-all now words ((a, n) ∷ rs) mem r d (h, hs) (k, ks) =
      let (x, e, xw) = d a n r.link k.0 k.1 h in
      let r' : Reader fl S = record r {
        link = (read a n r.link).1;
        link_diag = attempt now true (some x.rtt) none r.link_diag;
      } in
      let (mem', f, g) = read_ranges-all now words rs (keep_words a x.words mem) r' d hs ks in
      (
        mem',
        rw (read_ranges, e) f,
        λ i. let one = rw (sym xw) at (get-keep_read i a n words mem h) in ground (arith, g i, one),
      )

module _ (fl : Floats) {S : Type 0} (read : ℕ → ℕ → S → Result ReadResult × S) where
  -- For blocks of 1 to 125 words, over a link that delivers the words of the D area, and with every read
  -- inside it, the loop over the reads ends without an error; then the reader has the word of each
  -- address of a block or of the diagnosis words as the D area has it, and no other.
  pub read_ranges-wanted :
      (now : ℕ) (words : List ℕ) (r : Reader fl S)
      → Delivers read words
      → 1 ≤ r.layout.block_words
      → r.layout.block_words ≤ 125
      → All (Fits (length words)) (ranges r.layout)
      → (mem : Dict ℕ ℕ) × ((read_ranges fl read now (ranges r.layout) [] r).0 ≡ ok mem)
        × ((i : ℕ) → get i mem ≡ (if wanted i r.layout then get_elem? words i else none))
  unfolding get
  read_ranges-wanted now words r d some_words few h =
      let (mem, e, g) =
        read_ranges-all fl read now words (ranges r.layout) [] r d h
          (ranges-IsReadable r.layout some_words few) in
      (mem, e, λ i. g i ∙ rw (covers-ranges i r.layout) refl)
