-- ===== src/Base/Spans.antt =====
-- Python's `sorted` on pairs of numbers, which the program uses for spans of addresses, from a first
-- address to the one after the last.
use Prim.Native.Nat.{ℕ, ◌≤◌}
use mathlib.Core.Path.{◌≡◌}
use mathlib.Core.Logic.{inl, inr}
use mathlib.Core.Bool.{Bool, true, false, ◌&&◌, ◌||◌}
use mathlib.Core.List.{List, [], ◌∷◌}
use native.Mathlib.Omega.{arith}
use data_gateway.Base.Tests.{ltb, leb, ◌==◌, if◌then◌else◌, Bool-cases}
use data_gateway.Base.Lists.{All}

-- The order of Python's pairs.
abbrev pub span_leb : ℕ × ℕ → ℕ × ℕ → Bool
span_leb (a, b) (c, d) = ltb a c || ((a == c) && leb b d)

unfoldable pub insert_span : ℕ × ℕ → List (ℕ × ℕ) → List (ℕ × ℕ)
insert_span s [] = s ∷ []
insert_span s (t ∷ ts) =
    let rest = insert_span s ts in if span_leb s t then s ∷ t ∷ ts else t ∷ rest

unfoldable pub sort_spans : List (ℕ × ℕ) → List (ℕ × ℕ)
unfolding insert_span
sort_spans [] = []
sort_spans (s ∷ ss) = insert_span s (sort_spans ss)

abbrev pub FromOn : ℕ → ℕ × ℕ → Type 0
FromOn lo s = lo ≤ s.0

-- In the order of the first addresses, with no span that ends before it starts.
abbrev pub Ordered : List (ℕ × ℕ) → Type 0
Ordered [] = Unit
Ordered (s ∷ ss) = (s.0 ≤ s.1) × All (FromOn s.0) ss × Ordered ss

abbrev pub Proper : ℕ × ℕ → Type 0
Proper s = s.0 ≤ s.1

from_earlier : (lo hi : ℕ) (ss : List (ℕ × ℕ)) → lo ≤ hi → All (FromOn hi) ss → All (FromOn lo) ss
from_earlier lo hi [] h k = tt
from_earlier lo hi (s ∷ ss) h (k, ks) = (omega (arith, h, k), from_earlier lo hi ss h ks)

pub insert_span-All :
    (P : ℕ × ℕ → Type 0) (s : ℕ × ℕ) (ss : List (ℕ × ℕ)) → P s → All P ss → All P (insert_span s ss)
unfolding insert_span
insert_span-All P s [] h k = (h, tt)
insert_span-All P s (t ∷ ts) h (k, ks) = elim (Bool-cases (span_leb s t)) [
  | inl first ↦ rw first (h, (k, ks))
  | inr later ↦ rw later (k, insert_span-All P s ts h ks)
]

pub sort_spans-All : (P : ℕ × ℕ → Type 0) (ss : List (ℕ × ℕ)) → All P ss → All P (sort_spans ss)
unfolding sort_spans
sort_spans-All P [] h = tt
sort_spans-All P (s ∷ ss) (h, hs) = insert_span-All P s (sort_spans ss) h (sort_spans-All P ss hs)

insert_span-Ordered :
    (s : ℕ × ℕ) (ss : List (ℕ × ℕ)) → s.0 ≤ s.1 → Ordered ss → Ordered (insert_span s ss)
unfolding insert_span
insert_span-Ordered s [] h k = (h, tt, tt)
insert_span-Ordered (a, b) ((c, d) ∷ ts) h (p, from, rest) =
    elim (Bool-cases (span_leb (a, b) (c, d))) [
      | inl first ↦ rw first (h, (le first, from_earlier a c ts (le first) from), (p, from, rest))
      | inr later ↦ rw later (
        p,
        insert_span-All (FromOn c) (a, b) ts (ge later) from,
        insert_span-Ordered (a, b) ts h rest,
      )
    ]
  where
    le : span_leb (a, b) (c, d) ≡ true → a ≤ c
    le e = ground arith

    ge : span_leb (a, b) (c, d) ≡ false → c ≤ a
    ge e = ground arith

pub sort_spans-Ordered : (ss : List (ℕ × ℕ)) → All Proper ss → Ordered (sort_spans ss)
unfolding sort_spans
sort_spans-Ordered [] h = tt
sort_spans-Ordered (s ∷ ss) (h, hs) =
    insert_span-Ordered s (sort_spans ss) h (sort_spans-Ordered ss hs)
