-- ===== src/Plc/Memory/Laws.antt =====
-- Reading what was written, and what a write leaves alone.
use data_gateway.Base.{
  ℕ, zero, suc, ◌+◌, ◌-◌, ◌≤◌, ◌<◌, bit_and, ◌≡◌, refl, ◌≢◌, ◌&&◌, none, some, List, [], ◌∷◌, arith,
  ltb, leb, ◌==◌, if◌then◌else◌, length, get_elem?, set, All, length-set, get_elem?-set_self,
  get_elem?-set_ne,
}
use data_gateway.Base.Bits.{bit_and_ffff, IsWord}
use mathlib.Core.Option
use data_gateway.Modbus.Outcome.{ok}
use data_gateway.Plc.Memory.{Memory, write_word, write}

pub record IsMemory (m : Memory) : Type 0 where
  pub words : All IsWord m.words

set-IsWord : (ws : List ℕ) (i v : ℕ) → IsWord v → All IsWord ws → All IsWord (set ws i v)
set-IsWord [] i v hv h = tt
set-IsWord (w ∷ ws) zero v hv h = (hv, h.1)
set-IsWord (w ∷ ws) (suc i) v hv h = (h.0, set-IsWord ws i v hv h.1)

write_word-IsMemory :
    (now addr v : ℕ) (m : Memory) → IsWord v → IsMemory m → IsMemory (write_word now addr v m)
unfolding write_word
write_word-IsMemory now addr v m hv h = ground (arith, set-IsWord m.words addr v hv h.words)

-- Whatever is written, also by a call that fails half way, every word keeps its sixteen bits.
pub write-IsMemory :
    (now addr : ℕ) (vs : List ℕ) (m : Memory) → IsMemory m → IsMemory (write now addr vs m).1
unfolding write
write-IsMemory now addr [] m h = h
write-IsMemory now addr (v ∷ vs) m h = ground (
  arith,
  write-IsMemory now (addr + 1) vs (write_word now addr (bit_and v 0xffff) m)
      (write_word-IsMemory now addr (bit_and v 0xffff) m (omega (arith, bit_and_ffff v)) h),
)

length-write_word :
    (now addr v : ℕ) (m : Memory) → length (write_word now addr v m).words ≡ length m.words
unfolding write_word
length-write_word now addr v m = ground (arith, length-set m.words addr v)

pub length-write :
    (now addr : ℕ) (vs : List ℕ) (m : Memory)
    → length (write now addr vs m).1.words ≡ length m.words
unfolding write
length-write now addr [] m = refl
length-write now addr (v ∷ vs) m = ground (
  arith,
  length-write now (addr + 1) vs (write_word now addr (bit_and v 0xffff) m),
  length-write_word now addr (bit_and v 0xffff) m,
)

get_elem?-lt {ℓ} : {A : Type ℓ} (xs : List A) (i : ℕ) → i < length xs → get_elem? xs i ≢ none
get_elem?-lt [] i h e = absurd (omega arith)
get_elem?-lt (x ∷ xs) zero h e = cc
get_elem?-lt (x ∷ xs) (suc i) h e = get_elem?-lt xs i (omega arith) e

word_at-write_word :
    (now addr v i : ℕ) (m : Memory)
    → addr < length m.words
    → get_elem? (write_word now addr v m).words i
      ≡ (if addr == i then some v else get_elem? m.words i)
unfolding write_word
word_at-write_word now addr v i m h = ground (
  arith,
  get_elem?-set_self m.words addr v h,
  get_elem?-lt m.words addr h,
  get_elem?-set_ne m.words addr i v,
)

-- A write that fits succeeds; each word of its range then holds the low sixteen bits of its value,
-- and every other word is what it was.
pub word_at-write :
    (now addr i : ℕ) (vs : List ℕ) (m : Memory)
    → addr + length vs ≤ length m.words
    → ((write now addr vs m).0 ≡ ok tt)
      × (get_elem? (write now addr vs m).1.words i ≡ (
          if leb addr i && ltb i (addr + length vs)
          then Option.map (λ v. bit_and v 0xffff) (get_elem? vs (i - addr))
          else get_elem? m.words i))
unfolding write
word_at-write now addr i [] m h = ground arith
word_at-write now addr i (v ∷ vs) m h =
    let v' = bit_and v 0xffff in
    let m' = write_word now addr v' m in
    ground (
      arith,
      get_elem?-lt m.words addr (omega arith),
      length-write_word now addr v' m,
      word_at-write now (addr + 1) i vs m',
      word_at-write_word now addr v' i m,
      shifted i addr v vs,
    )
  where
    shifted :
        (i addr v : ℕ) (vs : List ℕ)
        → addr < i
        → get_elem? (v ∷ vs) (i - addr) ≡ get_elem? vs (i - (addr + 1))
    shifted i addr v vs k = rw (pred_step i addr k)
      where
        pred_step : (i addr : ℕ) → addr < i → i - addr ≡ suc (i - (addr + 1))
        pred_step i addr k = omega arith
