-- ===== src/Plc/Memory.antt =====
-- `PlcMemory` of src/twin/plc/runtime.py. A time is a reading of the monotonic clock, in microseconds.
pub mod Laws
use data_gateway.Base.{
  ℕ, ◌+◌, bit_and, none, some, List, [], ◌∷◌, ◌==◌, if◌then◌else◌, get_elem?, take, drop, replicate,
  set,
}
use data_gateway.Modbus.Outcome.{Result, ok, err, index_error, ◌>>=◌}

abbrev pub mem_words : ℕ
mem_words = 2000

pub record Memory : Type 0 where
  pub words : List ℕ
  pub changed_at : List ℕ

abbrev pub blank : Memory
blank = record { words = replicate mem_words 0; changed_at = replicate mem_words 0 }

-- One round of the loop in `write`; the word is stored only if it differs.
unfoldable pub write_word : ℕ → ℕ → ℕ → Memory → Memory
write_word now addr v m = elim (get_elem? m.words addr) [
  | none ↦ m
  | some old ↦
      if old == v
      then m
      else record { words = set m.words addr v; changed_at = set m.changed_at addr now }
]

-- Past the end Python raises IndexError, and what was written before it stays written.
unfoldable pub write : ℕ → ℕ → List ℕ → Memory → Result (Unit {0}) × Memory
write now addr [] m = (ok tt, m)
write now addr (v ∷ vs) m =
    let rest = write now (addr + 1) vs (write_word now addr (bit_and v 0xffff) m) in
    elim (get_elem? m.words addr) [ none ↦ (err index_error, m) | some _ ↦ rest ]

-- `self.words[addr : addr + count]`
unfoldable pub read : ℕ → ℕ → Memory → List ℕ
read addr count m = take count (drop addr m.words)
