-- ===== src/Plc/Scanner.antt =====
-- `_read_groups`, `_pack_values` and `BusScanner.poll` of src/twin/plc/runtime.py. The link is an argument:
-- a state with what a read of it does, and the last frames. A slot is the part of an item that the
-- scanner uses, its register and its type.
pub mod Extent
pub mod Packs
use data_gateway.Base.{
  ℕ, zero, suc, ◌+◌, ◌-◌, min, max, String, true, false, Option, none, some, List, [], ◌∷◌, ◌++◌,
  leb, ◌==◌, if◌then◌else◌, length, take, drop,
}
use data_gateway.Base.Dict.{Dict, get, put}
use data_gateway.Base.Key.{ℕ_key}
use data_gateway.Modbus.Outcome.{
  Error, Result, ok, err, timeout_err, crc_err, frame_err, key_error, ◌>>=◌, kind,
}
use data_gateway.Modbus.Value.{ItemType, words_of}
use data_gateway.Config.{Register, fc_of, address_of}
use data_gateway.Diag.{Diag, raw, quoted, code, attempt, poll, add_frame, status}
use data_gateway.Plc.Memory.{Memory, write}
use data_gateway.Plc.Link.{ReadResult}

pub record Slot : Type 0 where
  pub reg : Register
  pub type : ItemType

-- The first address of a slot, and the one after its last.
abbrev pub slot_lo : Slot → ℕ
slot_lo s = address_of s.reg

abbrev pub slot_hi : Slot → ℕ
slot_hi s = address_of s.reg + words_of s.type

-- `groups[it.fc] = (min(a, lo), max(b, hi))`
unfoldable pub widen : Slot → Dict ℕ (ℕ × ℕ) → Dict ℕ (ℕ × ℕ)
widen s groups = elim (get (fc_of s.reg) groups) [
  | none ↦ put (fc_of s.reg) (slot_lo s, slot_hi s) groups
  | some (a, b) ↦ put (fc_of s.reg) (min a (slot_lo s), max b (slot_hi s)) groups
]

unfoldable pub groups_of : List Slot → Dict ℕ (ℕ × ℕ) → Dict ℕ (ℕ × ℕ)
unfolding widen
groups_of [] groups = groups
groups_of (s ∷ ss) groups = groups_of ss (widen s groups)

-- `sorted(groups.items())`; the function codes are distinct.
unfoldable pub insert_group : ℕ × (ℕ × ℕ) → Dict ℕ (ℕ × ℕ) → Dict ℕ (ℕ × ℕ)
insert_group g [] = g ∷ []
insert_group (f, r) ((g, q) ∷ rest) =
    if leb f g then (f, r) ∷ (g, q) ∷ rest else (g, q) ∷ insert_group (f, r) rest

unfoldable pub sort_groups : Dict ℕ (ℕ × ℕ) → Dict ℕ (ℕ × ℕ)
unfolding insert_group
sort_groups [] = []
sort_groups (g ∷ gs) = insert_group g (sort_groups gs)

-- `_read_groups`, with the first address and the one after the last in place of the count
unfoldable pub read_groups : List Slot → Dict ℕ (ℕ × ℕ)
unfolding groups_of sort_groups
read_groups slots = sort_groups (groups_of slots [])

-- `_pack_values`; a function code that has not been read is a KeyError.
unfoldable pub pack_values : List Slot → Dict ℕ (ℕ × List ℕ) → Result (List ℕ)
pack_values [] reads = ok []
pack_values (s ∷ ss) reads =
    let rest = pack_values ss reads in
    elim (get (fc_of s.reg) reads) [
      | none ↦ err key_error
      | some (start, words) ↦
          let off = slot_lo s - start in
          rest >>= λ out. ok (take (words_of s.type) (drop off words) ++ out)
    ]

pub record LinkOps (S : Type 0) : Type 0 where
  pub read : ℕ → ℕ → ℕ → ℕ → S → Result ReadResult × S
  pub last_tx : S → List ℕ
  pub last_rx : S → List ℕ

-- A device of the scan: where its block is, and what has been seen of it.
pub record Point (S : Type 0) : Type 0 where
  pub slots : List Slot
  pub base : ℕ
  pub unit : ℕ
  pub retries : ℕ
  pub link : S
  pub diag : Diag

-- `exc.kind.upper()` of the four kinds
abbrev pub kind_upper : Error → String
kind_upper timeout_err = "TIMEOUT"
kind_upper crc_err = "CRC"
kind_upper frame_err = "FRAME"
kind_upper _ = "EXCEPTION"

module _ {S : Type 0} (ops : LinkOps S) (now : ℕ) where
  -- One attempt after the other, `n` at most. The result is the read, none after `n` failures, or an
  -- exception that is no `ModbusError`.
  unfoldable pub try_read : ℕ → ℕ → ℕ → ℕ → Point S → Result (Option ReadResult) × Point S
  try_read zero fc addr count p = (ok none, p)
  try_read (suc n) fc addr count p =
      let (r, l) = ops.read p.unit fc addr count p.link in
      let good = λ (x : ReadResult). record p {
        link = l;
        diag =
            add_frame (raw x.tx) (raw x.rx) "OK" (some x.rtt)
              (attempt now true (some x.rtt) none p.diag);
      } in
      let shown = if length (ops.last_rx l) == 0 then quoted "(응답 없음)" else raw (ops.last_rx l) in
      let failed = λ (e : Error). record p {
        link = l;
        diag =
            add_frame (raw (ops.last_tx l)) shown (kind_upper e) none
              (attempt now false none (kind e) p.diag);
      } in
      elim r [
        | ok x ↦ (ok (some x), good x)
        | err e ↦ elim (kind e) [
          | none ↦ (err e, record p { link = l })
          | some _ ↦ try_read n fc addr count (failed e)
        ]
      ]

  -- The loop over the groups: the words read, by function code, or none where a group failed.
  unfoldable pub read_all :
      Dict ℕ (ℕ × ℕ)
      → Dict ℕ (ℕ × List ℕ)
      → Point S
      → Result (Option (Dict ℕ (ℕ × List ℕ))) × Point S
  unfolding try_read
  read_all [] reads p = (ok (some reads), p)
  read_all ((fc, (a, b)) ∷ rest) reads p =
      let (r, p') = try_read (1 + p.retries) fc a (b - a) p in
      elim r [
        | err e ↦ (err e, p')
        | ok none ↦ (ok none, p')
        | ok (some x) ↦ read_all rest (put fc (a, x.words) reads) p'
      ]

  -- `_write_status`
  unfoldable pub write_status : Point S → Memory → Result (Unit {0}) × Memory
  write_status p m =
      write now p.base (code (status now p.diag) ∷ min p.diag.consecutive_fail 0xffff ∷ []) m

  -- The end of a poll whose groups have all been read.
  unfoldable pub store_values : List ℕ → Point S → Memory → Result (Unit {0}) × Memory
  unfolding write_status
  store_values values p m =
      let (r₁, m₁) = write now (p.base + 2) values m in
      let (r₂, m₂) = write_status p m₁ in
      let (r₃, m₃) = write now (p.base + 8) (p.diag.counter ∷ []) m₂ in
      elim r₁ [ err e ↦ (err e, m₁) | ok _ ↦ elim r₂ [ err e ↦ (err e, m₂) | ok _ ↦ (r₃, m₃) ] ]

  unfoldable pub poll_point : Point S → Memory → Result (Unit {0}) × Point S × Memory
  unfolding read_groups pack_values read_all write_status store_values
  poll_point p m =
      let (r, p₁) = read_all (read_groups p.slots) [] p in
      elim r [
        | err e ↦ (err e, p₁, m)
        | ok none ↦
            let p₂ = record p₁ { diag = poll now false p₁.diag } in
            let (w, m') = write_status p₂ m in (w, p₂, m')
        | ok (some reads) ↦
            let p₂ = record p₁ { diag = poll now true p₁.diag } in
            elim (pack_values p.slots reads) [
              | err e ↦ (err e, p₂, m)
              | ok values ↦ let (w, m') = store_values values p₂ m in (w, p₂, m')
            ]
      ]
