-- ===== src/Modbus/Value.antt =====
-- `encode_value` and `decode_value` of src/twin/common/modbus.py, and the value types of a register
-- item (`Item.type` of src/twin/common/config.py).
pub mod RoundTrip
use data_gateway.Base.{
  ℕ, zero, suc, ◌+◌, ◌-◌, ◌*◌, ◌/◌, ◌%◌, ◌^◌, ◌≤◌, ◌<◌, min, max, bit_and, bit_or, bit_xor, String,
  ◌≡◌, refl, sym, ap, ap₂, subst, ◌∙◌, ◌≢◌, ◌↔◌, ◌⊎◌, inl, inr, Bool, true, false, not, ◌&&◌, ◌||◌,
  Option, none, some, List, [], ◌∷◌, ◌++◌, map, append-nil, append_assoc, arith, ltb, leb, ◌==◌,
  if◌then◌else◌, ltb→lt, ltb→ge, lt→ltb, leb→le, leb→gt, le→leb, gt→leb, ==_iff, ==_refl, ==_ne,
  Bool-cases, Option-cases, and_parts, length, get_elem?, take, drop, replicate, set, keep,
  count_if, sum_by, All, length-append, length-set, length-take, length-drop, take-append_left,
  drop-append_left, get_elem?-set_self, get_elem?-set_ne, sum_by-append, All-append, get_elem?-take,
  get_elem?-drop, All-keep,
}
use data_gateway.Base.Int.{ℤ, pos, negsuc, sub_ℕ, min_ℤ, max_ℤ, low_word, pos_part}
use data_gateway.Base.Floats.{Floats}
use data_gateway.Modbus.Outcome.{
  Error, Result, ok, err, timeout_err, crc_err, frame_err, exception_response, struct_error,
  value_error, index_error, key_error, incomplete_read, assertion_error, type_error, overflow_error,
  ◌>>=◌, kind, index, pack_byte, pack_be, Result-cases,
}

pub data ItemType : Type 0 where
  uint16 int16 uint32 bool float : ItemType

-- `Item.words`
abbrev pub words_of : ItemType → ℕ
words_of uint32 = 2
words_of _ = 1

-- `raw & 0xFFFF` and `(raw >> 16) & 0xFFFF` of a raw value that is not negative
abbrev pub split : ℤ → List ℕ
split (pos n) = bit_and (n / 65536) 0xffff ∷ bit_and n 0xffff ∷ []
split (negsuc n) = 0xffff ∷ 0xffff ∷ []

-- `words[0] - 0x10000 if words[0] & 0x8000 else words[0]`
abbrev pub signed : ℕ → ℤ
signed w = if bit_and w 0x8000 == 0 then pos w else sub_ℕ w 65536

-- The raw value that the words stand for.
unfoldable pub decode_raw : List ℕ → ItemType → Result ℤ
decode_raw words int16 = do w ← index words 0; ok (signed w)
decode_raw words uint16 = do w ← index words 0; ok (pos w)
decode_raw words uint32 = do
  hi ← index words 0
  lo ← index words 1
  ok (pos (bit_or (hi * 65536) lo))
decode_raw words bool = err value_error
decode_raw words float = err value_error

module _ (fl : Floats) where
  open fl use {Float, of_int, mul, div, truthy, round_int, trunc, is_nan, round_to}

  -- What `round` or `int` of a value gives, or what it raises.
  abbrev pub integer_of : Float → Option ℤ → Result ℤ
  integer_of x (some n) = ok n
  integer_of x none = err (if is_nan x then value_error else overflow_error)

  -- `int(round(value / scale)) if scale else int(value)`
  unfoldable pub quantise : Float → Float → Result ℤ
  quantise value scale =
      let q = div value scale in
      if truthy scale then integer_of q (round_int q) else integer_of value (trunc value)

  -- `encode_value` from the raw value on
  unfoldable pub encode_raw : ℤ → ItemType → Result (List ℕ)
  encode_raw raw int16 = ok (low_word (max_ℤ (negsuc 32767) (min_ℤ (pos 32767) raw)) ∷ [])
  encode_raw raw uint16 = ok (pos_part (max_ℤ (pos 0) (min_ℤ (pos 0xffff) raw)) ∷ [])
  encode_raw raw uint32 = ok (split (max_ℤ (pos 0) (min_ℤ (pos 0xffffffff) raw)))
  encode_raw raw bool = err value_error
  encode_raw raw float = err value_error

  unfoldable pub encode_value : Float → ItemType → Float → Result (List ℕ)
  unfolding quantise encode_raw
  encode_value value typ scale = quantise value scale >>= λ raw. encode_raw raw typ

  unfoldable pub decode_value : List ℕ → ItemType → Float → Result Float
  unfolding decode_raw
  decode_value words typ scale = do
    raw ← decode_raw words typ
    ok (round_to 6 (mul (of_int raw) scale))
