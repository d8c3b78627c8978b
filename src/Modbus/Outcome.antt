-- ===== src/Modbus/Outcome.antt =====
-- What a call of the protocol code may raise, and the calls that may. The first five are the
-- subclasses of `ModbusError`; the others are Python's own exceptions, which no handler of
-- `ModbusError` catches.
use data_gateway.Base.{
  ℕ, ◌/◌, ◌%◌, String, ◌≡◌, refl, ◌⊎◌, inl, inr, Option, none, some, List, [], ◌∷◌, ltb,
  if◌then◌else◌, get_elem?,
}

pub data Error : Type 0 where
  timeout_err : Error
  crc_err : Error
  frame_err : Error
  exception_response : ℕ → Error
  struct_error : Error
  value_error : Error
  index_error : Error
  key_error : Error
  incomplete_read : Error
  assertion_error : Error
  type_error : Error
  overflow_error : Error

pub data Result {ℓ} (A : Type ℓ) : Type ℓ where
  err : Error → Result A
  ok : A → Result A

infixl 5 ◌>>=◌
abbrev pub ◌>>=◌ {ℓ κ} : {A : Type ℓ} {B : Type κ} → Result A → (A → Result B) → Result B
err e >>= f = err e
ok a >>= f = f a

-- `exc.kind` of the `ModbusError` subclasses; none for the other exceptions.
abbrev pub kind : Error → Option String
kind timeout_err = some "timeout"
kind crc_err = some "crc"
kind frame_err = some "frame"
kind (exception_response _) = some "exception"
kind _ = none

-- `xs[i]`
abbrev pub index {ℓ} : {A : Type ℓ} → List A → ℕ → Result A
index xs i = elim (get_elem? xs i) [ none ↦ err index_error | some x ↦ ok x ]

-- `struct.pack("B", x)` and `struct.pack(">H", x)`
abbrev pub pack_byte : ℕ → Result (List ℕ)
pack_byte x = if ltb x 256 then ok (x ∷ []) else err struct_error

abbrev pub pack_be : ℕ → Result (List ℕ)
pack_be x = if ltb x 65536 then ok (x / 256 ∷ x % 256 ∷ []) else err struct_error

-- To split on the result of a call and keep the equation.
pub Result-cases {ℓ} :
    {A : Type ℓ} (r : Result A) → ((a : A) × (r ≡ ok a)) ⊎ ((e : Error) × (r ≡ err e))
Result-cases (ok a) = inl (a, refl)
Result-cases (err e) = inr (e, refl)
