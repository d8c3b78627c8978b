-- ===== src/Modbus/Value/RoundTrip.antt =====
-- What a value becomes on its way through the registers.
use data_gateway.Base.{
  ℕ, ◌-◌, ◌/◌, ◌%◌, bit_and, ◌≡◌, refl, ap, ◌∙◌, ◌≢◌, ◌⊎◌, inl, inr, true, List, [], ◌∷◌, arith,
  if◌then◌else◌, leb→le, length, All,
}
use data_gateway.Base.Bits.{bit_and_ffff, bit_and_8000, bit_or_words, IsWord}
use data_gateway.Base.Int.{ℤ, pos, negsuc, min_ℤ, max_ℤ, low_word, leb_ℤ, pos_part}
use data_gateway.Base.Floats.{Floats}
use data_gateway.Modbus.Outcome.{Error, ok, err, Result-cases}
use data_gateway.Modbus.Value.{
  ItemType, uint16, int16, uint32, bool, float, words_of, split, signed, quantise, encode_raw,
  encode_value, decode_raw,
}

-- The smallest and the largest raw value of each register type.
abbrev pub least : ItemType → ℤ
least int16 = negsuc 32767
least _ = pos 0

abbrev pub greatest : ItemType → ℤ
greatest int16 = pos 32767
greatest uint16 = pos 65535
greatest _ = pos 4294967295

-- The nearest number of the range: what saturation means.
abbrev pub saturate : ItemType → ℤ → ℤ
saturate t n = if leb_ℤ n (least t) then least t else if leb_ℤ (greatest t) n then greatest t else n

clamp-saturate :
    (lo hi n : ℤ)
    → leb_ℤ lo hi ≡ true
    → max_ℤ lo (min_ℤ hi n) ≡ (if leb_ℤ n lo then lo else if leb_ℤ hi n then hi else n)
clamp-saturate (pos a) (pos b) (pos n) h = ground arith
clamp-saturate (pos a) (pos b) (negsuc n) h = ground arith
clamp-saturate (pos a) (negsuc b) (pos n) h = ground arith
clamp-saturate (pos a) (negsuc b) (negsuc n) h = ground arith
clamp-saturate (negsuc a) (pos b) (pos n) h = ground arith
clamp-saturate (negsuc a) (pos b) (negsuc n) h = ground arith
clamp-saturate (negsuc a) (negsuc b) (pos n) h = ground arith
clamp-saturate (negsuc a) (negsuc b) (negsuc n) h = ground arith

signed-low_word :
    (n : ℤ) → leb_ℤ (negsuc 32767) n ≡ true → leb_ℤ n (pos 32767) ≡ true → signed (low_word n) ≡ n
signed-low_word (pos n) lo hi = ground (arith, bit_and_8000 (n % 65536))
signed-low_word (negsuc n) lo hi = ground (arith, bit_and_8000 (65535 - n % 65536))

saturate_in_range :
    (t : ItemType) (n : ℤ)
    → (leb_ℤ (least t) (saturate t n) ≡ true) × (leb_ℤ (saturate t n) (greatest t) ≡ true)
saturate_in_range int16 (pos n) = ground arith
saturate_in_range int16 (negsuc n) = ground arith
saturate_in_range uint16 (pos n) = ground arith
saturate_in_range uint16 (negsuc n) = ground arith
saturate_in_range _ (pos n) = ground arith
saturate_in_range _ (negsuc n) = ground arith

low_word-lt : (n : ℤ) → IsWord (low_word n)
low_word-lt (pos n) = omega arith
low_word-lt (negsuc n) = omega arith

unsigned-IsWord :
    (n : ℤ)
    → leb_ℤ (pos 0) n ≡ true
    → leb_ℤ n (pos 65535) ≡ true
    → (pos (pos_part n) ≡ n) × IsWord (pos_part n)
unsigned-IsWord (pos n) lo hi = (refl, ground arith)
unsigned-IsWord (negsuc n) lo hi = ground arith

split-words :
    (n : ℤ)
    → leb_ℤ (pos 0) n ≡ true
    → leb_ℤ n (pos 4294967295) ≡ true
    → (decode_raw (split n) uint32 ≡ ok n) × (length (split n) ≡ 2) × All IsWord (split n)
unfolding decode_raw
split-words (pos n) lo hi = (
  ap (λ t. ok (pos t))
      (bit_or_words (bit_and (n / 65536) 0xffff) (bit_and n 0xffff) (omega (arith, bit_and_ffff n))
        ∙ omega
            (arith, bit_and_ffff n, bit_and_ffff (n / 65536), leb→le n 4294967295 (ground arith))),
  refl,
  (omega (arith, bit_and_ffff (n / 65536)), (omega (arith, bit_and_ffff n), tt)),
)
split-words (negsuc n) lo hi = ground arith

-- What the registers of a value hold.
abbrev pub Holds : List ℕ → ItemType → ℤ → Type 0
Holds ws t n = (decode_raw ws t ≡ ok n) × (length ws ≡ words_of t) × All IsWord ws

module _ (fl : Floats) where
  open fl use {Float}

  encode_raw-saturates :
      (n : ℤ) (t : ItemType)
      → t ≢ bool
      → t ≢ float
      → (ws : List ℕ) × (encode_raw fl n t ≡ ok ws) × Holds ws t (saturate t n)
  unfolding encode_raw decode_raw
  encode_raw-saturates n int16 nb nf =
      let m = max_ℤ (negsuc 32767) (min_ℤ (pos 32767) n) in
      let e : m ≡ saturate int16 n = clamp-saturate (negsuc 32767) (pos 32767) n refl in
      let range = saturate_in_range int16 n in
      (
        low_word m ∷ [],
        refl,
        (
          ap (λ t. ok (signed (low_word t))) e
              ∙ ap ok (signed-low_word (saturate int16 n) range.0 range.1),
          refl,
          (low_word-lt m, tt),
        ),
      )
  encode_raw-saturates n uint16 nb nf =
      let m = max_ℤ (pos 0) (min_ℤ (pos 65535) n) in
      let e : m ≡ saturate uint16 n = clamp-saturate (pos 0) (pos 65535) n refl in
      let range = saturate_in_range uint16 n in
      let word = unsigned-IsWord (saturate uint16 n) range.0 range.1 in
      (
        pos_part m ∷ [],
        refl,
        (ap (λ t. ok (pos (pos_part t))) e ∙ ap ok word.0, refl, (rw e word.1, tt)),
      )
  encode_raw-saturates n uint32 nb nf =
      let m = max_ℤ (pos 0) (min_ℤ (pos 4294967295) n) in
      let e : m ≡ saturate uint32 n = clamp-saturate (pos 0) (pos 4294967295) n refl in
      let range = saturate_in_range uint32 n in
      (split m, refl, rw e (split-words (saturate uint32 n) range.0 range.1))
  encode_raw-saturates n bool nb nf = absurd (nb refl)
  encode_raw-saturates n float nb nf = absurd (nf refl)

  -- A value that has a raw value, the rounded quotient by the scale, is written for every register
  -- type: as many 16-bit words as the type has, which stand for the nearest raw value that the type can
  -- hold. A value that has none, an infinite quotient or NaN, raises what the rounding raises.
  pub encode_value-saturates :
      (value scale : Float) (t : ItemType)
      → t ≢ bool
      → t ≢ float
      → ((n : ℤ) × (ws : List ℕ) × (quantise fl value scale ≡ ok n)
          × (encode_value fl value t scale ≡ ok ws)
          × Holds ws t (saturate t n))
        ⊎ ((x : Error) × (quantise fl value scale ≡ err x)
            × (encode_value fl value t scale ≡ err x))
  unfolding encode_value
  encode_value-saturates value scale t nb nf = elim (Result-cases (quantise fl value scale)) [
    | inl (n, raw) ↦
        let (ws, e, holds) = encode_raw-saturates n t nb nf in
        inl (n, ws, raw, rw (encode_value, raw) e, holds)
    | inr (x, fails) ↦ inr (x, fails, rw (encode_value, fails) refl)
  ]
