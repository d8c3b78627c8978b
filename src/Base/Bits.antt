-- ===== src/Base/Bits.antt =====
-- Laws of the native bit operations that the protocol code uses, at every width.
use Prim.Native.Nat.{
  ℕ, zero, suc, ◌+◌, ◌-◌, ◌*◌, ◌/◌, ◌%◌, ◌^◌, ◌≤◌, ◌<◌, min, max, bit_and, bit_or, bit_xor, digits,
  differ, bit_and-bitwise, bit_or-bitwise, bit_xor-bitwise,
}
use mathlib.Core.Path.{◌≡◌, refl, ap, ◌∙◌}
use mathlib.Core.Logic.{inl, inr}
use data_gateway.Base.Tests.{ltb, ltb→lt, ltb→ge, Bool-cases}
use native.Mathlib.Omega.{arith}
use native.Mathlib.Nat.{pow-suc}

-- A number needs no more digits than itself: one more changes nothing, and so any number more.
module _ (z : ℕ → ℕ) (f : ℕ → ℕ → ℕ) where
  one_more : (b n a : ℕ) → a ≤ n → digits z f (suc n) a b ≡ digits z f n a b
  one_more b zero zero h = refl
  one_more b zero (suc a) h = absurd (omega arith)
  one_more b (suc n) zero h = refl
  one_more b (suc n) (suc a) h =
      ap (λ high. high * 2 + f (suc a % 2) (b % 2)) (one_more (b / 2) n (suc a / 2) (omega arith))

  many_more : (gap n m a b : ℕ) → m ≡ gap + n → a ≤ n → digits z f m a b ≡ digits z f n a b
  many_more zero n m a b e h = let same : m ≡ n = omega arith in ap (λ k. digits z f k a b) same
  many_more (suc gap) n m a b e h =
      many_more gap (suc n) m a b (omega arith) (omega arith) ∙ one_more b n a h

  -- The digits of the upper half of a number, by the count that the whole number has.
  half_digits : (a b : ℕ) → digits z f a (suc a / 2) b ≡ digits z f (suc a / 2) (suc a / 2) b
  half_digits a b =
      many_more (a - suc a / 2) (suc a / 2) a (suc a / 2) b (omega arith) (omega arith)

-- Each operation does one digit, and then the rest.
pub bit_and_step : (a b : ℕ) → bit_and a b ≡ bit_and (a / 2) (b / 2) * 2 + min (a % 2) (b % 2)
bit_and_step zero b = omega (arith, bit_and-bitwise 0 b, bit_and-bitwise 0 (b / 2))
bit_and_step (suc a) b = omega (
  arith,
  bit_and-bitwise (suc a) b,
  bit_and-bitwise (suc a / 2) (b / 2),
  half_digits (λ b. zero) min a (b / 2),
)

pub bit_or_step : (a b : ℕ) → bit_or a b ≡ bit_or (a / 2) (b / 2) * 2 + max (a % 2) (b % 2)
bit_or_step zero b = omega (arith, bit_or-bitwise 0 b, bit_or-bitwise 0 (b / 2))
bit_or_step (suc a) b = omega (
  arith,
  bit_or-bitwise (suc a) b,
  bit_or-bitwise (suc a / 2) (b / 2),
  half_digits (λ b. b) max a (b / 2),
)

pub bit_xor_step : (a b : ℕ) → bit_xor a b ≡ bit_xor (a / 2) (b / 2) * 2 + differ (a % 2) (b % 2)
bit_xor_step zero b = omega (arith, bit_xor-bitwise 0 b, bit_xor-bitwise 0 (b / 2))
bit_xor_step (suc a) b = omega (
  arith,
  bit_xor-bitwise (suc a) b,
  bit_xor-bitwise (suc a / 2) (b / 2),
  half_digits (λ b. b) differ a (b / 2),
)

-- Two digits: the other argument of each call is named, so that the calls are the same term.
bit_and_at :
    (a b c d : ℕ) → a / 2 ≡ c → b / 2 ≡ d → bit_and a b ≡ bit_and c d * 2 + min (a % 2) (b % 2)
bit_and_at a b c d p q =
    omega (arith, bit_and_step a b, ap (λ t. bit_and t (b / 2)) p, ap (λ t. bit_and c t) q)

bit_or_at :
    (a b c d : ℕ) → a / 2 ≡ c → b / 2 ≡ d → bit_or a b ≡ bit_or c d * 2 + max (a % 2) (b % 2)
bit_or_at a b c d p q =
    omega (arith, bit_or_step a b, ap (λ t. bit_or t (b / 2)) p, ap (λ t. bit_or c t) q)

-- Four digits at a time, for masks written in hexadecimal.
bit_and_f : (a m : ℕ) → bit_and a (m * 16 + 15) ≡ bit_and (a / 16) m * 16 + a % 16
bit_and_f a m = omega (
  arith,
  bit_and_at a (m * 16 + 15) (a / 2) (m * 8 + 7) refl (omega arith),
  bit_and_at (a / 2) (m * 8 + 7) (a / 4) (m * 4 + 3) (omega arith) (omega arith),
  bit_and_at (a / 4) (m * 4 + 3) (a / 8) (m * 2 + 1) (omega arith) (omega arith),
  bit_and_at (a / 8) (m * 2 + 1) (a / 16) m (omega arith) (omega arith),
)

bit_and_0 : (a m : ℕ) → bit_and a (m * 16) ≡ bit_and (a / 16) m * 16
bit_and_0 a m = omega (
  arith,
  bit_and_at a (m * 16) (a / 2) (m * 8) refl (omega arith),
  bit_and_at (a / 2) (m * 8) (a / 4) (m * 4) (omega arith) (omega arith),
  bit_and_at (a / 4) (m * 4) (a / 8) (m * 2) (omega arith) (omega arith),
  bit_and_at (a / 8) (m * 2) (a / 16) m (omega arith) (omega arith),
)

bit_or_0 : (h l : ℕ) → bit_or (h * 16) l ≡ bit_or h (l / 16) * 16 + l % 16
bit_or_0 h l = omega (
  arith,
  bit_or_at (h * 16) l (h * 8) (l / 2) (omega arith) refl,
  bit_or_at (h * 8) (l / 2) (h * 4) (l / 4) (omega arith) (omega arith),
  bit_or_at (h * 4) (l / 4) (h * 2) (l / 8) (omega arith) (omega arith),
  bit_or_at (h * 2) (l / 8) h (l / 16) (omega arith) (omega arith),
)

bit_and-zero : (n a : ℕ) → a ≤ n → bit_and a 0 ≡ 0
bit_and-zero n zero h = refl
bit_and-zero zero (suc a) h = absurd (omega arith)
bit_and-zero (suc n) (suc a) h =
    omega (arith, bit_and_step (suc a) 0, bit_and-zero n (suc a / 2) (omega arith))

bit_or-zero : (n a : ℕ) → a ≤ n → bit_or a 0 ≡ a
bit_or-zero n zero h = refl
bit_or-zero zero (suc a) h = absurd (omega arith)
bit_or-zero (suc n) (suc a) h =
    omega (arith, bit_or_step (suc a) 0, bit_or-zero n (suc a / 2) (omega arith))

-- `x & 0xFFFF`
pub bit_and_ffff : (a : ℕ) → bit_and a 0xffff ≡ a % 65536
bit_and_ffff a = omega (
  arith,
  bit_and_f a 0xfff,
  bit_and_f (a / 16) 0xff,
  bit_and_f (a / 16 / 16) 0xf,
  bit_and_f (a / 16 / 16 / 16) 0,
  bit_and-zero a (a / 16 / 16 / 16 / 16) (omega arith),
)

-- `x & 1`
pub bit_and-one : (a : ℕ) → bit_and a 1 ≡ a % 2
bit_and-one a = omega (arith, bit_and_step a 1, bit_and-zero a (a / 2) (omega arith))

bit_and_eight : (a : ℕ) → bit_and a 8 ≡ a / 8 % 2 * 8
bit_and_eight a = omega (
  arith,
  bit_and_at a 8 (a / 2) 4 refl refl,
  bit_and_at (a / 2) 4 (a / 4) 2 (omega arith) refl,
  bit_and_at (a / 4) 2 (a / 8) 1 (omega arith) refl,
  bit_and-one (a / 8),
)

-- `x & 0x80` and `x & 0x8000`: the sign bit of a byte and of a word
pub bit_and_80 : (a : ℕ) → bit_and a 0x80 ≡ a / 128 % 2 * 128
bit_and_80 a = omega (arith, bit_and_0 a 8, bit_and_eight (a / 16))

pub bit_and_8000 : (a : ℕ) → bit_and a 0x8000 ≡ a / 32768 % 2 * 32768
bit_and_8000 a = omega (
  arith,
  bit_and_0 a 0x800,
  bit_and_0 (a / 16) 0x80,
  bit_and_0 (a / 16 / 16) 8,
  bit_and_eight (a / 16 / 16 / 16),
)

four_gone : (l : ℕ) → l < 65536 → l / 16 / 16 / 16 / 16 ≡ 0
four_gone l h = omega arith

bit_or_regroup : (a b l : ℕ) → a ≡ b → bit_or a l ≡ bit_or b l
bit_or_regroup a b l e = ap (λ t. bit_or t l) e

-- `(hi << 16) | lo`
pub bit_or_words : (h l : ℕ) → l < 65536 → bit_or (h * 65536) l ≡ h * 65536 + l
bit_or_words h l small = omega (
  arith,
  bit_or_regroup (h * 65536) (h * 4096 * 16) l (omega arith),
  bit_or_0 (h * 4096) l,
  bit_or_regroup (h * 4096) (h * 256 * 16) (l / 16) (omega arith),
  bit_or_0 (h * 256) (l / 16),
  bit_or_regroup (h * 256) (h * 16 * 16) (l / 16 / 16) (omega arith),
  bit_or_0 (h * 16) (l / 16 / 16),
  bit_or_0 h (l / 16 / 16 / 16),
  ap (λ t. bit_or h t) (four_gone l small),
  bit_or-zero h h (omega arith),
)

-- `x | 0x80` on a byte whose top bit is clear
bit_or_eight : (a : ℕ) → a < 8 → bit_or a 8 ≡ a + 8
bit_or_eight a h = omega (
  arith,
  bit_or_at a 8 (a / 2) 4 refl refl,
  bit_or_at (a / 2) 4 (a / 4) 2 (omega arith) refl,
  bit_or_at (a / 4) 2 0 1 (omega arith) refl,
  bit_or_at 0 1 0 0 refl refl,
)

bit_or_hex : (l m : ℕ) → bit_or l (m * 16) ≡ bit_or (l / 16) m * 16 + l % 16
bit_or_hex l m = omega (
  arith,
  bit_or_at l (m * 16) (l / 2) (m * 8) refl (omega arith),
  bit_or_at (l / 2) (m * 8) (l / 4) (m * 4) (omega arith) (omega arith),
  bit_or_at (l / 4) (m * 4) (l / 8) (m * 2) (omega arith) (omega arith),
  bit_or_at (l / 8) (m * 2) (l / 16) m (omega arith) (omega arith),
)

pub bit_or_80 : (a : ℕ) → a < 128 → bit_or a 0x80 ≡ a + 128
bit_or_80 a h = omega (arith, bit_or_hex a 8, bit_or_eight (a / 16) (omega arith))

-- Exclusive or: halving, cancellation, bounds.
differ_bits : (x y : ℕ) → x < 2 → y < 2 → differ x y < 2
differ_bits zero y h k = k
differ_bits (suc x) zero h k = h
differ_bits (suc x) (suc y) h k = differ_bits x y (omega arith) (omega arith)

differ_cancel : (x y z : ℕ) → x < 2 → y < 2 → z < 2 → differ x y ≡ differ x z → y ≡ z
differ_cancel zero y z hx hy hz e = e
differ_cancel (suc (suc x)) y z hx hy hz e = absurd (omega arith)
differ_cancel (suc zero) zero zero hx hy hz e = refl
differ_cancel (suc zero) zero (suc (suc z)) hx hy hz e = absurd (omega arith)
differ_cancel (suc zero) zero (suc zero) hx hy hz e = absurd (omega arith)
differ_cancel (suc zero) (suc (suc y)) z hx hy hz e = absurd (omega arith)
differ_cancel (suc zero) (suc zero) zero hx hy hz e = absurd (omega arith)
differ_cancel (suc zero) (suc zero) (suc z) hx hy hz e = omega arith

differ_comm : (x y : ℕ) → differ x y ≡ differ y x
differ_comm zero zero = refl
differ_comm zero (suc y) = refl
differ_comm (suc x) zero = refl
differ_comm (suc x) (suc y) = differ_comm x y

pub bit_xor_half : (a b : ℕ) → bit_xor a b / 2 ≡ bit_xor (a / 2) (b / 2)
bit_xor_half a b =
    omega (arith, bit_xor_step a b, differ_bits (a % 2) (b % 2) (omega arith) (omega arith))

bit_xor_parity : (a b : ℕ) → bit_xor a b % 2 ≡ differ (a % 2) (b % 2)
bit_xor_parity a b =
    omega (arith, bit_xor_step a b, differ_bits (a % 2) (b % 2) (omega arith) (omega arith))

bit_xor_comm_fuel : (n a b : ℕ) → a ≤ n → b ≤ n → bit_xor a b ≡ bit_xor b a
bit_xor_comm_fuel zero zero zero p q = refl
bit_xor_comm_fuel zero zero (suc b) p q = absurd (omega arith)
bit_xor_comm_fuel zero (suc a) b p q = absurd (omega arith)
bit_xor_comm_fuel (suc n) a b p q = omega (
  arith,
  bit_xor_step a b,
  bit_xor_step b a,
  differ_comm (a % 2) (b % 2),
  bit_xor_comm_fuel n (a / 2) (b / 2) (omega arith) (omega arith),
)

pub bit_xor_comm : (a b : ℕ) → bit_xor a b ≡ bit_xor b a
bit_xor_comm a b = bit_xor_comm_fuel (a + b) a b (omega arith) (omega arith)

bit_xor_cancel_fuel : (n a b c : ℕ) → a ≤ n → b ≤ n → c ≤ n → bit_xor a b ≡ bit_xor a c → b ≡ c
bit_xor_cancel_fuel zero a b c p q r e = omega arith
bit_xor_cancel_fuel (suc n) a b c p q r e = omega (
  arith,
  differ_cancel (a % 2) (b % 2) (c % 2) (omega arith) (omega arith) (omega arith)
      (omega (arith, bit_xor_parity a b, bit_xor_parity a c)),
  bit_xor_cancel_fuel n (a / 2) (b / 2) (c / 2) (omega arith) (omega arith) (omega arith)
      (omega (arith, bit_xor_half a b, bit_xor_half a c)),
)

pub bit_xor_cancel : (a b c : ℕ) → bit_xor a b ≡ bit_xor a c → b ≡ c
bit_xor_cancel a b c =
    bit_xor_cancel_fuel (a + b + c) a b c (omega arith) (omega arith) (omega arith)

-- Numbers of at most `k` digits have an exclusive or of at most `k` digits.
pub bit_xor-lt : (k a b : ℕ) → a < 2 ^ k → b < 2 ^ k → bit_xor a b < 2 ^ k
bit_xor-lt zero zero zero p q = omega arith
bit_xor-lt zero zero (suc b) p q = absurd (omega arith)
bit_xor-lt zero (suc a) b p q = absurd (omega arith)
bit_xor-lt (suc k) a b p q = omega (
  arith,
  pow-suc 2 k,
  bit_xor_half a b,
  bit_xor-lt k (a / 2) (b / 2) (omega (arith, pow-suc 2 k)) (omega (arith, pow-suc 2 k)),
)

differ_self : (x : ℕ) → differ x x ≡ 0
differ_self zero = refl
differ_self (suc x) = differ_self x

-- One digit, the halves named by other terms.
pub bit_xor_at :
    (a b c d : ℕ) → a / 2 ≡ c → b / 2 ≡ d → bit_xor a b ≡ bit_xor c d * 2 + differ (a % 2) (b % 2)
bit_xor_at a b c d p q =
    omega (arith, bit_xor_step a b, ap (λ t. bit_xor t (b / 2)) p, ap (λ t. bit_xor c t) q)

-- The digits that two numbers share cancel.
bit_xor_same : (a b c d : ℕ) → a / 2 ≡ c → b / 2 ≡ d → a % 2 ≡ b % 2 → bit_xor a b ≡ bit_xor c d * 2
bit_xor_same a b c d p q r =
    omega (arith, bit_xor_at a b c d p q, ap (λ t. differ t (b % 2)) r, differ_self (b % 2))

bit_xor-zero : (n a : ℕ) → a ≤ n → bit_xor a 0 ≡ a
bit_xor-zero n zero h = refl
bit_xor-zero zero (suc a) h = absurd (omega arith)
bit_xor-zero (suc n) (suc a) h = omega (
  arith,
  bit_xor_step (suc a) 0,
  differ_comm (suc a % 2) 0,
  bit_xor-zero n (suc a / 2) (omega arith),
)

pub bit_xor_low_byte : (a : ℕ) → bit_xor a (a % 256) ≡ a / 256 * 256
bit_xor_low_byte a = omega (
  arith,
  bit_xor_same a (a % 256) (a / 2) (a / 2 % 128) refl (omega arith) (omega arith),
  bit_xor_same (a / 2) (a / 2 % 128) (a / 4) (a / 4 % 64) (omega arith) (omega arith) (omega arith),
  bit_xor_same (a / 4) (a / 4 % 64) (a / 8) (a / 8 % 32) (omega arith) (omega arith) (omega arith),
  bit_xor_same (a / 8) (a / 8 % 32) (a / 16) (a / 16 % 16) (omega arith) (omega arith)
      (omega arith),
  low_nibble (a / 16),
)
  where
    low_nibble : (x : ℕ) → bit_xor x (x % 16) ≡ x / 16 * 16
    low_nibble x = omega (
      arith,
      bit_xor_same x (x % 16) (x / 2) (x / 2 % 8) refl (omega arith) (omega arith),
      bit_xor_same (x / 2) (x / 2 % 8) (x / 4) (x / 4 % 4) (omega arith) (omega arith)
          (omega arith),
      bit_xor_same (x / 4) (x / 4 % 4) (x / 8) (x / 8 % 2) (omega arith) (omega arith)
          (omega arith),
      bit_xor_same (x / 8) (x / 8 % 2) (x / 16) 0 (omega arith) (omega arith) (omega arith),
      bit_xor-zero (x / 16) (x / 16) (omega arith),
    )

pub bit_xor_self : (a : ℕ) → a < 256 → bit_xor a a ≡ 0
bit_xor_self a h = omega (arith, bit_xor_low_byte a, ap (λ t. bit_xor a t) (small a h))
  where
    small : (a : ℕ) → a < 256 → a % 256 ≡ a
    small a h = omega arith

abbrev pub IsByte : ℕ → Type 0
IsByte b = b < 256

abbrev pub IsWord : ℕ → Type 0
IsWord w = w < 65536

-- `x | 0x80` of a byte is a byte.
bit_or_eight_set : (a : ℕ) → 8 ≤ a → a < 16 → bit_or a 8 ≡ a
bit_or_eight_set a h k = omega (
  arith,
  bit_or_at a 8 (a / 2) 4 refl refl,
  bit_or_at (a / 2) 4 (a / 4) 2 (omega arith) refl,
  bit_or_at (a / 4) 2 1 1 (omega arith) refl,
  bit_or_at 1 1 0 0 refl refl,
)

pub bit_or_80-lt : (a : ℕ) → a < 256 → bit_or a 0x80 < 256
bit_or_80-lt a h = elim (Bool-cases (ltb a 128)) [
  | inl low ↦ let p : a < 128 = ltb→lt a 128 low in omega (arith, bit_or_80 a p)
  | inr high ↦ omega (
    arith,
    bit_or_hex a 8,
    bit_or_eight_set (a / 16) (omega (arith, ltb→ge a 128 high)) (omega arith),
  )
]
