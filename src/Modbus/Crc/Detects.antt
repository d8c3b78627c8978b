-- ===== src/Modbus/Crc/Detects.antt =====
-- What the checksum finds: every change of one byte of a frame.
use data_gateway.Base.{
  ℕ, zero, suc, ◌+◌, ◌-◌, ◌*◌, ◌/◌, ◌%◌, ◌^◌, ◌≤◌, ◌<◌, bit_xor, ◌≡◌, refl, sym, ap, ◌∙◌, ◌≢◌, inl,
  inr, true, false, List, [], ◌∷◌, ◌++◌, arith, leb, leb→le, ==_iff, Bool-cases, and_parts, length,
  take, drop, All, length-drop, All-append,
}
use data_gateway.Base.Bits.{
  bit_and-one, bit_xor_comm, bit_xor_cancel, bit_xor-lt, bit_xor_at, bit_xor_low_byte, bit_xor_self,
  IsByte,
}
use native.Mathlib.Nat.{pow-suc}
use data_gateway.Modbus.Crc.{shift, shifts, crc_from, crc16, crc_ok, unpack_le}
use data_gateway.Modbus.Crc.Bounds.{shift-lt, shifts-lt, crc_from-lt, crc16-lt}

-- The top bit of 0xA001 is set, so the top bit of the result tells which branch was taken.
high_bit : (a : ℕ) → a < 32768 → 32768 ≤ bit_xor a 0xa001
high_bit a h = omega (
  arith,
  bit_xor_at a 0xa001 (a / 2) 0x5000 refl refl,
  bit_xor_at (a / 2) 0x5000 (a / 4) 0x2800 (omega arith) refl,
  bit_xor_at (a / 4) 0x2800 (a / 8) 0x1400 (omega arith) refl,
  bit_xor_at (a / 8) 0x1400 (a / 16) 0xa00 (omega arith) refl,
  middle (a / 16) (omega arith),
)
  where
    top : (x : ℕ) → x < 128 → 128 ≤ bit_xor x 0xa0
    top x k = omega (
      arith,
      bit_xor_at x 0xa0 (x / 2) 0x50 refl refl,
      bit_xor_at (x / 2) 0x50 (x / 4) 0x28 (omega arith) refl,
      bit_xor_at (x / 4) 0x28 (x / 8) 0x14 (omega arith) refl,
      bit_xor_at (x / 8) 0x14 (x / 16) 0xa (omega arith) refl,
      bit_xor_at (x / 16) 0xa (x / 32) 5 (omega arith) refl,
      bit_xor_at (x / 32) 5 (x / 64) 2 (omega arith) refl,
      bit_xor_at (x / 64) 2 0 1 (omega arith) refl,
      bit_xor_at 0 1 0 0 refl refl,
    )

    middle : (x : ℕ) → x < 2048 → 2048 ≤ bit_xor x 0xa00
    middle x k = omega (
      arith,
      bit_xor_at x 0xa00 (x / 2) 0x500 refl refl,
      bit_xor_at (x / 2) 0x500 (x / 4) 0x280 (omega arith) refl,
      bit_xor_at (x / 4) 0x280 (x / 8) 0x140 (omega arith) refl,
      bit_xor_at (x / 8) 0x140 (x / 16) 0xa0 (omega arith) refl,
      top (x / 16) (omega arith),
    )

xor_mask_injective : (a b : ℕ) → bit_xor a 0xa001 ≡ bit_xor b 0xa001 → a ≡ b
xor_mask_injective a b e =
    bit_xor_cancel 0xa001 a b (bit_xor_comm 0xa001 a ∙ e ∙ bit_xor_comm b 0xa001)

shift-injective : (a b : ℕ) → a < 2 ^ 16 → b < 2 ^ 16 → shift a ≡ shift b → a ≡ b
unfolding shift
shift-injective a b p q e = ground (
  arith,
  bit_and-one a,
  bit_and-one b,
  high_bit (a / 2),
  high_bit (b / 2),
  xor_mask_injective (a / 2) (b / 2),
)

shifts-injective : (n a b : ℕ) → a < 2 ^ 16 → b < 2 ^ 16 → shifts n a ≡ shifts n b → a ≡ b
unfolding shifts
shifts-injective zero a b p q e = e
shifts-injective (suc n) a b p q e =
    shift-injective a b p q (shifts-injective n (shift a) (shift b) (shift-lt a p) (shift-lt b q) e)

byte-lt : (c b : ℕ) → c < 2 ^ 16 → IsByte b → bit_xor c b < 2 ^ 16
byte-lt c b p h = bit_xor-lt 16 c b p (omega arith)

crc_from-injective :
    (a b : ℕ) (rest : List ℕ)
    → a < 2 ^ 16
    → b < 2 ^ 16
    → All IsByte rest
    → crc_from a rest ≡ crc_from b rest
    → a ≡ b
unfolding crc_from
crc_from-injective a b [] p q bytes e = e
crc_from-injective a b (x ∷ rest) p q (hx, bytes) e =
    let pa = byte-lt a x p hx in
    let pb = byte-lt b x q hx in
    let step : bit_xor a x ≡ bit_xor b x = shifts-injective 8 (bit_xor a x) (bit_xor b x) pa pb (
      crc_from-injective (shifts 8 (bit_xor a x)) (shifts 8 (bit_xor b x)) rest (shifts-lt 8 _ pa)
        (shifts-lt 8 _ pb) bytes e) in
    bit_xor_cancel x a b (bit_xor_comm x a ∙ step ∙ bit_xor_comm b x)

pub crc_from-append : (c : ℕ) (xs ys : List ℕ) → crc_from c (xs ++ ys) ≡ crc_from (crc_from c xs) ys
unfolding crc_from
crc_from-append c [] ys = refl
crc_from-append c (x ∷ xs) ys = crc_from-append (shifts 8 (bit_xor c x)) xs ys

-- Two byte strings that differ in one byte have different checksums.
pub crc16-differs :
    (front back : List ℕ) (x y : ℕ)
    → All IsByte front
    → All IsByte back
    → IsByte x
    → IsByte y
    → crc16 (front ++ (x ∷ back)) ≡ crc16 (front ++ (y ∷ back))
    → x ≡ y
unfolding crc16 crc_from
crc16-differs front back x y bf bb hx hy e =
    let c = crc_from 0xffff front in
    let hc : c < 2 ^ 16 = crc_from-lt 0xffff front (omega arith) bf in
    let px = byte-lt c x hc hx in
    let py = byte-lt c y hc hy in
    let same : crc_from c (x ∷ back) ≡ crc_from c (y ∷ back) =
      sym (crc_from-append 0xffff front (x ∷ back)) ∙ e ∙ crc_from-append 0xffff front (y ∷ back) in
    bit_xor_cancel c x y (
      shifts-injective 8 (bit_xor c x) (bit_xor c y) px py (
        crc_from-injective (shifts 8 (bit_xor c x)) (shifts 8 (bit_xor c y)) back (shifts-lt 8 _ px)
          (shifts-lt 8 _ py) bb same))

shift-even : (x y : ℕ) → y ≡ x * 2 → shift y ≡ x
unfolding shift
shift-even x y e = ground (arith, bit_and-one y)

shifts-even : (n x y : ℕ) → y ≡ x * 2 ^ n → shifts n y ≡ x
unfolding shifts
shifts-even zero x y e = omega arith
shifts-even (suc n) x y e =
    shifts-even n x (shift y)
      (shift-even (x * 2 ^ n) y (omega (arith, ap (λ t. x * t) (pow-suc 2 n))))

-- A checksum fed its own two bytes, low byte first, comes to 0.
crc_from-own :
    (c lo hi : ℕ) → c < 65536 → lo < 256 → lo + 256 * hi ≡ c → crc_from c (lo ∷ hi ∷ []) ≡ 0
unfolding crc_from
crc_from-own c lo hi h small e =
    ap (λ t. shifts 8 (bit_xor t hi)) first
    ∙ ap (shifts 8) (bit_xor_self hi (omega arith))
    ∙ shifts-even 8 0 0 refl
  where
    low : lo ≡ c % 256
    low = omega arith

    first : shifts 8 (bit_xor c lo) ≡ hi
    first =
        shifts-even 8 hi (bit_xor c lo)
          (ap (λ t. bit_xor c t) low ∙ bit_xor_low_byte c ∙ omega arith)

All-take : (n : ℕ) (xs : List ℕ) → All IsByte xs → All IsByte (take n xs)
All-take zero xs h = tt
All-take (suc n) [] h = tt
All-take (suc n) (x ∷ xs) h = (h.0, All-take n xs h.1)

All-drop : (n : ℕ) (xs : List ℕ) → All IsByte xs → All IsByte (drop n xs)
All-drop zero xs h = h
All-drop (suc n) [] h = tt
All-drop (suc n) (x ∷ xs) h = All-drop n xs h.1

take-append-drop : (n : ℕ) (xs : List ℕ) → take n xs ++ drop n xs ≡ xs
take-append-drop zero xs = refl
take-append-drop (suc n) [] = refl
take-append-drop (suc n) (x ∷ xs) = ap (λ t. x ∷ t) (take-append-drop n xs)

residue_of_tail :
    (body tail : List ℕ)
    → All IsByte body
    → All IsByte tail
    → length tail ≡ 2
    → unpack_le tail ≡ crc16 body
    → crc16 (body ++ tail) ≡ 0
residue_of_tail body [] hb ht n e = absurd (omega arith)
residue_of_tail body (lo ∷ []) hb ht n e = absurd (omega arith)
residue_of_tail body (lo ∷ hi ∷ x ∷ rest) hb ht n e = absurd (omega arith)
residue_of_tail body (lo ∷ hi ∷ []) hb ht n e =
    crc16-append body (lo ∷ hi ∷ []) ∙ crc_from-own (crc16 body) lo hi (crc16-lt body hb) ht.0 e
  where
    crc16-append : (xs ys : List ℕ) → crc16 (xs ++ ys) ≡ crc_from (crc16 xs) ys
    crc16-append xs ys = unfold crc16 in crc_from-append 0xffff xs ys

-- A frame that `crc_ok` accepts has the checksum 0 as a whole.
pub crc_ok-residue : (frame : List ℕ) → All IsByte frame → crc_ok frame ≡ true → crc16 frame ≡ 0
unfolding crc_ok
crc_ok-residue frame bytes good =
    let n = length frame - 2 in
    let (long, matches) = and_parts (leb 4 (length frame)) _ good in
    let four = leb→le 4 (length frame) long in
    let rest : crc16 (take n frame ++ drop n frame) ≡ 0 =
      residue_of_tail (take n frame) (drop n frame) (All-take n frame bytes)
        (All-drop n frame bytes) (omega (arith, length-drop {0} n frame))
        ((==_iff _ _).0 matches) in
    ap crc16 (sym (take-append-drop n frame)) ∙ rest

-- If a frame is accepted, then no frame of bytes that differs from it in exactly one byte is,
-- wherever that byte stands.
pub crc_ok_single_byte :
    (front back : List ℕ) (x y : ℕ)
    → All IsByte front
    → All IsByte back
    → IsByte x
    → IsByte y
    → x ≢ y
    → crc_ok (front ++ (x ∷ back)) ≡ true
    → crc_ok (front ++ (y ∷ back)) ≡ false
crc_ok_single_byte front back x y bf bb hx hy ne good =
    elim (Bool-cases (crc_ok (front ++ (y ∷ back)))) [
      | inr refused ↦ refused
      | inl accepted ↦ absurd (
          ne (
            crc16-differs front back x y bf bb hx hy (
              crc_ok-residue _ (All-append IsByte front (x ∷ back) bf (hx, bb)) good
              ∙ sym (crc_ok-residue _ (All-append IsByte front (y ∷ back) bf (hy, bb)) accepted))))
    ]
