-- ===== src/Modbus/Crc/Bounds.antt =====
-- The checksum of bytes is a 16-bit word, and a frame closed by `with_crc` passes `crc_ok`.
use data_gateway.Base.{
  ℕ, zero, suc, ◌+◌, ◌-◌, ◌*◌, ◌/◌, ◌%◌, ◌^◌, ◌<◌, ◌≤◌, bit_xor, ◌≡◌, refl, true, List, [], ◌∷◌,
  ◌++◌, arith, length, All, length-append, take-append_left, drop-append_left, le→leb, leb, ◌==◌,
}
use data_gateway.Base.Bits.{bit_xor-lt, IsByte}
use data_gateway.Modbus.Crc.{shift, shifts, crc_from, crc16, with_crc, crc_ok}

pub shift-lt : (crc : ℕ) → crc < 2 ^ 16 → shift crc < 2 ^ 16
unfolding shift
shift-lt crc h = ground (arith, bit_xor-lt 16 (crc / 2) 0xa001 (omega arith) (omega arith))

pub shifts-lt : (n crc : ℕ) → crc < 2 ^ 16 → shifts n crc < 2 ^ 16
unfolding shifts
shifts-lt zero crc h = h
shifts-lt (suc n) crc h = shifts-lt n (shift crc) (shift-lt crc h)

pub crc_from-lt :
    (crc : ℕ) (frame : List ℕ) → crc < 2 ^ 16 → All IsByte frame → crc_from crc frame < 2 ^ 16
unfolding crc_from
crc_from-lt crc [] h bytes = h
crc_from-lt crc (b ∷ rest) h (small, bytes) =
    crc_from-lt (shifts 8 (bit_xor crc b)) rest
      (shifts-lt 8 (bit_xor crc b) (bit_xor-lt 16 crc b h (omega arith))) bytes

-- The checksum of any byte string fits in sixteen bits, so that packing it never fails.
pub crc16-lt : (frame : List ℕ) → All IsByte frame → crc16 frame < 65536
unfolding crc16
crc16-lt frame bytes = crc_from-lt 0xffff frame (omega arith) bytes

pub length-with_crc : (frame : List ℕ) → length (with_crc frame) ≡ length frame + 2
unfolding with_crc
length-with_crc frame = omega (arith, length-append {0} frame _)

-- The two ends of a frame: what the checksum covers, and the checksum as it was sent.
pub crc_ok_parts :
    (frame : List ℕ) (lo hi : ℕ)
    → 2 ≤ length frame
    → crc_ok (frame ++ (lo ∷ hi ∷ [])) ≡ (lo + 256 * hi == crc16 frame)
unfolding crc_ok
crc_ok_parts frame lo hi long =
    let tail : List ℕ = lo ∷ hi ∷ [] in
    let n : length (frame ++ tail) - 2 ≡ length frame =
      omega (arith, length-append {0} frame tail) in
    let four : leb 4 (length (frame ++ tail)) ≡ true =
      le→leb 4 _ (omega (arith, length-append {0} frame tail)) in
    rw (four, n, take-append_left _ frame tail refl, drop-append_left _ frame tail refl)

-- A frame of at least two bytes that `with_crc` closed is accepted by `crc_ok`.
pub crc_ok-with_crc : (frame : List ℕ) → 2 ≤ length frame → crc_ok (with_crc frame) ≡ true
unfolding with_crc
crc_ok-with_crc frame long =
    rw (crc_ok_parts frame (crc16 frame % 256) (crc16 frame / 256) long) (ground arith)
