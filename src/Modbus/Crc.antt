-- ===== src/Modbus/Crc.antt =====
-- `crc16`, `with_crc` and `crc_ok` of src/twin/common/modbus.py.
pub mod Bounds
pub mod Detects
use data_gateway.Base.{
  ℕ, zero, suc, ◌+◌, ◌-◌, ◌*◌, ◌/◌, ◌%◌, bit_and, bit_xor, Bool, ◌&&◌, List, [], ◌∷◌, ◌++◌, leb,
  ◌==◌, if◌then◌else◌, length, take, drop,
}

-- `(crc >> 1) ^ 0xA001 if crc & 1 else crc >> 1`
unfoldable pub shift : ℕ → ℕ
shift crc = if bit_and crc 1 == 0 then crc / 2 else bit_xor (crc / 2) 0xa001

-- `for _ in range(n)`
unfoldable pub shifts : ℕ → ℕ → ℕ
shifts zero crc = crc
shifts (suc n) crc = shifts n (shift crc)

unfoldable pub crc_from : ℕ → List ℕ → ℕ
crc_from crc [] = crc
crc_from crc (b ∷ rest) = crc_from (shifts 8 (bit_xor crc b)) rest

unfoldable pub crc16 : List ℕ → ℕ
unfolding shift shifts crc_from
crc16 frame = crc_from 0xffff frame

-- `frame + struct.pack("<H", crc16(frame))`; `crc16` of bytes is always in range (`Bounds`).
unfoldable pub with_crc : List ℕ → List ℕ
with_crc frame = frame ++ (crc16 frame % 256 ∷ crc16 frame / 256 ∷ [])

-- `struct.unpack("<H", two bytes)[0]`
abbrev pub unpack_le : List ℕ → ℕ
unpack_le (lo ∷ hi ∷ []) = lo + 256 * hi
unpack_le _ = 0

unfoldable pub crc_ok : List ℕ → Bool
crc_ok frame =
    leb 4 (length frame)
    && unpack_le (drop (length frame - 2) frame) == crc16 (take (length frame - 2) frame)
