-- ===== src/Modbus/Transport/Checksum.antt =====
-- The CRC of RTU frames and the LRC of ASCII frames, in
-- src_py/hat/drivers/modbus/transport/encoder.py.
pub mod Division
use hat_drivers.Base.{ℕ, zero, suc, ◌+◌, ◌-◌, ◌/◌, ◌%◌, ◌≡◌, bit_and, bit_xor, List, [], ◌∷◌}
use hat_drivers.Base.{◌==◌, if◌then◌else◌, arith, All}
use hat_drivers.Base.Bits.{bit_xor-lt}
use hat_drivers.Base.Bytes.{sum, IsByte, IsU16}

-- One round of `for _ in range(8)`
unfoldable pub crc_bit : ℕ → ℕ
crc_bit crc = let lsb = bit_and crc 1 in if lsb == 0 then crc / 2 else bit_xor (crc / 2) 0xA001

unfoldable pub crc_bits : ℕ → ℕ → ℕ
unfolding crc_bit
crc_bits zero crc = crc
crc_bits (suc n) crc = crc_bits n (crc_bit crc)

unfoldable pub crc_from : ℕ → List ℕ → ℕ
unfolding crc_bits
crc_from crc [] = crc
crc_from crc (i ∷ bytes) = crc_from (crc_bits 8 (bit_xor crc i)) bytes

unfoldable pub calculate_crc : List ℕ → ℕ
unfolding crc_from
calculate_crc bytes = crc_from 0xFFFF bytes

-- `(~sum(data) + 1) & 0xFF`: minus the sum, in 8 bits
unfoldable pub calculate_lrc : List ℕ → ℕ
calculate_lrc bytes = (256 - sum bytes % 256) % 256

crc_bit-lt : (crc : ℕ) → IsU16 crc → IsU16 (crc_bit crc)
unfolding crc_bit
crc_bit-lt crc h = ground (arith, bit_xor-lt 16 (crc / 2) 0xA001 (omega arith) (omega arith))

crc_bits-lt : (n crc : ℕ) → IsU16 crc → IsU16 (crc_bits n crc)
unfolding crc_bits
crc_bits-lt zero crc h = h
crc_bits-lt (suc n) crc h = crc_bits-lt n (crc_bit crc) (crc_bit-lt crc h)

crc_from-lt : (crc : ℕ) (bytes : List ℕ) → IsU16 crc → All IsByte bytes → IsU16 (crc_from crc bytes)
unfolding crc_from
crc_from-lt crc [] h k = h
crc_from-lt crc (i ∷ bytes) h k =
    crc_from-lt (crc_bits 8 (bit_xor crc i)) bytes
      (crc_bits-lt 8 (bit_xor crc i) (bit_xor-lt 16 crc i h (omega (arith, k.0)))) k.1

-- The CRC of bytes fits its two bytes.
pub calculate_crc-IsU16 : (bytes : List ℕ) → All IsByte bytes → IsU16 (calculate_crc bytes)
unfolding calculate_crc
calculate_crc-IsU16 bytes h = crc_from-lt 0xFFFF bytes (omega arith) h

-- The LRC is the byte that makes the sum of a frame a multiple of 256.
pub calculate_lrc-sum :
    (bytes : List ℕ)
    → (IsByte (calculate_lrc bytes)) × ((sum bytes + calculate_lrc bytes) % 256 ≡ 0)
unfolding calculate_lrc
calculate_lrc-sum bytes = (omega arith, omega arith)
