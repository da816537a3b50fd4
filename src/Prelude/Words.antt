-- ===== src/Prelude/Words.antt =====
-- ULONG and UCHAR arithmetic, with its wrap-around.
use Prim.Native.Nat.{ℕ, ◌+◌, ◌-◌, ◌%◌, ◌/◌, ◌^◌}

-- `++` and `--` on a ULONG. On a LONG they are the same operations on the bit pattern.
abbrev pub inc32 : ℕ → ℕ
inc32 n = (n + 1) % 2 ^ 32

abbrev pub dec32 : ℕ → ℕ
dec32 n = (n + 2 ^ 32 - 1) % 2 ^ 32

-- `(UCHAR)(n & 0xFF)` and `(UCHAR)((n >> 8) & 0xFF)`.
abbrev pub low_byte : ℕ → ℕ
low_byte n = n % 256

abbrev pub second_byte : ℕ → ℕ
second_byte n = n / 256 % 256
