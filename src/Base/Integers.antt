-- ===== src/Base/Integers.antt =====
-- Integers, for the `int` and `int32` of the source that may be negative.
use Prim.Native.Nat.{ℕ, ◌-◌, ◌%◌}
use go_image_service.Base.Equality.{if◌then◌else◌, ltb}

-- `negsuc n` is -n - 1.
pub data ℤ : Type 0 where
  pos : ℕ → ℤ
  negsuc : ℕ → ℤ

-- The number that 32 bits in two's complement stand for.
abbrev pub signed32 : ℕ → ℤ
signed32 n = if ltb n 0x80000000 then pos n else negsuc (0xFFFFFFFF - n)

-- The low 32 bits of -n - 1.
abbrev low32 : ℤ → ℕ
low32 (pos n) = n % 0x100000000
low32 (negsuc n) = 0xFFFFFFFF - n % 0x100000000

-- `int32(x)`
unfoldable pub int32 : ℤ → ℤ
int32 x = signed32 (low32 x)
