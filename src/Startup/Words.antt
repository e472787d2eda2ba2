-- ===== src/Startup/Words.antt =====
-- An `int64` of Go by its 64 bits.
use Prim.Native.Nat.{◌^◌}
use userd.Common.{ℕ, ◌-◌, ltb, if◌then◌else◌}
use userd.Common.Int.{ℤ, pos, negsuc}

abbrev pub signed64 : ℕ → ℤ
signed64 n = if ltb n (2 ^ 63) then pos n else negsuc (2 ^ 64 - n - 1)

abbrev pub word64 : ℤ → ℕ
word64 (pos n) = n
word64 (negsuc n) = 2 ^ 64 - n - 1
