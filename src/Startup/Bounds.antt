-- ===== src/Startup/Bounds.antt =====
-- The life time of a reset token that main.go makes of its flag.
use Prim.Native.Nat.{◌%◌, ◌^◌}
use userd.Common.{ℕ, ◌*◌, ◌≤◌, ◌<◌, ◌≡◌, ◌↔◌, arith}
use userd.Common.Int.{pos}
use userd.Startup.{duration_of_minutes}
use userd.Startup.Words.{signed64}

-- A word that stands for a number below 2 ^ 63 is that number.
signed64-pos : (n m : ℕ) → signed64 n ≡ pos m → (n < 2 ^ 63) × (n ≡ m)
signed64-pos n m e = ground arith

-- A number of nanoseconds that 64 bits keep is one of few minutes.
minutes_fit :
    (m : ℕ)
    → (m * 60_000_000_000 % 2 ^ 64 < 2 ^ 63) × (m * 60_000_000_000 % 2 ^ 64 ≡ m * 60_000_000_000)
    → m ≤ 153_722_867
minutes_fit m (small, kept) = omega arith

-- For every value of the flag, a `uint` of 64 bits, the life time is that many minutes exactly if the
-- value is at most 153722867, the greatest number of minutes that an int64 of nanoseconds holds.
pub duration_of_minutes_lem :
    (minutes : ℕ)
    → minutes < 2 ^ 64
    → (duration_of_minutes minutes ≡ pos (minutes * 60_000_000_000)) ↔ (minutes ≤ 153_722_867)
unfolding duration_of_minutes
duration_of_minutes_lem minutes h =
    ((λ e. minutes_fit minutes (signed64-pos _ _ e)), (λ le. ground arith))
