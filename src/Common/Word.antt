-- ===== src/Common/Word.antt =====
-- `u64` counters: the wrap-around of `+= 1` written out.
use Prim.Native.Nat.{ℕ, ◌+◌, ◌%◌, ◌^◌, ◌<◌}
use mathlib.Core.Path.{◌≡◌}
use native.Mathlib.Omega.{arith}

abbrev pub u64_mod : ℕ
u64_mod = 2 ^ 64

-- `n += 1` on a `u64`.
unfoldable pub succ_u64 : ℕ → ℕ
succ_u64 n = (n + 1) % u64_mod

pub succ_u64-eq : (n : ℕ) → n + 1 < u64_mod → succ_u64 n ≡ n + 1
unfolding succ_u64
succ_u64-eq n h = omega arith
