-- ===== src/Prelude/Signed.antt =====
-- Integers, for the numbers that a request or a probe may send.
use Prim.Native.Nat.{ℕ, suc, ◌+◌, ◌-◌, ◌*◌}
use gpu_watch.Prelude.Tests.{leb, if◌then◌else◌}

-- `negsuc n` is -(n + 1).
pub data ℤ : Type 0 where
  pos : ℕ → ℤ
  negsuc : ℕ → ℤ

-- `n + z`
abbrev pub add_to : ℕ → ℤ → ℤ
add_to n (pos m) = pos (n + m)
add_to n (negsuc m) = if leb (suc m) n then pos (n - suc m) else negsuc (suc m - n - 1)

-- `k * z`, for a positive k
abbrev pub scale : ℕ → ℤ → ℤ
scale k (pos m) = pos (k * m)
scale k (negsuc m) = negsuc (k * suc m - 1)
