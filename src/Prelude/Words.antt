-- ===== src/Prelude/Words.antt =====
-- The counters of type `usize` and `u64`, on 64 bits.
use Prim.Native.Nat.{ℕ, ◌+◌, ◌-◌, ◌%◌, min}

abbrev pub usize_max : ℕ
usize_max = 0xffff_ffff_ffff_ffff

-- `n += k`, `n -= k` and `n.saturating_add(k)`
abbrev pub wrapping_inc : ℕ → ℕ → ℕ
wrapping_inc n k = (n + k) % (usize_max + 1)

abbrev pub wrapping_dec : ℕ → ℕ → ℕ
wrapping_dec n k = (n + (usize_max + 1) - k) % (usize_max + 1)

abbrev pub saturating_add : ℕ → ℕ → ℕ
saturating_add n k = min (n + k) usize_max
