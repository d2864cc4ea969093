-- ===== src/Prelude/Int.antt =====
-- Signed integers over the native numbers, and the two's complement widths i8, i16 and i32.
use Prim.Native.Nat.{ℕ, suc, ◌+◌, ◌-◌, ◌*◌, ◌%◌, ◌≤◌, ◌<◌}
use mathlib.Core.Path.{◌≡◌}
use mathlib.Core.Bool.{Bool}
use native.Mathlib.Omega.{arith}
use jvm_rs.Prelude.Tests.{ltb, leb, ◌==◌, ==_refl, if◌then◌else◌}

-- `negsuc n` is -(n + 1).
pub data ℤ : Type 0 where
  pos : ℕ → ℤ
  negsuc : ℕ → ℤ

abbrev pub pos_part : ℤ → ℕ
pos_part (pos n) = n
pos_part (negsuc n) = 0

abbrev pub neg_part : ℤ → ℕ
neg_part (pos n) = 0
neg_part (negsuc n) = suc n

-- a - b, as an integer.
abbrev pub sub_ℕ : ℕ → ℕ → ℤ
sub_ℕ a b = if leb b a then pos (a - b) else negsuc (b - a - 1)

infixl 65 ◌+ℤ◌ ◌-ℤ◌
infixl 70 ◌*ℤ◌
infix 50 ◌≤ℤ◌
unfoldable pub ◌+ℤ◌ : ℤ → ℤ → ℤ
a +ℤ b = sub_ℕ (pos_part a + pos_part b) (neg_part a + neg_part b)

unfoldable pub ◌-ℤ◌ : ℤ → ℤ → ℤ
a -ℤ b = sub_ℕ (pos_part a + neg_part b) (neg_part a + pos_part b)

unfoldable pub ◌*ℤ◌ : ℤ → ℤ → ℤ
a *ℤ b =
    sub_ℕ (pos_part a * pos_part b + neg_part a * neg_part b)
      (pos_part a * neg_part b + neg_part a * pos_part b)

abbrev pub ◌≤ℤ◌ : ℤ → ℤ → Type 0
a ≤ℤ b = pos_part a + neg_part b ≤ pos_part b + neg_part a

abbrev pub leb_ℤ : ℤ → ℤ → Bool
leb_ℤ a b = leb (pos_part a + neg_part b) (pos_part b + neg_part a)

abbrev pub eqb_ℤ : ℤ → ℤ → Bool
eqb_ℤ (pos a) (pos b) = a == b
eqb_ℤ (negsuc a) (negsuc b) = a == b
eqb_ℤ _ _ = Bool.false

pub eqb_ℤ_refl : (a : ℤ) → eqb_ℤ a a ≡ Bool.true
eqb_ℤ_refl (pos n) = ==_refl n
eqb_ℤ_refl (negsuc n) = ==_refl n

-- The bit patterns of width 32 and the numbers that they stand for: `x as u32`, `x as i32`.
abbrev pub u32_mod : ℕ
u32_mod = 0x1_0000_0000

unfoldable pub to_u32 : ℤ → ℕ
to_u32 (pos n) = n % u32_mod
to_u32 (negsuc n) = u32_mod - 1 - n % u32_mod

unfoldable pub from_u32 : ℕ → ℤ
from_u32 r = if ltb r 0x8000_0000 then pos r else negsuc (u32_mod - 1 - r)

-- `r as i8`, `r as i16`
unfoldable pub from_u8 : ℕ → ℤ
from_u8 r = if ltb r 0x80 then pos r else negsuc (0xff - r)

unfoldable pub from_u16 : ℕ → ℤ
from_u16 r = if ltb r 0x8000 then pos r else negsuc (0xffff - r)

abbrev pub IsI32 : ℤ → Type 0
IsI32 z = (pos_part z < 0x8000_0000) × (neg_part z ≤ 0x8000_0000)

-- `wrapping_add`, `wrapping_sub`, `wrapping_mul` of `i32`.
unfoldable pub wrapping_add : ℤ → ℤ → ℤ
wrapping_add a b = from_u32 (to_u32 (a +ℤ b))

unfoldable pub wrapping_sub : ℤ → ℤ → ℤ
wrapping_sub a b = from_u32 (to_u32 (a -ℤ b))

unfoldable pub wrapping_mul : ℤ → ℤ → ℤ
wrapping_mul a b = from_u32 (to_u32 (a *ℤ b))

pub from_u32-to_u32 : (z : ℤ) → IsI32 z → from_u32 (to_u32 z) ≡ z
unfolding from_u32 to_u32
from_u32-to_u32 (pos n) h = ground arith
from_u32-to_u32 (negsuc n) h = ground arith
