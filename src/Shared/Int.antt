-- ===== src/Shared/Int.antt =====
-- Signed integers over the native numbers, and Go's int32, whose operations wrap.
use Prim.Native.Nat.{ℕ, suc, ◌+◌, ◌-◌, ◌*◌, ◌/◌, ◌%◌, ◌≤◌, ◌<◌}
use mathlib.Core.Path.{◌≡◌}
use mathlib.Core.Bool.{Bool}
use native.Mathlib.Omega.{arith}
use matchmaking.Shared.Tests.{ltb, leb, if◌then◌else◌}

-- `negsuc n` is -(n + 1).
pub data ℤ : Type 0 where
  pos : ℕ → ℤ
  negsuc : ℕ → ℤ

abbrev pub pos_part : ℤ → ℕ
pos_part (pos n) = n
pos_part (negsuc n) = 0

abbrev pub neg_part : ℤ → ℕ
neg_part (pos n) = 0
neg_part (negsuc n) = suc n

-- a - b, as an integer.
abbrev pub sub_ℕ : ℕ → ℕ → ℤ
sub_ℕ a b = if leb b a then pos (a - b) else negsuc (b - a - 1)

infixl 65 ◌+ℤ◌ ◌-ℤ◌
unfoldable pub ◌+ℤ◌ : ℤ → ℤ → ℤ
a +ℤ b = sub_ℕ (pos_part a + pos_part b) (neg_part a + neg_part b)

unfoldable pub ◌-ℤ◌ : ℤ → ℤ → ℤ
a -ℤ b = sub_ℕ (pos_part a + neg_part b) (neg_part a + pos_part b)

infix 50 ◌≤ℤ◌
abbrev pub ◌≤ℤ◌ : ℤ → ℤ → Type 0
a ≤ℤ b = pos_part a + neg_part b ≤ pos_part b + neg_part a

abbrev pub ltb_ℤ : ℤ → ℤ → Bool
ltb_ℤ a b = ltb (pos_part a + neg_part b) (pos_part b + neg_part a)

abbrev pub leb_ℤ : ℤ → ℤ → Bool
leb_ℤ a b = leb (pos_part a + neg_part b) (pos_part b + neg_part a)

abbrev u32_mod : ℕ
u32_mod = 4294967296

abbrev i32_half : ℕ
i32_half = 2147483648

-- The residue modulo 2 ^ 32.
abbrev residue : ℤ → ℕ
residue (pos n) = n % u32_mod
residue (negsuc n) = u32_mod - 1 - n % u32_mod

-- The int32 with a residue.
abbrev of_residue : ℕ → ℤ
of_residue r = if ltb r i32_half then pos r else negsuc (u32_mod - r - 1)

unfoldable pub wrap32 : ℤ → ℤ
wrap32 x = of_residue (residue x)

-- The integer is representable as an int32.
abbrev pub IsInt32 : ℤ → Type 0
IsInt32 x = (pos_part x < i32_half) × (neg_part x ≤ i32_half)

unfoldable pub add32 : ℤ → ℤ → ℤ
unfolding ◌+ℤ◌ wrap32
add32 a b = wrap32 (a +ℤ b)

unfoldable pub sub32 : ℤ → ℤ → ℤ
unfolding ◌-ℤ◌ wrap32
sub32 a b = wrap32 (a -ℤ b)

unfoldable pub neg32 : ℤ → ℤ
unfolding sub32
neg32 a = sub32 (pos 0) a

-- Multiplication by a numeral.
unfoldable pub scale32 : ℕ → ℤ → ℤ
unfolding wrap32
scale32 k a = wrap32 (sub_ℕ (k * pos_part a) (k * neg_part a))

-- Division that truncates towards zero, as Go's does.
unfoldable pub quot : ℤ → ℕ → ℤ
quot (pos n) k = pos (n / k)
quot (negsuc n) k = sub_ℕ 0 (suc n / k)

-- In range the operations do not wrap.
pub wrap32_id : (x : ℤ) → IsInt32 x → wrap32 x ≡ x
unfolding wrap32
wrap32_id x h = ground arith
