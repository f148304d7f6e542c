-- ===== src/Prelude/Int.antt =====
-- Python's integers, under the library's names (its ℤ stands on the unary numbers).
use Prim.Native.Nat.{ℕ, suc, ◌+◌, ◌-◌, bit_and}
use mathlib.Core.Path.{◌≡◌}
use mathlib.Core.Logic.{◌↔◌}
use mathlib.Core.Bool.{Bool, true, false, not}
use native.Mathlib.Omega.{arith}
use xrandrw.Prelude.Tests.{ltb, leb, nat_beq, if◌then◌else◌}
use xrandrw.Prelude.Equality.{Eq}

-- `negsuc n` is -(n + 1).
pub data ℤ : Type 0 where
  pos : ℕ → ℤ
  negsuc : ℕ → ℤ

abbrev pub pos_part : ℤ → ℕ
pos_part (pos n) = n
pos_part (negsuc n) = 0

abbrev pub neg_part : ℤ → ℕ
neg_part (pos n) = 0
neg_part (negsuc n) = suc n

abbrev pub sub_ℕ : ℕ → ℕ → ℤ
sub_ℕ a b = if leb b a then pos (a - b) else negsuc (b - a - 1)

infixl 65 ◌+ℤ◌ ◌-ℤ◌
abbrev pub ◌+ℤ◌ : ℤ → ℤ → ℤ
a +ℤ b = sub_ℕ (pos_part a + pos_part b) (neg_part a + neg_part b)

abbrev pub ◌-ℤ◌ : ℤ → ℤ → ℤ
a -ℤ b = sub_ℕ (pos_part a + neg_part b) (neg_part a + pos_part b)

abbrev int_beq : ℤ → ℤ → Bool
int_beq (pos a) (pos b) = nat_beq a b
int_beq (negsuc a) (negsuc b) = nat_beq a b
int_beq _ _ = false

pub int_beq_iff : (a b : ℤ) → (int_beq a b ≡ true) ↔ (a ≡ b)
int_beq_iff (pos a) (pos b) = ground arith
int_beq_iff (negsuc a) (negsuc b) = ground arith
int_beq_iff (pos a) (negsuc b) = ground arith
int_beq_iff (negsuc a) (pos b) = ground arith

instance abbrev pub int_eq : Eq ℤ
int_eq = record { beq = int_beq; beq_iff = int_beq_iff }

-- a < b
abbrev pub ltb_ℤ : ℤ → ℤ → Bool
ltb_ℤ a b = ltb (pos_part a + neg_part b) (pos_part b + neg_part a)

-- `bool(a & b)`, the two's complement of the negative side included: of two numbers of which one
-- is -(b + 1) the mask keeps the bits of `a` outside `b`, and two negative numbers share a sign.
unfoldable pub intersects : ℤ → ℤ → Bool
intersects (pos a) (pos b) = not (nat_beq (bit_and a b) 0)
intersects (pos a) (negsuc b) = not (nat_beq (bit_and a b) a)
intersects (negsuc a) (pos b) = not (nat_beq (bit_and b a) b)
intersects (negsuc a) (negsuc b) = true

pub +ℤ_cancel : (a b : ℤ) → a +ℤ (b -ℤ a) ≡ b
+ℤ_cancel a b = ground arith
