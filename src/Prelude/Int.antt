-- ===== src/Prelude/Int.antt =====
-- Signed machine integers: their values, and the order of the values.
use Prim.Native.Nat.{ℕ, suc, ◌+◌, ◌-◌, ◌^◌, ◌≤◌, ◌<◌}
use mathlib.Core.Bool.{Bool, false, true}
use mathlib.Core.Path.{◌≡◌}
use yellowstone.Prelude.Tests.{ltb, leb, ◌==◌, if◌then◌else◌}
use native.Mathlib.Omega.{arith}
use native.Mathlib.Decide.{ℕ_discrete}

-- `negsuc n` is -(n + 1).
pub data ℤ : Type 0 where
  pos : ℕ → ℤ
  negsuc : ℕ → ℤ

unfoldable pub int_eq : ℤ → ℤ → Bool
int_eq (pos a) (pos b) = a == b
int_eq (pos a) (negsuc b) = false
int_eq (negsuc a) (pos b) = false
int_eq (negsuc a) (negsuc b) = a == b

unfoldable pub int_lt : ℤ → ℤ → Bool
int_lt (pos a) (pos b) = ltb a b
int_lt (pos a) (negsuc b) = false
int_lt (negsuc a) (pos b) = true
int_lt (negsuc a) (negsuc b) = ltb b a

pub int_eq_sound : (a b : ℤ) → int_eq a b ≡ true → a ≡ b
unfolding int_eq
int_eq_sound a b h = ground arith

pub int_eq_refl : (a : ℤ) → int_eq a a ≡ true
unfolding int_eq
int_eq_refl a = ground arith

pub ℤ-discrete : Discrete ℤ
ℤ-discrete = hlevel (ℕ_discrete)

pub ℤ-set : IsSet ℤ
ℤ-set = hlevel (ℕ_discrete)

-- `static_cast<std::size_t>` of a signed 64-bit value.
unfoldable pub to_index : ℤ → ℕ
to_index (pos n) = n
to_index (negsuc n) = 2 ^ 64 - 1 - n

abbrev pub pos_part : ℤ → ℕ
pos_part (pos n) = n
pos_part (negsuc n) = 0

abbrev pub neg_part : ℤ → ℕ
neg_part (pos n) = 0
neg_part (negsuc n) = suc n

-- a - b, as an integer.
abbrev pub sub_ℕ : ℕ → ℕ → ℤ
sub_ℕ a b = if leb b a then pos (a - b) else negsuc (b - a - 1)

infixl 65 ◌+ℤ◌ ◌-ℤ◌
infix 50 ◌≤ℤ◌
unfoldable pub ◌+ℤ◌ : ℤ → ℤ → ℤ
a +ℤ b = sub_ℕ (pos_part a + pos_part b) (neg_part a + neg_part b)

unfoldable pub ◌-ℤ◌ : ℤ → ℤ → ℤ
a -ℤ b = sub_ℕ (pos_part a + neg_part b) (neg_part a + pos_part b)

abbrev pub ◌≤ℤ◌ : ℤ → ℤ → Type 0
a ≤ℤ b = pos_part a + neg_part b ≤ pos_part b + neg_part a

-- `omega` goes through the two parts of an integer.
pub +ℤ_parts :
    (a b : ℤ)
    → pos_part (a +ℤ b) + neg_part a + neg_part b ≡ neg_part (a +ℤ b) + pos_part a + pos_part b
unfolding ◌+ℤ◌
+ℤ_parts a b = ground arith

pub -ℤ_parts :
    (a b : ℤ)
    → pos_part (a -ℤ b) + neg_part a + pos_part b ≡ neg_part (a -ℤ b) + pos_part a + neg_part b
unfolding ◌-ℤ◌
-ℤ_parts a b = ground arith

pub eq_of_parts : (a b : ℤ) → pos_part a + neg_part b ≡ pos_part b + neg_part a → a ≡ b
eq_of_parts a b h = ground arith

pub int_lt_sound : (a b : ℤ) → int_lt a b ≡ true → pos_part a + neg_part b < pos_part b + neg_part a
unfolding int_lt
int_lt_sound a b h = ground arith

pub int_lt_false : (a b : ℤ) → int_lt a b ≡ false → b ≤ℤ a
unfolding int_lt
int_lt_false a b h = ground arith

pub int_lt_of_lt : (a b : ℤ) → pos_part a + neg_part b < pos_part b + neg_part a → int_lt a b ≡ true
unfolding int_lt
int_lt_of_lt a b h = ground arith

pub int_lt_of_le : (a b : ℤ) → b ≤ℤ a → int_lt a b ≡ false
unfolding int_lt
int_lt_of_le a b h = ground arith

pub ruleset int_laws = (arith, +ℤ_parts, -ℤ_parts, eq_of_parts, int_lt_sound, int_lt_false)
