-- ===== src/Bits/Digits.antt =====
-- The native operations stand for a recursion on the binary digits, whose count is the first number.
-- Here the count goes: one equation splits off the lowest digit, and zero is a unit or absorbs.
use Prim.Native.Nat.{min, max, digits, bitwise, bit_and-bitwise, bit_or-bitwise}
use rustsbi_hifive_unmatched.Base.{
  ℕ, zero, suc, ◌+◌, ◌*◌, ◌/◌, ◌%◌, ◌≤◌, bit_and, bit_or, ◌≡◌, refl, arith, ap,
}

module _ (rest : ℕ → ℕ) (op : ℕ → ℕ → ℕ) where
  abbrev counted : ℕ → ℕ → ℕ → ℕ
  counted = digits rest op

  -- Two counts that are both enough.
  counted_same : (a b f g : ℕ) → a ≤ f → a ≤ g → counted f a b ≡ counted g a b
  counted_same zero b zero zero hf hg = refl
  counted_same zero b zero (suc g) hf hg = refl
  counted_same zero b (suc f) zero hf hg = refl
  counted_same zero b (suc f) (suc g) hf hg = refl
  counted_same (suc a) b zero g hf hg = absurd (omega arith)
  counted_same (suc a) b (suc f) zero hf hg = absurd (omega arith)
  counted_same (suc a) b (suc f) (suc g) hf hg =
      ap (λ (t : ℕ). t * 2 + op (suc a % 2) (b % 2))
        (counted_same (suc a / 2) (b / 2) f g (omega arith) (omega arith))

  bitwise_low :
      (a b : ℕ)
      → bitwise rest op (suc a) b ≡ bitwise rest op (suc a / 2) (b / 2) * 2 + op (suc a % 2) (b % 2)
  bitwise_low a b =
      ap (λ (t : ℕ). t * 2 + op (suc a % 2) (b % 2))
        (counted_same (suc a / 2) (b / 2) a (suc a / 2) (omega arith) (omega arith))

pub bit_and_low : (a b : ℕ) → bit_and a b ≡ bit_and (a / 2) (b / 2) * 2 + min (a % 2) (b % 2)
bit_and_low zero b = omega (arith, bit_and-bitwise 0 b, bit_and-bitwise 0 (b / 2))
bit_and_low (suc a) b = simp bit_and-bitwise (bitwise_low (λ t. zero) min a b)

pub bit_or_low : (a b : ℕ) → bit_or a b ≡ bit_or (a / 2) (b / 2) * 2 + max (a % 2) (b % 2)
bit_or_low zero b = omega (arith, bit_or-bitwise 0 b, bit_or-bitwise 0 (b / 2))
bit_or_low (suc a) b = simp bit_or-bitwise (bitwise_low (λ t. t) max a b)
