-- ===== src/Word/Step.antt =====
-- The binary digits of a word, and what the three bit operations do to each of them.
use Prim.Native.Nat.{
  digits, bitwise, differ, bit_and, bit_or, bit_xor, bit_and-bitwise, bit_or-bitwise,
  bit_xor-bitwise,
}
use native.Mathlib.Nat.{le_refl}
use obelisk_os.Prelude.{ℕ, zero, suc, ◌+◌, ◌*◌, ◌/◌, ◌%◌, ◌≤◌, min, max, ◌≡◌, refl, arith}

-- Digit `k` of `w`, 0 or 1.
abbrev pub bit : ℕ → ℕ → ℕ
bit w zero = w % 2
bit w (suc k) = bit (w / 2) k

pub bit_le : (w k : ℕ) → bit w k ≤ 1
bit_le w zero = omega arith
bit_le w (suc k) = bit_le (w / 2) k

-- The native operations recur with fuel; enough fuel is as good as any other.
module _ (rest : ℕ → ℕ) (op : ℕ → ℕ → ℕ) where
  enough : (m n a b : ℕ) → a ≤ m → a ≤ n → digits rest op m a b ≡ digits rest op n a b
  enough zero zero a b p q = refl
  enough zero (suc n) zero b p q = refl
  enough zero (suc n) (suc a) b p q = absurd (omega arith)
  enough (suc m) zero zero b p q = refl
  enough (suc m) zero (suc a) b p q = absurd (omega arith)
  enough (suc m) (suc n) zero b p q = refl
  enough (suc m) (suc n) (suc a) b p q =
      rw (enough m n (suc a / 2) (b / 2) (omega arith) (omega arith))

  lowest :
      (a b : ℕ)
      → bitwise rest op (suc a) b ≡ bitwise rest op (suc a / 2) (b / 2) * 2 + op (suc a % 2) (b % 2)
  lowest a b = omega (arith, enough a (suc a / 2) (suc a / 2) (b / 2) (omega arith) (le_refl _))

pub bit_or_low : (a b : ℕ) → bit_or a b ≡ bit_or (a / 2) (b / 2) * 2 + max (a % 2) (b % 2)
bit_or_low zero b = simp bit_or-bitwise (omega arith)
bit_or_low (suc a) b = simp bit_or-bitwise (lowest (λ y. y) max a b)

pub bit_and_low : (a b : ℕ) → bit_and a b ≡ bit_and (a / 2) (b / 2) * 2 + min (a % 2) (b % 2)
bit_and_low zero b = simp bit_and-bitwise (omega arith)
bit_and_low (suc a) b = simp bit_and-bitwise (lowest (λ y. 0) min a b)

pub bit_xor_low : (a b : ℕ) → bit_xor a b ≡ bit_xor (a / 2) (b / 2) * 2 + differ (a % 2) (b % 2)
bit_xor_low zero b = simp bit_xor-bitwise (omega arith)
bit_xor_low (suc a) b = simp bit_xor-bitwise (lowest (λ y. y) differ a b)

differ_le : (x y : ℕ) → x ≤ 1 → y ≤ 1 → differ x y ≤ 1
differ_le zero y p q = q
differ_le (suc x) zero p q = p
differ_le (suc zero) (suc y) p q = omega arith
differ_le (suc (suc x)) (suc y) p q = absurd (omega arith)

pub bit_or-bit : (a b k : ℕ) → bit (bit_or a b) k ≡ max (bit a k) (bit b k)
bit_or-bit a b zero = omega (arith, bit_or_low a b)
bit_or-bit a b (suc k) = rw half (bit_or-bit (a / 2) (b / 2) k)
  where
    half : bit_or a b / 2 ≡ bit_or (a / 2) (b / 2)
    half = omega (arith, bit_or_low a b)

pub bit_and-bit : (a b k : ℕ) → bit (bit_and a b) k ≡ min (bit a k) (bit b k)
bit_and-bit a b zero = omega (arith, bit_and_low a b)
bit_and-bit a b (suc k) = rw half (bit_and-bit (a / 2) (b / 2) k)
  where
    half : bit_and a b / 2 ≡ bit_and (a / 2) (b / 2)
    half = omega (arith, bit_and_low a b)

pub bit_xor-bit : (a b k : ℕ) → bit (bit_xor a b) k ≡ differ (bit a k) (bit b k)
bit_xor-bit a b zero =
    omega (arith, bit_xor_low a b, differ_le (a % 2) (b % 2) (omega arith) (omega arith))
bit_xor-bit a b (suc k) = rw half (bit_xor-bit (a / 2) (b / 2) k)
  where
    half : bit_xor a b / 2 ≡ bit_xor (a / 2) (b / 2)
    half = omega (arith, bit_xor_low a b, differ_le (a % 2) (b % 2) (omega arith) (omega arith))
