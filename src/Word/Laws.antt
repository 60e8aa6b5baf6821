-- ===== src/Word/Laws.antt =====
-- One-digit masks, complements and shifts: what each word operation of the bitmaps does to a digit.
use Prim.Native.Nat.{bit_and, bit_or, bit_xor, differ, bit_and-bitwise}
use native.Mathlib.Nat.{pow-suc, one-le-pow}
use obelisk_os.Prelude.{
  ℕ, zero, suc, ◌-◌, ◌*◌, ◌/◌, ◌^◌, ◌≤◌, ◌<◌, ◌≡◌, refl, ap, arith, ◌==◌, leb, if◌then◌else◌,
}
use obelisk_os.Word.Step.{
  bit, bit_le, bit_or-bit, bit_and-bit, bit_xor-bit, bit_and_low, bit_or_low,
}

-- `~x` in a word of `w` bits.
abbrev pub complement : ℕ → ℕ → ℕ
complement w x = 2 ^ w - 1 - x

pub bit-zero : (k : ℕ) → bit 0 k ≡ 0
bit-zero zero = refl
bit-zero (suc k) = bit-zero k

-- The digit of `1 << k` is set at `k` only.
pub bit-pow : (k j : ℕ) → bit (2 ^ k) j ≡ (if k == j then 1 else 0)
bit-pow zero zero = refl
bit-pow zero (suc j) = ground (arith, bit-zero j)
bit-pow (suc k) zero = ground (arith, pow-suc 2 k)
bit-pow (suc k) (suc j) = rw half (ground (arith, bit-pow k j))
  where
    half : 2 ^ suc k / 2 ≡ 2 ^ k
    half = omega (arith, pow-suc 2 k)

-- `~x` flips each digit of the word.
pub bit-complement : (w x k : ℕ) → x < 2 ^ w → k < w → bit (complement w x) k ≡ 1 - bit x k
bit-complement zero x k h p = absurd (omega arith)
bit-complement (suc w) x zero h p = omega (arith, pow-suc 2 w, one-le-pow w 2)
bit-complement (suc w) x (suc k) h p =
    rw half (bit-complement w (x / 2) k (omega (arith, pow-suc 2 w)) (omega arith))
  where
    half : complement (suc w) x / 2 ≡ complement w (x / 2)
    half = omega (arith, pow-suc 2 w, one-le-pow w 2)

bit_and-zero_below : (n a : ℕ) → a ≤ n → bit_and a 0 ≡ 0
bit_and-zero_below zero zero h = refl
bit_and-zero_below zero (suc a) h = absurd (omega arith)
bit_and-zero_below (suc n) zero h = refl
bit_and-zero_below (suc n) (suc a) h =
    omega (arith, bit_and_low (suc a) 0, bit_and-zero_below n (suc a / 2) (omega arith))

bit_and-zero : (a : ℕ) → bit_and a 0 ≡ 0
bit_and-zero a = bit_and-zero_below a a (omega arith)

-- `w & (1 << k)` is the digit in its place, so the test `!= 0` reads the digit.
pub bit_and-pow : (w k : ℕ) → bit_and w (2 ^ k) ≡ bit w k * 2 ^ k
bit_and-pow w zero = omega (arith, bit_and_low w 1, bit_and-zero (w / 2))
bit_and-pow w (suc k) = omega (
  arith,
  bit_and_low w (2 ^ suc k),
  pow-suc 2 k,
  bit_and-pow (w / 2) k,
  ap (λ (t : ℕ). bit (w / 2) k * t) (pow-suc 2 k),
  ap (bit_and (w / 2)) half,
)
  where
    half : 2 ^ suc k / 2 ≡ 2 ^ k
    half = omega (arith, pow-suc 2 k)

pub or_mask : (w k j : ℕ) → bit (bit_or w (2 ^ k)) j ≡ (if k == j then 1 else bit w j)
or_mask w k j = ground (arith, bit_or-bit w (2 ^ k) j, bit-pow k j, bit_le w j)

differ-zero : (x : ℕ) → differ x 0 ≡ x
differ-zero zero = refl
differ-zero (suc x) = refl

differ-one : (x : ℕ) → x ≤ 1 → differ x 1 ≡ 1 - x
differ-one zero h = refl
differ-one (suc zero) h = refl
differ-one (suc (suc x)) h = absurd (omega arith)

pub xor_mask : (w k j : ℕ) → bit (bit_xor w (2 ^ k)) j ≡ (if k == j then 1 - bit w j else bit w j)
xor_mask w k j =
    rw (bit_xor-bit w (2 ^ k) j, bit-pow k j)
      (ground (arith, differ-zero (bit w j), differ-one (bit w j) (bit_le w j)))

pub two-pow-lt : (k w : ℕ) → k < w → 2 ^ k < 2 ^ w
two-pow-lt k zero h = absurd (omega arith)
two-pow-lt zero (suc w) h = omega (arith, pow-suc 2 w, one-le-pow w 2)
two-pow-lt (suc k) (suc w) h = omega (arith, pow-suc 2 w, pow-suc 2 k, two-pow-lt k w (omega arith))

-- `w & ~(1 << k)` in a word of `n` bits.
pub and_complement_mask :
    (n w k j : ℕ)
    → k < n
    → j < n
    → bit (bit_and w (complement n (2 ^ k))) j ≡ (if k == j then 0 else bit w j)
and_complement_mask n w k j p q = ground (
  arith,
  bit_and-bit w (complement n (2 ^ k)) j,
  bit-complement n (2 ^ k) j (two-pow-lt k n p) q,
  bit-pow k j,
  bit_le w j,
)

-- The digits of `~0 << k` in a word of `w` bits.
pub bit-high_mask : (w k j : ℕ) → k ≤ w → j < w → bit (2 ^ w - 2 ^ k) j ≡ (if leb k j then 1 else 0)
bit-high_mask zero k j p q = absurd (omega arith)
bit-high_mask (suc w) zero zero p q = omega (arith, pow-suc 2 w, one-le-pow w 2)
bit-high_mask (suc w) zero (suc j) p q = rw half (ground (arith, bit-high_mask w 0 j))
  where
    half : (2 ^ suc w - 2 ^ 0) / 2 ≡ 2 ^ w - 2 ^ 0
    half = omega (arith, pow-suc 2 w, one-le-pow w 2)
bit-high_mask (suc w) (suc k) zero p q = ground (arith, pow-suc 2 w, pow-suc 2 k)
bit-high_mask (suc w) (suc k) (suc j) p q =
    rw half (ground (arith, bit-high_mask w k j (omega arith) (omega arith)))
  where
    half : (2 ^ suc w - 2 ^ suc k) / 2 ≡ 2 ^ w - 2 ^ k
    half = omega (arith, pow-suc 2 w, pow-suc 2 k)

zero-bit_and : (b : ℕ) → bit_and 0 b ≡ 0
zero-bit_and b = simp bit_and-bitwise

bit_and_le_below : (n a b : ℕ) → a ≤ n → bit_and a b ≤ a
bit_and_le_below zero zero b h = omega (arith, zero-bit_and b)
bit_and_le_below zero (suc a) b h = absurd (omega arith)
bit_and_le_below (suc n) zero b h = bit_and_le_below n zero b (omega arith)
bit_and_le_below (suc n) (suc a) b h =
    omega (arith, bit_and_low (suc a) b, bit_and_le_below n (suc a / 2) (b / 2) (omega arith))

pub bit_and_le : (a b : ℕ) → bit_and a b ≤ a
bit_and_le a b = bit_and_le_below a a b (omega arith)

-- `|` stays in a word.
pub bit_or_lt : (n a b : ℕ) → a < 2 ^ n → b < 2 ^ n → bit_or a b < 2 ^ n
bit_or_lt zero zero zero p q = omega arith
bit_or_lt zero zero (suc b) p q = absurd (omega arith)
bit_or_lt zero (suc a) b p q = absurd (omega arith)
bit_or_lt (suc n) a b p q = omega (
  arith,
  pow-suc 2 n,
  bit_or_low a b,
  bit_or_lt n (a / 2) (b / 2) (omega (arith, pow-suc 2 n)) (omega (arith, pow-suc 2 n)),
)
