-- ===== src/Word/First.antt =====
-- The compiler's `__builtin_ffsl` and `__builtin_clzl` on words of `n` bits.
use native.Mathlib.Nat.{pow-suc}
use obelisk_os.Prelude.{
  ℕ, zero, suc, ◌+◌, ◌-◌, ◌/◌, ◌%◌, ◌^◌, ◌≤◌, ◌<◌, ◌≡◌, ◌≢◌, arith, ◌==◌, if◌then◌else◌, false,
  refl, Bool-cases, inl, inr,
}
use obelisk_os.Word.Step.{bit}

-- One more than the position of the lowest set digit, 0 if none of the `n` is set.
unfoldable pub builtin_ffs : ℕ → ℕ → ℕ
builtin_ffs zero x = 0
builtin_ffs (suc n) x =
    let above = builtin_ffs n (x / 2) in
    if x % 2 == 1 then 1 else if above == 0 then 0 else above + 1

-- How many digits `x` needs; a word of `n` bits has `n` less that many leading zeros.
pub bits_used : ℕ → ℕ → ℕ
bits_used zero x = 0
bits_used (suc n) x = let above = bits_used n (x / 2) in if x == 0 then 0 else above + 1

pub builtin_clz : ℕ → ℕ → ℕ
builtin_clz n x = n - bits_used n x

-- The lowest set digit of a word that is not 0.
pub record IsLowest (n x r : ℕ) : Type 0 where
  pub pos : 0 < r
  pub within : r ≤ n
  pub hit : bit x (r - 1) ≡ 1
  pub below : (j : ℕ) → j + 1 < r → bit x j ≡ 0

IsLowest-here : (n x : ℕ) → x % 2 ≡ 1 → IsLowest (suc n) x 1
IsLowest-here n x odd = record {
  pos = omega arith;
  within = omega arith;
  hit = odd;
  below = λ j h. absurd (omega arith);
}

IsLowest-above : (n x r : ℕ) → x % 2 ≡ 0 → IsLowest n (x / 2) r → IsLowest (suc n) x (r + 1)
IsLowest-above n x zero even v = absurd (omega (arith, v.pos))
IsLowest-above n x (suc r) even v = record {
  pos = omega arith;
  within = omega (arith, v.within);
  hit = ground (arith, v.hit);
  below = go;
}
  where
    go : (j : ℕ) → j + 1 < suc r + 1 → bit x j ≡ 0
    go zero h = even
    go (suc j) h = v.below j (omega arith)

pub builtin_ffs-IsLowest : (n x : ℕ) → x < 2 ^ n → x ≢ 0 → IsLowest n x (builtin_ffs n x)
unfolding builtin_ffs
builtin_ffs-IsLowest zero x h ne = absurd (omega arith)
builtin_ffs-IsLowest (suc n) x h ne = elim (Bool-cases (x % 2 == 1)) [
  | inl odd ↦ rw odd (IsLowest-here n x (ground arith))
  | inr even ↦
      let rest = builtin_ffs-IsLowest n (x / 2) (omega (arith, pow-suc 2 n)) (ground arith) in
      rw (even, above (builtin_ffs n (x / 2)) rest.pos) (IsLowest-above n x _ (ground arith) rest)
]
  where
    above : (r : ℕ) → 0 < r → (r == 0) ≡ false
    above r h = ground arith

-- A word that is 0 has no set digit.
pub bit-zero : (k : ℕ) → bit 0 k ≡ 0
bit-zero zero = refl
bit-zero (suc k) = bit-zero k

-- The leading zeros are counted up to the highest set digit: nothing is set from there on.
pub bits_used_above : (n x k : ℕ) → x < 2 ^ n → bits_used n x ≤ k → bit x k ≡ 0
unfolding bits_used
bits_used_above zero zero k h p = bit-zero k
bits_used_above zero (suc x) k h p = absurd (omega arith)
bits_used_above (suc n) x zero h p = ground arith
bits_used_above (suc n) x (suc k) h p =
    ground (arith, bits_used_above n (x / 2) k, pow-suc 2 n, bit-zero k)
