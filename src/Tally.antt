-- ===== src/Tally.antt =====
-- How many positions of a range have a Boolean property: the measure of the free pages of a zone.
use obelisk_os.Prelude.{
  ℕ, zero, suc, ◌+◌, ◌≤◌, ◌<◌, ◌≡◌, refl, arith, Bool, true, false, ◌==◌, if◌then◌else◌, ap, ◌⊎◌,
}
use native.Mathlib.Decide.{ℕ_discrete}

unfoldable pub tally : (ℕ → Bool) → ℕ → ℕ → ℕ
tally f lo zero = 0
tally f lo (suc n) = (if f lo then 1 else 0) + tally f (lo + 1) n

pub tally_congr :
    (f g : ℕ → Bool) (lo n : ℕ)
    → ((m : ℕ) → lo ≤ m → m < lo + n → f m ≡ g m)
    → tally f lo n ≡ tally g lo n
unfolding tally
tally_congr f g lo zero h = refl
tally_congr f g lo (suc n) h = ground (
  arith,
  h lo (omega arith) (omega arith),
  tally_congr f g (lo + 1) n (λ m p q. h m (omega arith) (omega arith)),
)

pub tally_le : (f : ℕ → Bool) (lo n : ℕ) → tally f lo n ≤ n
unfolding tally
tally_le f lo zero = omega arith
tally_le f lo (suc n) = ground (arith, tally_le f (lo + 1) n)

-- One position more has the property.
pub tally_gain :
    (f g : ℕ → Bool) (lo n k : ℕ)
    → lo ≤ k
    → k < lo + n
    → f k ≡ false
    → ((m : ℕ) → g m ≡ (if k == m then true else f m))
    → tally g lo n ≡ tally f lo n + 1
unfolding tally
tally_gain f g lo zero k p q e h = absurd (omega arith)
tally_gain f g lo (suc n) k p q e h = elim (ℕ_discrete lo k) [
  | yes here ↦
      ground (arith, h lo, ap f here, tally_congr g f (lo + 1) n (λ m a b. ground (arith, h m)))
  | no later ↦ ground (arith, h lo, tally_gain f g (lo + 1) n k (omega arith) (omega arith) e h)
]

-- A change outside the range does not count.
pub tally_outside :
    (f g : ℕ → Bool) (lo n k : ℕ) (b : Bool)
    → (k < lo) ⊎ (lo + n ≤ k)
    → ((m : ℕ) → g m ≡ (if k == m then b else f m))
    → tally g lo n ≡ tally f lo n
tally_outside f g lo n k b out h = tally_congr g f lo n (λ m p q. ground (arith, h m))

pub tally_loss :
    (f g : ℕ → Bool) (lo n k : ℕ)
    → lo ≤ k
    → k < lo + n
    → f k ≡ true
    → ((m : ℕ) → g m ≡ (if k == m then false else f m))
    → tally f lo n ≡ tally g lo n + 1
tally_loss f g lo n k p q e h =
    tally_gain g f lo n k p q (ground (arith, h k)) (λ m. ground (arith, h m, agree m))
  where
    agree : (m : ℕ) → k ≡ m → f m ≡ true
    agree m same = rw (← same) e

pub tally_none :
    (f : ℕ → Bool) (lo n : ℕ) → ((m : ℕ) → lo ≤ m → m < lo + n → f m ≡ false) → tally f lo n ≡ 0
unfolding tally
tally_none f lo zero h = refl
tally_none f lo (suc n) h = ground (
  arith,
  h lo (omega arith) (omega arith),
  tally_none f (lo + 1) n (λ m p q. h m (omega arith) (omega arith)),
)

pub tally_some : (f : ℕ → Bool) (lo n k : ℕ) → lo ≤ k → k < lo + n → f k ≡ true → 0 < tally f lo n
tally_some f lo n k p q e =
    omega (arith, tally_loss f (λ m. if k == m then false else f m) lo n k p q e (λ m. refl))
