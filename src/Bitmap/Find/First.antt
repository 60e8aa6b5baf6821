-- ===== src/Bitmap/Find/First.antt =====
-- What a search promises, and the steps by which its loop over words keeps that promise.
use obelisk_os.Prelude.{ℕ, ◌+◌, ◌-◌, ◌^◌, ◌≤◌, ◌<◌, ◌≡◌, ◌≢◌, min, arith, leb, if◌then◌else◌, ap}
use native.Mathlib.Decide.{dec_lt}
use obelisk_os.Word.{bit}
use obelisk_os.Word.First.{builtin_ffs, IsLowest, builtin_ffs-IsLowest}

-- `r` is the first position in `[lo, hi)` where `digit` is 1, and `hi` if there is none.
pub record IsFirst (digit : ℕ → ℕ) (lo hi r : ℕ) : Type 0 where
  pub bound : r ≤ hi
  pub start : r < hi → lo ≤ r
  pub hit : r < hi → digit r ≡ 1
  pub below : (k : ℕ) → lo ≤ k → k < r → digit k ≡ 0

module _ (digit : ℕ → ℕ) (lo hi : ℕ) where
  pub IsFirst-none : hi ≤ lo → IsFirst digit lo hi hi
  IsFirst-none h = record {
    bound = omega arith;
    start = λ p. omega arith;
    hit = λ p. absurd (omega arith);
    below = λ k p q. absurd (omega arith);
  }

  -- Nothing is set up to `mid`, and the search goes on from there.
  pub IsFirst-skip :
      (mid r : ℕ)
      → lo ≤ mid
      → ((k : ℕ) → lo ≤ k → k < mid → digit k ≡ 0)
      → IsFirst digit mid hi r
      → IsFirst digit lo hi r
  IsFirst-skip mid r le clear v = record {
    bound = v.bound;
    start = λ p. omega (arith, v.start p);
    hit = v.hit;
    below = λ k p q. elim (dec_lt k mid) [ yes h ↦ clear k p h | no h ↦ v.below k (omega arith) q ];
  }

  module _ (base t : ℕ)
      (digits : (j : ℕ)
        → j < 64
        → bit t j ≡ (if leb lo (base + j) then digit (base + j) else 0)) where
    lowest_is_set : (s : ℕ) → IsLowest 64 t s → (lo ≤ base + (s - 1)) × (digit (base + (s - 1)) ≡ 1)
    lowest_is_set s v = ground (arith, digits (s - 1), v.hit, v.pos, v.within)

    back : (k : ℕ) → base ≤ k → base + (k - base) ≡ k
    back k b = omega arith

    unset_before :
        (s k : ℕ) → IsLowest 64 t s → base ≤ k → lo ≤ k → k < base + (s - 1) → digit k ≡ 0
    unset_before s k v b p q =
        ground (arith, digits (k - base), v.below (k - base), v.within, ap digit (back k b))

    -- The word at `base` has a set digit: the lowest one is the first.
    pub IsFirst-found :
        t < 2 ^ 64 → t ≢ 0 → base ≤ lo → IsFirst digit lo hi (min (base + builtin_ffs 64 t - 1) hi)
    IsFirst-found small ne le = go (builtin_ffs 64 t) (builtin_ffs-IsLowest 64 t small ne)
      where
        go : (s : ℕ) → IsLowest 64 t s → IsFirst digit lo hi (min (base + s - 1) hi)
        go s v = record {
          bound = omega arith;
          start = λ p. omega (arith, v.pos, lowest_is_set s v);
          hit = λ p. ground (arith, v.pos, lowest_is_set s v, at s v.pos p);
          below = λ k p q. unset_before s k v (omega arith) p (omega (arith, v.pos));
        }
          where
            at :
                (s : ℕ)
                → 0 < s
                → min (base + s - 1) hi < hi
                → min (base + s - 1) hi ≡ base + (s - 1)
            at s h p = omega arith
