-- ===== src/Pmm/Find.antt =====
-- The scans of kernel/mm/pmm.c for a free page and for a run of free pages.
use obelisk_os.Prelude.{
  ℕ, zero, suc, ◌+◌, ◌-◌, ◌≤◌, ◌<◌, ◌≡◌, arith, Option, none, some, List, true, false, Bool-cases,
  inl, inr,
}
use mathlib.Core.Path.{subst}
use native.Mathlib.Decide.{dec_lt}
use obelisk_os.Pmm.Bits.{find_free_from, bitmap_find_free}
use obelisk_os.Pmm.Invariant.{is_free}

-- The answer `r` of a scan of `[lo, hi)` for a free page: the lowest one, or none is there.
abbrev pub FoundFree : List ℕ → ℕ → ℕ → Option ℕ → Type 0
FoundFree bitmap lo hi none = (j : ℕ) → lo ≤ j → j < hi → is_free bitmap j ≡ false
FoundFree bitmap lo hi (some k) =
    (lo ≤ k)
    × (k < hi)
    × (is_free bitmap k ≡ true)
    × ((j : ℕ) → lo ≤ j → j < k → is_free bitmap j ≡ false)

found_here :
    (bitmap : List ℕ) (lo hi : ℕ)
    → lo < hi
    → is_free bitmap lo ≡ true
    → FoundFree bitmap lo hi (some lo)
found_here bitmap lo hi h f = (omega arith, h, f, λ j p q. absurd (omega arith))

found_later :
    (bitmap : List ℕ) (lo hi : ℕ) (r : Option ℕ)
    → is_free bitmap lo ≡ false
    → FoundFree bitmap (lo + 1) hi r
    → FoundFree bitmap lo hi r
found_later bitmap lo hi none f v = λ j p q. elim (dec_lt lo j) [
  | yes h ↦ v j (omega arith) q
  | no h ↦ subst (λ t. is_free bitmap t ≡ false) (at j p h) f
]
  where
    at : (j : ℕ) → lo ≤ j → ¬ (lo < j) → lo ≡ j
    at j p h = omega arith
found_later bitmap lo hi (some k) f v = (
  omega arith,
  v.1,
  v.2,
  λ j p q. elim (dec_lt lo j) [
    | yes h ↦ v.3 j (omega arith) q
    | no h ↦ subst (λ t. is_free bitmap t ≡ false) (at j p h) f
  ],
)
  where
    at : (j : ℕ) → lo ≤ j → ¬ (lo < j) → lo ≡ j
    at j p h = omega arith

find_free_from-FoundFree :
    (left : ℕ) (bitmap : List ℕ) (i : ℕ)
    → FoundFree bitmap i (i + left) (find_free_from left bitmap i)
unfolding find_free_from
find_free_from-FoundFree zero bitmap i = λ j p q. absurd (omega arith)
find_free_from-FoundFree (suc left) bitmap i = elim (Bool-cases (is_free bitmap i)) [
  | inl f ↦ rw f (found_here bitmap i (i + suc left) (omega arith) f)
  | inr u ↦ rw u (
      found_later bitmap i (i + suc left) (find_free_from left bitmap (i + 1)) u
        (rw hi (find_free_from-FoundFree left bitmap (i + 1))))
]
  where
    hi : i + suc left ≡ i + 1 + left
    hi = omega arith

-- `bitmap_find_free` finds the lowest free page of the range, whenever there is one.
pub bitmap_find_free_lem :
    (bitmap : List ℕ) (lo hi : ℕ) → lo ≤ hi → FoundFree bitmap lo hi (bitmap_find_free bitmap lo hi)
unfolding bitmap_find_free
bitmap_find_free_lem bitmap lo hi h =
    subst (λ t. FoundFree bitmap lo t (find_free_from (hi - lo) bitmap lo)) (omega arith)
      (find_free_from-FoundFree (hi - lo) bitmap lo)
