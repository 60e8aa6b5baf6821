-- ===== src/Pmm/FindRegion.antt =====
-- `bitmap_find_free_region` of kernel/mm/pmm.c finds a run of free pages whenever there is one.
use mathlib.Core.Path.{subst}
use native.Mathlib.Decide.{dec_le, dec_lt}
use obelisk_os.Prelude.{
  ℕ, zero, suc, ◌+◌, ◌-◌, ◌≤◌, ◌<◌, ◌≡◌, arith, Option, none, some, List, true, false, ◌==◌,
  if◌then◌else◌, Bool-cases, inl, inr,
}
use obelisk_os.Pmm.Bits.{find_region_from, bitmap_find_free_region}
use obelisk_os.Pmm.Invariant.{is_free}

-- Frames `[s, s + count)` are all free; one of them is not.
abbrev pub AllFree : List ℕ → ℕ → ℕ → Type 0
AllFree bitmap s count = (j : ℕ) → s ≤ j → j < s + count → is_free bitmap j ≡ true

abbrev pub Blocked : List ℕ → ℕ → ℕ → Type 0
Blocked bitmap s count = (j : ℕ) × (s ≤ j) × (j < s + count) × (is_free bitmap j ≡ false)

-- The answer of a scan up to `hi` for `count` free frames in a row, from `lo` on.
abbrev pub FoundRegion : List ℕ → ℕ → ℕ → ℕ → Option ℕ → Type 0
FoundRegion bitmap lo hi count none = (s : ℕ) → lo ≤ s → s + count ≤ hi → Blocked bitmap s count
FoundRegion bitmap lo hi count (some s) = (lo ≤ s) × (s + count ≤ hi) × AllFree bitmap s count

module _ (bitmap : List ℕ) (hi count : ℕ) where
  -- A frame in use blocks every run that would reach over it.
  past_used :
      (b run : ℕ) (r : Option ℕ)
      → run < count
      → is_free bitmap (b + run) ≡ false
      → FoundRegion bitmap (b + run + 1) hi count r
      → FoundRegion bitmap b hi count r
  past_used b run none lt u v = λ s p q. elim (dec_le s (b + run)) [
    | yes h ↦ (b + run, h, omega arith, u)
    | no h ↦ v s (omega arith) q
  ]
  past_used b run (some s) lt u v = (omega arith, v.1, v.2)

  run_grows :
      (b run : ℕ)
      → AllFree bitmap b run
      → is_free bitmap (b + run) ≡ true
      → AllFree bitmap b (run + 1)
  run_grows b run free f = λ j p q. elim (dec_lt j (b + run)) [
    | yes h ↦ free j p h
    | no h ↦ subst (λ t. is_free bitmap t ≡ true) (last j q h) f
  ]
    where
      last : (j : ℕ) → j < b + (run + 1) → ¬ (j < b + run) → b + run ≡ j
      last j q h = omega arith

  -- The `run` frames from `b` on are free, and the scan stands behind them.
  scan :
      (left b run start : ℕ)
      → b + run + left ≡ hi
      → run < count
      → AllFree bitmap b run
      → (if run == 0 then b + run else start) ≡ b
      → FoundRegion bitmap b hi count (find_region_from left bitmap (b + run) start run count)
  unfolding find_region_from
  scan zero b run start e lt free s = λ t p q. absurd (omega arith)
  scan (suc left) b run start e lt free s = elim (Bool-cases (is_free bitmap (b + run))) [
    | inr u ↦
        let behind : b + run + 1 + 0 ≡ b + run + 1 = omega arith in
        rw u (
          past_used b run _ lt u (
            rw behind at (
              scan left (b + run + 1) 0 start (omega arith) (omega arith)
                (λ j p q. absurd (omega arith)) (omega arith))))
    | inl f ↦ elim (Bool-cases (run + 1 == count)) [
      | inl done ↦
          rw (f, done, s)
            (omega arith, ground arith, λ j p q. run_grows b run free f j p (ground arith))
      | inr more ↦
          let next : b + (run + 1) ≡ b + run + 1 = omega arith in
          rw (f, more, s)
            (rw next at (
              scan left b (run + 1) b (omega arith) (ground arith) (run_grows b run free f)
                (ground arith)))
    ]
  ]

-- For a positive count and a range with `lo ≤ hi`, `bitmap_find_free_region` gives the first of `count`
-- free frames in a row inside the range; if it gives none, every such run of frames has one in use.
pub bitmap_find_free_region_lem :
    (bitmap : List ℕ) (lo hi count : ℕ)
    → lo ≤ hi
    → 0 < count
    → FoundRegion bitmap lo hi count (bitmap_find_free_region bitmap lo hi count)
unfolding bitmap_find_free_region
bitmap_find_free_region_lem bitmap lo hi count le pos =
    let start : lo + 0 ≡ lo = omega arith in
    rw start at (
      scan bitmap hi count (hi - lo) lo 0 0 (omega arith) pos (λ j p q. absurd (omega arith))
        (omega arith))
