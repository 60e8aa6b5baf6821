-- ===== src/Bitmap/Find/Laws.antt =====
-- The four searches of kernel/lib/bitmap.c, against the bits that `test_bit` reads.
use obelisk_os.Prelude.{
  ℕ, zero, suc, ◌+◌, ◌-◌, ◌*◌, ◌/◌, ◌%◌, ◌^◌, ◌≤◌, ◌<◌, ◌≡◌, ◌≢◌, arith, List, Bool, true, false,
  not, refl, get_or,
}
use obelisk_os.Word.{bit_le}
use obelisk_os.Word.Laws.{complement, bit-complement}
use obelisk_os.Word.First.{builtin_ffs, builtin_ffs-IsLowest}
use obelisk_os.Bitmap.Bits.{test_bit, test_bit_lem}
use obelisk_os.Bitmap.Find.{
  ffz, first_bit_from, find_first_bit, first_zero_from, find_first_zero_bit, next_from,
  find_next_bit, find_next_zero_bit,
}
use obelisk_os.Bitmap.Find.First.{IsFirst}
use obelisk_os.Bitmap.Find.Loop.{digit, next_from-IsFirst, find_next-IsFirst}

-- Every element is an `unsigned long`.
abbrev pub IsWords : List ℕ → Type 0
IsWords addr = (i : ℕ) → get_or addr i 0 < 2 ^ 64

-- `r` is the first bit in `[lo, hi)` that reads as `want`, and `hi` if there is none.
pub record Finds (want : Bool) (addr : List ℕ) (lo hi r : ℕ) : Type 0 where
  pub bound : r ≤ hi
  pub start : r < hi → lo ≤ r
  pub hit : r < hi → test_bit r addr ≡ want
  pub below : (k : ℕ) → lo ≤ k → k < r → test_bit k addr ≡ not want

set_digits :
    (addr : List ℕ) (lo hi r : ℕ)
    → IsFirst (digit (λ word. word) addr) lo hi r
    → Finds true addr lo hi r
set_digits addr lo hi r v = record {
  bound = v.bound;
  start = v.start;
  hit = λ p. ground (arith, v.hit p, test_bit_lem r addr);
  below = λ k p q. ground (arith, v.below k p q, test_bit_lem k addr);
}

module _ (addr : List ℕ) (words : IsWords addr) where
  digit-complement : (k : ℕ) → digit (complement 64) addr k ≡ 1 - digit (λ word. word) addr k
  digit-complement k =
      bit-complement 64 (get_or addr (k / 64) 0) (k % 64) (words (k / 64)) (omega arith)

  zero_digits :
      (lo hi r : ℕ) → IsFirst (digit (complement 64) addr) lo hi r → Finds false addr lo hi r
  zero_digits lo hi r v = record {
    bound = v.bound;
    start = v.start;
    hit = λ p. ground (arith, v.hit p, test_bit_lem r addr, digit-complement r);
    below = λ k p q. ground (
      arith,
      v.below k p q,
      test_bit_lem k addr,
      digit-complement k,
      bit_le (get_or addr (k / 64) 0) (k % 64),
    );
  }

  -- From any offset, `find_next_bit` gives the first set bit below `size`, or `size`.
  pub find_next_bit_lem :
      (size offset : ℕ) → Finds true addr offset size (find_next_bit addr size offset)
  unfolding find_next_bit
  find_next_bit_lem size offset =
      set_digits addr offset size _ (find_next-IsFirst (λ word. word) addr size words offset)

  -- From any offset, `find_next_zero_bit` gives the first clear bit below `size`, or `size`.
  pub find_next_zero_bit_lem :
      (size offset : ℕ) → Finds false addr offset size (find_next_zero_bit addr size offset)
  unfolding find_next_zero_bit
  find_next_zero_bit_lem size offset =
      zero_digits offset size _
        (find_next-IsFirst (complement 64) addr size (λ i. omega arith) offset)

  first_bit_from-next_from :
      (fuel idx size : ℕ)
      → first_bit_from fuel idx addr size ≡ next_from (λ word. word) fuel addr size (idx * 64)
  unfolding first_bit_from next_from
  first_bit_from-next_from zero idx size = refl
  first_bit_from-next_from (suc fuel) idx size =
      rw (word, first_bit_from-next_from fuel (idx + 1) size, next)
    where
      word : idx * 64 / 64 ≡ idx
      word = omega arith

      next : (idx + 1) * 64 ≡ idx * 64 + 64
      next = omega arith

  ffz_lem : (x : ℕ) → complement 64 x ≢ 0 → ffz x ≡ builtin_ffs 64 (complement 64 x) - 1
  unfolding ffz
  ffz_lem x ne =
      let v = builtin_ffs-IsLowest 64 (complement 64 x) (omega arith) ne in
      ground (arith, v.pos, v.within)

  ffz_pos : (x : ℕ) → complement 64 x ≢ 0 → 0 < builtin_ffs 64 (complement 64 x)
  ffz_pos x ne = (builtin_ffs-IsLowest 64 (complement 64 x) (omega arith) ne).pos

  first_zero_from-next_from :
      (fuel idx size : ℕ)
      → first_zero_from fuel idx addr size ≡ next_from (complement 64) fuel addr size (idx * 64)
  unfolding first_zero_from next_from
  first_zero_from-next_from zero idx size = refl
  first_zero_from-next_from (suc fuel) idx size =
      rw (word, first_zero_from-next_from fuel (idx + 1) size, next)
        (ground (arith, ffz_lem (get_or addr idx 0), ffz_pos (get_or addr idx 0)))
    where
      word : idx * 64 / 64 ≡ idx
      word = omega arith

      next : (idx + 1) * 64 ≡ idx * 64 + 64
      next = omega arith

  -- `find_first_bit` gives the first set bit below `size`, or `size`.
  pub find_first_bit_lem : (size : ℕ) → Finds true addr 0 size (find_first_bit addr size)
  unfolding find_first_bit
  find_first_bit_lem size = rw (first_bit_from-next_from (size / 64 + 1) 0 size) (
      set_digits addr 0 size _
        (next_from-IsFirst (λ word. word) addr size words (size / 64 + 1) 0 (omega arith)))

  -- `find_first_zero_bit` gives the first clear bit below `size`, or `size`.
  pub find_first_zero_bit_lem : (size : ℕ) → Finds false addr 0 size (find_first_zero_bit addr size)
  unfolding find_first_zero_bit
  find_first_zero_bit_lem size = rw (first_zero_from-next_from (size / 64 + 1) 0 size) (
      zero_digits 0 size _ (
        next_from-IsFirst (complement 64) addr size (λ i. omega arith) (size / 64 + 1) 0
          (omega arith)))
