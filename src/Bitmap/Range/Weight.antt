-- ===== src/Bitmap/Range/Weight.antt =====
-- `bitmap_weight` of kernel/lib/bitmap.c counts the set bits of whole words.
use mathlib.Core.Path.{fun_ext}
use obelisk_os.Prelude.{
  ℕ, zero, suc, ◌+◌, ◌*◌, ◌/◌, ◌%◌, ◌≤◌, ◌<◌, ◌≡◌, refl, sym, ap, ◌∙◌, arith, List, if◌then◌else◌,
  get_or,
}
use obelisk_os.Word.{bit, bit_le}
use obelisk_os.Word.Laws.{bit-zero, bit_and-pow}
use obelisk_os.Word.Array.{bit_at}
use obelisk_os.Bitmap.Bits.{test_bit, test_bit_lem}
use obelisk_os.Bitmap.Range.{bits_to_longs, count_ones, weight_from, bitmap_weight}

-- The sum of `digit` over the `n` positions from `lo` on.
abbrev pub population : (ℕ → ℕ) → ℕ → ℕ → ℕ
population digit lo zero = 0
population digit lo (suc n) = digit lo + population digit (lo + 1) n

population-append :
    (digit : ℕ → ℕ) (lo a b : ℕ)
    → population digit lo (a + b) ≡ population digit lo a + population digit (lo + a) b
population-append digit lo zero b = rw (none, start) (omega arith)
  where
    none : 0 + b ≡ b
    none = omega arith

    start : lo + 0 ≡ lo
    start = omega arith
population-append digit lo (suc a) b =
    rw (peel, population-append digit (lo + 1) a b, shift) (omega arith)
  where
    peel : suc a + b ≡ suc (a + b)
    peel = omega arith

    shift : lo + 1 + a ≡ lo + suc a
    shift = omega arith

population_congr :
    (d e : ℕ → ℕ) (lo base n : ℕ)
    → ((j : ℕ) → lo ≤ j → j < lo + n → d j ≡ e (base + j))
    → population d lo n ≡ population e (base + lo) n
population_congr d e lo base zero h = refl
population_congr d e lo base (suc n) h = rw (
  h lo (omega arith) (omega arith),
  population_congr d e (lo + 1) base n (λ j p q. h j (omega arith) (omega arith)),
  shift,
)
  where
    shift : base + (lo + 1) ≡ base + lo + 1
    shift = omega arith

population_half : (v j n : ℕ) → population (bit v) (suc j) n ≡ population (bit (v / 2)) j n
population_half v j zero = refl
population_half v j (suc n) =
    ap (λ (t : ℕ). bit (v / 2) j + t) (rw next (population_half v (j + 1) n))
  where
    next : suc j + 1 ≡ suc (j + 1)
    next = omega arith

population_none : (lo n : ℕ) → population (bit 0) lo n ≡ 0
population_none lo zero = refl
population_none lo (suc n) = omega (arith, bit-zero lo, population_none (lo + 1) n)

count_ones-population : (fuel v : ℕ) → count_ones fuel v ≡ population (bit v) 0 fuel
unfolding count_ones
count_ones-population zero v = refl
count_ones-population (suc fuel) v = ground (
  arith,
  count_ones-population fuel (v / 2),
  population_half v 0 fuel,
  bit_and-pow v 0,
  ap (λ (t : ℕ). population (bit t) 1 fuel) {x = v} {y = 0},
  population_none 1 fuel,
)

module _ (bitmap : List ℕ) where
  word_population :
      (k : ℕ) → count_ones 64 (get_or bitmap k 0) ≡ population (bit_at 64 bitmap) (k * 64 + 0) 64
  word_population k =
      count_ones-population 64 (get_or bitmap k 0)
      ∙ population_congr (bit (get_or bitmap k 0)) (bit_at 64 bitmap) 0 (k * 64) 64
          (λ j p q. same j (omega arith))
    where
      same : (j : ℕ) → j < 64 → bit (get_or bitmap k 0) j ≡ bit_at 64 bitmap (k * 64 + j)
      same j h = rw (word, place)
        where
          word : (k * 64 + j) / 64 ≡ k
          word = omega arith

          place : (k * 64 + j) % 64 ≡ j
          place = omega arith

  weight_from-population :
      (left k : ℕ) → weight_from left bitmap k ≡ population (bit_at 64 bitmap) (k * 64) (left * 64)
  unfolding weight_from
  weight_from-population zero k = refl
  weight_from-population (suc left) k =
      rw (word_population k, weight_from-population left (k + 1), start, next, more)
        (sym (population-append (bit_at 64 bitmap) (k * 64) 64 (left * 64)))
    where
      start : k * 64 + 0 ≡ k * 64
      start = omega arith

      next : (k + 1) * 64 ≡ k * 64 + 64
      next = omega arith

      more : suc left * 64 ≡ 64 + left * 64
      more = omega arith

  -- The bits below `n` that are set.
  abbrev pub set_below : ℕ → ℕ
  set_below n = population (λ k. if test_bit k bitmap then 1 else 0) 0 n

  -- `bitmap_weight` counts the set bits of every word that holds one of the `bits` first, and so also
  -- those from `bits` to the end of the last word.
  pub bitmap_weight_lem :
      (bits : ℕ) → bitmap_weight bitmap bits ≡ set_below (bits_to_longs bits * 64)
  unfolding bitmap_weight
  bitmap_weight_lem bits =
      weight_from-population (bits_to_longs bits) 0
      ∙ ap (λ d. population d 0 (bits_to_longs bits * 64)) (fun_ext seen)
    where
      seen : (k : ℕ) → bit_at 64 bitmap k ≡ (if test_bit k bitmap then 1 else 0)
      seen k = ground (arith, test_bit_lem k bitmap, bit_le (get_or bitmap (k / 64) 0) (k % 64))
