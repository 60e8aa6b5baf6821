-- ===== src/Pmm/Invariant.antt =====
-- What holds between the operations of kernel/mm/pmm.c: the zones are disjoint and inside the bitmap,
-- and every counter is the number of clear bits that it stands for.
use obelisk_os.Prelude.{
  ℕ, ◌+◌, ◌-◌, ◌*◌, ◌≤◌, ◌<◌, ◌≡◌, List, Bool, true, false, not, arith, length, ◌⊎◌, add64, sub64,
}
use obelisk_os.Tally.{tally, tally_loss, tally_gain, tally_outside, tally_le}
use obelisk_os.Pmm.State.{ZoneType, dma, normal, high, Zone, Pmm, get_zone}
use obelisk_os.Pmm.Bits.{
  bitmap_set, bitmap_clear, bitmap_test, test-set, test-clear, length-bitmap_set,
  length-bitmap_clear,
}
use obelisk_os.Pmm.Alloc.{put_counts}
use obelisk_os.Pmm.Region.{max_bitmap_pages}

abbrev pub is_free : List ℕ → ℕ → Bool
is_free bitmap pfn = not (bitmap_test bitmap pfn)

abbrev pub free_count : List ℕ → Zone → ℕ
free_count bitmap z = tally (is_free bitmap) z.start_pfn (z.end_pfn - z.start_pfn)

pub record Layout (p : Pmm) : Type 0 where
  pub dma_range : p.dma_zone.start_pfn ≤ p.dma_zone.end_pfn
  pub dma_normal : p.dma_zone.end_pfn ≤ p.normal_zone.start_pfn
  pub normal_range : p.normal_zone.start_pfn ≤ p.normal_zone.end_pfn
  pub normal_high : p.normal_zone.end_pfn ≤ p.high_zone.start_pfn
  pub high_range : p.high_zone.start_pfn ≤ p.high_zone.end_pfn
  pub high_bitmap : p.high_zone.end_pfn ≤ 32 * length p.bitmap
  pub managed : 32 * length p.bitmap ≤ max_bitmap_pages

pub record Inv (p : Pmm) : Type 0 where
  pub layout : Layout p
  pub dma_count : p.dma_zone.free_pages ≡ free_count p.bitmap p.dma_zone
  pub normal_count : p.normal_zone.free_pages ≡ free_count p.bitmap p.normal_zone
  pub high_count : p.high_zone.free_pages ≡ free_count p.bitmap p.high_zone
  pub total_count :
      p.free_pages ≡ p.dma_zone.free_pages + p.normal_zone.free_pages + p.high_zone.free_pages

abbrev pub Inside : Zone → ℕ → Type 0
Inside z pfn = (z.start_pfn ≤ pfn) × (pfn < z.end_pfn)

module _ (bitmap : List ℕ) (z : Zone) (pfn : ℕ) (fits : pfn < 32 * length bitmap) where
  count_taken :
      Inside z pfn
      → is_free bitmap pfn ≡ true
      → free_count bitmap z ≡ free_count (bitmap_set bitmap pfn) z + 1
  count_taken i f =
      tally_loss (is_free bitmap) (is_free (bitmap_set bitmap pfn)) z.start_pfn
        (z.end_pfn - z.start_pfn) pfn (omega arith) (omega arith) f
        (λ m. ground (arith, test-set bitmap pfn m fits))

  count_given :
      Inside z pfn
      → is_free bitmap pfn ≡ false
      → free_count (bitmap_clear bitmap pfn) z ≡ free_count bitmap z + 1
  count_given i f =
      tally_gain (is_free bitmap) (is_free (bitmap_clear bitmap pfn)) z.start_pfn
        (z.end_pfn - z.start_pfn) pfn (omega arith) (omega arith) f
        (λ m. ground (arith, test-clear bitmap pfn m fits))

  count_outside :
      z.start_pfn ≤ z.end_pfn
      → (pfn < z.start_pfn) ⊎ (z.end_pfn ≤ pfn)
      → (free_count (bitmap_set bitmap pfn) z ≡ free_count bitmap z)
        × (free_count (bitmap_clear bitmap pfn) z ≡ free_count bitmap z)
  count_outside r out = (
    tally_outside (is_free bitmap) (is_free (bitmap_set bitmap pfn)) z.start_pfn
        (z.end_pfn - z.start_pfn) pfn false (omega arith)
        (λ m. ground (arith, test-set bitmap pfn m fits)),
    tally_outside (is_free bitmap) (is_free (bitmap_clear bitmap pfn)) z.start_pfn
        (z.end_pfn - z.start_pfn) pfn true (omega arith)
        (λ m. ground (arith, test-clear bitmap pfn m fits)),
  )

-- Page `pfn` of zone `z` marked used, with one page less in the two counts; and the way back.
abbrev pub marked_used : Pmm → ZoneType → ℕ → Pmm
marked_used p z pfn =
    put_counts (record p { bitmap = bitmap_set p.bitmap pfn }) z (sub64 (get_zone p z).free_pages 1)
      (sub64 p.free_pages 1)

abbrev pub marked_free : Pmm → ZoneType → ℕ → Pmm
marked_free p z pfn =
    put_counts (record p { bitmap = bitmap_clear p.bitmap pfn }) z
      (add64 (get_zone p z).free_pages 1) (add64 p.free_pages 1)

count_le : (bitmap : List ℕ) (z : Zone) → free_count bitmap z ≤ z.end_pfn - z.start_pfn
count_le bitmap z = tally_le (is_free bitmap) z.start_pfn (z.end_pfn - z.start_pfn)

-- No counter is near the end of its word.
pub counts_small :
    (p : Pmm)
    → Inv p
    → (p.dma_zone.free_pages ≤ max_bitmap_pages)
      × (p.normal_zone.free_pages ≤ max_bitmap_pages)
      × (p.high_zone.free_pages ≤ max_bitmap_pages)
counts_small p v = omega (
  arith,
  count_le p.bitmap p.dma_zone,
  count_le p.bitmap p.normal_zone,
  count_le p.bitmap p.high_zone,
)

module _ (p : Pmm) (pfn : ℕ) (v : Inv p) where
  pub marked_used-Inv :
      (z : ZoneType)
      → Inside (get_zone p z) pfn
      → is_free p.bitmap pfn ≡ true
      → Inv (marked_used p z pfn)
  marked_used-Inv dma i f = omega (
    arith,
    length-bitmap_set p.bitmap pfn,
    counts_small p v,
    count_taken p.bitmap p.dma_zone pfn (omega arith) i f,
    count_outside p.bitmap p.normal_zone pfn (omega arith) (omega arith) (omega arith),
    count_outside p.bitmap p.high_zone pfn (omega arith) (omega arith) (omega arith),
  )
  marked_used-Inv normal i f = omega (
    arith,
    length-bitmap_set p.bitmap pfn,
    counts_small p v,
    count_taken p.bitmap p.normal_zone pfn (omega arith) i f,
    count_outside p.bitmap p.dma_zone pfn (omega arith) (omega arith) (omega arith),
    count_outside p.bitmap p.high_zone pfn (omega arith) (omega arith) (omega arith),
  )
  marked_used-Inv high i f = omega (
    arith,
    length-bitmap_set p.bitmap pfn,
    counts_small p v,
    count_taken p.bitmap p.high_zone pfn (omega arith) i f,
    count_outside p.bitmap p.dma_zone pfn (omega arith) (omega arith) (omega arith),
    count_outside p.bitmap p.normal_zone pfn (omega arith) (omega arith) (omega arith),
  )

  pub marked_free-Inv :
      (z : ZoneType)
      → Inside (get_zone p z) pfn
      → is_free p.bitmap pfn ≡ false
      → Inv (marked_free p z pfn)
  marked_free-Inv dma i f = omega (
    arith,
    length-bitmap_clear p.bitmap pfn,
    counts_small p v,
    count_given p.bitmap p.dma_zone pfn (omega arith) i f,
    count_outside p.bitmap p.normal_zone pfn (omega arith) (omega arith) (omega arith),
    count_outside p.bitmap p.high_zone pfn (omega arith) (omega arith) (omega arith),
  )
  marked_free-Inv normal i f = omega (
    arith,
    length-bitmap_clear p.bitmap pfn,
    counts_small p v,
    count_given p.bitmap p.normal_zone pfn (omega arith) i f,
    count_outside p.bitmap p.dma_zone pfn (omega arith) (omega arith) (omega arith),
    count_outside p.bitmap p.high_zone pfn (omega arith) (omega arith) (omega arith),
  )
  marked_free-Inv high i f = omega (
    arith,
    length-bitmap_clear p.bitmap pfn,
    counts_small p v,
    count_given p.bitmap p.high_zone pfn (omega arith) i f,
    count_outside p.bitmap p.dma_zone pfn (omega arith) (omega arith) (omega arith),
    count_outside p.bitmap p.normal_zone pfn (omega arith) (omega arith) (omega arith),
  )
