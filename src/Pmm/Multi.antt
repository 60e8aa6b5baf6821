-- ===== src/Pmm/Multi.antt =====
-- Several pages at once: `pmm_alloc_pages_zone` of kernel/mm/pmm.c.
pub mod Grant
use obelisk_os.Prelude.{
  ℕ, zero, suc, ◌+◌, ◌-◌, ◌*◌, ◌^◌, ◌≤◌, ◌<◌, ◌≡◌, ◌≢◌, refl, ap, arith, Option, none, some, List,
  Bool, true, false, ◌==◌, if◌then◌else◌, leb, ltb, ◌&&◌, Bool-cases, inl, inr, length, sub64,
}
use obelisk_os.Pmm.State.{
  ZoneType, dma, normal, high, Zone, Page, Pmm, get_zone, pfn_to_phys, update_page, page_allocated,
}
use obelisk_os.Pmm.Bits.{bitmap_set, bitmap_find_free_region, test-set, length-bitmap_set}
use obelisk_os.Pmm.Alloc.{put_counts, mark_pages, take_pages, pmm_alloc_pages_zone}
use obelisk_os.Pmm.Region.{max_bitmap_pages}
use obelisk_os.Pmm.Invariant.{
  Inv, Inside, is_free, free_count, marked_used, marked_used-Inv, counts_small,
}
use obelisk_os.Pmm.FindRegion.{AllFree, Blocked, FoundRegion, bitmap_find_free_region_lem}
use obelisk_os.Pmm.Single.{update_page-Inv, counts_positive}

-- What the loop leaves alone, and the bits that it sets.
pub mark_pages_zones :
    (left : ℕ) (p : Pmm) (z : ZoneType) (pfn : ℕ)
    → let q = mark_pages left p z pfn in
      (q.dma_zone ≡ p.dma_zone)
      × (q.normal_zone ≡ p.normal_zone)
      × (q.high_zone ≡ p.high_zone)
      × (q.free_pages ≡ p.free_pages)
unfolding mark_pages update_page
mark_pages_zones zero p z pfn = (refl, refl, refl, refl)
mark_pages_zones (suc left) p z pfn =
    mark_pages_zones left
      (update_page (record p { bitmap = bitmap_set p.bitmap pfn }) pfn (page_allocated z)) z
      (pfn + 1)

pub mark_pages_bits :
    (left : ℕ) (p : Pmm) (z : ZoneType) (pfn m : ℕ)
    → pfn + left ≤ 32 * length p.bitmap
    → is_free (mark_pages left p z pfn).bitmap m
      ≡ (if leb pfn m && ltb m (pfn + left) then false else is_free p.bitmap m)
unfolding mark_pages update_page
mark_pages_bits zero p z pfn m h = ground arith
mark_pages_bits (suc left) p z pfn m h = ground (
  arith,
  mark_pages_bits left
      (update_page (record p { bitmap = bitmap_set p.bitmap pfn }) pfn (page_allocated z)) z
      (pfn + 1) m (omega (arith, length-bitmap_set p.bitmap pfn)),
  test-set p.bitmap pfn m (omega arith),
)

-- Marking one more page, where the counters are settled at the end.
mark_one :
    (p : Pmm) (z : ZoneType) (pfn a b : ℕ)
    → Inv (put_counts p z a b)
    → Inside (get_zone p z) pfn
    → is_free p.bitmap pfn ≡ true
    → Inv (put_counts (record p { bitmap = bitmap_set p.bitmap pfn }) z (sub64 a 1) (sub64 b 1))
mark_one p dma pfn a b v i f = marked_used-Inv (put_counts p dma a b) pfn v dma i f
mark_one p normal pfn a b v i f = marked_used-Inv (put_counts p normal a b) pfn v normal i f
mark_one p high pfn a b v i f = marked_used-Inv (put_counts p high a b) pfn v high i f

metadata_aside :
    (p : Pmm) (z : ZoneType) (pfn a b : ℕ) (f : Page → Page)
    → Inv (put_counts p z a b)
    → Inv (put_counts (update_page p pfn f) z a b)
unfolding update_page
metadata_aside p dma pfn a b f v = omega arith
metadata_aside p normal pfn a b f v = omega arith
metadata_aside p high pfn a b f v = omega arith

get_zone-marked :
    (p : Pmm) (z : ZoneType) (pfn : ℕ) (f : Page → Page)
    → get_zone (update_page (record p { bitmap = bitmap_set p.bitmap pfn }) pfn f) z ≡ get_zone p z
unfolding update_page
get_zone-marked p dma pfn f = refl
get_zone-marked p normal pfn f = refl
get_zone-marked p high pfn f = refl

bitmap-marked :
    (p : Pmm) (pfn : ℕ) (f : Page → Page)
    → (update_page (record p { bitmap = bitmap_set p.bitmap pfn }) pfn f).bitmap
      ≡ bitmap_set p.bitmap pfn
unfolding update_page
bitmap-marked p pfn f = refl

module _ (z : ZoneType) where
  pub mark_pages-Inv :
      (left : ℕ) (p : Pmm) (pfn a b : ℕ)
      → Inv (put_counts p z a b)
      → left ≤ a
      → left ≤ b
      → a < 2 ^ 64
      → b < 2 ^ 64
      → pfn + left ≤ 32 * length p.bitmap
      → (get_zone p z).start_pfn ≤ pfn
      → pfn + left ≤ (get_zone p z).end_pfn
      → AllFree p.bitmap pfn left
      → Inv (put_counts (mark_pages left p z pfn) z (a - left) (b - left))
  unfolding mark_pages
  mark_pages-Inv zero p pfn a b v ha hb wa wb fits lo hi free = rw (all, rest) v
    where
      all : a - 0 ≡ a
      all = omega arith

      rest : b - 0 ≡ b
      rest = omega arith
  mark_pages-Inv (suc left) p pfn a b v ha hb wa wb fits lo hi free =
      rw (fewer, less)
        (mark_pages-Inv left q (pfn + 1) (a - 1) (b - 1)
          (metadata_aside _ z pfn (a - 1) (b - 1) (page_allocated z) (
            rw (one, two) at
              (mark_one p z pfn a b v (lo, omega arith) (free pfn (omega arith) (omega arith)))))
          (omega arith) (omega arith) (omega arith) (omega arith)
          (rw (bitmap-marked p pfn (page_allocated z), length-bitmap_set p.bitmap pfn)
            (omega arith))
          (rw (get_zone-marked p z pfn (page_allocated z)) (omega arith))
          (rw (get_zone-marked p z pfn (page_allocated z)) (omega arith)) still)
    where
      q : Pmm
      q = update_page (record p { bitmap = bitmap_set p.bitmap pfn }) pfn (page_allocated z)

      one : sub64 a 1 ≡ a - 1
      one = omega arith

      two : sub64 b 1 ≡ b - 1
      two = omega arith

      fewer : a - suc left ≡ a - 1 - left
      fewer = omega arith

      less : b - suc left ≡ b - 1 - left
      less = omega arith

      still : AllFree q.bitmap (pfn + 1) left
      still j s t = ground (
        arith,
        bitmap-marked p pfn (page_allocated z),
        ap (λ (bm : List ℕ). is_free bm j) (bitmap-marked p pfn (page_allocated z)),
        test-set p.bitmap pfn j (omega arith),
        free j (omega arith) (omega arith),
      )
