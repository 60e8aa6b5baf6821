-- ===== src/Pmm/Init.antt =====
-- `pmm_init_bitmap` of kernel/mm/pmm.c sets up the invariant, with every frame in use.
use obelisk_os.Prelude.{
  ℕ, zero, suc, ◌-◌, ◌*◌, ◌/◌, ◌%◌, ◌^◌, ◌≤◌, ◌<◌, ◌≡◌, refl, ap, arith, false, length, get_or,
  replicate, length-replicate, ltb, min, ◌&&◌,
}
use obelisk_os.Word.{bit}
use obelisk_os.Word.Laws.{bit-high_mask}
use obelisk_os.Tally.{tally_none}
use obelisk_os.Pmm.State.{Zone, Pmm, pfn_to_zone}
use obelisk_os.Pmm.Bits.{test_lem}
use obelisk_os.Pmm.Region.{filled, boot_state, pmm_init_bitmap, max_bitmap_pages}
use obelisk_os.Pmm.Invariant.{Inv, Layout, is_free, free_count}
use obelisk_os.Pmm.Marking.{has_zone}

get_or-replicate_lt : (n i : ℕ) (a d : ℕ) → i < n → get_or (replicate n a) i d ≡ a
get_or-replicate_lt zero i a d h = absurd (omega arith)
get_or-replicate_lt (suc n) zero a d h = refl
get_or-replicate_lt (suc n) (suc i) a d h = get_or-replicate_lt n i a d (omega arith)

length-filled : (words value : ℕ) → length (filled words value) ≡ words
unfolding filled
length-filled words value = length-replicate words value

ones_used : (words pfn : ℕ) → pfn < 32 * words → is_free (filled words (2 ^ 32 - 1)) pfn ≡ false
unfolding filled
ones_used words pfn h = ground (
  arith,
  test_lem (filled words (2 ^ 32 - 1)) pfn,
  ap (λ (t : ℕ). bit t (pfn % 32))
      (get_or-replicate_lt words (pfn / 32) (2 ^ 32 - 1) 0 (omega arith)),
  bit-high_mask 32 0 (pfn % 32) (omega arith) (omega arith),
)

none_free :
    (words : ℕ) (z : Zone) → z.end_pfn ≤ 32 * words → free_count (filled words (2 ^ 32 - 1)) z ≡ 0
none_free words z h =
    tally_none (is_free (filled words (2 ^ 32 - 1))) z.start_pfn (z.end_pfn - z.start_pfn)
      (λ m p q. ones_used words m (omega arith))

abbrev booted : ℕ → Pmm
booted num_pages = pmm_init_bitmap boot_state num_pages

booted-Layout : (num_pages : ℕ) → Layout (booted num_pages)
unfolding pmm_init_bitmap boot_state
booted-Layout num_pages = ground (arith, length-filled 32768 (2 ^ 32 - 1))

booted_none :
    (num_pages : ℕ) (z : Zone)
    → z.end_pfn ≤ max_bitmap_pages
    → free_count (booted num_pages).bitmap z ≡ 0
unfolding pmm_init_bitmap
booted_none num_pages z h = none_free 32768 z (omega arith)

booted_counts :
    (num_pages : ℕ)
    → ((booted num_pages).dma_zone.free_pages ≡ 0)
      × ((booted num_pages).normal_zone.free_pages ≡ 0)
      × ((booted num_pages).high_zone.free_pages ≡ 0)
      × ((booted num_pages).free_pages ≡ 0)
      × (32 * length (booted num_pages).bitmap ≡ max_bitmap_pages)
unfolding pmm_init_bitmap boot_state
booted_counts num_pages = (refl, refl, refl, refl, omega (arith, length-filled 32768 (2 ^ 32 - 1)))

booted-Inv : (num_pages : ℕ) → Inv (booted num_pages)
booted-Inv num_pages =
    let l = booted-Layout num_pages in
    let c = booted_counts num_pages in
    record {
      layout = l;
      dma_count = omega (arith, booted_none num_pages (booted num_pages).dma_zone (omega arith));
      normal_count =
          omega (arith, booted_none num_pages (booted num_pages).normal_zone (omega arith));
      high_count = omega (arith, booted_none num_pages (booted num_pages).high_zone (omega arith));
      total_count = omega arith;
    }

-- From the static state, `pmm_init_bitmap` gives right accounts for any number of pages: it manages at
-- most 2^20 of them, the frames below the managed number have a zone and no others, and none is free.
pub pmm_init_bitmap_lem :
    (num_pages : ℕ)
    → let q = pmm_init_bitmap boot_state num_pages in
      Inv q
      × (q.total_pages ≡ min num_pages max_bitmap_pages)
      × ((pfn : ℕ) → has_zone q pfn ≡ ltb pfn q.total_pages)
      × ((pfn : ℕ) → has_zone q pfn && is_free q.bitmap pfn ≡ false)
unfolding pmm_init_bitmap boot_state pfn_to_zone
pmm_init_bitmap_lem num_pages = (
  booted-Inv num_pages,
  ground arith,
  λ pfn. ground arith,
  λ pfn. ground (arith, ones_used 32768 pfn),
)
