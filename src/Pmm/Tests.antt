-- ===== src/Pmm/Tests.antt =====
-- A machine of sixteen frames for kernel/mm/pmm.c, runs of the code on it, and the theorems at it.
use obelisk_os.Prelude.{ℕ, ◌*◌, ◌≡◌, ◌≢◌, refl, arith, true, false, none, [], ◌∷◌}
use obelisk_os.Tally.{tally}
use obelisk_os.Pmm.State.{normal, high, Pmm, pfn_to_phys, update_page}
use obelisk_os.Pmm.Bits.{bitmap_test, bitmap_set, bitmap_find_free, find_free_from}
use obelisk_os.Pmm.Alloc.{
  pmm_alloc_page, pmm_alloc_page_zone, pmm_alloc_pages_zone, pmm_free_page, take_page, or_else,
}
use obelisk_os.Pmm.Region.{pmm_mark_region_free, pmm_init_bitmap, boot_state}
use obelisk_os.Pmm.Invariant.{Inv, is_free}
use obelisk_os.Pmm.Single.Any.{Handed, pmm_alloc_page-Handed, pmm_alloc_page_distinct}
use obelisk_os.Pmm.Single.Free.{pmm_free_page-take_page}
use obelisk_os.Pmm.Reachable.{Reachable, Reachable-Inv}
use obelisk_os.Pmm.Multi.Grant.{RegionAlloc, pmm_alloc_pages_zone_lem}

-- Frames 0 to 3 and 8 are in use; DMA is [0, 6), normal [6, 12), high [12, 16).
abbrev machine : Pmm
machine = record {
  dma_zone = record { start_pfn = 0; end_pfn = 6; total_pages = 6; free_pages = 2 };
  normal_zone = record { start_pfn = 6; end_pfn = 12; total_pages = 6; free_pages = 5 };
  high_zone = record { start_pfn = 12; end_pfn = 16; total_pages = 4; free_pages = 4 };
  total_pages = 16;
  free_pages = 11;
  usable_pages = 11;
  bitmap = 0x10f ∷ [];
  page_array = none;
  page_array_backing_phys = 0;
}

machine-Inv : Inv machine
unfolding tally bitmap_test
machine-Inv = record {
  layout = omega arith;
  dma_count = refl;
  normal_count = refl;
  high_count = refl;
  total_count = refl;
}

zero_used : is_free machine.bitmap 0 ≡ false
unfolding bitmap_test
zero_used = refl

allocates : (pmm_alloc_page machine).0 ≡ 6 * 4096
unfolding pmm_alloc_page pmm_alloc_page_zone bitmap_find_free find_free_from bitmap_test or_else
    take_page
allocates = refl

again : (pmm_alloc_page (pmm_alloc_page machine).1).0 ≡ 7 * 4096
unfolding pmm_alloc_page pmm_alloc_page_zone bitmap_find_free find_free_from bitmap_test bitmap_set
    or_else take_page update_page
again = refl

pmm_alloc_page-Handed_example : Handed machine (pmm_alloc_page machine)
pmm_alloc_page-Handed_example =
    pmm_alloc_page-Handed machine machine-Inv zero_used (omega (arith, allocates))

pmm_alloc_page_distinct_example :
    (pmm_alloc_page machine).0 ≢ (pmm_alloc_page (pmm_alloc_page machine).1).0
pmm_alloc_page_distinct_example =
    pmm_alloc_page_distinct machine machine-Inv zero_used (omega (arith, allocates))
      (omega (arith, again))

frame_13_free : is_free machine.bitmap 13 ≡ true
unfolding bitmap_test
frame_13_free = refl

pmm_free_page-take_page_example :
    let q = pmm_free_page (take_page machine high 13) (pfn_to_phys 13) in
    ((m : ℕ) → is_free q.bitmap m ≡ is_free machine.bitmap m)
    × (q.dma_zone ≡ machine.dma_zone)
    × (q.normal_zone ≡ machine.normal_zone)
    × (q.high_zone ≡ machine.high_zone)
    × (q.free_pages ≡ machine.free_pages)
pmm_free_page-take_page_example =
    pmm_free_page-take_page machine high 13 machine-Inv (omega arith) frame_13_free

pmm_alloc_pages_zone_lem_example :
    RegionAlloc machine 3 normal (pmm_alloc_pages_zone machine 3 normal)
pmm_alloc_pages_zone_lem_example =
    pmm_alloc_pages_zone_lem machine 3 normal machine-Inv (omega arith)

-- The first mebibyte of a machine of 0x2000 pages is in use, two pages are handed out and one comes back.
Reachable-Inv_example : Inv (
    pmm_free_page
      (pmm_alloc_page
        (pmm_alloc_page
          (pmm_mark_region_free (pmm_init_bitmap boot_state 0x2000) 0x100000 0x1f00000)).1).1
      0x1000000)
Reachable-Inv_example =
    Reachable-Inv
      (pmm_free_page
        (pmm_alloc_page
          (pmm_alloc_page
            (pmm_mark_region_free (pmm_init_bitmap boot_state 0x2000) 0x100000 0x1f00000)).1).1
        0x1000000)
      (Reachable.free
        (Reachable.alloc
          (Reachable.alloc (Reachable.mark_free (Reachable.start 0x2000) 0x100000 0x1f00000)))
        0x1000000)
