-- ===== src/Pmm/Alloc.antt =====
-- kernel/mm/pmm.c: allocation and freeing. A physical address 0 is the C code's failure, also where
-- the page at 0 was taken.
use obelisk_os.Prelude.{
  ℕ, zero, suc, ◌+◌, ◌*◌, Option, none, some, not, ◌==◌, ltb, if◌then◌else◌, add64, sub64,
  page_size,
}
use obelisk_os.Pmm.State.{
  ZoneType, dma, normal, high, Pmm, get_zone, put_zone, pfn_to_zone, pfn_to_phys, phys_to_pfn,
  update_page, page_freed, page_allocated,
}
use obelisk_os.Pmm.Bits.{
  bitmap_set, bitmap_clear, bitmap_test, bitmap_find_free, bitmap_find_free_region,
}

-- `zone->free_pages` and the global `free_pages`, both changed at once.
abbrev pub put_counts : Pmm → ZoneType → ℕ → ℕ → Pmm
put_counts p z in_zone total =
    record (put_zone p z (record (get_zone p z) { free_pages = in_zone })) { free_pages = total }

-- The end of `pmm_alloc_page_zone`: page `pfn` is marked used, counted and handed out.
unfoldable pub take_page : Pmm → ZoneType → ℕ → Pmm
take_page p z pfn =
    let marked = record p { bitmap = bitmap_set p.bitmap pfn } in
    let counted = put_counts marked z (sub64 (get_zone p z).free_pages 1) (sub64 p.free_pages 1) in
    update_page counted pfn (page_allocated z)

unfoldable pub pmm_alloc_page_zone : Pmm → ZoneType → ℕ × Pmm
unfolding take_page
pmm_alloc_page_zone p z =
    if (get_zone p z).free_pages == 0
    then (0, p)
    else elim (bitmap_find_free p.bitmap (get_zone p z).start_pfn (get_zone p z).end_pfn) [
      | none ↦ (0, p)
      | some pfn ↦ (pfn_to_phys pfn, take_page p z pfn)
    ]

-- `if (page) return page;`, and the next zone otherwise.
unfoldable pub or_else : ℕ × Pmm → (Pmm → ℕ × Pmm) → ℕ × Pmm
or_else (phys, p) next = if phys == 0 then next p else (phys, p)

unfoldable pub pmm_alloc_page : Pmm → ℕ × Pmm
unfolding or_else
pmm_alloc_page p =
    or_else (pmm_alloc_page_zone p normal)
      λ q. or_else (pmm_alloc_page_zone q high) λ r. pmm_alloc_page_zone r dma

-- `for (i = 0; i < count; i++)` over the pages from `pfn` on.
unfoldable pub mark_pages : ℕ → Pmm → ZoneType → ℕ → Pmm
mark_pages zero p z pfn = p
mark_pages (suc left) p z pfn =
    mark_pages left
      (update_page (record p { bitmap = bitmap_set p.bitmap pfn }) pfn (page_allocated z)) z
      (pfn + 1)

unfoldable pub take_pages : Pmm → ZoneType → ℕ → ℕ → Pmm
unfolding mark_pages
take_pages p z pfn count =
    let marked = mark_pages count p z pfn in
    put_counts marked z (sub64 (get_zone marked z).free_pages count) (sub64 marked.free_pages count)

unfoldable pub pmm_alloc_pages_zone : Pmm → ℕ → ZoneType → ℕ × Pmm
unfolding take_pages
pmm_alloc_pages_zone p count z =
    if ltb (get_zone p z).free_pages count
    then (0, p)
    else elim (bitmap_find_free_region p.bitmap (get_zone p z).start_pfn (get_zone p z).end_pfn
        count) [ none ↦ (0, p) | some pfn ↦ (pfn_to_phys pfn, take_pages p z pfn count) ]

unfoldable pub pmm_alloc_pages : Pmm → ℕ → ℕ × Pmm
unfolding or_else
pmm_alloc_pages p count =
    or_else (pmm_alloc_pages_zone p count normal)
      λ q. or_else (pmm_alloc_pages_zone q count high) λ r. pmm_alloc_pages_zone r count dma

unfoldable pub give_back : Pmm → ZoneType → ℕ → Pmm
give_back p z pfn =
    let cleared = record p { bitmap = bitmap_clear p.bitmap pfn } in
    let counted = put_counts cleared z (add64 (get_zone p z).free_pages 1) (add64 p.free_pages 1) in
    update_page counted pfn (page_freed z)

unfoldable pub free_in_zone : Pmm → Option ZoneType → ℕ → Pmm
unfolding give_back
free_in_zone p none pfn = p
free_in_zone p (some z) pfn = if not (bitmap_test p.bitmap pfn) then p else give_back p z pfn

-- A page of no zone, and one that is free already, are left alone.
unfoldable pub pmm_free_page : Pmm → ℕ → Pmm
unfolding free_in_zone
pmm_free_page p phys = free_in_zone p (pfn_to_zone p (phys_to_pfn phys)) (phys_to_pfn phys)

unfoldable pub free_from : ℕ → Pmm → ℕ → ℕ → Pmm
free_from zero p phys i = p
free_from (suc left) p phys i =
    free_from left (pmm_free_page p (add64 phys (i * page_size))) phys (i + 1)

unfoldable pub pmm_free_pages : Pmm → ℕ → ℕ → Pmm
unfolding free_from
pmm_free_pages p phys count = free_from count p phys 0
