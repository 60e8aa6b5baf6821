-- ===== src/Pmm/Region.antt =====
-- kernel/mm/pmm.c: the memory map, page metadata and statistics.
use Prim.Native.Nat.{bit_and, bit_or}
use obelisk_os.Prelude.{
  List, ℕ, zero, suc, ◌+◌, ◌-◌, ◌%◌, ◌^◌, Option, none, some, Bool, false, not, ◌==◌, ltb, leb,
  if◌then◌else◌, add64, sub64, align_up, align_down, replicate,
}
use obelisk_os.Word.Laws.{complement}
use obelisk_os.Pmm.State.{
  ZoneType, Zone, Page, Pmm, get_zone, pfn_to_zone, phys_to_pfn, pfn_to_page_struct, update_page,
  page_freed, page_used,
}
use obelisk_os.Pmm.Bits.{bitmap_set, bitmap_clear, bitmap_test}
use obelisk_os.Pmm.Alloc.{put_counts}

unfoldable pub release_frame : Pmm → ℕ → Option ZoneType → Pmm
release_frame p pfn none = p
release_frame p pfn (some z) =
    if bitmap_test p.bitmap pfn
    then (let cleared = record p { bitmap = bitmap_clear p.bitmap pfn } in
        let counted =
          put_counts cleared z (add64 (get_zone p z).free_pages 1) (add64 p.free_pages 1) in
        update_page (record counted { usable_pages = add64 p.usable_pages 1 }) pfn (page_freed z))
    else p

-- The loops over `[start_pfn, end_pfn)`; `left` frames are still to come.
unfoldable pub free_frames : ℕ → Pmm → ℕ → Pmm
unfolding release_frame
free_frames zero p pfn = p
free_frames (suc left) p pfn = free_frames left (release_frame p pfn (pfn_to_zone p pfn)) (pfn + 1)

unfoldable pub pmm_mark_region_free : Pmm → ℕ → ℕ → Pmm
unfolding free_frames
pmm_mark_region_free p base size =
    let start = phys_to_pfn (align_up base) in
    let end = phys_to_pfn (align_down (add64 base size)) in
    if leb end start then p else free_frames (end - start) p start

-- `if (n > 0) n--;`
abbrev pub count_down : ℕ → ℕ
count_down n = if ltb 0 n then n - 1 else n

unfoldable pub claim_frame : Pmm → ℕ → Option ZoneType → Pmm
claim_frame p pfn none = p
claim_frame p pfn (some z) =
    if not (bitmap_test p.bitmap pfn)
    then (let marked = record p { bitmap = bitmap_set p.bitmap pfn } in
        let counted =
          put_counts marked z (count_down (get_zone p z).free_pages) (count_down p.free_pages) in
        update_page counted pfn (page_used z))
    else p

unfoldable pub use_frames : ℕ → Pmm → ℕ → Pmm
unfolding claim_frame
use_frames zero p pfn = p
use_frames (suc left) p pfn = use_frames left (claim_frame p pfn (pfn_to_zone p pfn)) (pfn + 1)

unfoldable pub pmm_mark_region_used : Pmm → ℕ → ℕ → Pmm
unfolding use_frames
pmm_mark_region_used p base size =
    let start = phys_to_pfn (align_down base) in
    let end = phys_to_pfn (align_up (add64 base size)) in use_frames (end - start) p start

-- The managed range is capped to what `initial_bitmap` holds: 2^15 words of 32 bits.
abbrev pub max_bitmap_pages : ℕ
max_bitmap_pages = 1_048_576

-- An array of `words` words that `memset` filled: `initial_bitmap` at the start, and all ones later.
unfoldable pub filled : ℕ → ℕ → List ℕ
filled words value = replicate words value

-- The static initialisers of the file.
unfoldable pub boot_state : Pmm
boot_state = record {
  dma_zone = record { start_pfn = 0; end_pfn = 0x1000; total_pages = 0; free_pages = 0 };
  normal_zone = record { start_pfn = 0x1000; end_pfn = 0x100000; total_pages = 0; free_pages = 0 };
  high_zone = record { start_pfn = 0x100000; end_pfn = 0; total_pages = 0; free_pages = 0 };
  total_pages = 0;
  free_pages = 0;
  usable_pages = 0;
  bitmap = filled 32768 0;
  page_array = none;
  page_array_backing_phys = 0;
}

abbrev pub empty_zone : ℕ → ℕ → Zone
empty_zone start end = record {
  start_pfn = start;
  end_pfn = end;
  total_pages = sub64 end start;
  free_pages = 0;
}

unfoldable pub pmm_init_bitmap : Pmm → ℕ → Pmm
pmm_init_bitmap p num_pages =
    let total = if ltb max_bitmap_pages num_pages then max_bitmap_pages else num_pages in
    record p {
      dma_zone = empty_zone p.dma_zone.start_pfn (
          if ltb 0x100000 total
          then p.dma_zone.end_pfn
          else if ltb 0x1000 total
          then p.dma_zone.end_pfn
          else total);
      normal_zone = empty_zone p.normal_zone.start_pfn (
          if ltb 0x100000 total
          then p.normal_zone.end_pfn
          else if ltb 0x1000 total
          then total
          else p.normal_zone.start_pfn);
      high_zone =
          empty_zone p.high_zone.start_pfn
            (if ltb 0x100000 total then total else p.high_zone.start_pfn);
      total_pages = total;
      free_pages = 0;
      usable_pages = 0;
      bitmap = filled 32768 (2 ^ 32 - 1);
    }

pub pmm_get_used_pages : Pmm → ℕ
pmm_get_used_pages p = sub64 p.total_pages p.free_pages

pub pmm_get_page_by_phys : Pmm → ℕ → Option Page
pmm_get_page_by_phys p phys = pfn_to_page_struct p (phys_to_pfn phys)

pub pmm_page_set_owner : Pmm → ℕ → ℕ → Pmm
pmm_page_set_owner p phys owner =
    update_page p (phys_to_pfn phys) (λ pg. record pg { owner = owner })

pub pmm_page_update_flags : Pmm → ℕ → ℕ → ℕ → Pmm
pmm_page_update_flags p phys set_flags clear_flags =
    update_page p (phys_to_pfn phys)
      (λ pg. record pg { flags = bit_and (bit_or pg.flags set_flags) (complement 32 clear_flags) })

-- `refcount` is a `uint32_t`.
pub pmm_page_ref_inc : Pmm → ℕ → Pmm
pmm_page_ref_inc p phys =
    update_page p (phys_to_pfn phys) (λ pg. record pg { refcount = (pg.refcount + 1) % 2 ^ 32 })

-- The result says whether the last reference went.
pub pmm_page_ref_dec : Pmm → ℕ → Bool × Pmm
unfolding pmm_get_page_by_phys
pmm_page_ref_dec p phys = elim (pmm_get_page_by_phys p phys) [
  | none ↦ (false, p)
  | some pg ↦ if pg.refcount == 0 then (false, p) else (
    pg.refcount - 1 == 0,
    update_page p (phys_to_pfn phys) (λ old. record old { refcount = old.refcount - 1 }),
  )
]
