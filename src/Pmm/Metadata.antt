-- ===== src/Pmm/Metadata.antt =====
-- `pmm_init_page_metadata` of kernel/mm/pmm.c: the array of page descriptions and where it is placed.
use Prim.Native.Nat.{bit_or}
use obelisk_os.Prelude.{
  ℕ, zero, suc, ◌+◌, ◌*◌, ◌/◌, ◌%◌, ◌^◌, List, [], ◌∷◌, Option, none, some, ◌==◌, if◌then◌else◌,
  add64, align_up, page_size,
}
use obelisk_os.Pmm.State.{
  ZoneType, dma, normal, Page, Pmm, zone_index, pfn_to_zone, phys_to_pfn, update_page,
  flag_reserved, flag_kernel, flag_dma, owner_kernel,
}
use obelisk_os.Pmm.Alloc.{pmm_alloc_pages}

-- `sizeof(struct page)` on x86_64
abbrev pub page_struct_size : ℕ
page_struct_size = 40

-- A frame of no zone counts as normal.
abbrev zone_field : Option ZoneType → ℕ
zone_field none = zone_index normal
zone_field (some z) = zone_index z

abbrev first_flags : Option ZoneType → ℕ
first_flags (some dma) = bit_or flag_reserved flag_dma
first_flags _ = flag_reserved

pub first_page : Option ZoneType → Page
first_page z = record {
  flags = first_flags z;
  refcount = 1;
  zone = zone_field z;
  owner = owner_kernel;
}

-- The loop over all frames, of which `left` are to come.
pub pages_from : ℕ → Pmm → ℕ → List Page
unfolding first_page
pages_from zero p pfn = []
pages_from (suc left) p pfn = first_page (pfn_to_zone p pfn) ∷ pages_from left p (pfn + 1)

-- The frames that hold the array belong to the kernel.
unfoldable pub mark_metadata : ℕ → Pmm → ℕ → ℕ → Pmm
mark_metadata zero p phys i = p
mark_metadata (suc left) p phys i =
    mark_metadata left
      (update_page p (phys_to_pfn (add64 phys (i * page_size))) (λ pg. record pg {
        flags = bit_or pg.flags flag_kernel;
        owner = owner_kernel;
        refcount = 1;
      }))
      phys (i + 1)

abbrev pub meta_pages : Pmm → ℕ
meta_pages p = align_up (p.total_pages * page_struct_size % 2 ^ 64) / page_size

unfoldable pub place_metadata : ℕ × Pmm → ℕ → Option Pmm
unfolding pages_from mark_metadata
place_metadata (phys, p) pages =
    if phys == 0
    then none
    else some (
        mark_metadata pages
          (record p {
            page_array = some (pages_from p.total_pages p 0);
            page_array_backing_phys = phys;
          })
          phys 0)

-- `none` is the panic of a machine with no room for the array.
unfoldable pub pmm_init_page_metadata : Pmm → Option Pmm
unfolding place_metadata
pmm_init_page_metadata p =
    if p.total_pages == 0
    then some p
    else place_metadata (pmm_alloc_pages p (meta_pages p)) (meta_pages p)
