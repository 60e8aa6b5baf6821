-- ===== src/Pmm/State.antt =====
-- kernel/mm/include/mm/pmm.h and the file-level state of kernel/mm/pmm.c.
use Prim.Native.Nat.{bit_and, bit_or}
use obelisk_os.Prelude.{
  ℕ, ◌*◌, ◌/◌, ◌%◌, ◌^◌, Option, none, some, List, Bool, ◌&&◌, ltb, leb, if◌then◌else◌, set, get_or,
  length,
}
use obelisk_os.Word.Laws.{complement}

-- `zone_type_t`
pub data ZoneType : Type 0 where
  dma normal high : ZoneType

pub record Zone : Type 0 where
  pub start_pfn : ℕ
  pub end_pfn : ℕ
  pub total_pages : ℕ
  pub free_pages : ℕ

-- `struct page`, without the list link and the private pointer, which no function here touches.
pub record Page : Type 0 where
  pub flags : ℕ
  pub refcount : ℕ
  pub zone : ℕ
  pub owner : ℕ

-- The three zones, and the static variables. Every zone points to the one `initial_bitmap`.
-- `page_array` is `none` until the metadata is allocated.
pub record Pmm : Type 0 where
  pub dma_zone : Zone
  pub normal_zone : Zone
  pub high_zone : Zone
  pub total_pages : ℕ
  pub free_pages : ℕ
  pub usable_pages : ℕ
  pub bitmap : List ℕ
  pub page_array : Option (List Page)
  pub page_array_backing_phys : ℕ

-- PAGE_FLAG_* and PAGE_OWNER_*
abbrev pub flag_reserved : ℕ
flag_reserved = 1

abbrev pub flag_kernel : ℕ
flag_kernel = 2

abbrev pub flag_dma : ℕ
flag_dma = 8

-- RESERVED | KERNEL | USER | SLAB
abbrev pub flags_of_use : ℕ
flags_of_use = 135

abbrev pub owner_free : ℕ
owner_free = 0

abbrev pub owner_kernel : ℕ
owner_kernel = 1

abbrev pub owner_dma : ℕ
owner_dma = 5

abbrev pub get_zone : Pmm → ZoneType → Zone
get_zone p dma = p.dma_zone
get_zone p normal = p.normal_zone
get_zone p high = p.high_zone

abbrev pub put_zone : Pmm → ZoneType → Zone → Pmm
put_zone p dma z = record p { dma_zone = z }
put_zone p normal z = record p { normal_zone = z }
put_zone p high z = record p { high_zone = z }

abbrev pub zone_index : ZoneType → ℕ
zone_index dma = 0
zone_index normal = 1
zone_index high = 2

abbrev pub in_zone : Zone → ℕ → Bool
in_zone z pfn = leb z.start_pfn pfn && ltb pfn z.end_pfn

unfoldable pub pfn_to_zone : Pmm → ℕ → Option ZoneType
pfn_to_zone p pfn =
    if in_zone p.dma_zone pfn
    then some dma
    else if in_zone p.normal_zone pfn
    then some normal
    else if in_zone p.high_zone pfn
    then some high
    else none

abbrev pub pfn_to_phys : ℕ → ℕ
pfn_to_phys pfn = pfn * 4096 % 2 ^ 64

abbrev pub phys_to_pfn : ℕ → ℕ
phys_to_pfn phys = phys / 4096

abbrev no_page : Page
no_page = record { flags = 0; refcount = 0; zone = 0; owner = 0 }

-- A pointer into `page_array` is its value; `none` is NULL.
page_in : Option (List Page) → ℕ → Option Page
page_in none pfn = none
page_in (some pages) pfn = if leb (length pages) pfn then none else some (get_or pages pfn no_page)

pub pfn_to_page_struct : Pmm → ℕ → Option Page
unfolding page_in
pfn_to_page_struct p pfn = page_in p.page_array pfn

-- `if (pg) { … }`: the write through the pointer that `pfn_to_page_struct` gave.
pub write_page : Option (List Page) → ℕ → (Page → Page) → Option (List Page)
write_page none pfn f = none
write_page (some pages) pfn f =
    if leb (length pages) pfn
    then some pages
    else some (set pages pfn (f (get_or pages pfn no_page)))

unfoldable pub update_page : Pmm → ℕ → (Page → Page) → Pmm
unfolding write_page
update_page p pfn f = record p { page_array = write_page p.page_array pfn f }

-- `pg->flags |= PAGE_FLAG_DMA` in the DMA zone, `&= ~PAGE_FLAG_DMA` elsewhere.
abbrev pub dma_mark : ZoneType → ℕ → ℕ
dma_mark dma flags = bit_or flags flag_dma
dma_mark _ flags = bit_and flags (complement 32 flag_dma)

-- The metadata of a page that becomes free, that is marked used, and that is handed out.
pub page_freed : ZoneType → Page → Page
page_freed z pg = record pg {
  refcount = 0;
  flags = dma_mark z (bit_and pg.flags (complement 32 flags_of_use));
  owner = owner_free;
}

pub page_used : ZoneType → Page → Page
page_used z pg = record pg {
  refcount = 1;
  flags = dma_mark z (bit_or pg.flags (bit_or flag_reserved flag_kernel));
  owner = owner_kernel;
}

abbrev alloc_owner : ZoneType → ℕ
alloc_owner dma = owner_dma
alloc_owner _ = owner_kernel

pub page_allocated : ZoneType → Page → Page
page_allocated z pg = record pg {
  refcount = 1;
  flags = dma_mark z (bit_or pg.flags (bit_or flag_reserved flag_kernel));
  owner = alloc_owner z;
}
