-- ===== src/Vmm/Pages.antt =====
-- What kernel/mm/vmm.c uses of the page tables, the page frames and the files.
use obelisk_os.Prelude.{ℕ, zero, suc, ◌+◌, ◌-◌, ◌/◌, Bool, ◌==◌, if◌then◌else◌, Result, page_size}

-- `M` is the state of the page tables and of the memory. The operations are mmu_resolve, mmu_get_flags,
-- mmu_set_flags, mmu_map and mmu_unmap of the address space at hand; pmm_alloc_page, or pmm_alloc_pages
-- of one page, and pmm_free_page; memset of a page with 0, memcpy of a page, memcpy between addresses;
-- and vfs_read of a page of a file, which says whether it works. Nothing is assumed of them.
pub record Mmu (M : Type 0) : Type 1 where
  pub resolve : M → ℕ → ℕ
  pub get_flags : M → ℕ → ℕ
  pub set_flags : M → ℕ → ℕ → M
  pub map_page : M → ℕ → ℕ → ℕ → Result ℕ × M
  pub unmap_page : M → ℕ → M
  pub alloc_page : M → ℕ × M
  pub free_page : M → ℕ → M
  pub zero_page : M → ℕ → M
  pub copy_page : M → ℕ → ℕ → M
  pub move_bytes : M → ℕ → ℕ → ℕ → M
  pub read_page : M → ℕ → ℕ → ℕ → Bool × M

module _ {M : Type 0} (mmu : Mmu M) where
  open mmu use {resolve, unmap_page, free_page}

  -- One round of the loops that unmap.
  unfoldable pub drop_page : M → ℕ → M
  drop_page m addr =
      let phys = resolve m addr in if phys == 0 then m else free_page (unmap_page m addr) phys

  -- `for (addr = start; addr < end; addr += PAGE_SIZE)`, with the number of rounds.
  unfoldable pub drop_pages : ℕ → M → ℕ → M
  unfolding drop_page
  drop_pages zero m addr = m
  drop_pages (suc left) m addr = drop_pages left (drop_page m addr) (addr + page_size)

-- How many pages the loop over `[start, end)` visits.
abbrev pub rounds : ℕ → ℕ → ℕ
rounds start end = (end - start + 4095) / 4096
