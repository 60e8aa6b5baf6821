-- ===== src/Vmm/Heap.antt =====
-- `vmm_brk` of kernel/mm/vmm.c.
use obelisk_os.Prelude.{
  ℕ, zero, suc, ◌+◌, ◌-◌, ◌^◌, Bool, true, false, not, ltb, ◌==◌, if◌then◌else◌, page_size,
  align_up, Result, ok, err,
}
use obelisk_os.Vmm.Area.{AddressSpace}
use obelisk_os.Vmm.Pages.{Mmu, drop_pages, rounds}

-- (void *)-1
abbrev pub brk_failed : ℕ
brk_failed = 2 ^ 64 - 1

module _ {M : Type 0} (mmu : Mmu M) where
  open mmu use {resolve, alloc_page, map_page, free_page, zero_page}

  -- What follows mmu_map: the page is zeroed, or given back.
  abbrev pub entered : ℕ → Result ℕ × M → Bool × M
  entered phys (err e, m) = (false, free_page m phys)
  entered phys (ok n, m) = (true, zero_page m phys)

  -- The page that was got goes into the tables, with PTE_PRESENT | PTE_WRITABLE | PTE_USER.
  abbrev pub enter_page : M → ℕ → ℕ → Bool × M
  enter_page m addr phys = entered phys (map_page m addr phys 7)

  -- One round of the loop that expands the heap.
  unfoldable pub grow_page : M → ℕ → Bool × M
  grow_page m addr =
      let (phys, m') = alloc_page m in
      if not (resolve m addr == 0)
      then (false, m)
      else if phys == 0
      then (false, m')
      else enter_page m' addr phys

  unfoldable pub grow_pages : ℕ → M → ℕ → Bool × M
  unfolding grow_page
  grow_pages zero m addr = (true, m)
  grow_pages (suc left) m addr =
      let (good, m') = grow_page m addr in
      let rest = grow_pages left m' (addr + page_size) in if good then rest else (false, m')

  abbrev pub set_brk : ℕ → AddressSpace → Bool × M → ℕ × AddressSpace × M
  set_brk new_brk space (true, m) = (new_brk, record space { brk_end = new_brk }, m)
  set_brk new_brk space (false, m) = (brk_failed, space, m)

  -- The change of the pages of the heap, and whether it works.
  unfoldable pub resize_heap : ℕ → AddressSpace → M → Bool × M
  unfolding grow_pages
  resize_heap new_brk space m =
      if ltb space.brk_end new_brk
      then grow_pages (rounds space.brk_end new_brk) m space.brk_end
      else if ltb new_brk space.brk_end
      then (true, drop_pages mmu (rounds new_brk space.brk_end) m new_brk)
      else (true, m)

  unfoldable pub vmm_brk : AddressSpace × M → ℕ → ℕ × AddressSpace × M
  unfolding resize_heap
  vmm_brk (space, m) addr =
      let new_brk = align_up addr in
      if addr == 0
      then (space.brk_end, space, m)
      else if ltb new_brk space.brk_start
      then (brk_failed, space, m)
      else set_brk new_brk space (resize_heap new_brk space m)
