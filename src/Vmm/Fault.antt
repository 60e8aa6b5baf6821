-- ===== src/Vmm/Fault.antt =====
-- Page faults and the change of a protection in kernel/mm/vmm.c.
pub mod Laws
use obelisk_os.Prelude.{
  ℕ, zero, suc, ◌+◌, ◌-◌, ◌/◌, ◌^◌, Bool, true, false, not, ◌&&◌, ltb, ◌==◌, Option, none, some,
  if◌then◌else◌, add64, page_size, align_up, align_down, Result, ok, err, Errno,
}
use Errno.{efault, eacces, enomem}
use obelisk_os.Vmm.Area.{Vma, AddressSpace, vmm_find_vma}
use obelisk_os.Vmm.Pages.{Mmu, rounds}
use obelisk_os.Vmm.Map.{has_bit, vmm_prot_to_pte_flags}

-- A write to an area without VMA_WRITE
abbrev pub forbidden : Vma → ℕ → Bool
forbidden v error_code = has_bit error_code 1 && not (has_bit v.flags 1)

module _ {M : Type 0} (mmu : Mmu M) where
  open mmu use {
    resolve, get_flags, set_flags, alloc_page, free_page, copy_page, zero_page, map_page,
    unmap_page,
  }

  -- PTE_COW is bit 9.
  abbrev pub is_shared : M → ℕ → Bool
  is_shared m page = not (resolve m page == 0) && has_bit (get_flags m page) 9

  -- A page of its own, with the same bytes, replaces the shared one.
  unfoldable pub copy_on_write : Vma → M → ℕ → Result ℕ × M
  copy_on_write v m page =
      let (new_phys, m1) = alloc_page m in
      let m2 = unmap_page (copy_page m1 new_phys (resolve m page)) page in
      let (mapped, m3) = map_page m2 page new_phys (vmm_prot_to_pte_flags v.prot) in
      if new_phys == 0 then (err enomem, m1) else (ok 0, m3)

  -- What follows mmu_map: the page is given back when it fails.
  abbrev pub demanded : ℕ → Result ℕ × M → Result ℕ × M
  demanded phys (err e, m) = (err e, free_page m phys)
  demanded phys (ok n, m) = (ok 0, m)

  -- A new page, zeroed.
  unfoldable pub demand_page : Vma → M → ℕ → Result ℕ × M
  demand_page v m page =
      let (phys, m1) = alloc_page m in
      if phys == 0
      then (err enomem, m1)
      else demanded phys (map_page (zero_page m1 phys) page phys (vmm_prot_to_pte_flags v.prot))

  unfoldable pub vmm_handle_page_fault : AddressSpace × M → ℕ → ℕ → Result ℕ × M
  unfolding copy_on_write demand_page
  vmm_handle_page_fault (space, m) addr error_code = elim (vmm_find_vma space.vma_list addr) [
    | none ↦ (err efault, m)
    | some v ↦
        if forbidden v error_code
        then (err eacces, m)
        else if is_shared m (align_down addr)
        then copy_on_write v m (align_down addr)
        else demand_page v m (align_down addr)
  ]

  -- The loop of mprotect.
  unfoldable pub protect_pages : ℕ → ℕ → M → ℕ → M
  protect_pages zero flags m addr = m
  protect_pages (suc left) flags m addr =
      let m' = if resolve m addr == 0 then m else set_flags m addr flags in
      protect_pages left flags m' (addr + page_size)

  -- Only the page tables change; the areas keep their protection.
  unfoldable pub vmm_mprotect : M → ℕ → ℕ → ℕ → Result ℕ × M
  unfolding protect_pages
  vmm_mprotect m addr length prot =
      let start = align_down addr in
      let end = align_up (add64 addr length) in
      (ok 0, protect_pages (rounds start end) (vmm_prot_to_pte_flags prot) m start)
