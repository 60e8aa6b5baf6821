-- ===== src/Vmm/Clone.antt =====
-- Creating and cloning an address space in kernel/mm/vmm.c.
pub mod Laws
use obelisk_os.Prelude.{
  ℕ, zero, suc, ◌+◌, ◌-◌, ◌/◌, ◌^◌, Bool, true, false, ◌==◌, List, [], ◌∷◌, Option, none, some,
  if◌then◌else◌, page_size, Result, ok, err,
}
use obelisk_os.Vmm.Area.{Vma, AddressSpace, vmm_create_vma, vmm_insert_vma}
use obelisk_os.Vmm.Pages.{Mmu, rounds}
use obelisk_os.Vmm.Map.{has_bit, user_heap_base}

-- What vmm_create_address_space makes, where there is memory for it.
abbrev pub vmm_create_address_space : AddressSpace
vmm_create_address_space = record {
  vma_list = [];
  vma_count = 0;
  total_vm = 0;
  brk_start = user_heap_base;
  brk_end = user_heap_base;
}

-- `flags &= ~PTE_COW`
abbrev pub without_cow : ℕ → ℕ
without_cow flags = if has_bit flags 9 then flags - 2 ^ 9 else flags

abbrev pub like : Vma → Vma → Vma
like v new = record new { prot = v.prot; file = v.file; offset = v.offset }

-- `mmu` is the parent's page table and `child` the one of the clone, over the same memory.
module _ {M : Type 0} (mmu child : Mmu M) where
  -- One page is copied, if it is mapped. Whether mapping the copy works is not looked at.
  unfoldable pub clone_page : M → ℕ → Bool × M
  clone_page m addr =
      let phys = mmu.resolve m addr in
      let (new_phys, m1) = mmu.alloc_page m in
      let m2 = mmu.copy_page m1 new_phys phys in
      let (r, m3) = child.map_page m2 addr new_phys (without_cow (mmu.get_flags m addr)) in
      if phys == 0 then (true, m) else if new_phys == 0 then (false, m1) else (true, m3)

  unfoldable pub clone_pages : ℕ → M → ℕ → Bool × M
  unfolding clone_page
  clone_pages zero m addr = (true, m)
  clone_pages (suc left) m addr =
      let (good, m') = clone_page m addr in
      let rest = clone_pages left m' (addr + page_size) in if good then rest else (false, m')

  -- The loop over the areas, on the areas of the clone so far.
  unfoldable pub clone_areas : Bool → List Vma → AddressSpace × M → Bool × AddressSpace × M
  unfolding clone_pages
  clone_areas memory [] (space, m) = (true, space, m)
  clone_areas memory (v ∷ l) (space, m) = elim (vmm_create_vma memory v.start v.end v.flags) [
    | none ↦ (false, space, m)
    | some new ↦
        let (r, space') = vmm_insert_vma space (like v new) in
        let (good, m') = clone_pages (rounds v.start v.end) m v.start in
        let rest = clone_areas memory l (space', m') in if good then rest else (false, space', m')
  ]

  abbrev pub finish_clone :
      (M → M) → AddressSpace → Bool × AddressSpace × M → Option AddressSpace × M
  finish_clone destroy space (true, new, m) =
      (some (record new { brk_start = space.brk_start; brk_end = space.brk_end }), m)
  finish_clone destroy space (false, new, m) = (none, destroy m)

  -- `memory` says whether the allocator finds room, `create` makes an empty page table, if it can, and
  -- `destroy` is mmu_destroy_page_table of it.
  unfoldable pub vmm_clone_address_space :
      Bool → (M → Bool × M) → (M → M) → AddressSpace × M → Option AddressSpace × M
  unfolding clone_areas
  vmm_clone_address_space memory create destroy (space, m) =
      let (created, m') = create m in
      if created
      then finish_clone destroy space
          (clone_areas memory space.vma_list (vmm_create_address_space, m'))
      else (none, m')
