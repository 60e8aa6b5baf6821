-- ===== src/Vmm/Fault/Laws.antt =====
-- Page faults of kernel/mm/vmm.c behind munmap and mmap.
use mathlib.Core.Option.{some-injective}
use obelisk_os.Prelude.{
  ℕ, ◌+◌, ◌%◌, ◌≤◌, ◌<◌, ◌≡◌, refl, ap, ◌∙◌, arith, Bool, true, false, ◌&&◌, ltb, leb, ◌==◌, Option,
  none, some, if◌then◌else◌, align_down, align_up, err, Errno,
}
use Errno.{efault, eacces}
use obelisk_os.Vmm.Area.{Vma, AddressSpace, user_space_end, vmm_find_vma}
use obelisk_os.Vmm.Area.Laws.{SortedFrom, Region, region, region_of, view}
use obelisk_os.Word.{bit, bit_or-bit}
use obelisk_os.Vmm.Pages.{Mmu}
use obelisk_os.Vmm.Unmap.{vmm_munmap}
use obelisk_os.Vmm.Unmap.Laws.{without}
use obelisk_os.Vmm.Unmap.Refine.{vmm_munmap_lem}
use obelisk_os.Vmm.Map.{Request, is_anonymous, is_fixed, has_bit, flag_if, vma_flags, vmm_mmap}
use obelisk_os.Vmm.Map.Install.{area}
use obelisk_os.Vmm.Map.Refine.{mmap-fixed}
use obelisk_os.Vmm.Fault.{vmm_handle_page_fault}

region_of-none : (o : Option Vma) (addr : ℕ) → region_of o addr ≡ none → o ≡ none
region_of-none none addr e = refl
region_of-none (some v) addr e = absurd (cc e)

region_of-some :
    (o : Option Vma) (addr : ℕ) (r : Region)
    → region_of o addr ≡ some r
    → (v : Vma) × (o ≡ some v) × (v.flags ≡ r.flags)
region_of-some none addr r e = absurd (cc e)
region_of-some (some v) addr r e = (v, refl, ap (λ (x : Region). x.flags) (some-injective _ _ e))

-- Other flags leave bit 1 alone.
flag_keeps : (b : Bool) (f acc : ℕ) → bit f 1 ≡ 0 → bit (flag_if b f acc) 1 ≡ bit acc 1
flag_keeps false f acc e = refl
flag_keeps true f acc e = omega (arith, bit_or-bit acc f 1, e)

-- The flag VMA_WRITE of an area is PROT_WRITE of the request.
vma_flags-write : (prot flags : ℕ) → has_bit (vma_flags prot flags) 1 ≡ has_bit prot 1
vma_flags-write prot flags =
    ap (λ n. n == 1)
      (flag_keeps (has_bit flags 5) 128 _ refl
        ∙ flag_keeps (has_bit flags 1) 16 _ refl
        ∙ flag_keeps (has_bit flags 0) 8 _ refl
        ∙ flag_keeps (has_bit prot 2) 4 _ refl)
    ∙ low (has_bit prot 0) (has_bit prot 1)
  where
    low : (r w : Bool) → (bit (flag_if w 2 (flag_if r 1 0)) 1 == 1) ≡ w
    low true true = refl
    low true false = refl
    low false true = refl
    low false false = refl

module _ {M : Type 0} (mmu : Mmu M) where
  fault_outside :
      (space : AddressSpace) (m : M) (addr code : ℕ)
      → view space.vma_list addr ≡ none
      → vmm_handle_page_fault mmu (space, m) addr code ≡ (err efault, m)
  unfolding vmm_handle_page_fault
  fault_outside space m addr code e =
      rw (region_of-none (vmm_find_vma space.vma_list addr) addr e, vmm_handle_page_fault) refl

  fault_forbidden :
      (space : AddressSpace) (m : M) (addr code : ℕ) (r : Region)
      → view space.vma_list addr ≡ some r
      → has_bit r.flags 1 ≡ false
      → has_bit code 1 ≡ true
      → vmm_handle_page_fault mmu (space, m) addr code ≡ (err eacces, m)
  unfolding vmm_handle_page_fault
  fault_forbidden space m addr code r e closed write =
      let (v, found, same) = region_of-some (vmm_find_vma space.vma_list addr) addr r e in
      let closed' : has_bit v.flags 1 ≡ false = ap (λ f. has_bit f 1) same ∙ closed in
      rw (found, write, closed', vmm_handle_page_fault) refl

  -- After `vmm_munmap` of a range inside the user's space, where the areas were in order and there was
  -- memory for a split area, every page fault at an address of the pages of the range gives EFAULT and
  -- changes nothing, whatever the memory is then.
  pub munmap-fault :
      (addr length : ℕ) (space : AddressSpace) (m m' : M) (at code : ℕ)
      → SortedFrom 0 space.vma_list
      → addr + length ≤ user_space_end
      → align_down addr ≤ at
      → at < align_up (addr + length)
      → vmm_handle_page_fault mmu ((vmm_munmap mmu true addr length (space, m)).1, m') at code
        ≡ (err efault, m')
  munmap-fault addr length space m m' at code s top low high =
      let (done, cleared) = vmm_munmap_lem mmu addr length space m s top in
      fault_outside (vmm_munmap mmu true addr length (space, m)).1 m' at code
        (gone _ (cleared.views at))
    where
      gone :
          {o : Option Region} (r : Option Region)
          → o ≡ without (align_down addr) (align_up (addr + length)) at r
          → o ≡ none
      gone r e = ground (arith, e, low, high)

  -- After `vmm_mmap` of an anonymous request at a fixed address, of at least one byte and whole pages
  -- inside the user's space, without PROT_WRITE, where the areas were in order and there was memory for
  -- the new ones, every write fault in the range gives EACCES and changes nothing, whatever the memory is
  -- then.
  pub mmap-fault :
      (q : Request) (space : AddressSpace) (m m' : M) (at code : ℕ)
      → is_anonymous q ≡ true
      → is_fixed q ≡ true
      → SortedFrom 0 space.vma_list
      → 0 < q.length
      → q.length ≤ user_space_end
      → q.addr % 4096 ≡ 0
      → q.addr + align_up q.length ≤ user_space_end
      → has_bit q.prot 1 ≡ false
      → q.addr ≤ at
      → at < q.addr + align_up q.length
      → has_bit code 1 ≡ true
      → vmm_handle_page_fault mmu ((vmm_mmap mmu true true q (space, m)).1, m') at code
        ≡ (err eacces, m')
  mmap-fault q space m m' at code anon fixed s size bound aligned top closed low high write =
      let mapped = mmap-fixed mmu q space m anon fixed s size bound aligned top in
      let end = q.addr + align_up q.length in
      fault_forbidden (vmm_mmap mmu true true q (space, m)).1 m' at code
        (region (area q q.addr end) at) (inside _ _ (mapped.views at))
        (vma_flags-write q.prot q.flags ∙ closed) write
    where
      inside :
          {o : Option Region} (r : Option Region) (n : Region)
          → o ≡ (if leb q.addr at && ltb at (q.addr + align_up q.length) then some n else r)
          → o ≡ some n
      inside r n e = ground (arith, e, low, high)
