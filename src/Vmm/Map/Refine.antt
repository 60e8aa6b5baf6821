-- ===== src/Vmm/Map/Refine.antt =====
-- `vmm_mmap` of kernel/mm/vmm.c against the abstract address space.
use obelisk_os.Prelude.{
  ℕ, suc, ◌+◌, ◌%◌, ◌≤◌, ◌<◌, ◌≡◌, refl, ap, arith, Bool, true, false, ◌==◌, length, Option, none,
  some, if◌then◌else◌, align_up, align_down, page_size,
}
use obelisk_os.Vmm.Area.{AddressSpace, user_space_end, vmm_find_vma_intersection}
use obelisk_os.Vmm.Area.Laws.{SortedFrom}
use obelisk_os.Vmm.Pages.{Mmu}
use obelisk_os.Vmm.Map.{
  find_gap, Request, is_fixed, is_anonymous, map_at, vmm_mmap, bad_request, choose_start, gap_start,
  user_heap_base,
}
use obelisk_os.Vmm.Map.FirstFit.{find_gap-first}
use obelisk_os.Vmm.Map.Install.{Mapped, Mapped-free, Mapped-fixed}

module _ {M : Type 0} (mmu : Mmu M) where
  -- The request goes to the place that was chosen.
  mmap_at :
      (q : Request) (start : ℕ) (space : AddressSpace) (m : M)
      → is_anonymous q ≡ true
      → 0 < q.length
      → choose_start q (align_up q.length) space.vma_list ≡ some start
      → vmm_mmap mmu true true q (space, m)
        ≡ map_at mmu true true q (align_up q.length) start (space, m)
  unfolding vmm_mmap
  mmap_at q start space m anon size e =
      let good : bad_request q ≡ false = ground (arith, anon, size) in rw (good, e, vmm_mmap) refl

  -- With the areas in order and memory for the new ones, an anonymous request at a fixed address that
  -- begins a page, of at least one byte, and whose pages lie inside the user's space, succeeds:
  -- `vmm_mmap` returns that address, the range says what was asked for, every other address what it
  -- said before, and the areas stay in order.
  pub mmap-fixed :
      (q : Request) (space : AddressSpace) (m : M)
      → is_anonymous q ≡ true
      → is_fixed q ≡ true
      → SortedFrom 0 space.vma_list
      → 0 < q.length
      → q.length ≤ user_space_end
      → q.addr % 4096 ≡ 0
      → q.addr + align_up q.length ≤ user_space_end
      → Mapped q q.addr
          (q.addr + align_up q.length)
          space.vma_list
          (vmm_mmap mmu true true q (space, m)).0
          (vmm_mmap mmu true true q (space, m)).1.vma_list
  mmap-fixed q space m anon fixed s size bound aligned top =
      let here : choose_start q (align_up q.length) space.vma_list ≡ some q.addr =
        chosen (is_fixed q) fixed aligned in
      rw (mmap_at q q.addr space m anon size here) (
        Mapped-fixed mmu q q.addr (align_up q.length) space m anon fixed s (omega arith) aligned
          (omega arith) top)
    where
      chosen :
          (b : Bool)
          → b ≡ true
          → q.addr % 4096 ≡ 0
          → (if b
              then (if q.addr % page_size == 0 then some (align_down q.addr) else none)
              else gap_start (
                  find_gap
                    (suc (length space.vma_list))
                    space.vma_list
                    (align_up q.length)
                    user_heap_base))
            ≡ some q.addr
      chosen true e h =
          let same : align_down q.addr ≡ q.addr = omega (arith, h) in rw h (ap some same)
      chosen false e h = absurd (cc e)

  -- What a request for any place gets.
  pub record Placed (q : Request) (b : ℕ) (space : AddressSpace) (r : Option ℕ × AddressSpace × M)
      : Type 0 where
    pub start : ℕ
    pub first : start ≤ b
    pub was_free : vmm_find_vma_intersection space.vma_list start (start + align_up q.length) ≡ none
    pub mapped : Mapped q start (start + align_up q.length) space.vma_list r.0 r.1.vma_list

  -- With the areas in order and memory for the new one, an anonymous request of at least one byte for
  -- any place succeeds if some page-aligned place `b` of the user's heap is free for its pages:
  -- `vmm_mmap` returns a place that was free and is not above `b`, the range there says what was asked
  -- for, every other address what it said before, and the areas stay in order.
  pub mmap-gap :
      (q : Request) (b : ℕ) (space : AddressSpace) (m : M)
      → is_anonymous q ≡ true
      → is_fixed q ≡ false
      → SortedFrom 0 space.vma_list
      → 0 < q.length
      → q.length ≤ user_space_end
      → user_heap_base ≤ b
      → b % 4096 ≡ 0
      → b + align_up q.length ≤ user_space_end
      → vmm_find_vma_intersection space.vma_list b (b + align_up q.length) ≡ none
      → Placed q b space (vmm_mmap mmu true true q (space, m))
  mmap-gap q b space m anon fixed s size bound low aligned top free =
      let g =
        find_gap-first (align_up q.length) user_heap_base 0 b space.vma_list s low aligned top
          free in
      let here : choose_start q (align_up q.length) space.vma_list ≡ some g.start =
        rw (fixed, g.is_found) refl in
      record {
        start = g.start;
        first = g.first;
        was_free = g.free;
        mapped = rw (mmap_at q g.start space m anon size here) (
            Mapped-free mmu q g.start (align_up q.length) space m anon fixed s (omega arith)
              g.inside g.free);
      }
