-- ===== src/Vmm/Unmap/Refine.antt =====
-- `vmm_munmap` of kernel/mm/vmm.c against the abstract address space.
use obelisk_os.Prelude.{
  ℕ, ◌+◌, ◌-◌, ◌^◌, ◌≤◌, ◌<◌, ◌≡◌, refl, ap, arith, true, ltb, List, [], ◌∷◌, ◌++◌, Option, some,
  align_up, align_down, Result, ok,
}
use obelisk_os.Vmm.Area.{Vma, AddressSpace, user_space_end, link_vma, put_front, insert_behind}
use obelisk_os.Vmm.Area.Laws.{SortedFrom}
use obelisk_os.Vmm.Pages.{Mmu}
use obelisk_os.Vmm.Unmap.{range_end, vmm_munmap}
use obelisk_os.Vmm.Unmap.Laws.{Cleared, Cleared-unmap_from}

pub range_end-some :
    (start length cap : ℕ)
    → start + length ≤ cap
    → cap < 2 ^ 64
    → range_end start length cap ≡ some (start + length)
range_end-some start length cap h h' = ground (arith, h, h')

-- What an operation that succeeds with `value` makes of the space.
pub record Answers (value : ℕ) (Q : AddressSpace → Type 0) (r : Result ℕ) (space : AddressSpace)
    : Type 0 where
  pub done : r ≡ ok value
  pub holds : Q space

module _ {M : Type 0} (mmu : Mmu M) where
  -- On areas in order, `vmm_munmap` of a range inside the user's space, where there is memory for a split
  -- area, returns 0; the areas stay in order, no address of the pages of the range is in an area any more,
  -- and every other address says what it said: its flags, its protection, its file and the place in it.
  pub vmm_munmap_lem :
      (addr length : ℕ) (space : AddressSpace) (m : M)
      → SortedFrom 0 space.vma_list
      → addr + length ≤ user_space_end
      → ((vmm_munmap mmu true addr length (space, m)).0 ≡ ok 0)
        × Cleared 0
            (align_down addr)
            (align_up (addr + length))
            space.vma_list
            (vmm_munmap mmu true addr length (space, m)).1.vma_list
  unfolding vmm_munmap
  vmm_munmap_lem addr length space m s top =
      rw (range_end-some addr length (2 ^ 64 - 1) (omega (arith, top)) (omega arith), vmm_munmap)
        (
          refl,
          Cleared-unmap_from mmu 0 (align_down addr) (align_up (addr + length)) space.vma_list space
              m s (omega (arith, top)),
        )

-- The search of `vmm_insert_vma` for the piece behind a split area, from the head of the list, ends
-- where `place_tail` puts it.
pub insert-place_tail :
    (lo : ℕ) (prev : Option Vma) (before : List Vma) (left new : Vma) (l : List Vma)
    → SortedFrom lo (before ++ left ∷ l)
    → left.end ≤ new.start
    → new.start < new.end
    → SortedFrom new.end l
    → insert_behind prev (before ++ left ∷ l) new ≡ ok (before ++ left ∷ new ∷ l)
unfolding insert_behind link_vma
insert-place_tail lo prev [] left new l s h size s' =
    let later : ltb left.start new.start ≡ true = ground (arith, h, s) in
    rw later (ap (put_front left) (behind l s'))
  where
    behind : (l : List Vma) → SortedFrom new.end l → insert_behind (some left) l new ≡ ok (new ∷ l)
    behind [] s = ground (arith, h)
    behind (c ∷ l) s = ground (arith, h, s, size)
insert-place_tail lo prev (c ∷ before) left new l s h size s' =
    let later : ltb c.start new.start ≡ true =
      ground (arith, h, s, starts_in_order c.end before left l s.3) in
    rw later (ap (put_front c) (insert-place_tail c.end (some c) before left new l s.3 h size s'))
  where
    starts_in_order :
        (lo : ℕ) (before : List Vma) (left : Vma) (l : List Vma)
        → SortedFrom lo (before ++ left ∷ l)
        → lo ≤ left.end
    starts_in_order lo [] left l s = omega (arith, s)
    starts_in_order lo (c ∷ before) left l s =
        let h = starts_in_order c.end before left l s.3 in omega (arith, h, s)
