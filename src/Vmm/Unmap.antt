-- ===== src/Vmm/Unmap.antt =====
-- `vmm_munmap` of kernel/mm/vmm.c.
pub mod Laws
pub mod Refine
use obelisk_os.Prelude.{
  ℕ, zero, suc, ◌+◌, ◌-◌, ◌^◌, Bool, true, false, ◌&&◌, ltb, leb, min, max, List, [], ◌∷◌, ◌++◌,
  Option, none, some, if◌then◌else◌, add64, sub64, align_up, align_down, Result, ok, err, Errno,
}
use Errno.{einval}
use obelisk_os.Vmm.Area.{Vma, AddressSpace, link_vma, vmm_create_vma}
use obelisk_os.Vmm.Pages.{Mmu, drop_pages, rounds}

-- zig_range_end_le_cap_ok of kernel/support/mem_helpers.zig: the end of a range that does not wrap and
-- does not pass `cap`.
abbrev pub range_end : ℕ → ℕ → ℕ → Option ℕ
range_end start length cap =
    if leb (2 ^ 64) (start + length)
    then none
    else if ltb cap (start + length)
    then none
    else some (start + length)

-- The books when an area leaves the list, and when one joins it.
abbrev pub left_books : AddressSpace → Vma → AddressSpace
left_books space v = record space {
  vma_count = sub64 space.vma_count 1;
  total_vm = sub64 space.total_vm (sub64 v.end v.start);
}

abbrev pub joined_books : AddressSpace → Vma → AddressSpace
joined_books space v = record space {
  vma_count = add64 space.vma_count 1;
  total_vm = add64 space.total_vm (sub64 v.end v.start);
}

-- What is left of `v` behind `end`.
abbrev pub tail_of : Vma → ℕ → Vma
tail_of v end = record v { start = end; offset = add64 v.offset (sub64 end v.start) }

abbrev pub head_of : Vma → ℕ → Vma
head_of v start = record v { end = start }

-- The new area goes behind the old one; `vmm_insert_vma` searches for this place from the head of the
-- list, and passes over all areas up to it.
unfoldable pub place_tail : Vma → Vma → List Vma → AddressSpace → List Vma × AddressSpace
place_tail left new l space = elim (link_vma (some left) l new) [
  | ok linked ↦ (left ∷ new ∷ [], joined_books space new)
  | err e ↦ (left ∷ [], space)
]

-- An area that reaches out of the range at both ends; without memory for the second it stays whole.
unfoldable pub split_vma : Bool → ℕ → ℕ → Vma → List Vma → AddressSpace → List Vma × AddressSpace
unfolding place_tail
split_vma memory start end v l space = elim (vmm_create_vma memory end v.end v.flags) [
  | none ↦ (v ∷ [], space)
  | some new ↦
      place_tail (head_of v start)
        (record new { prot = v.prot; file = v.file; offset = add64 v.offset (sub64 end v.start) }) l
        space
]

-- What is left of an area that meets the range.
unfoldable pub cut_vma : Bool → ℕ → ℕ → Vma → List Vma → AddressSpace → List Vma × AddressSpace
unfolding split_vma
cut_vma memory start end v l space =
    if leb start v.start && leb v.end end
    then ([], left_books space v)
    else if ltb v.start start && ltb end v.end
    then split_vma memory start end v l space
    else if ltb v.start start
    then (head_of v start ∷ [], space)
    else (tail_of v end ∷ [], space)

module _ {M : Type 0} (mmu : Mmu M) where
  -- One area of the list: its pages in the range go, then the area is cut.
  unfoldable pub unmap_vma :
      Bool → ℕ → ℕ → Vma → List Vma → AddressSpace × M → List Vma × AddressSpace × M
  unfolding cut_vma
  unmap_vma memory start end v l (space, m) =
      if ltb start v.end
      then (let from = max v.start start in
          let m' = drop_pages mmu (rounds from (min v.end end)) m from in
          let (pieces, space') = cut_vma memory start end v l space in (pieces, space', m'))
      else (v ∷ [], space, m)

  -- The loop over the areas.
  unfoldable pub unmap_from :
      Bool → ℕ → ℕ → List Vma → AddressSpace × M → List Vma × AddressSpace × M
  unfolding unmap_vma
  unmap_from memory start end [] (space, m) = ([], space, m)
  unmap_from memory start end (v ∷ l) (space, m) =
      let (pieces, space', m') = unmap_vma memory start end v l (space, m) in
      let (rest, space'', m'') = unmap_from memory start end l (space', m') in
      if leb end v.start then (v ∷ l, space, m) else (pieces ++ rest, space'', m'')

  -- `memory` says whether the allocator finds room for an area.
  unfoldable pub vmm_munmap : Bool → ℕ → ℕ → AddressSpace × M → Result ℕ × AddressSpace × M
  unfolding unmap_from
  vmm_munmap memory addr length (space, m) = elim (range_end addr length (2 ^ 64 - 1)) [
    | none ↦ (err einval, space, m)
    | some span_end ↦
        let (list, space', m') =
          unmap_from memory (align_down addr) (align_up span_end) space.vma_list (space, m) in
        (ok 0, record space' { vma_list = list }, m')
  ]
