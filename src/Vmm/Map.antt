-- ===== src/Vmm/Map.antt =====
-- `vmm_mmap` of kernel/mm/vmm.c.
pub mod FirstFit
pub mod Install
pub mod Refine
use obelisk_os.Prelude.{
  ℕ, zero, suc, ◌+◌, ◌-◌, ◌%◌, ◌^◌, Bool, true, false, not, ◌&&◌, ◌||◌, ltb, leb, ◌==◌, List,
  length, Option, none, some, if◌then◌else◌, add64, page_size, align_up, align_down, Result, ok,
  err,
}
use obelisk_os.Word.{bit}
use Prim.Native.Nat.{bit_or}
use obelisk_os.Vmm.Area.{
  Vma, AddressSpace, user_space_end, vmm_find_vma_intersection, vmm_insert_vma, vmm_create_vma,
}
use obelisk_os.Vmm.Pages.{Mmu, rounds}
use obelisk_os.Vmm.Unmap.{range_end, vmm_munmap}

-- USER_HEAP_BASE
abbrev pub user_heap_base : ℕ
user_heap_base = 268435456

pub data Gap : Type 0 where
  found : ℕ → Gap
  no_space out_of_fuel : Gap

-- The search for the first gap from `start` on, where `length` fits.
unfoldable pub find_gap : ℕ → List Vma → ℕ → ℕ → Gap
find_gap zero l length start = out_of_fuel
find_gap (suc fuel) l length start = elim (range_end start length user_space_end) [
  | none ↦ no_space
  | some end ↦ elim (vmm_find_vma_intersection l start end) [
    | none ↦ found start
    | some v ↦ find_gap fuel l length (align_up v.end)
  ]
]

abbrev pub has_bit : ℕ → ℕ → Bool
has_bit x k = bit x k == 1

-- The arguments of mmap. The offset is the 64-bit word of an off_t.
pub record Request : Type 0 where
  pub addr : ℕ
  pub length : ℕ
  pub prot : ℕ
  pub flags : ℕ
  pub file : Option ℕ
  pub offset : ℕ

-- The flags MAP_FIXED and MAP_ANONYMOUS.
abbrev pub is_fixed : Request → Bool
is_fixed q = has_bit q.flags 4

abbrev pub is_anonymous : Request → Bool
is_anonymous q = has_bit q.flags 5

abbrev pub is_none : Option ℕ → Bool
is_none none = true
is_none (some f) = false

abbrev pub bad_request : Request → Bool
bad_request q =
    q.length == 0
    || (not (is_anonymous q)
        && (is_none q.file || leb (2 ^ 63) q.offset || not (q.offset % page_size == 0)))

-- One `if (...) vma_flags |= ...`.
abbrev pub flag_if : Bool → ℕ → ℕ → ℕ
flag_if b f acc = if b then bit_or acc f else acc

-- PROT_READ, PROT_WRITE and PROT_EXEC become bits 0, 1 and 2; MAP_SHARED, MAP_PRIVATE and MAP_ANONYMOUS
-- bits 3, 4 and 7.
abbrev pub vma_flags : ℕ → ℕ → ℕ
vma_flags prot flags =
    let read = flag_if (has_bit prot 0) 1 0 in
    let write = flag_if (has_bit prot 1) 2 read in
    let exec = flag_if (has_bit prot 2) 4 write in
    let shared = flag_if (has_bit flags 0) 8 exec in
    let private_too = flag_if (has_bit flags 1) 16 shared in
    flag_if (has_bit flags 5) 128 private_too

-- PTE_PRESENT and PTE_USER, and PTE_WRITABLE for a page that may be written.
abbrev pub vmm_prot_to_pte_flags : ℕ → ℕ
vmm_prot_to_pte_flags prot = flag_if (has_bit prot 1) 2 5

abbrev pub gap_start : Gap → Option ℕ
gap_start (found start) = some start
gap_start no_space = none
gap_start out_of_fuel = none

-- Where the mapping goes. Every round of the search passes an area.
abbrev pub choose_start : Request → ℕ → List Vma → Option ℕ
choose_start q length' l =
    if is_fixed q
    then (if q.addr % page_size == 0 then some (align_down q.addr) else none)
    else gap_start (find_gap (suc (length l)) l length' user_heap_base)

abbrev pub requested : Request → Vma → Vma
requested q v = record v { prot = q.prot; file = q.file; offset = q.offset }

abbrev pub inserted : ℕ → AddressSpace → Result ℕ × AddressSpace → Option ℕ × AddressSpace
inserted start space (ok n, space') = (some start, space')
inserted start space (err e, space') = (none, space)

-- The area is created and inserted.
unfoldable pub add_area : Bool → Request → ℕ → ℕ → AddressSpace → Option ℕ × AddressSpace
add_area memory q start end space =
    elim (vmm_create_vma memory start end (vma_flags q.prot q.flags)) [
      | none ↦ (none, space)
      | some v ↦ inserted start space (vmm_insert_vma space (requested q v))
    ]

module _ {M : Type 0} (mmu : Mmu M) where
  open mmu use {alloc_page, free_page, zero_page, map_page, read_page}

  -- The pages of a file are read in.
  unfoldable pub populate : ℕ → Request → ℕ → ℕ → ℕ → M → Bool × M
  populate zero q f start vaddr m = (true, m)
  populate (suc left) q f start vaddr m =
      let (phys, m1) = alloc_page m in
      let (mapped, m2) = map_page (zero_page m1 phys) vaddr phys (vmm_prot_to_pte_flags q.prot) in
      let (read, m3) = read_page m2 f phys (add64 q.offset (vaddr - start)) in
      let rest = populate left q f start (vaddr + page_size) m3 in
      if phys == 0 then (false, m1) else elim mapped [
        | err e ↦ (false, free_page m2 phys)
        | ok n ↦ if read then rest else (false, m3)
      ]

  -- When a page cannot be read in, the whole range is unmapped again.
  abbrev pub or_unmap : Bool → ℕ → ℕ → AddressSpace → Bool × M → Option ℕ × AddressSpace × M
  or_unmap memory start length' space (true, m) = (some start, space, m)
  or_unmap memory start length' space (false, m) =
      let (r, space', m') = vmm_munmap mmu memory start length' (space, m) in (none, space', m')

  abbrev pub fill_area :
      Bool → Request → ℕ → ℕ → Option ℕ × AddressSpace → M → Option ℕ × AddressSpace × M
  fill_area memory q length' end (none, space) m = (none, space, m)
  fill_area memory q length' end (some start, space) m =
      if is_anonymous q then (some start, space, m) else elim q.file [
        | none ↦ (some start, space, m)
        | some f ↦
            or_unmap memory start length' space (populate (rounds start end) q f start start m)
      ]

  -- A fixed mapping replaces what is there; `room` says whether the range is free now.
  abbrev pub emptied : Result ℕ × AddressSpace × M → Bool × AddressSpace × M
  emptied (ok n, space, m) = (true, space, m)
  emptied (err e, space, m) = (false, space, m)

  abbrev pub is_clear : Option Vma → Bool
  is_clear none = true
  is_clear (some v) = false

  abbrev pub make_room : Bool → Request → ℕ → ℕ → ℕ → AddressSpace × M → Bool × AddressSpace × M
  make_room memory q start length' end (space, m) =
      if is_fixed q
      then emptied (vmm_munmap mmu memory start length' (space, m))
      else (is_clear (vmm_find_vma_intersection space.vma_list start end), space, m)

  unfoldable pub install :
      Bool → Bool → Request → ℕ → ℕ → ℕ → Bool × AddressSpace × M → Option ℕ × AddressSpace × M
  unfolding add_area populate
  install memory memory' q length' start end (true, space, m) =
      fill_area memory' q length' end (add_area memory q start end space) m
  install memory memory' q length' start end (false, space, m) = (none, space, m)

  -- From the check of the range on.
  unfoldable pub map_at :
      Bool → Bool → Request → ℕ → ℕ → AddressSpace × M → Option ℕ × AddressSpace × M
  unfolding install
  map_at memory memory' q length' start (space, m) = elim (range_end start length' user_space_end) [
    | none ↦ (none, space, m)
    | some end ↦
        install memory memory' q length' start end
          (make_room memory' q start length' end (space, m))
  ]

  -- `memory` says whether the allocator finds room for the area, `memory'` whether it does for one that
  -- unmapping splits.
  unfoldable pub vmm_mmap : Bool → Bool → Request → AddressSpace × M → Option ℕ × AddressSpace × M
  unfolding map_at
  vmm_mmap memory memory' q (space, m) =
      let length' = align_up q.length in
      if bad_request q then (none, space, m) else elim (choose_start q length' space.vma_list) [
        | none ↦ (none, space, m)
        | some start ↦ map_at memory memory' q length' start (space, m)
      ]
