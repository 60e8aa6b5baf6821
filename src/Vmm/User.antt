-- ===== src/Vmm/User.antt =====
-- Access to the memory of the current process from the kernel: the last part of kernel/mm/vmm.c.
pub mod Safe
use obelisk_os.Prelude.{
  ℕ, zero, suc, ◌+◌, ◌-◌, ◌/◌, ◌^◌, Bool, true, false, not, ◌&&◌, ◌||◌, ltb, leb, ◌==◌, Option,
  none, some, if◌then◌else◌, page_size, align_down, Result, ok, err, Errno,
}
use Errno.{efault, einval}
use obelisk_os.Vmm.Area.{user_space_end}
use obelisk_os.Vmm.Pages.{Mmu, rounds}
use obelisk_os.Vmm.Unmap.{range_end}
use obelisk_os.Vmm.Map.{has_bit}

-- zig_user_copy_len_ok of kernel/support/safe_arith.zig, as a test
abbrev pub user_copy_len_ok : ℕ → Bool
user_copy_len_ok len = not (ltb 2147479552 len)

-- PTE_PRESENT, PTE_USER and, for writing, PTE_WRITABLE
abbrev pub flags_allow : Bool → ℕ → Bool
flags_allow write flags =
    if not (has_bit flags 0) || not (has_bit flags 2)
    then false
    else if write && not (has_bit flags 1)
    then false
    else true

module _ {M : Type 0} (mmu : Mmu M) where
  open mmu use {resolve, get_flags, move_bytes}

  abbrev pub page_allows : Bool → M → ℕ → Bool
  page_allows write m page =
      if resolve m page == 0 then false else flags_allow write (get_flags m page)

  -- The loop over the pages.
  unfoldable pub verify_pages : ℕ → Bool → M → ℕ → Result ℕ
  verify_pages zero write m page = ok 0
  verify_pages (suc left) write m page =
      let rest = verify_pages left write m (page + page_size) in
      if page_allows write m page then rest else err efault

  -- `has_mm` says whether there is a current process with an address space.
  unfoldable pub vmm_verify_user_range : Bool → M → ℕ → ℕ → Bool → Result ℕ
  unfolding verify_pages
  vmm_verify_user_range has_mm m addr size write =
      if addr == 0
      then err efault
      else if size == 0
      then ok 0
      else if not (user_copy_len_ok size)
      then err einval
      else if leb user_space_end addr
      then err efault
      else if not has_mm
      then err efault
      else elim (range_end addr size user_space_end) [
        | none ↦ err efault
        | some end ↦ verify_pages (rounds (align_down addr) end) write m (align_down addr)
      ]

  abbrev pub copy_if : Result ℕ → M → M → Result ℕ × M
  copy_if (ok n) m m' = (ok 0, m')
  copy_if (err e) m m' = (err e, m)

  unfoldable pub vmm_copy_from_user : Bool → M → ℕ → ℕ → ℕ → Result ℕ × M
  unfolding vmm_verify_user_range
  vmm_copy_from_user has_mm m dst src size =
      if dst == 0
      then (err efault, m)
      else copy_if (vmm_verify_user_range has_mm m src size false) m (move_bytes m dst src size)

  unfoldable pub vmm_copy_to_user : Bool → M → ℕ → ℕ → ℕ → Result ℕ × M
  unfolding vmm_verify_user_range
  vmm_copy_to_user has_mm m dst src size =
      if src == 0
      then (err efault, m)
      else copy_if (vmm_verify_user_range has_mm m dst size true) m (move_bytes m dst src size)

  unfoldable pub vmm_verify_user_read : Bool → M → ℕ → ℕ → Result ℕ
  vmm_verify_user_read has_mm m addr size = vmm_verify_user_range has_mm m addr size false

  unfoldable pub vmm_verify_user_write : Bool → M → ℕ → ℕ → Result ℕ
  vmm_verify_user_write has_mm m addr size = vmm_verify_user_range has_mm m addr size true
