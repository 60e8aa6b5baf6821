-- ===== src/Vmm/Tests.antt =====
-- A process with two areas, and the theorems about kernel/mm/vmm.c at it.
use obelisk_os.Prelude.{
  ℕ, suc, ◌+◌, ◌≤◌, ◌<◌, ◌≡◌, ◌≢◌, refl, arith, true, ◌==◌, [], ◌∷◌, none, some, if◌then◌else◌,
  align_up, align_down, ok,
}
use obelisk_os.Vmm.Area.{
  Vma, AddressSpace, user_space_end, vmm_find_vma_intersection, vmm_insert_vma, vmm_create_vma,
  insert_behind, link_vma,
}
use obelisk_os.Vmm.Area.Laws.{SortedFrom}
use obelisk_os.Vmm.Table.{Table, table, address, enter}
use obelisk_os.Vmm.Unmap.{vmm_munmap}
use obelisk_os.Vmm.Unmap.Laws.{Cleared}
use obelisk_os.Vmm.Unmap.Refine.{vmm_munmap_lem}
use obelisk_os.Vmm.Map.{Gap, find_gap, Request, user_heap_base, vmm_mmap}
use obelisk_os.Vmm.Map.FirstFit.{find_gap-ends}
use obelisk_os.Vmm.Map.Install.{Mapped}
use obelisk_os.Vmm.Map.Refine.{Placed, mmap-fixed, mmap-gap}
use obelisk_os.Vmm.User.{page_allows, verify_pages, vmm_verify_user_range, vmm_copy_to_user}
use obelisk_os.Vmm.User.Safe.{user_range-safe, user_range-accepted}
use obelisk_os.Vmm.Fault.{vmm_handle_page_fault}
use obelisk_os.Vmm.Clone.{vmm_clone_address_space, clone_areas, clone_pages, clone_page}
use obelisk_os.Vmm.Clone.Laws.{clone-like}
use obelisk_os.Prelude.{err, Errno}
use Errno.{efault, eacces}
use obelisk_os.Vmm.Fault.{vmm_handle_page_fault}
use obelisk_os.Vmm.Fault.Laws.{munmap-fault, mmap-fault}
use Gap.{out_of_fuel}

-- Three pages at the bottom of the user's heap, and one further up.
abbrev low_area : Vma
low_area = record {
  start = 268435456;
  end = 268447744;
  flags = 3;
  prot = 3;
  file = none;
  offset = 0;
}

abbrev high_area : Vma
high_area = record {
  start = 268455936;
  end = 268460032;
  flags = 1;
  prot = 1;
  file = some 1;
  offset = 4096;
}

abbrev space : AddressSpace
space = record {
  vma_list = low_area ∷ high_area ∷ [];
  vma_count = 2;
  total_vm = 16384;
  brk_start = 536870912;
  brk_end = 536870912;
}

-- The first page of the low area is mapped, writable.
abbrev tables : Table
tables = record {
  frames = λ i. if i == 65536 then 7 else 0;
  flags = λ i. if i == 65536 then 7 else 0;
  next = 8;
}

space-SortedFrom : SortedFrom 0 (low_area ∷ high_area ∷ [])
space-SortedFrom =
    (omega arith, omega arith, omega arith, (omega arith, omega arith, omega arith, tt))

-- The middle page of the low area goes.
vmm_munmap_lem_example :
    ((vmm_munmap table true 268439552 4096 (space, tables)).0 ≡ ok 0)
    × Cleared 0
        (align_down 268439552)
        (align_up (268439552 + 4096))
        (low_area ∷ high_area ∷ [])
        (vmm_munmap table true 268439552 4096 (space, tables)).1.vma_list
vmm_munmap_lem_example =
    vmm_munmap_lem table 268439552 4096 space tables space-SortedFrom (omega arith)

-- Two pages at a fixed place, over the end of the low area.
abbrev fixed_request : Request
fixed_request = record {
  addr = 268443648;
  length = 8000;
  prot = 1;
  flags = 50;
  file = none;
  offset = 0;
}

mmap-fixed_example :
    Mapped fixed_request 268443648
      (268443648 + align_up 8000)
      (low_area ∷ high_area ∷ [])
      (vmm_mmap table true true fixed_request (space, tables)).0
      (vmm_mmap table true true fixed_request (space, tables)).1.vma_list
mmap-fixed_example =
    mmap-fixed table fixed_request space tables refl refl space-SortedFrom (omega arith)
      (omega arith) refl (omega arith)

-- Two pages at any place: they fit between the areas.
abbrev any_request : Request
any_request = record { addr = 0; length = 8192; prot = 3; flags = 34; file = none; offset = 0 }

place_free :
    vmm_find_vma_intersection (low_area ∷ high_area ∷ []) 268447744 (268447744 + align_up 8192)
    ≡ none
unfolding vmm_find_vma_intersection
place_free = refl

mmap-gap_example :
    Placed table any_request 268447744 space (vmm_mmap table true true any_request (space, tables))
mmap-gap_example =
    mmap-gap table any_request 268447744 space tables refl refl space-SortedFrom (omega arith)
      (omega arith) (omega arith) refl (omega arith) place_free

find_gap-ends_example :
    find_gap (suc 2) (low_area ∷ high_area ∷ []) 12288 user_heap_base ≢ out_of_fuel
find_gap-ends_example =
    find_gap-ends 12288 user_heap_base 0 (low_area ∷ high_area ∷ []) space-SortedFrom

checked : vmm_verify_user_range table true tables 268435466 100 true ≡ ok 0
unfolding vmm_verify_user_range verify_pages table address
checked = refl

user_range-safe_example :
    (268435470 < user_space_end) × (page_allows table true tables (align_down 268435470) ≡ true)
user_range-safe_example =
    user_range-safe table true true tables 268435466 100 268435470 0 checked (omega arith)
      (omega arith)

copied : (vmm_copy_to_user table true tables 268435466 99 100).0 ≡ ok 0
unfolding vmm_copy_to_user vmm_verify_user_range verify_pages table address
copied = refl

allowed :
    (byte : ℕ)
    → 268435466 ≤ byte
    → byte < 268435466 + 100
    → page_allows table true tables (align_down byte) ≡ true
unfolding table address
allowed byte low high =
    let same : align_down byte ≡ 268435456 = omega (arith, low, high) in rw same refl

user_range-accepted_example : vmm_verify_user_range table true tables 268435466 100 true ≡ ok 0
user_range-accepted_example =
    user_range-accepted table true tables 268435466 100 (omega arith) (omega arith) (omega arith)
      (omega arith) allowed

-- A read of the second page of the low area.
-- A clone, with both page tables in one here: the copies are of pages that are mapped already.
abbrev twin : AddressSpace
twin = record space { vma_count = 2; total_vm = 16384 }

cloned :
    (vmm_clone_address_space table table true (λ m. (true, m)) (λ m. m) (space, tables)).0
    ≡ some twin
unfolding vmm_clone_address_space clone_areas clone_pages clone_page vmm_create_vma vmm_insert_vma
    insert_behind link_vma table address enter
cloned = refl

clone-like_example :
    (twin.vma_list ≡ low_area ∷ high_area ∷ [])
    × (twin.brk_start ≡ 536870912)
    × (twin.brk_end ≡ 536870912)
clone-like_example =
    clone-like table table (λ m. (true, m)) (λ m. m) space twin tables space-SortedFrom cloned

munmap-fault_example :
    vmm_handle_page_fault table
      ((vmm_munmap table true 268439552 4096 (space, tables)).1, tables)
      268439600
      6
    ≡ (err efault, tables)
munmap-fault_example =
    munmap-fault table 268439552 4096 space tables tables 268439600 6 space-SortedFrom (omega arith)
      (omega arith) (omega arith)

-- The fixed request is for reading only.
mmap-fault_example :
    vmm_handle_page_fault table
      ((vmm_mmap table true true fixed_request (space, tables)).1, tables)
      268443700
      6
    ≡ (err eacces, tables)
mmap-fault_example =
    mmap-fault table fixed_request space tables tables 268443700 6 refl refl space-SortedFrom
      (omega arith) (omega arith) refl (omega arith) refl (omega arith) (omega arith) refl
