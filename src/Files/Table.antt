-- ===== src/Files/Table.antt =====
-- kernel/proc/process.c: descriptor tables.
pub mod Laws
pub mod Clone
use obelisk_os.Prelude.{
  ℕ, zero, suc, ◌+◌, ◌-◌, ◌%◌, ◌^◌, ℤ, pos, negsuc, List, [], ◌∷◌, Option, none, some, Bool, true,
  false, ◌&&◌, ◌==◌, leb, ltb, max, if◌then◌else◌, set, get_or, replicate, Result, ok, err, Errno,
}
use Errno.{einval, emfile}
use obelisk_os.Files.State.{FdEntry, FdTable, Kernel, entry_at, free_entry}
use obelisk_os.Files.Reference.{get_file, put_file}
use obelisk_os.Files.Descriptor.{put_entry, free_from}

-- PROC_MAX_FDS
abbrev pub proc_max_fds : ℕ
proc_max_fds = 1024

-- `memory` says whether both allocations succeed.
unfoldable pub fd_table_create : Bool → Option FdTable
fd_table_create false = none
fd_table_create true = some record {
  fds = replicate proc_max_fds free_entry;
  max_fds = proc_max_fds;
  next_fd = 3;
  refcount = 1;
}

-- The loop of `fd_table_clone` over the entries from `i` on, on the kernel and the new table.
clone_from : ℕ → FdTable → ℕ → Kernel × FdTable → Kernel × FdTable
clone_from zero old i (k, new) = (k, new)
clone_from (suc left) old i (k, new) = clone_from left old (i + 1) (elim (entry_at old i).file [
  | none ↦ (k, new)
  | some p ↦ (get_file k p, put_entry new i (some p) (entry_at old i).flags)
])

unfoldable pub fd_table_clone : Bool → Kernel → FdTable → Option FdTable × Kernel
unfolding clone_from fd_table_create
fd_table_clone memory k old = elim (fd_table_create memory) [
  | none ↦ (none, k)
  | some new ↦
      let done = clone_from old.max_fds old 0 (k, new) in
      (some record done.1 { next_fd = old.next_fd }, done.0)
]

-- The loop of `fd_table_free` over the entries from `i` on.
close_from : ℕ → Kernel → ℕ → Kernel
close_from zero k i = k
close_from (suc left) k i =
    close_from left
      (elim (entry_at k.files i).file [
        | none ↦ k
        | some p ↦ record (put_file k p) { files = put_entry k.files i none 0 }
      ])
      (i + 1)

-- The table of the current process; it is freed with its last user.
unfoldable pub fd_table_free : Kernel → Kernel
unfolding close_from
fd_table_free k =
    let left = (k.files.refcount + 2 ^ 32 - 1) % 2 ^ 32 in
    let counted = record k { files = record k.files { refcount = left } } in
    if left == 0 then close_from k.files.max_fds counted 0 else counted

-- `if (fdt->next_fd < 3) fdt->next_fd = 3;`
abbrev pub start_fd : FdTable → ℕ
start_fd fdt = if ltb fdt.next_fd 3 then 3 else fdt.next_fd

take_fd : FdTable → ℕ → ℕ → ℕ → Result ℕ × FdTable
take_fd fdt p flags i = (ok i, record (put_entry fdt i (some p) flags) { next_fd = i + 1 })

unfoldable pub fd_alloc : FdTable → Option ℕ → ℕ → Result ℕ × FdTable
unfolding take_fd
fd_alloc fdt none flags = (err einval, fdt)
fd_alloc fdt (some p) flags =
    let started = record fdt { next_fd = start_fd fdt } in
    elim (free_from (fdt.max_fds - start_fd fdt) started (start_fd fdt)) [
      | some i ↦ take_fd started p flags i
      | none ↦ elim (free_from (start_fd fdt - 3) started 3) [
        | some i ↦ take_fd started p flags i
        | none ↦ (err emfile, started)
      ]
    ]

unfoldable pub fd_free : FdTable → ℤ → FdTable
fd_free fdt (negsuc n) = fdt
fd_free fdt (pos i) =
    if leb 3 i && ltb i fdt.max_fds
    then (let cleared = put_entry fdt i none 0 in
        if ltb i fdt.next_fd
        then record cleared { next_fd = if ltb i 3 then 3 else i }
        else cleared)
    else fdt
