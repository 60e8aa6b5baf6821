-- ===== src/Files/Descriptor.antt =====
-- The calls of kernel/fs/file.c on the descriptors of the current process, which has a table here: with
-- none, each of them gives EBADF or does nothing.
pub mod Laws
use obelisk_os.Prelude.{
  ℕ, zero, suc, ◌+◌, ◌-◌, ℤ, pos, negsuc, List, [], ◌∷◌, Option, none, some, Bool, true, false,
  ◌&&◌, ◌==◌, leb, ltb, if◌then◌else◌, set, get_or, Result, ok, err, Errno,
}
use Errno.{ebadf, emfile}
use obelisk_os.Files.State.{FdEntry, FdTable, Kernel, entry_at, free_entry}
use obelisk_os.Files.Reference.{get_file, put_file}

-- The entry's two fields as they are set.
abbrev pub put_entry : FdTable → ℕ → Option ℕ → ℕ → FdTable
put_entry fdt i file flags = record fdt {
  fds = set fdt.fds i (record { file = file; flags = flags });
}

-- `fd >= 0 && fd < (int)max_fds`
unfoldable pub valid_fd : FdTable → ℤ → Option ℕ
valid_fd fdt (negsuc n) = none
valid_fd fdt (pos i) = if ltb i fdt.max_fds then some i else none

unfoldable pub fd_get : FdTable → ℤ → Option ℕ
unfolding valid_fd
fd_get fdt fd = elim (valid_fd fdt fd) [ none ↦ none | some i ↦ (entry_at fdt i).file ]

-- The file of a descriptor, with a reference for the caller.
unfoldable pub fget : Kernel → ℤ → Option ℕ × Kernel
unfolding fd_get get_file
fget k fd = elim (fd_get k.files fd) [ none ↦ (none, k) | some p ↦ (some p, get_file k p) ]

-- The first free descriptor among `left` from `i` on.
unfoldable pub free_from : ℕ → FdTable → ℕ → Option ℕ
free_from zero fdt i = none
free_from (suc left) fdt i =
    let rest = free_from left fdt (i + 1) in
    elim (entry_at fdt i).file [ none ↦ some i | some p ↦ rest ]

-- The flags are set and the file is not: the descriptor stays free.
unfoldable pub get_unused_fd_flags : Kernel → ℕ → Result ℕ × Kernel
unfolding free_from
get_unused_fd_flags k flags = elim (free_from (k.files.max_fds - 3) k.files 3) [
  | none ↦ (err emfile, k)
  | some i ↦ (ok i, record k { files = put_entry k.files i (entry_at k.files i).file flags })
]

unfoldable pub put_unused_fd : Kernel → ℤ → Kernel
put_unused_fd k (negsuc n) = k
put_unused_fd k (pos i) =
    if leb 3 i && ltb i k.files.max_fds then record k { files = put_entry k.files i none 0 } else k

unfoldable pub fd_install : Kernel → ℤ → Option ℕ → Kernel
unfolding valid_fd
fd_install k fd file = elim (valid_fd k.files fd) [
  | none ↦ k
  | some i ↦ record k { files = put_entry k.files i file (entry_at k.files i).flags }
]

close_file : Kernel → ℕ → Option ℕ → Result ℕ × Kernel
close_file k i none = (err ebadf, k)
close_file k i (some p) = (ok 0, put_file (record k { files = put_entry k.files i none 0 }) p)

-- The three standard descriptors are never closed, and the call reports success.
unfoldable pub close_fd : Kernel → ℤ → Result ℕ × Kernel
unfolding valid_fd close_file
close_fd k fd = elim (valid_fd k.files fd) [
  | none ↦ (err ebadf, k)
  | some i ↦ if leb i 2 then (ok 0, k) else close_file k i (entry_at k.files i).file
]
