-- ===== src/Files/Tests.antt =====
-- A process with two open descriptors, runs of the code on it, and the theorems at it.
use obelisk_os.Prelude.{
  ℕ, zero, suc, ◌+◌, ◌^◌, ◌≤◌, ◌<◌, ◌≡◌, refl, arith, pos, List, [], ◌∷◌, some, true, length, take,
  ok,
}
use obelisk_os.Files.State.{File, FdEntry, FdTable, Kernel, free_entry, file_count}
use obelisk_os.Files.Reference.{alloc_file}
use obelisk_os.Files.Descriptor.{close_fd, get_unused_fd_flags, free_from}
use obelisk_os.Files.Descriptor.Laws.{close_fd-Safe, get_unused_fd_flags_twice}
use obelisk_os.Files.Table.{fd_alloc, fd_table_clone}
use obelisk_os.Files.Table.Clone.{Cloned, fd_table_clone_lem}
use obelisk_os.Files.Table.Laws.{open-Safe, with_table}
use obelisk_os.Files.Buffer.{clamp, simple_read_from_buffer, simple_write_to_buffer}
use obelisk_os.Files.Buffer.Laws.{patched, read-write}
use obelisk_os.Files.Invariant.{refs, Safe}

-- Descriptors 3 and 4 name file 0, which a third holder uses as well; 5 is free.
abbrev shared_file : File
shared_file = record { f_dentry = 0; f_mode = 0x1a4; f_flags = 0; f_pos = 0; f_count = 3 }

abbrev named : FdEntry
named = record { file = some 0; flags = 0 }

abbrev process : Kernel
process = record {
  heap = some shared_file ∷ [];
  dentry_count = 1 ∷ [];
  files = record {
    fds = free_entry ∷ free_entry ∷ free_entry ∷ named ∷ named ∷ free_entry ∷ [];
    max_fds = 6;
    next_fd = 3;
    refcount = 1;
  };
}

process-Safe : Safe process
unfolding refs
process-Safe = record { sized = refl; covered = enough; small = bounded }
  where
    enough : (p : ℕ) → refs process.files.fds p ≤ file_count process.heap p
    enough zero = omega arith
    enough (suc p) = ground arith

    bounded : (p : ℕ) → file_count process.heap p < 2 ^ 32
    bounded zero = omega arith
    bounded (suc p) = omega arith

close_fd-Safe_example : Safe (close_fd process (pos 3)).1
close_fd-Safe_example = close_fd-Safe process (pos 3) process-Safe

unused : (get_unused_fd_flags process 1).0 ≡ ok 5
unfolding get_unused_fd_flags free_from
unused = refl

get_unused_fd_flags_twice_example :
    (get_unused_fd_flags (get_unused_fd_flags process 1).1 0).0 ≡ ok 5
get_unused_fd_flags_twice_example = get_unused_fd_flags_twice process 1 0 5 refl unused

room : (p : ℕ) → file_count process.heap p + refs process.files.fds p < 2 ^ 32
unfolding refs
room zero = omega arith
room (suc p) = ground arith

fd_table_clone_lem_example :
    Cloned process process.files (fd_table_clone true process process.files)
fd_table_clone_lem_example =
    fd_table_clone_lem process process.files refl (omega arith) process-Safe.covered room

abbrev after : FdTable
after = (fd_alloc (alloc_file true process 0 0x1a4).1.files (some 1) 1).1

taken : fd_alloc (alloc_file true process 0 0x1a4).1.files (some 1) 1 ≡ (ok 5, after)
unfolding alloc_file fd_alloc free_from
taken = refl

open-Safe_example : Safe (with_table (alloc_file true process 0 0x1a4).1 after)
open-Safe_example =
    open-Safe process 0 0x1a4 1 5 after process-Safe (omega arith) (omega arith) taken

-- Three bytes written at place 2 of a buffer of four: two fit.
abbrev buffer : List ℕ
buffer = 9 ∷ 9 ∷ 9 ∷ 9 ∷ []

abbrev source : List ℕ
source = 1 ∷ 2 ∷ 3 ∷ []

read-write_example :
    let n = clamp 3 4 2 in
    (simple_write_to_buffer buffer 4 (pos 2) source 3 ≡ ok (n, patched buffer 2 n source, 2 + n))
    × (length (patched buffer 2 n source) ≡ 4)
    × (simple_read_from_buffer 3 (pos 2) (patched buffer 2 n source) 4
        ≡ ok (n, take n source, 2 + n))
read-write_example = read-write buffer source 2 3 (omega arith) (omega arith)
