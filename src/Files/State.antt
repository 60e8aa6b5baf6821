-- ===== src/Files/State.antt =====
-- Open files and descriptor tables: `struct file` of kernel/fs/include/fs/vfs.h, as far as
-- kernel/fs/file.c sets it, `struct fd_entry` and `struct fd_table` of kernel/proc/include/proc/process.h.
use obelisk_os.Prelude.{ℕ, List, Option, none, some, get_or}

pub record File : Type 0 where
  pub f_dentry : ℕ
  pub f_mode : ℕ
  pub f_flags : ℕ
  pub f_pos : ℕ
  pub f_count : ℕ

pub record FdEntry : Type 0 where
  pub file : Option ℕ
  pub flags : ℕ

pub record FdTable : Type 0 where
  pub fds : List FdEntry
  pub max_fds : ℕ
  pub next_fd : ℕ
  pub refcount : ℕ

-- A `struct file *` is a place in `heap`, and `none` there is a file that was freed. `dentry_count` has
-- the reference counts of the directory entries, whose own end is that of kernel/fs/dentry.c. `files` is
-- the table of the current process.
pub record Kernel : Type 0 where
  pub heap : List (Option File)
  pub dentry_count : List ℕ
  pub files : FdTable

abbrev pub free_entry : FdEntry
free_entry = record { file = none; flags = 0 }

abbrev pub entry_at : FdTable → ℕ → FdEntry
entry_at fdt i = get_or fdt.fds i free_entry

-- The count of a file, 0 for none.
abbrev pub count_of : Option File → ℕ
count_of none = 0
count_of (some f) = f.f_count

abbrev pub file_count : List (Option File) → ℕ → ℕ
file_count heap p = count_of (get_or heap p none)
