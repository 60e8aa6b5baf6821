-- ===== src/Files/Reference.antt =====
-- kernel/fs/file.c: allocation and reference counts of files. A count is a 32-bit word.
pub mod Laws
use obelisk_os.Prelude.{
  ℕ, zero, suc, ◌+◌, ◌-◌, ◌%◌, ◌^◌, List, [], ◌∷◌, ◌++◌, Option, none, some, Bool, true, false,
  ◌==◌, if◌then◌else◌, set, get_or, length,
}
use obelisk_os.Files.State.{File, FdTable, Kernel}

-- The part of `dget` and `dput` that changes the count.
abbrev pub dget : List ℕ → ℕ → List ℕ
dget counts d = set counts d ((get_or counts d 0 + 1) % 2 ^ 32)

abbrev pub dput : List ℕ → ℕ → List ℕ
dput counts d = set counts d ((get_or counts d 0 + 2 ^ 32 - 1) % 2 ^ 32)

-- `memory` says whether the cache of files has room; a new file is a new place.
unfoldable pub alloc_file : Bool → Kernel → ℕ → ℕ → Option ℕ × Kernel
alloc_file false k dentry mode = (none, k)
alloc_file true k dentry mode = (
  some (length k.heap),
  record k {
    heap =
        k.heap
        ++ (some record { f_dentry = dentry; f_mode = mode; f_flags = 0; f_pos = 0; f_count = 1 }
            ∷ []);
    dentry_count = dget k.dentry_count dentry;
  },
)

unfoldable pub free_file : Kernel → ℕ → File → Kernel
free_file k p f = record k {
  heap = set k.heap p none;
  dentry_count = dput k.dentry_count f.f_dentry;
}

get_live : Kernel → ℕ → Option File → Kernel
get_live k p none = k
get_live k p (some f) = record k {
  heap = set k.heap p (some record f { f_count = (f.f_count + 1) % 2 ^ 32 });
}

-- One reference more.
unfoldable pub get_file : Kernel → ℕ → Kernel
unfolding get_live
get_file k p = get_live k p (get_or k.heap p none)

put_live : Kernel → ℕ → Option File → Kernel
unfolding free_file
put_live k p none = k
put_live k p (some f) =
    let left = (f.f_count + 2 ^ 32 - 1) % 2 ^ 32 in
    if left == 0
    then free_file k p f
    else record k { heap = set k.heap p (some record f { f_count = left }) }

-- One reference less, and the end of the file with the last.
unfoldable pub put_file : Kernel → ℕ → Kernel
unfolding put_live
put_file k p = put_live k p (get_or k.heap p none)
