-- ===== src/CString/Duplicate.antt =====
-- `strdup` and `strndup` of kernel/lib/string.c. What `kmalloc` gives is an argument: NULL, or an array
-- with any contents.
use obelisk_os.Prelude.{ℕ, ◌+◌, List, ◌++◌, Option, none, some, take, drop, set}
use obelisk_os.CString.Length.{strlen, strnlen}

-- `memcpy` between two objects.
abbrev pub copy_into : List ℕ → List ℕ → ℕ → List ℕ
copy_into dest src n = take n src ++ drop n dest

pub strdup : (ℕ → Option (List ℕ)) → List ℕ → Option (List ℕ)
strdup kmalloc s =
    let len = strlen s + 1 in
    elim (kmalloc len) [ none ↦ none | some new ↦ some (copy_into new s len) ]

pub strndup : (ℕ → Option (List ℕ)) → List ℕ → ℕ → Option (List ℕ)
strndup kmalloc s n =
    let len = strnlen s n in
    elim (kmalloc (len + 1)) [ none ↦ none | some new ↦ some (set (copy_into new s len) len 0) ]
