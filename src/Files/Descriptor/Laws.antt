-- ===== src/Files/Descriptor/Laws.antt =====
-- What closing and reserving descriptors in kernel/fs/file.c does.
use obelisk_os.Prelude.{
  ℕ, zero, suc, ◌+◌, ◌-◌, ◌≤◌, ◌<◌, ◌≡◌, ◌≢◌, refl, sym, ap, ◌∙◌, arith, ℤ, pos, negsuc, Option,
  none, some, Bool, true, false, ◌==◌, leb, if◌then◌else◌, set, length, inl, inr, Bool-cases,
  Option-cases, get_or-set_self, get_or-set_ne, length-set, Result, ok, err, Errno,
}
use Errno.{emfile}
use obelisk_os.Files.State.{FdEntry, FdTable, Kernel, entry_at, free_entry, file_count}
use obelisk_os.Files.Reference.{put_file}
use obelisk_os.Files.Reference.Laws.{file_count-put_file, files-put_file}
use obelisk_os.Files.Descriptor.{
  put_entry, valid_fd, free_from, get_unused_fd_flags, close_fd, close_file,
}
use obelisk_os.Files.Invariant.{refs, names, Safe, refs-set}

close_file-Safe :
    (k : Kernel) (i : ℕ) (o : Option ℕ)
    → Safe k
    → i < k.files.max_fds
    → (entry_at k.files i).file ≡ o
    → Safe (close_file k i o).1
unfolding close_file
close_file-Safe k i none v h e = v
close_file-Safe k i (some p) v h e = record {
  sized = rw table (v.sized ∙ sym (length-set k.files.fds i free_entry));
  covered = λ q. rw table (ground (arith, after q, left q, count q, v.covered q));
  small = λ q. ground (arith, count q, v.small q, v.small p);
}
  where
    cleared : Kernel
    cleared = record k { files = put_entry k.files i none 0 }

    table : (put_file cleared p).files ≡ cleared.files
    table = files-put_file cleared p

    after :
        (q : ℕ)
        → refs (set k.files.fds i free_entry) q + names (entry_at k.files i).file q
          ≡ refs k.files.fds q + 0
    after q = refs-set k.files.fds i q free_entry (omega (arith, v.sized))

    left : (q : ℕ) → names (entry_at k.files i).file q ≡ (if q == p then 1 else 0)
    left q = ap (λ o. names o q) e

    named : 0 < file_count k.heap p
    named = ground (arith, after p, left p, v.covered p)

    count :
        (q : ℕ)
        → file_count (put_file cleared p).heap q
          ≡ (if q == p then file_count k.heap p - 1 else file_count k.heap q)
    count q = file_count-put_file cleared p q named (v.small p)

valid_fd_lem : (fdt : FdTable) (fd : ℤ) (i : ℕ) → valid_fd fdt fd ≡ some i → i < fdt.max_fds
unfolding valid_fd
valid_fd_lem fdt (pos n) i e = ground arith
valid_fd_lem fdt (negsuc n) i e = absurd (ground arith)

-- No descriptor is left without its file: where every file has as many references at least as
-- descriptors that name it, this holds after `close_fd` of any number, also where it drops the last
-- reference and the file is freed.
pub close_fd-Safe : (k : Kernel) (fd : ℤ) → Safe k → Safe (close_fd k fd).1
unfolding close_fd
close_fd-Safe k fd v = elim (Option-cases (valid_fd k.files fd)) [
  | inl e ↦ rw (e, close_fd) v
  | inr e ↦ rw (e.1, close_fd) (go e.0 (valid_fd_lem k.files fd e.0 e.1) (leb e.0 2))
]
  where
    go :
        (i : ℕ)
        → i < k.files.max_fds
        → (std_stream : Bool)
        → Safe (if std_stream then (ok 0, k) else close_file k i (entry_at k.files i).file).1
    go i h true = v
    go i h false = close_file-Safe k i (entry_at k.files i).file v h refl

-- The search for a free descriptor: the first in `[lo, hi)`, or none is free there.
pub data FirstFree (fdt : FdTable) (lo hi : ℕ) : Option ℕ → Type 0 where
  all_used : ((j : ℕ) → lo ≤ j → j < hi → (entry_at fdt j).file ≢ none) → FirstFree fdt lo hi none
  first :
      (i : ℕ)
      → lo ≤ i
      → i < hi
      → (entry_at fdt i).file ≡ none
      → ((j : ℕ) → lo ≤ j → j < i → (entry_at fdt j).file ≢ none)
      → FirstFree fdt lo hi (some i)

FirstFree-later :
    (fdt : FdTable) (i hi : ℕ) (r : Option ℕ)
    → (entry_at fdt i).file ≢ none
    → FirstFree fdt (i + 1) hi r
    → FirstFree fdt i hi r
FirstFree-later fdt i hi none used (FirstFree.all_used n) = FirstFree.all_used places
  where
    places : (j : ℕ) → i ≤ j → j < hi → (entry_at fdt j).file ≢ none
    places j le lt = elim (Bool-cases (j == i)) [
      | inl e ↦ let same : i ≡ j = ground arith in rw same at used
      | inr e ↦ n j (ground arith) lt
    ]
FirstFree-later fdt i hi _ used (FirstFree.first k lo lt f least) =
    FirstFree.first k (omega arith) lt f places
  where
    places : (j : ℕ) → i ≤ j → j < k → (entry_at fdt j).file ≢ none
    places j le below = elim (Bool-cases (j == i)) [
      | inl e ↦ let same : i ≡ j = ground arith in rw same at used
      | inr e ↦ least j (ground arith) below
    ]

pub free_from_lem :
    (left : ℕ) (fdt : FdTable) (i : ℕ) → FirstFree fdt i (i + left) (free_from left fdt i)
unfolding free_from
free_from_lem zero fdt i = FirstFree.all_used (λ j le lt. absurd (omega arith))
free_from_lem (suc left) fdt i = go (free_from_lem left fdt (i + 1)) (entry_at fdt i).file refl
  where
    end : i + 1 + left ≡ i + suc left
    end = omega arith

    go :
        FirstFree fdt (i + 1) (i + 1 + left) (free_from left fdt (i + 1))
        → (o : Option ℕ) → (entry_at fdt i).file ≡ o
        → FirstFree fdt i
            (i + suc left)
            (elim o [ none ↦ some i | some p ↦ free_from left fdt (i + 1) ])
    go rest none e =
        FirstFree.first i (omega arith) (omega arith) e (λ j le lt. absurd (omega arith))
    go rest (some p) e = rw end at (
        FirstFree-later fdt i (i + 1 + left) (free_from left fdt (i + 1))
          (λ none_here. ground (arith, e, none_here)) rest)

same_free_from :
    (left : ℕ) (fdt new : FdTable) (i : ℕ)
    → ((j : ℕ) → (entry_at new j).file ≡ (entry_at fdt j).file)
    → free_from left new i ≡ free_from left fdt i
unfolding free_from
same_free_from zero fdt new i same = refl
same_free_from (suc left) fdt new i same =
    λ t. elim (same i t) [ none ↦ some i | some p ↦ same_free_from left fdt new (i + 1) same t ]

file_kept :
    (fdt : FdTable) (i flags j : ℕ)
    → i < length fdt.fds
    → (entry_at (put_entry fdt i (entry_at fdt i).file flags) j).file ≡ (entry_at fdt j).file
file_kept fdt i flags j h = elim (Bool-cases (j == i)) [
  | inl e ↦
      let same : j ≡ i = ground arith in
      rw same (
        ap (λ (x : FdEntry). x.file)
          (get_or-set_self fdt.fds i (record { file = (entry_at fdt i).file; flags = flags })
            free_entry h))
  | inr e ↦
      ap (λ (x : FdEntry). x.file)
        (get_or-set_ne fdt.fds i j (record { file = (entry_at fdt i).file; flags = flags })
          free_entry (ground arith))
]

abbrev first_free : FdTable → Option ℕ
first_free fdt = free_from (fdt.max_fds - 3) fdt 3

first_free_inside : (fdt : FdTable) (i : ℕ) → first_free fdt ≡ some i → i < fdt.max_fds
first_free_inside fdt i e = go (first_free fdt) (free_from_lem (fdt.max_fds - 3) fdt 3) e
  where
    go : (r : Option ℕ) → FirstFree fdt 3 (3 + (fdt.max_fds - 3)) r → r ≡ some i → i < fdt.max_fds
    go none f e = absurd (ground (arith, e))
    go _ (FirstFree.first j lo lt f least) e = ground (arith, e, lo, lt)

abbrev reserved : Kernel → ℕ → ℕ → Kernel
reserved k i flags = record k { files = put_entry k.files i (entry_at k.files i).file flags }

get_unused-some :
    (k : Kernel) (flags i : ℕ)
    → first_free k.files ≡ some i
    → get_unused_fd_flags k flags ≡ (ok i, reserved k i flags)
unfolding get_unused_fd_flags
get_unused-some k flags i e = rw (e, get_unused_fd_flags) refl

get_unused-none :
    (k : Kernel) (flags : ℕ)
    → first_free k.files ≡ none
    → get_unused_fd_flags k flags ≡ (err emfile, k)
unfolding get_unused_fd_flags
get_unused-none k flags e = rw (e, get_unused_fd_flags) refl

get_unused_found :
    (k : Kernel) (flags i : ℕ)
    → (get_unused_fd_flags k flags).0 ≡ ok i
    → first_free k.files ≡ some i
get_unused_found k flags i given = elim (Option-cases (first_free k.files)) [
  | inl e ↦
      absurd
        (ground (arith, given, ap (λ (r : Result ℕ × Kernel). r.0) (get_unused-none k flags e)))
  | inr e ↦
      let same : e.0 ≡ i =
        ground
          (arith, given, ap (λ (r : Result ℕ × Kernel). r.0) (get_unused-some k flags e.0 e.1)) in
      e.1 ∙ ap some same
]

-- A descriptor that `get_unused_fd_flags` gave is not reserved: where the table has its size, the next call
-- gives the same descriptor again.
pub get_unused_fd_flags_twice :
    (k : Kernel) (flags other i : ℕ)
    → k.files.max_fds ≡ length k.files.fds
    → (get_unused_fd_flags k flags).0 ≡ ok i
    → (get_unused_fd_flags (get_unused_fd_flags k flags).1 other).0 ≡ ok i
get_unused_fd_flags_twice k flags other i sized given =
    let here = get_unused_found k flags i given in
    let inside : i < length k.files.fds = omega (arith, sized, first_free_inside k.files i here) in
    let again : first_free (reserved k i flags).files ≡ some i =
      same_free_from (k.files.max_fds - 3) k.files (reserved k i flags).files 3
        (λ j. file_kept k.files i flags j inside)
      ∙ here in
    ap (λ (r : Result ℕ × Kernel). (get_unused_fd_flags r.1 other).0)
      (get_unused-some k flags i here)
    ∙ ap (λ (r : Result ℕ × Kernel). r.0) (get_unused-some (reserved k i flags) other i again)
