-- ===== src/Files/Invariant.antt =====
-- Descriptors keep their files alive: the reference counts of kernel/fs/file.c cover the entries of the
-- table that name a file.
use obelisk_os.Prelude.{
  ℕ, zero, suc, ◌+◌, ◌^◌, ◌≤◌, ◌<◌, ◌≡◌, arith, List, [], ◌∷◌, Option, none, some, ◌==◌,
  if◌then◌else◌, set, get_or, length,
}
use obelisk_os.Files.State.{FdEntry, Kernel, free_entry, file_count}

-- 1 for an entry that names file `p`.
abbrev pub names : Option ℕ → ℕ → ℕ
names none p = 0
names (some q) p = if p == q then 1 else 0

-- How many entries name file `p`.
unfoldable pub refs : List FdEntry → ℕ → ℕ
refs [] p = 0
refs (e ∷ fds) p = names e.file p + refs fds p

pub record Safe (k : Kernel) : Type 0 where
  pub sized : k.files.max_fds ≡ length k.files.fds
  pub covered : (p : ℕ) → refs k.files.fds p ≤ file_count k.heap p
  pub small : (p : ℕ) → file_count k.heap p < 2 ^ 32

pub refs-set :
    (fds : List FdEntry) (i p : ℕ) (e : FdEntry)
    → i < length fds
    → refs (set fds i e) p + names (get_or fds i free_entry).file p ≡ refs fds p + names e.file p
unfolding refs
refs-set [] i p e h = absurd (omega arith)
refs-set (d ∷ fds) zero p e h = omega arith
refs-set (d ∷ fds) (suc i) p e h = omega (arith, refs-set fds i p e (omega arith))
