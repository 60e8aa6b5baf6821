-- ===== src/Files/Table/Clone.antt =====
-- Copying a descriptor table: `fd_table_clone` of kernel/proc/process.c.
use mathlib.Core.Path.{subst}
use obelisk_os.Prelude.{
  ℕ, zero, suc, ◌+◌, ◌^◌, ◌≤◌, ◌<◌, ◌≡◌, ◌≢◌, refl, ap, ◌∙◌, arith, List, [], ◌∷◌, Option, none,
  some, true, ◌==◌, get_or, length, replicate, inl, inr, Bool-cases, length-set, length-replicate,
  get_or-replicate, get_or-set_self, get_or-set_ne,
}
use obelisk_os.Files.State.{FdEntry, FdTable, Kernel, entry_at, free_entry, file_count}
use obelisk_os.Files.Reference.{get_file}
use obelisk_os.Files.Reference.Laws.{file_count-get_file}
use obelisk_os.Files.Descriptor.{put_entry}
use obelisk_os.Files.Table.{fd_table_create, fd_table_clone, clone_from, proc_max_fds}
use obelisk_os.Files.Invariant.{names, refs}

-- How many of the `left` entries from `i` on name file `p`.
refs_from : ℕ → List FdEntry → ℕ → ℕ → ℕ
refs_from zero fds i p = 0
refs_from (suc left) fds i p = names (get_or fds i free_entry).file p + refs_from left fds (i + 1) p

refs_from-suc :
    (left i p : ℕ) (e : FdEntry) (fds : List FdEntry)
    → refs_from left (e ∷ fds) (suc i) p ≡ refs_from left fds i p
unfolding refs_from
refs_from-suc zero i p e fds = refl
refs_from-suc (suc left) i p e fds =
    omega (arith, refs_from-suc left (i + 1) p e fds, ap (λ t. refs_from left (e ∷ fds) t p) next)
  where
    next : suc i + 1 ≡ suc (i + 1)
    next = omega arith

refs_from_all : (fds : List FdEntry) (p : ℕ) → refs_from (length fds) fds 0 p ≡ refs fds p
unfolding refs_from refs
refs_from_all [] p = refl
refs_from_all (e ∷ fds) p = omega (arith, refs_from-suc (length fds) 0 p e fds, refs_from_all fds p)

-- One round of the loop.
clone_step : FdTable → ℕ → Kernel → FdTable → Option ℕ → Kernel × FdTable
clone_step old i k new none = (k, new)
clone_step old i k new (some p) = (get_file k p, put_entry new i (some p) (entry_at old i).flags)

clone_from-step :
    (left : ℕ) (old : FdTable) (i : ℕ) (k : Kernel) (new : FdTable)
    → clone_from (suc left) old i (k, new)
      ≡ clone_from left old (i + 1) (clone_step old i k new (entry_at old i).file)
unfolding clone_from clone_step
clone_from-step left old i k new = go (entry_at old i).file
  where
    go :
        (o : Option ℕ)
        → clone_from left old (i + 1) (elim o [
          | none ↦ (k, new)
          | some p ↦ (get_file k p, put_entry new i (some p) (entry_at old i).flags)
        ])
          ≡ clone_from left old (i + 1) (clone_step old i k new o)
    go none = refl
    go (some p) = refl

step_count :
    (old : FdTable) (i : ℕ) (k : Kernel) (new : FdTable) (o : Option ℕ) (q : ℕ)
    → ((p : ℕ) → names o p ≤ file_count k.heap p)
    → ((p : ℕ) → file_count k.heap p + names o p < 2 ^ 32)
    → file_count (clone_step old i k new o).0.heap q ≡ file_count k.heap q + names o q
unfolding clone_step
step_count old i k new none q live room = omega arith
step_count old i k new (some p) q live room = elim (Bool-cases (q == p)) [
  | inl e ↦
      let same : q ≡ p = ground arith in
      ground (
        arith,
        file_count-get_file k p q (ground (arith, live p)) (ground (arith, room p)),
        ap (file_count k.heap) same,
      )
  | inr e ↦
      ground (arith, file_count-get_file k p q (ground (arith, live p)) (ground (arith, room p)))
]

loop_count :
    (left : ℕ) (old : FdTable) (i : ℕ) (s : Kernel × FdTable) (q : ℕ)
    → ((p : ℕ) → refs_from left old.fds i p ≤ file_count s.0.heap p)
    → ((p : ℕ) → file_count s.0.heap p + refs_from left old.fds i p < 2 ^ 32)
    → file_count (clone_from left old i s).0.heap q
      ≡ file_count s.0.heap q + refs_from left old.fds i q
unfolding refs_from clone_from
loop_count zero old i (k, new) q live room = omega arith
loop_count (suc left) old i (k, new) q live room =
    ap (λ (r : Kernel × FdTable). file_count r.0.heap q) (clone_from-step left old i k new)
    ∙ omega (
      arith,
      loop_count left old (i + 1) (clone_step old i k new (entry_at old i).file) q
          (λ p. omega (arith, counts p, live p)) (λ p. omega (arith, counts p, room p)),
      counts q,
    )
  where
    counts :
        (p : ℕ)
        → file_count (clone_step old i k new (entry_at old i).file).0.heap p
          ≡ file_count k.heap p + names (entry_at old i).file p
    counts p =
        step_count old i k new (entry_at old i).file p (λ p. omega (arith, live p))
          (λ p. omega (arith, room p))

-- What the copy of an entry is: an entry without a file loses its flags.
abbrev copied : Option ℕ → ℕ → FdEntry
copied none flags = free_entry
copied (some p) flags = record { file = some p; flags = flags }

abbrev pub copy_of : FdEntry → FdEntry
copy_of e = copied e.file e.flags

step_length :
    (old : FdTable) (i : ℕ) (k : Kernel) (new : FdTable) (o : Option ℕ)
    → length (clone_step old i k new o).1.fds ≡ length new.fds
unfolding clone_step
step_length old i k new none = refl
step_length old i k new (some p) = length-set new.fds i _

step_here :
    (old : FdTable) (i : ℕ) (k : Kernel) (new : FdTable) (o : Option ℕ)
    → i < length new.fds
    → entry_at new i ≡ free_entry
    → entry_at (clone_step old i k new o).1 i ≡ copied o (entry_at old i).flags
unfolding clone_step
step_here old i k new none h free = free
step_here old i k new (some p) h free = get_or-set_self new.fds i _ free_entry h

step_elsewhere :
    (old : FdTable) (i j : ℕ) (k : Kernel) (new : FdTable) (o : Option ℕ)
    → i ≢ j
    → entry_at (clone_step old i k new o).1 j ≡ entry_at new j
unfolding clone_step
step_elsewhere old i j k new none ne = refl
step_elsewhere old i j k new (some p) ne = get_or-set_ne new.fds i j _ free_entry ne

-- The first `i` entries are copied, and the others are free.
record Partial (old new : FdTable) (i : ℕ) : Type 0 where
  done : (j : ℕ) → j < i → entry_at new j ≡ copy_of (entry_at old j)
  todo : (j : ℕ) → i ≤ j → entry_at new j ≡ free_entry

step-Partial :
    (old : FdTable) (i : ℕ) (k : Kernel) (new : FdTable)
    → i < length new.fds
    → Partial old new i
    → Partial old (clone_step old i k new (entry_at old i).file).1 (i + 1)
step-Partial old i k new h part = record {
  done = λ j l. elim (Bool-cases (i == j)) [
    | inl e ↦ subst copied_at (ground arith) here
    | inr e ↦
        step_elsewhere old i j k new (entry_at old i).file (ground arith)
        ∙ part.done j (ground arith)
  ];
  todo = λ j l.
      step_elsewhere old i j k new (entry_at old i).file (omega arith) ∙ part.todo j (omega arith);
}
  where
    copied_at : ℕ → Type 0
    copied_at t =
        entry_at (clone_step old i k new (entry_at old i).file).1 t ≡ copy_of (entry_at old t)

    here : copied_at i
    here = step_here old i k new (entry_at old i).file h (part.todo i (omega arith))

loop_entries :
    (left : ℕ) (old : FdTable) (i : ℕ) (s : Kernel × FdTable)
    → i + left ≤ length s.1.fds
    → Partial old s.1 i
    → Partial old (clone_from left old i s).1 (i + left)
unfolding clone_from
loop_entries zero old i (k, new) h part = record {
  done = λ j l. part.done j (omega arith);
  todo = λ j l. part.todo j (omega arith);
}
loop_entries (suc left) old i (k, new) h part =
    let rest =
      loop_entries left old (i + 1) (clone_step old i k new (entry_at old i).file)
        (omega (arith, h, step_length old i k new (entry_at old i).file))
        (step-Partial old i k new (omega arith) part) in
    record {
      done = λ j l. at_end j ∙ rest.done j (omega arith);
      todo = λ j l. at_end j ∙ rest.todo j (omega arith);
    }
  where
    at_end :
        (j : ℕ)
        → entry_at (clone_from (suc left) old i (k, new)).1 j
          ≡ entry_at
              (clone_from left old (i + 1) (clone_step old i k new (entry_at old i).file)).1
              j
    at_end j = ap (λ (r : Kernel × FdTable). entry_at r.1 j) (clone_from-step left old i k new)

-- A whole copy, and one reference more for each entry that names a file.
pub record Cloned (k : Kernel) (old : FdTable) (r : Option FdTable × Kernel) : Type 0 where
  pub table : FdTable
  pub made : r.0 ≡ some table
  pub copies : (j : ℕ) → j < old.max_fds → entry_at table j ≡ copy_of (entry_at old j)
  pub spare : (j : ℕ) → old.max_fds ≤ j → entry_at table j ≡ free_entry
  pub start : table.next_fd ≡ old.next_fd
  pub counted : (p : ℕ) → file_count r.1.heap p ≡ file_count k.heap p + refs old.fds p

-- A table of at most 1024 entries is copied whole: each entry that names a file is the same in the new
-- table, all others are free there, and every file's count rises by the number of entries that name
-- it. This holds where memory is found, every file has as many references at least as entries of the
-- table name it, and no count passes 32 bits.
pub fd_table_clone_lem :
    (k : Kernel) (old : FdTable)
    → old.max_fds ≡ length old.fds
    → old.max_fds ≤ proc_max_fds
    → ((p : ℕ) → refs old.fds p ≤ file_count k.heap p)
    → ((p : ℕ) → file_count k.heap p + refs old.fds p < 2 ^ 32)
    → Cloned k old (fd_table_clone true k old)
unfolding fd_table_clone fd_table_create
fd_table_clone_lem k old sized fits live room = record {
  table = record done.1 { next_fd = old.next_fd };
  made = refl;
  copies = λ j l. entries.done j (omega arith);
  spare = λ j l. entries.todo j (omega arith);
  start = refl;
  counted = λ p.
      loop_count old.max_fds old 0 (k, new) p (λ q. omega (arith, live q, all q))
        (λ q. omega (arith, room q, all q))
      ∙ ap (λ t. file_count k.heap p + t) (all p);
}
  where
    new : FdTable
    new = record {
      fds = replicate proc_max_fds free_entry;
      max_fds = proc_max_fds;
      next_fd = 3;
      refcount = 1;
    }

    done : Kernel × FdTable
    done = clone_from old.max_fds old 0 (k, new)

    all : (p : ℕ) → refs_from old.max_fds old.fds 0 p ≡ refs old.fds p
    all p = ap (λ n. refs_from n old.fds 0 p) sized ∙ refs_from_all old.fds p

    entries : Partial old done.1 (0 + old.max_fds)
    entries =
        loop_entries old.max_fds old 0 (k, new)
          (omega (arith, fits, length-replicate proc_max_fds free_entry))
          record {
            done = λ j l. absurd (omega arith);
            todo = λ j l. get_or-replicate proc_max_fds j free_entry;
          }
