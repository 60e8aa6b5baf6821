-- ===== src/Files/Table/Laws.antt =====
-- Opening a file: `fd_alloc` of kernel/proc/process.c, alone and on a new file of kernel/fs/file.c.
use obelisk_os.Prelude.{
  ℕ, zero, suc, ◌+◌, ◌-◌, ◌≤◌, ◌<◌, ◌≡◌, ◌≢◌, refl, sym, ap, ◌∙◌, arith, List, [], ◌∷◌, ◌++◌,
  Option, none, some, true, ◌==◌, ltb, if◌then◌else◌, set, length, inl, inr, Bool-cases, length-set,
  Result, ok, err, Errno,
}
use Errno.{emfile}
use obelisk_os.Files.State.{File, FdEntry, FdTable, Kernel, entry_at, file_count, count_of}
use obelisk_os.Files.Reference.{alloc_file}
use obelisk_os.Files.Descriptor.{free_from}
use obelisk_os.Files.Descriptor.Laws.{FirstFree, free_from_lem}
use obelisk_os.Files.Table.{fd_alloc, take_fd, start_fd}
use obelisk_os.Files.Invariant.{refs, Safe, refs-set}

-- What `fd_alloc` gives for file `p`: a free descriptor from 3 on, which names the file from then on, or
-- EMFILE if every descriptor from 3 on is in use. No other descriptor changes.
pub data Opened (fdt : FdTable) (p flags : ℕ) : Result ℕ × FdTable → Type 0 where
  full :
      (new : FdTable)
      → ((j : ℕ) → 3 ≤ j → j < fdt.max_fds → (entry_at fdt j).file ≢ none)
      → new.fds ≡ fdt.fds
      → new.max_fds ≡ fdt.max_fds
      → Opened fdt p flags (err emfile, new)
  opened :
      (i : ℕ) (new : FdTable)
      → 3 ≤ i
      → i < fdt.max_fds
      → (entry_at fdt i).file ≡ none
      → new.fds ≡ set fdt.fds i (record { file = some p; flags = flags })
      → new.max_fds ≡ fdt.max_fds
      → Opened fdt p flags (ok i, new)

start_fd_lem : (fdt : FdTable) → 3 ≤ start_fd fdt
start_fd_lem fdt = ground arith

-- `fd_alloc` gives a free descriptor from 3 on and below the size of the table, and lets it name the
-- file, whenever there is one: it gives EMFILE only if every one of them is in use. The other
-- descriptors keep their files.
pub fd_alloc_lem :
    (fdt : FdTable) (p flags : ℕ)
    → fdt.next_fd ≤ fdt.max_fds
    → 3 ≤ fdt.max_fds
    → Opened fdt p flags (fd_alloc fdt (some p) flags)
unfolding fd_alloc take_fd
fd_alloc_lem fdt p flags next_in size =
    go (free_from (fdt.max_fds - start_fd fdt) started (start_fd fdt))
      (free_from_lem (fdt.max_fds - start_fd fdt) started (start_fd fdt))
  where
    started : FdTable
    started = record fdt { next_fd = start_fd fdt }

    again :
        ((j : ℕ)
          → start_fd fdt ≤ j
          → j < start_fd fdt + (fdt.max_fds - start_fd fdt)
          → (entry_at fdt j).file ≢ none)
        → (r : Option ℕ) → FirstFree started 3 (3 + (start_fd fdt - 3)) r
        → Opened fdt p flags
            (elim r [ some i ↦ take_fd started p flags i | none ↦ (err emfile, started) ])
    again above none (FirstFree.all_used n) = Opened.full started used refl refl
      where
        used : (j : ℕ) → 3 ≤ j → j < fdt.max_fds → (entry_at fdt j).file ≢ none
        used j le lt = elim (Bool-cases (ltb j (start_fd fdt))) [
          | inl e ↦ n j le (ground (arith, e))
          | inr e ↦ above j (ground (arith, e)) (ground (arith, e))
        ]
    again above _ (FirstFree.first i lo lt f least) =
        Opened.opened i (take_fd started p flags i).1 lo (ground (arith, lt, lo)) f refl refl

    go :
        (r : Option ℕ)
        → FirstFree started (start_fd fdt) (start_fd fdt + (fdt.max_fds - start_fd fdt)) r
        → Opened fdt p flags (elim r [
          | some i ↦ take_fd started p flags i
          | none ↦ elim (free_from (start_fd fdt - 3) started 3) [
            | some i ↦ take_fd started p flags i
            | none ↦ (err emfile, started)
          ]
        ])
    go none (FirstFree.all_used n) =
        again n (free_from (start_fd fdt - 3) started 3)
          (free_from_lem (start_fd fdt - 3) started 3)
    go _ (FirstFree.first i lo lt f least) =
        Opened.opened i (take_fd started p flags i).1 (omega (arith, start_fd_lem fdt, lo))
          (ground (arith, lo, lt)) f refl refl

file_count-append :
    (heap : List (Option File)) (o : Option File) (q : ℕ)
    → file_count (heap ++ (o ∷ [])) q ≡ (if q == length heap then count_of o else file_count heap q)
file_count-append [] o zero = refl
file_count-append [] o (suc q) = ground arith
file_count-append (x ∷ heap) o zero = ground arith
file_count-append (x ∷ heap) o (suc q) = ground (arith, file_count-append heap o q)

file_count_end : (heap : List (Option File)) (q : ℕ) → length heap ≤ q → file_count heap q ≡ 0
file_count_end [] q h = refl
file_count_end (x ∷ heap) zero h = absurd (omega arith)
file_count_end (x ∷ heap) (suc q) h = file_count_end heap q (omega arith)

-- The kernel after a new file was given to the table `t`.
abbrev pub with_table : Kernel → FdTable → Kernel
with_table k t = record k { files = t }

-- Opening keeps descriptors safe: where every file has as many references at least as descriptors that
-- name it, this holds after `alloc_file` and a successful `fd_alloc` of the new file, whose one
-- reference the descriptor takes over.
pub open-Safe :
    (k : Kernel) (dentry mode flags i : ℕ) (t : FdTable)
    → Safe k
    → k.files.next_fd ≤ k.files.max_fds
    → 3 ≤ k.files.max_fds
    → fd_alloc (alloc_file true k dentry mode).1.files (some (length k.heap)) flags ≡ (ok i, t)
    → Safe (with_table (alloc_file true k dentry mode).1 t)
unfolding alloc_file
open-Safe k dentry mode flags i t v next_in size taken =
    go (fd_alloc k.files (some (length k.heap)) flags)
      (fd_alloc_lem k.files (length k.heap) flags next_in size) taken
  where
    new_file : Option File
    new_file = some record { f_dentry = dentry; f_mode = mode; f_flags = 0; f_pos = 0; f_count = 1 }

    counts :
        (q : ℕ)
        → file_count (k.heap ++ (new_file ∷ [])) q
          ≡ (if q == length k.heap then 1 else file_count k.heap q)
    counts q = file_count-append k.heap new_file q

    none_yet : file_count k.heap (length k.heap) ≡ 0
    none_yet = file_count_end k.heap (length k.heap) (omega arith)

    go :
        (r : Result ℕ × FdTable)
        → Opened k.files (length k.heap) flags r
        → r ≡ (ok i, t)
        → Safe (with_table (alloc_file true k dentry mode).1 t)
    go _ (Opened.full new n fds size) e = absurd (ground arith)
    go _ (Opened.opened j new lo lt f fds size) e =
        let table : new ≡ t = ap (λ (r : Result ℕ × FdTable). r.1) e in
        let entry : FdEntry = record { file = some (length k.heap); flags = flags } in
        let named : (q : ℕ) → refs t.fds q ≡ refs (set k.files.fds j entry) q =
          λ q. ap (λ (x : FdTable). refs x.fds q) (sym table) ∙ ap (λ l. refs l q) fds in
        record {
          sized =
              ap (λ (x : FdTable). x.max_fds) (sym table)
              ∙ size
              ∙ v.sized
              ∙ sym (length-set k.files.fds j entry)
              ∙ ap length (sym fds)
              ∙ ap (λ (x : FdTable). length x.fds) table;
          covered = λ q. ground (
            arith,
            named q,
            refs-set k.files.fds j q entry (omega (arith, v.sized)),
            counts q,
            v.covered q,
            v.covered (length k.heap),
            none_yet,
            (λ (s : q ≡ length k.heap). ap (refs k.files.fds) s),
          );
          small = λ q. ground (arith, counts q, v.small q);
        }
