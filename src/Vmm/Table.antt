-- ===== src/Vmm/Table.antt =====
-- A page table of one level that allocates its frames in order: an example of what kernel/mm/vmm.c
-- uses of the page tables.
use obelisk_os.Prelude.{
  ℕ, zero, suc, ◌+◌, ◌*◌, ◌/◌, ◌%◌, Bool, true, false, ◌==◌, if◌then◌else◌, Result, ok, err, Errno,
}
use Errno.{eexist}
use obelisk_os.Vmm.Pages.{Mmu}

-- For each page number the number of its frame, 0 if none, and the flags; the next free frame.
pub record Table : Type 0 where
  pub frames : ℕ → ℕ
  pub flags : ℕ → ℕ
  pub next : ℕ

unfoldable pub address : ℕ → ℕ → ℕ
address zero offset = 0
address (suc frame) offset = suc frame * 4096 + offset

abbrev pub at : (ℕ → ℕ) → ℕ → ℕ → ℕ → ℕ
at f i x j = if i == j then x else f j

abbrev pub entered_if : Bool → Table → Table → Result ℕ × Table
entered_if true t t' = (ok 0, t')
entered_if false t t' = (err eexist, t)

unfoldable pub enter : Table → ℕ → ℕ → ℕ → Result ℕ × Table
enter t a phys flags = entered_if (t.frames (a / 4096) == 0) t (record t {
  frames = at t.frames (a / 4096) (phys / 4096);
  flags = at t.flags (a / 4096) flags;
})

unfoldable pub table : Mmu Table
unfolding address enter
table = record {
  resolve = λ t a. address (t.frames (a / 4096)) (a % 4096);
  get_flags = λ t a. t.flags (a / 4096);
  set_flags = λ t a flags. record t { flags = at t.flags (a / 4096) flags };
  map_page = enter;
  unmap_page = λ t a. record t { frames = at t.frames (a / 4096) 0 };
  alloc_page = λ t. (t.next * 4096, record t { next = suc t.next });
  free_page = λ t phys. t;
  zero_page = λ t phys. t;
  copy_page = λ t to from. t;
  move_bytes = λ t dst src size. t;
  read_page = λ t f phys offset. (true, t);
}
