-- ===== src/PageSource.antt =====
-- What the users of kernel/mm/pmm.c rely on: pages are handed out once, and what is freed is available
-- again.
use obelisk_os.Prelude.{ℕ, suc, ◌≡◌, ◌≢◌}

-- `A` is the state of the allocator. A page is its physical address, and 0 is none.
pub record PageSource (A : Type 0) : Type 1 where
  pub alloc : A → ℕ × A
  pub free : A → ℕ → A
  pub Ok : A → Type 0
  pub Held : A → ℕ → Type 0
  pub available : A → ℕ
  pub alloc_fails : (a : A) → Ok a → (alloc a).0 ≡ 0 → (alloc a).1 ≡ a
  pub alloc_gives :
      (a : A)
      → Ok a
      → (alloc a).0 ≢ 0
      → Ok (alloc a).1
        × Held (alloc a).1 (alloc a).0
        × (suc (available (alloc a).1) ≡ available a)
        × ((page : ℕ) → Held a page → page ≢ (alloc a).0)
  pub alloc_keeps : (a : A) (page : ℕ) → Ok a → Held a page → Held (alloc a).1 page
  pub free_gives :
      (a : A) (page : ℕ)
      → Ok a
      → Held a page
      → Ok (free a page) × (available (free a page) ≡ suc (available a))
  pub free_keeps :
      (a : A) (page other : ℕ)
      → Ok a
      → Held a page
      → Held a other
      → page ≢ other
      → Held (free a page) other
