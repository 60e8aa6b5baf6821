-- ===== src/BlockCache/Search.antt =====
-- The tree of kernel/fs/axiomfs/cache.c as a map from block numbers to addresses.
use mathlib.Core.Path.{subst}
use obelisk_os.Prelude.{ℕ, ◌≡◌, ◌≢◌, ap, sym, ◌∙◌, arith, true, ◌==◌, [], none, some, if◌then◌else◌}
use obelisk_os.RbTree.Tree.{Tree}
use obelisk_os.RbTree.Order.{values}
use obelisk_os.RbTree.Balance.{Balanced, IsRedBlack}
use obelisk_os.BlockCache.Balance.{descend-IsRedBlack, erase-IsRedBlack}
use obelisk_os.BlockCache.Tree.{Slot, search, insert, erase}
use obelisk_os.BlockCache.Slots.{
  lookup, Increasing, Increasing-Below, Increasing-insert, Increasing-remove, lookup-middle,
  lookup-remove,
}
use obelisk_os.BlockCache.Order.{search_lem, insert-Split}
use obelisk_os.BlockCache.Removal.{erase-Erased}

-- A balanced tree of increasing block numbers, no two of which have the same address.
pub record IsTree (t : Tree Slot) : Type 0 where
  pub balanced : IsRedBlack t
  pub order : Increasing (values t [])
  pub one_each :
      (j k id : ℕ) → lookup j (values t []) ≡ some id → lookup k (values t []) ≡ some id → j ≡ k

pub leaf-IsTree : IsTree Tree.leaf
leaf-IsTree = record {
  balanced = (0, Balanced.empty);
  order = tt;
  one_each = λ j k id e. absurd (cc e);
}

pub search-lookup : (t : Tree Slot) (k : ℕ) → IsTree t → search k t ≡ lookup k (values t [])
search-lookup t k v = search_lem k t [] v.order tt

lookup-insert :
    (t : Tree Slot) (k id j : ℕ)
    → IsTree t
    → search k t ≡ none
    → lookup j (values (insert t k id) []) ≡ (if k == j then some id else lookup j (values t []))
lookup-insert t k id j v new =
    let s = insert-Split t k id v.order (sym (search-lookup t k v) ∙ new) in
    let x : Slot = record { block_num = k; id = id } in
    ap (lookup j) s.with_it
    ∙ lookup-middle j s.front x s.back s.below
    ∙ ap (λ l. if k == j then some id else lookup j l) (sym s.without)

pub insert-IsTree :
    (t : Tree Slot) (k id : ℕ)
    → IsTree t
    → search k t ≡ none
    → ((j : ℕ) → search j t ≢ some id)
    → IsTree (insert t k id)
insert-IsTree t k id v new fresh =
    let s = insert-Split t k id v.order (sym (search-lookup t k v) ∙ new) in
    let x : Slot = record { block_num = k; id = id } in
    let fresh' : (j : ℕ) → lookup j (values t []) ≢ some id =
      λ j e. fresh j (search-lookup t j v ∙ e) in
    record {
      balanced = descend-IsRedBlack x t [] v.balanced;
      order =
          subst Increasing (sym s.with_it) (
            Increasing-insert s.front x s.back (subst Increasing s.without v.order) s.below
              s.above);
      one_each = λ a b i f g. ground (
        arith,
        sym (lookup-insert t k id a v new) ∙ f,
        sym (lookup-insert t k id b v new) ∙ g,
        fresh' a,
        fresh' b,
        v.one_each a b i,
      );
    }

-- A new node is found under its block number, and the others as before.
pub search-insert :
    (t : Tree Slot) (k id j : ℕ)
    → IsTree t
    → search k t ≡ none
    → ((i : ℕ) → search i t ≢ some id)
    → search j (insert t k id) ≡ (if k == j then some id else search j t)
search-insert t k id j v new fresh =
    search-lookup (insert t k id) j (insert-IsTree t k id v new fresh)
    ∙ lookup-insert t k id j v new
    ∙ ap (λ o. if k == j then some id else o) (sym (search-lookup t j v))

lookup-erase :
    (t : Tree Slot) (k id j : ℕ)
    → IsTree t
    → search k t ≡ some id
    → lookup j (values (erase t id) []) ≡ (if k == j then none else lookup j (values t []))
lookup-erase t k id j v e =
    let there = sym (search-lookup t k v) ∙ e in
    let r = erase-Erased t k id there in
    let order' = subst Increasing r.with_it v.order in
    let self : (r.value.block_num == r.value.block_num) ≡ true = ground arith in
    let own : lookup r.value.block_num (values t []) ≡ some id =
      ap (lookup r.value.block_num) r.with_it
      ∙ lookup-middle r.value.block_num r.front r.value r.back
          (Increasing-Below r.front r.value r.back order')
      ∙ rw self (ap some r.has_id) in
    let same : r.value.block_num ≡ k = v.one_each r.value.block_num k id own there in
    ap (lookup j) r.without
    ∙ lookup-remove j r.front r.value r.back order'
    ∙ ap (λ l. if r.value.block_num == j then none else lookup j l) (sym r.with_it)
    ∙ ap (λ n. if n == j then none else lookup j (values t [])) same

pub erase-IsTree :
    (t : Tree Slot) (k id : ℕ) → IsTree t → search k t ≡ some id → IsTree (erase t id)
erase-IsTree t k id v e =
    let r = erase-Erased t k id (sym (search-lookup t k v) ∙ e) in
    record {
      balanced = erase-IsRedBlack t id v.balanced;
      order =
          subst Increasing (sym r.without)
            (Increasing-remove r.front r.value r.back (subst Increasing r.with_it v.order));
      one_each = λ a b i f g. ground (
        arith,
        sym (lookup-erase t k id a v e) ∙ f,
        sym (lookup-erase t k id b v e) ∙ g,
        v.one_each a b i,
      );
    }

-- An erased node is not found, and the others are found as before.
pub search-erase :
    (t : Tree Slot) (k id j : ℕ)
    → IsTree t
    → search k t ≡ some id
    → search j (erase t id) ≡ (if k == j then none else search j t)
search-erase t k id j v e =
    search-lookup (erase t id) j (erase-IsTree t k id v e)
    ∙ lookup-erase t k id j v e
    ∙ ap (λ o. if k == j then none else o) (sym (search-lookup t j v))
