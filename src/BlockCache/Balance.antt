-- ===== src/BlockCache/Balance.antt =====
-- The tree of kernel/fs/axiomfs/cache.c stays balanced when a node is added or erased.
use mathlib.Core.Path.{subst}
use obelisk_os.Prelude.{ℕ, sym, ltb, List, [], ◌∷◌, Option-cases, inl, inr, Bool-cases}
use obelisk_os.RbTree.Tree.{Tree, Step, plug}
use obelisk_os.RbTree.Balance.{IsRedBlack}
use obelisk_os.RbTree.Kept.{rb_insert_color-IsRedBlack, rb_erase-IsRedBlack}
use obelisk_os.BlockCache.Tree.{Slot, descend, node_at, erase}
use obelisk_os.BlockCache.Removal.{node_at-around}
use Tree.{leaf, node}
use Step.{left_of, right_of}

pub descend-IsRedBlack :
    (x : Slot) (t : Tree Slot) (path : List (Step Slot))
    → IsRedBlack (plug t path)
    → IsRedBlack (descend x t path)
descend-IsRedBlack x leaf path b = rb_insert_color-IsRedBlack x path b
descend-IsRedBlack x (node c l this r) path b = elim (Bool-cases (ltb x.block_num this.block_num)) [
  | inl low ↦ rw low (descend-IsRedBlack x l (left_of c this r ∷ path) b)
  | inr not_low ↦ rw not_low (descend-IsRedBlack x r (right_of c this l ∷ path) b)
]

pub erase-IsRedBlack : (t : Tree Slot) (id : ℕ) → IsRedBlack t → IsRedBlack (erase t id)
erase-IsRedBlack t id b = elim (Option-cases (node_at id t [])) [
  | inl missing ↦ rw missing b
  | inr found ↦
      let (at, is) = found in
      let place = (node_at-around id t [] at is).0 in
      rw is (rb_erase-IsRedBlack at (subst IsRedBlack (sym place) b))
]
