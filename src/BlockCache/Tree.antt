-- ===== src/BlockCache/Tree.antt =====
-- What kernel/fs/axiomfs/cache.c does with its red-black tree: the search loop, the way down to the place
-- of a new node, and the removal of a node.
use obelisk_os.Prelude.{ℕ, ltb, ◌==◌, List, [], ◌∷◌, Option, none, some, if◌then◌else◌}
use obelisk_os.RbTree.Tree.{Tree, Step}
use obelisk_os.RbTree.Insert.{rb_link_node, rb_insert_color}
use obelisk_os.RbTree.Erase.{Place, rb_erase}
use Tree.{leaf, node}
use Step.{left_of, right_of}

-- What the tree needs of an entry: its block number, and its address `id`.
pub record Slot : Type 0 where
  pub block_num : ℕ
  pub id : ℕ

-- The search loop of block_cache_get and block_cache_invalidate.
abbrev pub search : ℕ → Tree Slot → Option ℕ
search block_num leaf = none
search block_num (node c l this r) =
    let lower = search block_num l in
    let upper = search block_num r in
    if ltb block_num this.block_num
    then lower
    else if ltb this.block_num block_num
    then upper
    else some this.id

-- The loop of block_cache_put from a link on, and the two calls behind it.
abbrev pub descend : Slot → Tree Slot → List (Step Slot) → Tree Slot
descend entry leaf path = rb_insert_color (rb_link_node entry) path
descend entry (node c l this r) path =
    let lower = descend entry l (left_of c this r ∷ path) in
    let upper = descend entry r (right_of c this l ∷ path) in
    if ltb entry.block_num this.block_num then lower else upper

abbrev pub insert : Tree Slot → ℕ → ℕ → Tree Slot
insert t block_num id = descend (record { block_num = block_num; id = id }) t []

abbrev pub or_else : {A : Type 0} → Option A → Option A → Option A
or_else none o = o
or_else (some a) o = some a

-- The node at an address, with the way up that its parent pointers give.
abbrev pub node_at : ℕ → Tree Slot → List (Step Slot) → Option (Place Slot)
node_at id leaf path = none
node_at id (node c l this r) path =
    let inside =
      or_else (node_at id l (left_of c this r ∷ path)) (node_at id r (right_of c this l ∷ path)) in
    if this.id == id
    then some (record { color = c; left = l; value = this; right = r; path = path })
    else inside

abbrev pub erase_place : Tree Slot → Option (Place Slot) → Tree Slot
erase_place t none = t
erase_place t (some at) = rb_erase at

-- rb_erase of the node at an address
abbrev pub erase : Tree Slot → ℕ → Tree Slot
erase t id = erase_place t (node_at id t [])
