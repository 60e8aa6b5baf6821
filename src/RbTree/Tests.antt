-- ===== src/RbTree/Tests.antt =====
-- Trees of numbers, and the theorem about kernel/lib/rbtree.c at one of them.
use obelisk_os.Prelude.{ℕ, ◌≡◌, refl, [], ◌∷◌}
use obelisk_os.RbTree.Tree.{Color, Tree, Step}
use obelisk_os.RbTree.Insert.{rb_link_node, rb_insert_color}
use obelisk_os.RbTree.Erase.{Place, rb_erase}
use obelisk_os.RbTree.Balance.{Balanced}
use obelisk_os.RbTree.Kept.{Removed, rb_erase-Removed}
use Balanced.{empty, red_node, black_node}
use Color.{red, black}
use Tree.{leaf, node}
use Step.{left_of}

-- 4 goes below 5, whose uncle is red, and 7 at the root.
inserted :
    rb_insert_color {A = ℕ}
      (rb_link_node 4)
      (left_of red 5 leaf ∷ left_of black 7 (node red leaf 9 leaf) ∷ [])
    ≡ node black (node black (node red leaf 4 leaf) 5 leaf) 7 (node black leaf 9 leaf)
inserted = refl

-- The root of a tree with two red grandchildren on the right.
abbrev root : Place ℕ
root = record {
  color = black;
  left = node black leaf 2 leaf;
  value = 4;
  right = node black (node red leaf 5 leaf) 6 (node red leaf 8 leaf);
  path = [];
}

-- The node 2 of the same tree.
abbrev low : Place ℕ
low = record {
  color = black;
  left = leaf;
  value = 2;
  right = leaf;
  path = left_of black 4 (node black (node red leaf 5 leaf) 6 (node red leaf 8 leaf)) ∷ [];
}

erased_root :
    rb_erase root ≡ node black (node black leaf 2 leaf) 5 (node black leaf 6 (node red leaf 8 leaf))
erased_root = refl

erased_low :
    rb_erase low ≡ node black (node black leaf 4 (node red leaf 5 leaf)) 6 (node black leaf 8 leaf)
erased_low = refl

rb_erase-Removed_example : Removed low (rb_erase low)
rb_erase-Removed_example = rb_erase-Removed low (
  2,
  black_node (black_node empty empty) (black_node (red_node empty empty) (red_node empty empty)),
)
