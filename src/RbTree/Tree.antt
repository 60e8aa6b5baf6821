-- ===== src/RbTree/Tree.antt =====
-- The nodes of kernel/lib/rbtree.c, the way from a node up to the root, and the rotations. What contains
-- a node is a value of the type A.
use obelisk_os.Prelude.{Bool, true, false, List, [], ◌∷◌}

pub data Color : Type 0 where
  red black : Color

-- `leaf` is the null pointer; a node's parent pointer is its place in the tree.
pub data Tree (A : Type 0) : Type 0 where
  leaf : Tree A
  node : Color → Tree A → A → Tree A → Tree A

-- One step up: the node is the left child of a parent, of which this is the colour, the value and the
-- right child, or it is the right child.
pub data Step (A : Type 0) : Type 0 where
  left_of : Color → A → Tree A → Step A
  right_of : Color → A → Tree A → Step A

-- The tree at the parent.
abbrev pub attach : {A : Type 0} → Tree A → Step A → Tree A
attach t (left_of c a r) = node c t a r
attach t (right_of c a l) = node c l a t

-- The tree at the root, from the parent of a node on.
abbrev pub plug : {A : Type 0} → Tree A → List (Step A) → Tree A
plug t [] = t
plug t (s ∷ path) = plug (attach t s) path

-- A null pointer counts as black where the C code asks.
abbrev pub is_red : {A : Type 0} → Tree A → Bool
is_red leaf = false
is_red (node red l a r) = true
is_red (node black l a r) = false

abbrev pub set_color : {A : Type 0} → Color → Tree A → Tree A
set_color c leaf = leaf
set_color c (node d l a r) = node c l a r

abbrev pub left_child : {A : Type 0} → Tree A → Tree A
left_child leaf = leaf
left_child (node c l a r) = l

abbrev pub right_child : {A : Type 0} → Tree A → Tree A
right_child leaf = leaf
right_child (node c l a r) = r

abbrev pub set_left_color : {A : Type 0} → Color → Tree A → Tree A
set_left_color c leaf = leaf
set_left_color c (node d l a r) = node d (set_color c l) a r

abbrev pub set_right_color : {A : Type 0} → Color → Tree A → Tree A
set_right_color c leaf = leaf
set_right_color c (node d l a r) = node d l a (set_color c r)

-- The nodes keep their colours. Without the child that moves up, the C code reads a null pointer, and
-- nothing is done here.
abbrev pub rb_rotate_left : {A : Type 0} → Tree A → Tree A
rb_rotate_left leaf = leaf
rb_rotate_left (node c l a leaf) = node c l a leaf
rb_rotate_left (node c l a (node d m b r)) = node d (node c l a m) b r

abbrev pub rb_rotate_right : {A : Type 0} → Tree A → Tree A
rb_rotate_right leaf = leaf
rb_rotate_right (node c leaf a r) = node c leaf a r
rb_rotate_right (node c (node d l b m) a r) = node d l b (node c m a r)
