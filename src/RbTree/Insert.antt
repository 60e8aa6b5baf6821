-- ===== src/RbTree/Insert.antt =====
-- rb_link_node and rb_insert_color of kernel/lib/rbtree.c.
use obelisk_os.Prelude.{true, false, List, [], ◌∷◌, Bool, if◌then◌else◌}
use obelisk_os.RbTree.Tree.{
  Color, Tree, Step, left_of, right_of, attach, plug, is_red, set_color, rb_rotate_left,
  rb_rotate_right,
}
use Color.{red, black}
use Tree.{leaf, node}
use Step.{left_of, right_of}

abbrev pub parent_is_red : {A : Type 0} → Step A → Bool
parent_is_red (left_of red a r) = true
parent_is_red (left_of black a r) = false
parent_is_red (right_of red a l) = true
parent_is_red (right_of black a l) = false

-- The other child of a parent: the uncle, or a sibling.
abbrev pub other_child : {A : Type 0} → Step A → Tree A
other_child (left_of c a r) = r
other_child (right_of c a l) = l

-- With a red uncle: parent and uncle turn black and the grandparent red.
abbrev pub recolor : {A : Type 0} → Tree A → Step A → Step A → Tree A
recolor t p (left_of c a uncle) = node red (set_color black (attach t p)) a (set_color black uncle)
recolor t p (right_of c a uncle) = node red (set_color black uncle) a (set_color black (attach t p))

-- An inner grandchild is rotated to the outside.
abbrev pub straighten_left : {A : Type 0} → Tree A → Step A → Tree A
straighten_left t (left_of c a r) = node c t a r
straighten_left t (right_of c a l) = rb_rotate_left (node c l a t)

abbrev pub straighten_right : {A : Type 0} → Tree A → Step A → Tree A
straighten_right t (left_of c a r) = rb_rotate_right (node c t a r)
straighten_right t (right_of c a l) = node c l a t

-- With a black uncle: the parent turns black, the grandparent red, and the grandparent is rotated.
abbrev pub rotate_grandparent : {A : Type 0} → Tree A → Step A → Step A → Tree A
rotate_grandparent t p (left_of c a uncle) =
    rb_rotate_right (node red (set_color black (straighten_left t p)) a uncle)
rotate_grandparent t p (right_of c a uncle) =
    rb_rotate_left (node red uncle a (set_color black (straighten_right t p)))

-- The loop takes two steps up in each round. Below a red root the C code reads a null grandparent; here
-- the loop ends.
abbrev pub rb_insert_color : {A : Type 0} → Tree A → List (Step A) → Tree A
rb_insert_color t [] = set_color black t
rb_insert_color t (p ∷ []) = set_color black (plug t (p ∷ []))
rb_insert_color t (p ∷ g ∷ path) =
    let rest = rb_insert_color (recolor t p g) path in
    if parent_is_red p
    then (if is_red (other_child g)
        then rest
        else set_color black (plug (rotate_grandparent t p g) path))
    else set_color black (plug t (p ∷ g ∷ path))

-- A new node is red and has no children.
abbrev pub rb_link_node : {A : Type 0} → A → Tree A
rb_link_node a = node red leaf a leaf
