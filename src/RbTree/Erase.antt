-- ===== src/RbTree/Erase.antt =====
-- rb_erase and rb_erase_color of kernel/lib/rbtree.c.
use obelisk_os.Prelude.{not, ◌&&◌, List, [], ◌∷◌, Bool, ◌++◌, if◌then◌else◌}
use obelisk_os.RbTree.Tree.{
  Color, Tree, Step, plug, is_red, set_color, left_child, right_child, set_left_color,
  set_right_color, rb_rotate_left, rb_rotate_right,
}
use obelisk_os.RbTree.Insert.{other_child}
use Color.{red, black}
use Tree.{leaf, node}
use Step.{left_of, right_of}

-- Neither child of the sibling is red.
abbrev pub children_black : {A : Type 0} → Tree A → Bool
children_black t = not (is_red (left_child t)) && not (is_red (right_child t))

-- The sibling of a left child: a red inner child is rotated to the outside.
abbrev pub outer_right : {A : Type 0} → Tree A → Tree A
outer_right t =
    if is_red (right_child t) then t else rb_rotate_right (set_color red (set_left_color black t))

abbrev pub outer_left : {A : Type 0} → Tree A → Tree A
outer_left t =
    if is_red (left_child t) then t else rb_rotate_left (set_color red (set_right_color black t))

-- The sibling turns red; the tree at the parent.
abbrev pub redden_sibling : {A : Type 0} → Tree A → Step A → Tree A
redden_sibling t (left_of c a sibling) = node c t a (set_color red sibling)
redden_sibling t (right_of c a sibling) = node c (set_color red sibling) a t

-- The sibling takes the parent's colour, the parent and the outer child turn black, and the parent is
-- rotated.
abbrev pub rotate_parent : {A : Type 0} → Tree A → Step A → Tree A
rotate_parent t (left_of c a sibling) =
    rb_rotate_left (node black t a (set_right_color black (set_color c (outer_right sibling))))
rotate_parent t (right_of c a sibling) =
    rb_rotate_right (node black (set_left_color black (set_color c (outer_left sibling))) a t)

-- With a red sibling, it turns black, the parent red, and the parent is rotated: the steps from the
-- node up to the old sibling.
abbrev pub lower : {A : Type 0} → Step A → List (Step A)
lower (left_of c a leaf) = left_of c a leaf ∷ []
lower (left_of c a (node d m b r)) = left_of red a m ∷ left_of black b r ∷ []
lower (right_of c a leaf) = right_of c a leaf ∷ []
lower (right_of c a (node d l b m)) = right_of red a m ∷ right_of black b l ∷ []

-- The end of a round with a black sibling below `path`, where the parent is red: whatever the children
-- of the sibling are, this round is the last.
abbrev pub last_round : {A : Type 0} → Tree A → List (Step A) → List (Step A) → Tree A
last_round t [] path = set_color black (plug t path)
last_round t (s ∷ above) path =
    if children_black (other_child s)
    then plug (set_color black (redden_sibling t s)) (above ++ path)
    else set_color black (plug (rotate_parent t s) (above ++ path))

abbrev pub rb_erase_color : {A : Type 0} → Tree A → List (Step A) → Tree A
rb_erase_color t [] = set_color black t
rb_erase_color t (s ∷ path) =
    let rest = rb_erase_color (redden_sibling t s) path in
    if is_red t
    then plug (set_color black t) (s ∷ path)
    else if is_red (other_child s)
    then last_round t (lower s) path
    else if children_black (other_child s)
    then rest
    else set_color black (plug (rotate_parent t s) path)

-- A node in a tree: its colour, its children, its value, and the way up to the root.
pub record Place (A : Type 0) : Type 0 where
  pub color : Color
  pub left : Tree A
  pub value : A
  pub right : Tree A
  pub path : List (Step A)

-- The end of rb_erase: `child` stands where a node of the colour was taken out.
abbrev pub unlinked : {A : Type 0} → Color → Tree A → List (Step A) → Tree A
unlinked red child path = plug child path
unlinked black child path = rb_erase_color child path

-- The leftmost node of a tree that is not empty, with the way up.
abbrev pub leftmost : {A : Type 0} → Color → Tree A → A → Tree A → List (Step A) → Place A
leftmost c leaf a r path = record { color = c; left = leaf; value = a; right = r; path = path }
leftmost c (node d l b m) a r path = leftmost d l b m (left_of c a r ∷ path)

-- The next node in order takes the place and the colour of the erased one.
abbrev pub replace : {A : Type 0} → Color → Tree A → List (Step A) → Place A → Tree A
replace c l path next =
    unlinked next.color next.right (next.path ++ (right_of c next.value l ∷ path))

abbrev pub erase_inner : {A : Type 0} → Color → Tree A → Tree A → List (Step A) → Tree A
erase_inner c leaf r path = unlinked c r path
erase_inner c (node d k b m) leaf path = unlinked c (node d k b m) path
erase_inner c (node d k b m) (node e m' a' r') path =
    replace c (node d k b m) path (leftmost e m' a' r' [])

abbrev pub rb_erase : {A : Type 0} → Place A → Tree A
rb_erase at = erase_inner at.color at.left at.right at.path
