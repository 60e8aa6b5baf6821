-- ===== src/RbTree/Balance.antt =====
-- The colours in the trees of kernel/lib/rbtree.c: rb_insert_color keeps them balanced.
use obelisk_os.Prelude.{ℕ, zero, suc, List, [], ◌∷◌}
use obelisk_os.RbTree.Tree.{Color, Tree, Step, plug, set_color}
use obelisk_os.RbTree.Insert.{rb_insert_color}
use Color.{red, black}
use Tree.{leaf, node}
use Step.{left_of, right_of}

-- A tree with a root of a colour, no red node below a red one, and the same number of black nodes on
-- every way down.
pub data Balanced {A : Type 0} : Color → ℕ → Tree A → Type 0 where
  empty : Balanced black zero leaf
  red_node :
      {n : ℕ} {l : Tree A} {a : A} {r : Tree A}
      → Balanced black n l
      → Balanced black n r
      → Balanced red n (node red l a r)
  black_node :
      {c d : Color} {n : ℕ} {l : Tree A} {a : A} {r : Tree A}
      → Balanced c n l
      → Balanced d n r
      → Balanced black (suc n) (node black l a r)

-- A way up to a root that is black, from where a tree with n black nodes on every way down may stand:
-- a red one only if the colour is red.
pub data Room {A : Type 0} : Color → ℕ → List (Step A) → Type 0 where
  top : {n : ℕ} → Room black n []
  left_black :
      {c d : Color} {n : ℕ} {a : A} {r : Tree A} {path : List (Step A)}
      → Balanced d n r
      → Room c (suc n) path
      → Room red n (left_of black a r ∷ path)
  right_black :
      {c d : Color} {n : ℕ} {a : A} {l : Tree A} {path : List (Step A)}
      → Balanced d n l
      → Room c (suc n) path
      → Room red n (right_of black a l ∷ path)
  left_red :
      {n : ℕ} {a : A} {r : Tree A} {path : List (Step A)}
      → Balanced black n r
      → Room red n path
      → Room black n (left_of red a r ∷ path)
  right_red :
      {n : ℕ} {a : A} {l : Tree A} {path : List (Step A)}
      → Balanced black n l
      → Room red n path
      → Room black n (right_of red a l ∷ path)

-- A tree that is balanced below a black root.
abbrev pub IsRedBlack : {A : Type 0} → Tree A → Type 0
IsRedBlack t = (n : ℕ) × Balanced black n t

-- A tree with a root of the first colour may stand in a room of the second.
pub data Fits : Color → Color → Type 0 where
  as_black : {c : Color} → Fits black c
  as_red : Fits red red

module _ {A : Type 0} where
  pub plug-IsRedBlack :
      {d : Color} {n : ℕ} {path : List (Step A)}
      → Room d n path
      → {c : Color} {t : Tree A} → Fits c d
      → Balanced c n t
      → IsRedBlack (plug t path)
  plug-IsRedBlack top as_black b = (_, b)
  plug-IsRedBlack (left_black r up) f b = plug-IsRedBlack up as_black (black_node b r)
  plug-IsRedBlack (right_black l up) f b = plug-IsRedBlack up as_black (black_node l b)
  plug-IsRedBlack (left_red r up) as_black b = plug-IsRedBlack up as_red (red_node b r)
  plug-IsRedBlack (right_red l up) as_black b = plug-IsRedBlack up as_red (red_node l b)

  pub blacken : {c : Color} {n : ℕ} {t : Tree A} → Balanced c n t → IsRedBlack (set_color black t)
  blacken empty = (_, empty)
  blacken (red_node l r) = (_, black_node l r)
  blacken (black_node l r) = (_, black_node l r)

  pub blacken-IsRedBlack : (t : Tree A) → IsRedBlack t → IsRedBlack (set_color black t)
  blacken-IsRedBlack t b = blacken b.1

  -- In a room, a red node with black children is rebalanced to a balanced tree.
  pub rb_insert_color-Balanced :
      (path : List (Step A)) {c : Color} {n : ℕ} {l : Tree A} (a : A) {r : Tree A}
      → Balanced black n l
      → Balanced black n r
      → Room c n path
      → IsRedBlack (rb_insert_color (node red l a r) path)
  rb_insert_color-Balanced [] a bl br top = (_, black_node bl br)
  rb_insert_color-Balanced (p ∷ []) a bl br (left_black s top) = (_, black_node (red_node bl br) s)
  rb_insert_color-Balanced (p ∷ []) a bl br (right_black s top) = (_, black_node s (red_node bl br))
  rb_insert_color-Balanced (p ∷ []) a bl br (left_red s up) = elim up [ ]
  rb_insert_color-Balanced (p ∷ []) a bl br (right_red s up) = elim up [ ]
  rb_insert_color-Balanced (p ∷ g ∷ path) a bl br (left_black s up) =
      blacken-IsRedBlack _ (plug-IsRedBlack up as_black (black_node (red_node bl br) s))
  rb_insert_color-Balanced (p ∷ g ∷ path) a bl br (right_black s up) =
      blacken-IsRedBlack _ (plug-IsRedBlack up as_black (black_node s (red_node bl br)))
  rb_insert_color-Balanced (p ∷ g ∷ path) a bl br (left_red s (left_black (red_node x y) up)) =
      rb_insert_color-Balanced path _ (black_node (red_node bl br) s) (black_node x y) up
  rb_insert_color-Balanced (p ∷ g ∷ path) a bl br (left_red s (left_black empty up)) =
      blacken-IsRedBlack _
        (plug-IsRedBlack up as_black (black_node (red_node bl br) (red_node s empty)))
  rb_insert_color-Balanced (p ∷ g ∷ path) a bl br (left_red s (left_black (black_node x y) up)) =
      blacken-IsRedBlack _
        (plug-IsRedBlack up as_black (black_node (red_node bl br) (red_node s (black_node x y))))
  rb_insert_color-Balanced (p ∷ g ∷ path) a bl br (right_red s (left_black (red_node x y) up)) =
      rb_insert_color-Balanced path _ (black_node s (red_node bl br)) (black_node x y) up
  rb_insert_color-Balanced (p ∷ g ∷ path) a bl br (right_red s (left_black empty up)) =
      blacken-IsRedBlack _
        (plug-IsRedBlack up as_black (black_node (red_node s bl) (red_node br empty)))
  rb_insert_color-Balanced (p ∷ g ∷ path) a bl br (right_red s (left_black (black_node x y) up)) =
      blacken-IsRedBlack _
        (plug-IsRedBlack up as_black (black_node (red_node s bl) (red_node br (black_node x y))))
  rb_insert_color-Balanced (p ∷ g ∷ path) a bl br (left_red s (right_black (red_node x y) up)) =
      rb_insert_color-Balanced path _ (black_node x y) (black_node (red_node bl br) s) up
  rb_insert_color-Balanced (p ∷ g ∷ path) a bl br (left_red s (right_black empty up)) =
      blacken-IsRedBlack _
        (plug-IsRedBlack up as_black (black_node (red_node empty bl) (red_node br s)))
  rb_insert_color-Balanced (p ∷ g ∷ path) a bl br (left_red s (right_black (black_node x y) up)) =
      blacken-IsRedBlack _
        (plug-IsRedBlack up as_black (black_node (red_node (black_node x y) bl) (red_node br s)))
  rb_insert_color-Balanced (p ∷ g ∷ path) a bl br (right_red s (right_black (red_node x y) up)) =
      rb_insert_color-Balanced path _ (black_node x y) (black_node s (red_node bl br)) up
  rb_insert_color-Balanced (p ∷ g ∷ path) a bl br (right_red s (right_black empty up)) =
      blacken-IsRedBlack _
        (plug-IsRedBlack up as_black (black_node (red_node empty s) (red_node bl br)))
  rb_insert_color-Balanced (p ∷ g ∷ path) a bl br (right_red s (right_black (black_node x y) up)) =
      blacken-IsRedBlack _
        (plug-IsRedBlack up as_black (black_node (red_node (black_node x y) s) (red_node bl br)))
