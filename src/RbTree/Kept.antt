-- ===== src/RbTree/Kept.antt =====
-- In kernel/lib/rbtree.c, rb_insert_color and rb_erase leave a balanced tree.
use mathlib.Core.Path.{subst}
use obelisk_os.Prelude.{ℕ, suc, ◌≡◌, refl, List, [], ◌∷◌, ◌++◌}
use obelisk_os.RbTree.Tree.{Color, Tree, Step, plug}
use obelisk_os.RbTree.Insert.{rb_link_node, rb_insert_color}
use obelisk_os.RbTree.Erase.{Place, unlinked, leftmost, replace, erase_inner, rb_erase}
use obelisk_os.RbTree.Balance.{
  Balanced, Room, Fits, IsRedBlack, plug-IsRedBlack, rb_insert_color-Balanced,
}
use obelisk_os.RbTree.Rebalance.{rb_erase_color-Balanced, stop_red}
use obelisk_os.RbTree.Order.{values, before, behind}
use obelisk_os.RbTree.Removal.{around, rb_erase_lem}
use Color.{red, black}
use Tree.{leaf, node}
use Step.{left_of, right_of}
use Balanced.{empty, red_node, black_node}
use Room.{top, left_black, right_black, left_red, right_red}
use Fits.{as_black, as_red}

-- Every tree fits where red is allowed.
any_red : (k : Color) → Fits k red
any_red red = as_red
any_red black = as_black

module _ {A : Type 0} where
  -- A subtree of a balanced tree, and the way up from it.
  record Fitting (t : Tree A) (path : List (Step A)) : Type 0 where
    own : Color
    allowed : Color
    height : ℕ
    balanced : Balanced own height t
    room : Room allowed height path
    fits : Fits own allowed

  unplug-Fitting : (t : Tree A) (path : List (Step A)) → IsRedBlack (plug t path) → Fitting t path
  unplug-Fitting t [] b = record {
    own = _;
    allowed = _;
    height = b.0;
    balanced = b.1;
    room = top;
    fits = as_black;
  }
  unplug-Fitting t (left_of c a r ∷ path) b = below (unplug-Fitting (node c t a r) path b)
    where
      inner :
          {c k d : Color} {n : ℕ}
          → Balanced k n (node c t a r)
          → Room d n path
          → Fits k d
          → Fitting t (left_of c a r ∷ path)
      inner (black_node x y) up f = record {
        own = _;
        allowed = _;
        height = _;
        balanced = x;
        room = left_black y up;
        fits = any_red _;
      }
      inner (red_node x y) up as_red = record {
        own = _;
        allowed = _;
        height = _;
        balanced = x;
        room = left_red y up;
        fits = as_black;
      }

      below : Fitting (node c t a r) path → Fitting t (left_of c a r ∷ path)
      below f = inner f.balanced f.room f.fits
  unplug-Fitting t (right_of c a l ∷ path) b = below (unplug-Fitting (node c l a t) path b)
    where
      inner :
          {c k d : Color} {n : ℕ}
          → Balanced k n (node c l a t)
          → Room d n path
          → Fits k d
          → Fitting t (right_of c a l ∷ path)
      inner (black_node x y) up f = record {
        own = _;
        allowed = _;
        height = _;
        balanced = y;
        room = right_black x up;
        fits = any_red _;
      }
      inner (red_node x y) up as_red = record {
        own = _;
        allowed = _;
        height = _;
        balanced = y;
        room = right_red x up;
        fits = as_black;
      }

      below : Fitting (node c l a t) path → Fitting t (right_of c a l ∷ path)
      below f = inner f.balanced f.room f.fits

  -- A new node at the end of a way down a balanced tree is rebalanced to a balanced tree.
  pub rb_insert_color-IsRedBlack :
      (a : A) (path : List (Step A))
      → IsRedBlack (plug leaf path)
      → IsRedBlack (rb_insert_color (rb_link_node a) path)
  rb_insert_color-IsRedBlack a path b = here (unplug-Fitting leaf path b)
    where
      inner :
          {k d : Color} {n : ℕ}
          → Balanced {A = A} k n leaf
          → Room d n path
          → IsRedBlack (rb_insert_color (rb_link_node a) path)
      inner empty up = rb_insert_color-Balanced path a empty empty up

      here : Fitting leaf path → IsRedBlack (rb_insert_color (rb_link_node a) path)
      here f = inner f.balanced f.room

  unlinked_black :
      {c d : Color} {n : ℕ} {t : Tree A} (path : List (Step A))
      → Balanced c n t
      → Room d (suc n) path
      → IsRedBlack (unlinked black t path)
  unlinked_black path empty up = rb_erase_color-Balanced path empty up
  unlinked_black path (black_node x y) up = rb_erase_color-Balanced path (black_node x y) up
  unlinked_black path (red_node x y) up = stop_red _ up refl (black_node x y)

  -- A node without a left child is unlinked.
  no_left :
      {k d : Color} {n : ℕ} (c : Color) (a : A) (r : Tree A) (path : List (Step A))
      → Balanced k n (node c leaf a r)
      → Room d n path
      → Fits k d
      → IsRedBlack (unlinked c r path)
  no_left c a r path (black_node x y) up f = unlinked_black path y up
  no_left c a r path (red_node x y) up as_red = plug-IsRedBlack up as_black y

  no_right :
      {k d : Color} {n : ℕ} (c : Color) (a : A) (l : Tree A) (path : List (Step A))
      → Balanced k n (node c l a leaf)
      → Room d n path
      → Fits k d
      → IsRedBlack (unlinked c l path)
  no_right c a l path (black_node x y) up f = unlinked_black path x up
  no_right c a l path (red_node x y) up as_red = plug-IsRedBlack up as_black x

  -- The leftmost node of a subtree is unlinked.
  leftmost-unlinked :
      (l : Tree A) {k d : Color} {n : ℕ} (c : Color) (a : A) (r : Tree A) (path : List (Step A))
      → Balanced k n (node c l a r)
      → Room d n path
      → Fits k d
      → IsRedBlack (
          unlinked
            (leftmost c l a r path).color
            (leftmost c l a r path).right
            (leftmost c l a r path).path)
  leftmost-unlinked leaf c a r path b up f = no_left c a r path b up f
  leftmost-unlinked (node g p e q) c a r path (black_node x y) up f =
      leftmost-unlinked p g e q (left_of c a r ∷ path) x (left_black y up) (any_red _)
  leftmost-unlinked (node g p e q) c a r path (red_node x y) up as_red =
      leftmost-unlinked p g e q (left_of c a r ∷ path) x (left_red y up) as_black

  leftmost-++ :
      (c : Color) (l : Tree A) (a : A) (r : Tree A) (p q : List (Step A))
      → leftmost c l a r (p ++ q)
        ≡ (record (leftmost c l a r p) { path = (leftmost c l a r p).path ++ q })
  leftmost-++ c leaf a r p q = refl
  leftmost-++ c (node d l b m) a r p q = leftmost-++ d l b m (left_of c a r ∷ p) q

  -- The node after an inner one is unlinked, whatever value stands at the inner one.
  next_unlinked :
      {k d : Color} {n : ℕ} (c : Color) (l : Tree A) (a : A) (e : Color) (m : Tree A) (b : A)
      (r : Tree A) (path : List (Step A)) (v : A)
      → Balanced k n (node c l a (node e m b r))
      → Room d n path
      → Fits k d
      → IsRedBlack (
          unlinked
            (leftmost e m b r (right_of c v l ∷ path)).color
            (leftmost e m b r (right_of c v l ∷ path)).right
            (leftmost e m b r (right_of c v l ∷ path)).path)
  next_unlinked c l a e m b r path v (black_node x y) up f =
      leftmost-unlinked m e b r _ y (right_black x up) (any_red _)
  next_unlinked c l a e m b r path v (red_node x y) up as_red =
      leftmost-unlinked m e b r _ y (right_red x up) as_black

  -- It takes the place of the inner one.
  replaced :
      {k d : Color} {n : ℕ} (c : Color) (l : Tree A) (a : A) (e : Color) (m : Tree A) (b : A)
      (r : Tree A) (path : List (Step A))
      → Balanced k n (node c l a (node e m b r))
      → Room d n path
      → Fits k d
      → IsRedBlack (replace c l path (leftmost e m b r []))
  replaced c l a e m b r path v up f =
      let next = leftmost e m b r [] in
      let q = right_of c next.value l ∷ path in
      subst (λ (p : Place A). IsRedBlack (unlinked p.color p.right p.path))
        (leftmost-++ e m b r [] q) (next_unlinked c l a e m b r path next.value v up f)

  erase_inner-IsRedBlack :
      {k d : Color} {n : ℕ} (c : Color) (l : Tree A) (a : A) (r : Tree A) (path : List (Step A))
      → Balanced k n (node c l a r)
      → Room d n path
      → Fits k d
      → IsRedBlack (erase_inner c l r path)
  erase_inner-IsRedBlack c leaf a r path b up f = no_left c a r path b up f
  erase_inner-IsRedBlack c (node g p x q) a leaf path b up f =
      no_right c a (node g p x q) path b up f
  erase_inner-IsRedBlack c (node g p x q) a (node e m y r) path b up f =
      replaced c (node g p x q) a e m y r path b up f

  -- After `rb_erase` of a node of a balanced tree, the tree is balanced.
  pub rb_erase-IsRedBlack : (at : Place A) → IsRedBlack (around at) → IsRedBlack (rb_erase at)
  rb_erase-IsRedBlack at b =
      let f = unplug-Fitting (node at.color at.left at.value at.right) at.path b in
      erase_inner-IsRedBlack at.color at.left at.value at.right at.path f.balanced f.room f.fits

  -- What `rb_erase` of the node at a place leaves.
  pub record Removed (at : Place A) (t : Tree A) : Type 0 where
    pub balanced : IsRedBlack t
    pub order :
        (rest : List A)
        → values t rest ≡ before at.path (values at.left (values at.right (behind at.path rest)))

  -- After `rb_erase` of a node of a tree with a black root that is balanced, the tree is so again, and
  -- its values from left to right are those that stood before the node's and, behind them, those that
  -- stood after it.
  pub rb_erase-Removed : (at : Place A) → IsRedBlack (around at) → Removed at (rb_erase at)
  rb_erase-Removed at b = record { balanced = rb_erase-IsRedBlack at b; order = rb_erase_lem at }
