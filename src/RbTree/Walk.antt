-- ===== src/RbTree/Walk.antt =====
-- rb_first, rb_last, rb_next and rb_prev of kernel/lib/rbtree.c.
use obelisk_os.Prelude.{◌≡◌, refl, List, [], ◌∷◌, Option, none, some}
use obelisk_os.RbTree.Tree.{Color, Tree, Step, plug}
use obelisk_os.RbTree.Erase.{Place, leftmost}
use obelisk_os.RbTree.Order.{values, before, behind}
use obelisk_os.RbTree.Removal.{around, leftmost-around}
use Tree.{leaf, node}
use Step.{left_of, right_of}

abbrev rightmost : {A : Type 0} → Color → Tree A → A → Tree A → List (Step A) → Place A
rightmost c l a leaf path = record { color = c; left = l; value = a; right = leaf; path = path }
rightmost c l a (node d m b r) path = rightmost d m b r (right_of c a l ∷ path)

abbrev rb_first : {A : Type 0} → Tree A → Option (Place A)
rb_first leaf = none
rb_first (node c l a r) = some (leftmost c l a r [])

abbrev rb_last : {A : Type 0} → Tree A → Option (Place A)
rb_last leaf = none
rb_last (node c l a r) = some (rightmost c l a r [])

-- The way up to the first parent that lies to the right.
abbrev up_right : {A : Type 0} → Tree A → List (Step A) → Option (Place A)
up_right t [] = none
up_right t (left_of c a r ∷ path) =
    some (record { color = c; left = t; value = a; right = r; path = path })
up_right t (right_of c a l ∷ path) = up_right (node c l a t) path

abbrev up_left : {A : Type 0} → Tree A → List (Step A) → Option (Place A)
up_left t [] = none
up_left t (left_of c a r ∷ path) = up_left (node c t a r) path
up_left t (right_of c a l ∷ path) =
    some (record { color = c; left = l; value = a; right = t; path = path })

-- The null node of the C code is no place.
abbrev next_from : {A : Type 0} → Color → Tree A → A → Tree A → List (Step A) → Option (Place A)
next_from c l a leaf path = up_right (node c l a leaf) path
next_from c l a (node d m b r) path = some (leftmost d m b r (right_of c a l ∷ path))

abbrev rb_next : {A : Type 0} → Place A → Option (Place A)
rb_next at = next_from at.color at.left at.value at.right at.path

abbrev prev_from : {A : Type 0} → Color → Tree A → A → Tree A → List (Step A) → Option (Place A)
prev_from c leaf a r path = up_left (node c leaf a r) path
prev_from c (node d l b m) a r path = some (rightmost d l b m (left_of c a r ∷ path))

abbrev rb_prev : {A : Type 0} → Place A → Option (Place A)
rb_prev at = prev_from at.color at.left at.value at.right at.path

module _ {A : Type 0} where
  -- A tree with the values `l` behind a place: there is no next place if there are none, and the next
  -- one in the tree `t` has the first of them.
  pub data Next (t : Tree A) (later : List A → List A) : Option (Place A) → Type 0 where
    at_end : ((rest : List A) → later rest ≡ rest) → Next t later none
    next :
        (n : Place A)
        → around n ≡ t
        → ((rest : List A) → later rest ≡ n.value ∷ values n.right (behind n.path rest))
        → Next t later (some n)

  leftmost-first :
      (c : Color) (l : Tree A) (a : A) (r : Tree A) (path : List (Step A)) (rest : List A)
      → values (node c l a r) (behind path rest)
        ≡ (leftmost c l a r path).value
          ∷ values (leftmost c l a r path).right (behind (leftmost c l a r path).path rest)
  leftmost-first c leaf a r path rest = refl
  leftmost-first c (node d l b m) a r path rest = leftmost-first d l b m (left_of c a r ∷ path) rest

  up_right-Next :
      (t : Tree A) (path : List (Step A)) → Next (plug t path) (behind path) (up_right t path)
  up_right-Next t [] = at_end (λ rest. refl)
  up_right-Next t (left_of c a r ∷ path) = next _ refl (λ rest. refl)
  up_right-Next t (right_of c a l ∷ path) = up_right-Next (node c l a t) path

  next_from-Next :
      (c : Color) (l : Tree A) (a : A) (r : Tree A) (path : List (Step A))
      → Next
          (plug (node c l a r) path)
          (λ rest. values r (behind path rest))
          (next_from c l a r path)
  next_from-Next c l a leaf path = up_right-Next (node c l a leaf) path
  next_from-Next c l a (node d m b r) path =
      next _ (leftmost-around d m b r (right_of c a l ∷ path))
        (leftmost-first d m b r (right_of c a l ∷ path))

  -- `rb_next` gives no place where nothing stands to the right, and otherwise the place in the same tree
  -- of the first value to the right.
  pub rb_next-Next :
      (at : Place A) → Next (around at) (λ rest. values at.right (behind at.path rest)) (rb_next at)
  rb_next-Next at = next_from-Next at.color at.left at.value at.right at.path

  -- The same to the left.
  pub data Prev (t : Tree A) (earlier : List A → List A) : Option (Place A) → Type 0 where
    at_start : ((rest : List A) → earlier rest ≡ rest) → Prev t earlier none
    prev :
        (n : Place A)
        → around n ≡ t
        → ((rest : List A) → earlier rest ≡ before n.path (values n.left (n.value ∷ rest)))
        → Prev t earlier (some n)

  rightmost-around :
      (c : Color) (l : Tree A) (a : A) (r : Tree A) (path : List (Step A))
      → around (rightmost c l a r path) ≡ plug (node c l a r) path
  rightmost-around c l a leaf path = refl
  rightmost-around c l a (node d m b r) path = rightmost-around d m b r (right_of c a l ∷ path)

  rightmost_last :
      (c : Color) (l : Tree A) (a : A) (r : Tree A) (path : List (Step A)) (rest : List A)
      → before path (values (node c l a r) rest)
        ≡ before
            (rightmost c l a r path).path
            (values (rightmost c l a r path).left ((rightmost c l a r path).value ∷ rest))
  rightmost_last c l a leaf path rest = refl
  rightmost_last c l a (node d m b r) path rest =
      rightmost_last d m b r (right_of c a l ∷ path) rest

  up_left-Prev :
      (t : Tree A) (path : List (Step A)) → Prev (plug t path) (before path) (up_left t path)
  up_left-Prev t [] = at_start (λ rest. refl)
  up_left-Prev t (left_of c a r ∷ path) = up_left-Prev (node c t a r) path
  up_left-Prev t (right_of c a l ∷ path) = prev _ refl (λ rest. refl)

  prev_from-Prev :
      (c : Color) (l : Tree A) (a : A) (r : Tree A) (path : List (Step A))
      → Prev
          (plug (node c l a r) path)
          (λ rest. before path (values l rest))
          (prev_from c l a r path)
  prev_from-Prev c leaf a r path = up_left-Prev (node c leaf a r) path
  prev_from-Prev c (node d l b m) a r path =
      prev _ (rightmost-around d l b m (left_of c a r ∷ path))
        (rightmost_last d l b m (left_of c a r ∷ path))

  -- `rb_prev` gives no place where nothing stands to the left, and otherwise the place in the same tree
  -- of the last value to the left.
  pub rb_prev-Prev :
      (at : Place A) → Prev (around at) (λ rest. before at.path (values at.left rest)) (rb_prev at)
  rb_prev-Prev at = prev_from-Prev at.color at.left at.value at.right at.path
