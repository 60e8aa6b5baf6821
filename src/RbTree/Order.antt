-- ===== src/RbTree/Order.antt =====
-- Rebalancing in kernel/lib/rbtree.c keeps the order of the nodes.
use obelisk_os.Prelude.{◌≡◌, refl, ap, sym, ◌∙◌, List, [], ◌∷◌, Bool-cases, inl, inr}
use obelisk_os.RbTree.Tree.{
  Color, Tree, Step, attach, plug, is_red, set_color, set_left_color, set_right_color,
  rb_rotate_left, rb_rotate_right,
}
use obelisk_os.RbTree.Insert.{
  parent_is_red, other_child, recolor, straighten_left, straighten_right, rotate_grandparent,
  rb_insert_color,
}
use Color.{red, black}
use Tree.{leaf, node}
use Step.{left_of, right_of}

-- The values of a tree from left to right, in front of a list.
abbrev pub values : {A : Type 0} → Tree A → List A → List A
values leaf rest = rest
values (node c l a r) rest = values l (a ∷ values r rest)

-- What stands to the left of a node on the way up, in front of a list, and what stands to the right.
abbrev pub before : {A : Type 0} → List (Step A) → List A → List A
before [] l = l
before (left_of c a r ∷ path) l = before path l
before (right_of c a k ∷ path) l = before path (values k (a ∷ l))

abbrev pub behind : {A : Type 0} → List (Step A) → List A → List A
behind [] rest = rest
behind (left_of c a r ∷ path) rest = a ∷ values r (behind path rest)
behind (right_of c a k ∷ path) rest = behind path rest

-- Two trees with the same values in the same order.
abbrev pub Same : {A : Type 0} → Tree A → Tree A → Type 0
Same t u = (rest : List _) → values t rest ≡ values u rest

module _ {A : Type 0} where
  pub values-plug :
      (path : List (Step A)) (t : Tree A) (rest : List A)
      → values (plug t path) rest ≡ before path (values t (behind path rest))
  values-plug [] t rest = refl
  values-plug (left_of c a r ∷ path) t rest = values-plug path (node c t a r) rest
  values-plug (right_of c a k ∷ path) t rest = values-plug path (node c k a t) rest

  pub plug-Same :
      (path : List (Step A)) (t u : Tree A) → Same t u → Same (plug t path) (plug u path)
  plug-Same path t u e rest =
      values-plug path t rest
      ∙ ap (before path) (e (behind path rest))
      ∙ sym (values-plug path u rest)

  pub set_color-Same : (c : Color) (t : Tree A) → Same (set_color c t) t
  set_color-Same c leaf rest = refl
  set_color-Same c (node d l a r) rest = refl

  pub set_left_color-Same : (c : Color) (t : Tree A) → Same (set_left_color c t) t
  set_left_color-Same c leaf rest = refl
  set_left_color-Same c (node d l a r) rest = set_color-Same c l (a ∷ values r rest)

  pub set_right_color-Same : (c : Color) (t : Tree A) → Same (set_right_color c t) t
  set_right_color-Same c leaf rest = refl
  set_right_color-Same c (node d l a r) rest = ap (λ x. values l (a ∷ x)) (set_color-Same c r rest)

  pub rotate_left-Same : (t : Tree A) → Same (rb_rotate_left t) t
  rotate_left-Same leaf rest = refl
  rotate_left-Same (node c l a leaf) rest = refl
  rotate_left-Same (node c l a (node d m b r)) rest = refl

  pub rotate_right-Same : (t : Tree A) → Same (rb_rotate_right t) t
  rotate_right-Same leaf rest = refl
  rotate_right-Same (node c leaf a r) rest = refl
  rotate_right-Same (node c (node d l b m) a r) rest = refl

  recolor-Same : (t : Tree A) (p g : Step A) → Same (recolor t p g) (attach (attach t p) g)
  recolor-Same t p (left_of c a u) rest =
      set_color-Same black (attach t p) _
      ∙ ap (λ x. values (attach t p) (a ∷ x)) (set_color-Same black u rest)
  recolor-Same t p (right_of c a u) rest =
      set_color-Same black u _ ∙ ap (λ x. values u (a ∷ x)) (set_color-Same black (attach t p) rest)

  straighten_left-Same : (t : Tree A) (p : Step A) → Same (straighten_left t p) (attach t p)
  straighten_left-Same t (left_of c a r) rest = refl
  straighten_left-Same t (right_of c a l) rest = rotate_left-Same (node c l a t) rest

  straighten_right-Same : (t : Tree A) (p : Step A) → Same (straighten_right t p) (attach t p)
  straighten_right-Same t (left_of c a r) rest = rotate_right-Same (node c t a r) rest
  straighten_right-Same t (right_of c a l) rest = refl

  rotate_grandparent-Same :
      (t : Tree A) (p g : Step A) → Same (rotate_grandparent t p g) (attach (attach t p) g)
  rotate_grandparent-Same t p (left_of c a u) rest =
      rotate_right-Same (node red (set_color black (straighten_left t p)) a u) rest
      ∙ set_color-Same black (straighten_left t p) _
      ∙ straighten_left-Same t p _
  rotate_grandparent-Same t p (right_of c a u) rest =
      rotate_left-Same (node red u a (set_color black (straighten_right t p))) rest
      ∙ ap (λ x. values u (a ∷ x))
          (set_color-Same black (straighten_right t p) rest ∙ straighten_right-Same t p rest)

  pub rb_insert_color-Same :
      (t : Tree A) (path : List (Step A)) → Same (rb_insert_color t path) (plug t path)
  rb_insert_color-Same t [] = set_color-Same black t
  rb_insert_color-Same t (p ∷ []) = set_color-Same black (plug t (p ∷ []))
  rb_insert_color-Same t (p ∷ g ∷ path) = elim (Bool-cases (parent_is_red p)) [
    | inr over ↦ rw over (set_color-Same black (plug t (p ∷ g ∷ path)))
    | inl red_parent ↦ elim (Bool-cases (is_red (other_child g))) [
      | inl red_uncle ↦
          rw (red_parent, red_uncle)
            (λ rest.
              rb_insert_color-Same (recolor t p g) path rest
              ∙ plug-Same path (recolor t p g) (attach (attach t p) g) (recolor-Same t p g) rest)
      | inr black_uncle ↦
          rw (red_parent, black_uncle)
            (λ rest.
              set_color-Same black (plug (rotate_grandparent t p g) path) rest
              ∙ plug-Same path (rotate_grandparent t p g) (attach (attach t p) g)
                  (rotate_grandparent-Same t p g) rest)
    ]
  ]
