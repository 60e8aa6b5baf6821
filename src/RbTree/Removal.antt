-- ===== src/RbTree/Removal.antt =====
-- rb_erase of kernel/lib/rbtree.c takes one value out and keeps the order of the others.
use obelisk_os.Prelude.{◌≡◌, refl, ap, sym, ◌∙◌, List, [], ◌∷◌, ◌++◌, Bool-cases, inl, inr}
use obelisk_os.RbTree.Tree.{
  Color, Tree, Step, attach, plug, is_red, set_color, left_child, right_child, set_left_color,
  set_right_color,
}
use obelisk_os.RbTree.Insert.{other_child}
use obelisk_os.RbTree.Erase.{
  children_black, outer_right, outer_left, redden_sibling, rotate_parent, lower, last_round,
  rb_erase_color, Place, unlinked, leftmost, replace, erase_inner, rb_erase,
}
use obelisk_os.RbTree.Order.{
  values, before, behind, Same, values-plug, plug-Same, set_color-Same, set_left_color-Same,
  set_right_color-Same, rotate_left-Same, rotate_right-Same,
}
use Color.{red, black}
use Tree.{leaf, node}
use Step.{left_of, right_of}

module _ {A : Type 0} where
  outer_right-Same : (t : Tree A) → Same (outer_right t) t
  outer_right-Same t rest = elim (Bool-cases (is_red (right_child t))) [
    | inl outer ↦ rw outer refl
    | inr inner ↦ rw inner (
        rotate_right-Same (set_color red (set_left_color black t)) rest
        ∙ set_color-Same red (set_left_color black t) rest
        ∙ set_left_color-Same black t rest)
  ]

  outer_left-Same : (t : Tree A) → Same (outer_left t) t
  outer_left-Same t rest = elim (Bool-cases (is_red (left_child t))) [
    | inl outer ↦ rw outer refl
    | inr inner ↦ rw inner (
        rotate_left-Same (set_color red (set_right_color black t)) rest
        ∙ set_color-Same red (set_right_color black t) rest
        ∙ set_right_color-Same black t rest)
  ]

  redden_sibling-Same : (t : Tree A) (s : Step A) → Same (redden_sibling t s) (attach t s)
  redden_sibling-Same t (left_of c a k) rest =
      ap (λ x. values t (a ∷ x)) (set_color-Same red k rest)
  redden_sibling-Same t (right_of c a k) rest = set_color-Same red k _

  rotate_parent-Same : (t : Tree A) (s : Step A) → Same (rotate_parent t s) (attach t s)
  rotate_parent-Same t (left_of c a k) rest =
      rotate_left-Same (node black t a (set_right_color black (set_color c (outer_right k)))) rest
      ∙ ap (λ x. values t (a ∷ x))
          (set_right_color-Same black (set_color c (outer_right k)) rest
            ∙ set_color-Same c (outer_right k) rest
            ∙ outer_right-Same k rest)
  rotate_parent-Same t (right_of c a k) rest =
      rotate_right-Same (node black (set_left_color black (set_color c (outer_left k))) a t) rest
      ∙ set_left_color-Same black (set_color c (outer_left k)) _
      ∙ set_color-Same c (outer_left k) _
      ∙ outer_left-Same k _

  lower-Same : (t : Tree A) (s : Step A) → Same (plug t (lower s)) (attach t s)
  lower-Same t (left_of c a leaf) rest = refl
  lower-Same t (left_of c a (node d m b r)) rest = refl
  lower-Same t (right_of c a leaf) rest = refl
  lower-Same t (right_of c a (node d l b m)) rest = refl

  plug-++ : (p q : List (Step A)) (t : Tree A) → plug t (p ++ q) ≡ plug (plug t p) q
  plug-++ [] q t = refl
  plug-++ (s ∷ p) q t = plug-++ p q (attach t s)

  last_round-Same :
      (t : Tree A) (low path : List (Step A))
      → Same (last_round t low path) (plug (plug t low) path)
  last_round-Same t [] path rest = set_color-Same black (plug t path) rest
  last_round-Same t (s ∷ above) path rest = elim (Bool-cases (children_black (other_child s))) [
    | inl end ↦ rw end (
        plug-Same (above ++ path) (set_color black (redden_sibling t s)) (attach t s)
          (λ x. set_color-Same black (redden_sibling t s) x ∙ redden_sibling-Same t s x) rest
        ∙ ap (λ u. values u rest) (plug-++ above path (attach t s)))
    | inr turn ↦ rw turn (
        set_color-Same black (plug (rotate_parent t s) (above ++ path)) rest
        ∙ plug-Same (above ++ path) (rotate_parent t s) (attach t s) (rotate_parent-Same t s) rest
        ∙ ap (λ u. values u rest) (plug-++ above path (attach t s)))
  ]

  pub rb_erase_color-Same :
      (t : Tree A) (path : List (Step A)) → Same (rb_erase_color t path) (plug t path)
  rb_erase_color-Same t [] rest = set_color-Same black t rest
  rb_erase_color-Same t (s ∷ path) rest = elim (Bool-cases (is_red t)) [
    | inl stop ↦ rw stop (plug-Same (s ∷ path) (set_color black t) t (set_color-Same black t) rest)
    | inr go ↦ elim (Bool-cases (is_red (other_child s))) [
      | inl red_sibling ↦
          rw (go, red_sibling)
            (last_round-Same t (lower s) path rest
              ∙ plug-Same path (plug t (lower s)) (attach t s) (lower-Same t s) rest)
      | inr black_sibling ↦ elim (Bool-cases (children_black (other_child s))) [
        | inl up ↦
            rw (go, black_sibling, up)
              (rb_erase_color-Same (redden_sibling t s) path rest
                ∙ plug-Same path (redden_sibling t s) (attach t s) (redden_sibling-Same t s) rest)
        | inr turn ↦
            rw (go, black_sibling, turn)
              (set_color-Same black (plug (rotate_parent t s) path) rest
                ∙ plug-Same path (rotate_parent t s) (attach t s) (rotate_parent-Same t s) rest)
      ]
    ]
  ]

  unlinked-Same :
      (c : Color) (t : Tree A) (path : List (Step A)) → Same (unlinked c t path) (plug t path)
  unlinked-Same red t path rest = refl
  unlinked-Same black t path rest = rb_erase_color-Same t path rest

  -- The whole tree around a place.
  abbrev pub around : Place A → Tree A
  around at = plug (node at.color at.left at.value at.right) at.path

  pub leftmost-around :
      (c : Color) (l : Tree A) (a : A) (r : Tree A) (path : List (Step A))
      → around (leftmost c l a r path) ≡ plug (node c l a r) path
  leftmost-around c leaf a r path = refl
  leftmost-around c (node d l b m) a r path = leftmost-around d l b m (left_of c a r ∷ path)

  leftmost-left :
      (c : Color) (l : Tree A) (a : A) (r : Tree A) (path : List (Step A))
      → (leftmost c l a r path).left ≡ leaf
  leftmost-left c leaf a r path = refl
  leftmost-left c (node d l b m) a r path = leftmost-left d l b m (left_of c a r ∷ path)

  before-leftmost :
      (c : Color) (l : Tree A) (a : A) (r : Tree A) (path : List (Step A)) (x : List A)
      → before (leftmost c l a r path).path x ≡ before path x
  before-leftmost c leaf a r path x = refl
  before-leftmost c (node d l b m) a r path x = before-leftmost d l b m (left_of c a r ∷ path) x

  -- The next node is the first value of the right subtree, and the others stay behind it.
  next_first :
      (n : Place A) (t : Tree A) (rest : List A)
      → n.left ≡ leaf
      → ((x : List A) → before n.path x ≡ x)
      → around n ≡ t
      → n.value ∷ values (plug n.right n.path) rest ≡ values t rest
  next_first n t rest none_left none_before same =
      ap (λ x. n.value ∷ x) (values-plug n.path n.right rest ∙ none_before _)
      ∙ ap (λ l. values l (n.value ∷ values n.right (behind n.path rest))) (sym none_left)
      ∙ sym (none_before _)
      ∙ sym (values-plug n.path (node n.color n.left n.value n.right) rest)
      ∙ ap (λ u. values u rest) same

  replace_lem :
      (c : Color) (l t : Tree A) (path : List (Step A)) (n : Place A) (rest : List A)
      → ((x : List A) → n.value ∷ values (plug n.right n.path) x ≡ values t x)
      → values (replace c l path n) rest ≡ before path (values l (values t (behind path rest)))
  replace_lem c l t path n rest e =
      unlinked-Same n.color n.right (n.path ++ (right_of c n.value l ∷ path)) rest
      ∙ ap (λ u. values u rest) (plug-++ n.path (right_of c n.value l ∷ path) n.right)
      ∙ values-plug (right_of c n.value l ∷ path) (plug n.right n.path) rest
      ∙ ap (λ x. before path (values l x)) (e (behind path rest))

  erase_inner_lem :
      (c : Color) (l r : Tree A) (path : List (Step A)) (rest : List A)
      → values (erase_inner c l r path) rest ≡ before path (values l (values r (behind path rest)))
  erase_inner_lem c leaf r path rest = unlinked-Same c r path rest ∙ values-plug path r rest
  erase_inner_lem c (node d k b m) leaf path rest =
      unlinked-Same c (node d k b m) path rest ∙ values-plug path (node d k b m) rest
  erase_inner_lem c (node d k b m) (node e m' a' r') path rest =
      replace_lem c (node d k b m) (node e m' a' r') path (leftmost e m' a' r' []) rest (λ x.
        next_first (leftmost e m' a' r' []) (node e m' a' r') x (leftmost-left e m' a' r' [])
          (before-leftmost e m' a' r' []) (leftmost-around e m' a' r' []))

  -- After `rb_erase` of the node at a place of a tree, the values of the tree from left to right are
  -- those before the node's, and behind them those after it, for every tree, coloured in any way.
  pub rb_erase_lem :
      (at : Place A) (rest : List A)
      → values (rb_erase at) rest
        ≡ before at.path (values at.left (values at.right (behind at.path rest)))
  rb_erase_lem at = erase_inner_lem at.color at.left at.right at.path
