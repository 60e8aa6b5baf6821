-- ===== src/RbTree/Rebalance.antt =====
-- rb_erase of kernel/lib/rbtree.c keeps trees balanced.
use mathlib.Core.Path.{subst}
use obelisk_os.Prelude.{
  ℕ, suc, ◌≡◌, refl, sym, arith, true, false, List, [], ◌∷◌, Bool-cases, inl, inr,
}
use obelisk_os.RbTree.Tree.{Color, Tree, Step, plug, is_red, set_color}
use obelisk_os.RbTree.Erase.{children_black, rotate_parent, rb_erase_color}
use obelisk_os.RbTree.Balance.{
  Balanced, Room, Fits, IsRedBlack, plug-IsRedBlack, blacken, blacken-IsRedBlack,
}
use Color.{red, black}
use Tree.{node}
use Step.{left_of, right_of}
use Balanced.{empty, red_node, black_node}
use Room.{top, left_black, right_black, left_red, right_red}
use Fits.{as_black, as_red}

module _ {A : Type 0} where
  black_not_red : {n : ℕ} {t : Tree A} → Balanced black n t → is_red t ≡ false
  black_not_red empty = refl
  black_not_red (black_node l r) = refl

  not_red_black :
      {c : Color} {n : ℕ} {t : Tree A} → Balanced c n t → is_red t ≡ false → Balanced black n t
  not_red_black empty e = empty
  not_red_black (black_node l r) e = black_node l r
  not_red_black (red_node l r) e = absurd (cc e)

  -- A rotation whose node has the old parent's colour, over two black trees.
  record Turned (c : Color) (n : ℕ) (t : Tree A) : Type 0 where
    left : Tree A
    value : A
    right : Tree A
    shape : t ≡ node c left value right
    left_balanced : Balanced black n left
    right_balanced : Balanced black n right

  turn_left :
      {n : ℕ} {t : Tree A} (c : Color) (a : A) {k : Tree A}
      → Balanced black n t
      → Balanced black (suc n) k
      → children_black k ≡ false
      → Turned c (suc n) (rotate_parent t (left_of c a k))
  turn_left c a b (black_node p (red_node x y)) e = record {
    left = _;
    value = _;
    right = _;
    shape = refl;
    left_balanced = black_node b p;
    right_balanced = black_node x y;
  }
  turn_left c a b (black_node (red_node x y) empty) e = record {
    left = _;
    value = _;
    right = _;
    shape = refl;
    left_balanced = black_node b x;
    right_balanced = black_node y empty;
  }
  turn_left c a b (black_node (red_node x y) (black_node u v)) e = record {
    left = _;
    value = _;
    right = _;
    shape = refl;
    left_balanced = black_node b x;
    right_balanced = black_node y (black_node u v);
  }
  turn_left c a b (black_node empty empty) e = absurd (cc e)
  turn_left c a b (black_node (black_node x y) (black_node u v)) e = absurd (cc e)

  turn_right :
      {n : ℕ} {t : Tree A} (c : Color) (a : A) {k : Tree A}
      → Balanced black n t
      → Balanced black (suc n) k
      → children_black k ≡ false
      → Turned c (suc n) (rotate_parent t (right_of c a k))
  turn_right c a b (black_node (red_node x y) q) e = record {
    left = _;
    value = _;
    right = _;
    shape = refl;
    left_balanced = black_node x y;
    right_balanced = black_node q b;
  }
  turn_right c a b (black_node empty (red_node x y)) e = record {
    left = _;
    value = _;
    right = _;
    shape = refl;
    left_balanced = black_node empty x;
    right_balanced = black_node y b;
  }
  turn_right c a b (black_node (black_node u v) (red_node x y)) e = record {
    left = _;
    value = _;
    right = _;
    shape = refl;
    left_balanced = black_node (black_node u v) x;
    right_balanced = black_node y b;
  }
  turn_right c a b (black_node empty empty) e = absurd (cc e)
  turn_right c a b (black_node (black_node x y) (black_node u v)) e = absurd (cc e)

  Turned-black :
      {d : Color} {n : ℕ} (t : Tree A) (path : List (Step A))
      → Turned black n t
      → Room d (suc n) path
      → IsRedBlack (set_color black (plug t path))
  Turned-black t path v up = blacken-IsRedBlack _ (
      subst (λ u. IsRedBlack (plug u path)) (sym v.shape)
        (plug-IsRedBlack up as_black (black_node {a = v.value} v.left_balanced v.right_balanced)))

  Turned-red :
      {n : ℕ} (t : Tree A) (path : List (Step A))
      → Turned red n t
      → Room red n path
      → IsRedBlack (set_color black (plug t path))
  Turned-red t path v up = blacken-IsRedBlack _ (
      subst (λ u. IsRedBlack (plug u path)) (sym v.shape)
        (plug-IsRedBlack up as_red (red_node {a = v.value} v.left_balanced v.right_balanced)))

  reddened :
      {n : ℕ} {k : Tree A}
      → Balanced black (suc n) k
      → children_black k ≡ true
      → Balanced red n (set_color red k)
  reddened (black_node p q) e =
      red_node (not_red_black p (ground (arith, e))) (not_red_black q (ground (arith, e)))

  -- A red node ends the loop and turns black.
  pub stop_red :
      {d : Color} {n : ℕ} {path : List (Step A)} (t : Tree A)
      → Room d n path
      → is_red t ≡ true
      → Balanced black n (set_color black t)
      → IsRedBlack (rb_erase_color t path)
  stop_red t top e b = (_, b)
  stop_red t (left_black r up) e b = rw e (plug-IsRedBlack (left_black r up) as_black b)
  stop_red t (right_black r up) e b = rw e (plug-IsRedBlack (right_black r up) as_black b)
  stop_red t (left_red r up) e b = rw e (plug-IsRedBlack (left_red r up) as_black b)
  stop_red t (right_red r up) e b = rw e (plug-IsRedBlack (right_red r up) as_black b)

  -- Where a tree has one black node less than its room asks for, the loop restores the balance.
  pub rb_erase_color-Balanced :
      (path : List (Step A)) {c : Color} {n : ℕ} {t : Tree A}
      → Balanced black n t
      → Room c (suc n) path
      → IsRedBlack (rb_erase_color t path)
  rb_erase_color-Balanced [] b top = blacken b
  rb_erase_color-Balanced (left_of black a k ∷ path) b (left_black (black_node p q) up) =
      elim (Bool-cases (children_black k)) [
        | inl both ↦
            rw (black_not_red b, both)
              (rb_erase_color-Balanced path (black_node b (reddened (black_node p q) both)) up)
        | inr one ↦
            rw (black_not_red b, one)
              (Turned-black _ path (turn_left black a b (black_node p q) one) up)
      ]
  rb_erase_color-Balanced (left_of black a (node red k e m) ∷ path) b
        (left_black (red_node (black_node p q) z) up) =
      elim (Bool-cases (children_black k)) [
        | inl both ↦
            rw (black_not_red b, both)
              (plug-IsRedBlack (left_black z up) as_black
                (black_node b (reddened (black_node p q) both)))
        | inr one ↦
            rw (black_not_red b, one)
              (Turned-red _ _ (turn_left red a b (black_node p q) one) (left_black z up))
      ]
  rb_erase_color-Balanced (left_of red a k ∷ path) b (left_red (black_node p q) up) =
      elim (Bool-cases (children_black k)) [
        | inl both ↦
            rw (black_not_red b, both)
              (stop_red _ up refl (black_node b (reddened (black_node p q) both)))
        | inr one ↦
            rw (black_not_red b, one)
              (Turned-red _ path (turn_left red a b (black_node p q) one) up)
      ]
  rb_erase_color-Balanced (right_of black a k ∷ path) b (right_black (black_node p q) up) =
      elim (Bool-cases (children_black k)) [
        | inl both ↦
            rw (black_not_red b, both)
              (rb_erase_color-Balanced path (black_node (reddened (black_node p q) both) b) up)
        | inr one ↦
            rw (black_not_red b, one)
              (Turned-black _ path (turn_right black a b (black_node p q) one) up)
      ]
  rb_erase_color-Balanced (right_of black a (node red m e k) ∷ path) b
        (right_black (red_node z (black_node p q)) up) =
      elim (Bool-cases (children_black k)) [
        | inl both ↦
            rw (black_not_red b, both)
              (plug-IsRedBlack (right_black z up) as_black
                (black_node (reddened (black_node p q) both) b))
        | inr one ↦
            rw (black_not_red b, one)
              (Turned-red _ _ (turn_right red a b (black_node p q) one) (right_black z up))
      ]
  rb_erase_color-Balanced (right_of red a k ∷ path) b (right_red (black_node p q) up) =
      elim (Bool-cases (children_black k)) [
        | inl both ↦
            rw (black_not_red b, both)
              (stop_red _ up refl (black_node (reddened (black_node p q) both) b))
        | inr one ↦
            rw (black_not_red b, one)
              (Turned-red _ path (turn_right red a b (black_node p q) one) up)
      ]
