-- ===== src/BlockCache/Order.antt =====
-- The tree of kernel/fs/axiomfs/cache.c as the list of its values: a new node is one value more, at its
-- place in the order.
use mathlib.Core.Path.{subst}
use obelisk_os.Prelude.{
  ℕ, ◌<◌, ◌≤◌, ◌≡◌, refl, ap, sym, ◌∙◌, arith, ltb, List, [], ◌∷◌, ◌++◌, none, if◌then◌else◌, inl,
  inr, Bool-cases,
}
use obelisk_os.RbTree.Tree.{Color, Tree, Step}
use obelisk_os.RbTree.Insert.{rb_link_node}
use obelisk_os.RbTree.Order.{values, before, behind, values-plug, rb_insert_color-Same}
use obelisk_os.BlockCache.Tree.{Slot, search, descend, insert}
use obelisk_os.BlockCache.Slots.{
  lookup, Above, Below, Increasing, Above-trans, Below-trans, Below-++, Increasing-suffix,
  Increasing-Below, lookup-Above, lookup-Below, lookup-none-++,
}
use Tree.{leaf, node}
use Step.{left_of, right_of}

pub values-++ : (t : Tree Slot) (x y : List Slot) → values t (x ++ y) ≡ values t x ++ y
values-++ leaf x y = refl
values-++ (node c l a r) x y =
    ap (λ z. values l (a ∷ z)) (values-++ r x y) ∙ values-++ l (a ∷ values r x) y

pub before-++ :
    (path : List (Step Slot)) (x y : List Slot) → before path (x ++ y) ≡ before path x ++ y
before-++ [] x y = refl
before-++ (left_of c a r ∷ path) x y = before-++ path x y
before-++ (right_of c a k ∷ path) x y =
    ap (before path) (values-++ k (a ∷ x) y) ∙ before-++ path (values k (a ∷ x)) y

pub values-split :
    (c : Color) (l : Tree Slot) (a : Slot) (r : Tree Slot) (rest : List Slot)
    → values (node c l a r) rest ≡ values l [] ++ a ∷ values r rest
values-split c l a r rest = values-++ l [] (a ∷ values r rest)

right_part :
    (c : Color) (l : Tree Slot) (a : Slot) (r : Tree Slot) (rest : List Slot)
    → Increasing (values (node c l a r) rest)
    → Increasing (a ∷ values r rest)
right_part c l a r rest i =
    Increasing-suffix (values l []) (a ∷ values r rest)
      (subst Increasing (values-split c l a r rest) i)

left_part :
    (c : Color) (l : Tree Slot) (a : Slot) (r : Tree Slot) (rest : List Slot)
    → Increasing (values (node c l a r) rest)
    → Below a.block_num (values l [])
left_part c l a r rest i =
    Increasing-Below (values l []) a (values r rest)
      (subst Increasing (values-split c l a r rest) i)

-- On an ordered tree the search finds what the list of the values has.
pub search_lem :
    (k : ℕ) (t : Tree Slot) (rest : List Slot)
    → Increasing (values t rest)
    → Above k rest
    → search k t ≡ lookup k (values t rest)
search_lem k leaf rest i a = sym (lookup-Above k rest a)
search_lem k (node c l this r) rest i a =
    let (above, order) = right_part c l this r rest i in
    let below = left_part c l this r rest i in
    elim (Bool-cases (ltb k this.block_num)) [
      | inl low ↦
          let lt : k < this.block_num = ground (arith, low) in
          rw low (
            search_lem k l (this ∷ values r rest) i
              (lt, Above-trans k this.block_num (values r rest) (omega (arith, lt)) above))
      | inr not_low ↦
          let le : this.block_num ≤ k = ground (arith, not_low) in
          let skip : lookup k (values l (this ∷ values r rest)) ≡ lookup k (this ∷ values r rest) =
            ap (lookup k) (values-split c l this r rest)
            ∙ lookup-Below k (values l []) (this ∷ values r rest)
                (Below-trans this.block_num k (values l []) le below) in
          rw not_low (ground (arith, le, search_lem k r rest order a) ∙ sym skip)
    ]

-- A list with one more value, at its place in the order.
pub record Split (x : Slot) (old new : List Slot) : Type 0 where
  pub front : List Slot
  pub back : List Slot
  pub without : old ≡ front ++ back
  pub with_it : new ≡ front ++ x ∷ back
  pub below : Below x.block_num front
  pub above : Above x.block_num back

-- The values with `x` where the way down from the root ends.
abbrev put : Slot → Tree Slot → List Slot → List Slot
put x leaf rest = x ∷ rest
put x (node c l this r) rest =
    let lower = put x l (this ∷ values r rest) in
    let upper = values l (this ∷ put x r rest) in
    if ltb x.block_num this.block_num then lower else upper

descend_lem :
    (x : Slot) (t : Tree Slot) (path : List (Step Slot))
    → values (descend x t path) [] ≡ before path (put x t (behind path []))
descend_lem x leaf path =
    rb_insert_color-Same (rb_link_node x) path [] ∙ values-plug path (rb_link_node x) []
descend_lem x (node c l this r) path = elim (Bool-cases (ltb x.block_num this.block_num)) [
  | inl low ↦ rw low (descend_lem x l (left_of c this r ∷ path))
  | inr not_low ↦ rw not_low (descend_lem x r (right_of c this l ∷ path))
]

put-Split :
    (x : Slot) (t : Tree Slot) (rest : List Slot)
    → Increasing (values t rest)
    → Above x.block_num rest
    → lookup x.block_num (values t rest) ≡ none
    → Split x (values t rest) (put x t rest)
put-Split x leaf rest i a new = record {
  front = [];
  back = rest;
  without = refl;
  with_it = refl;
  below = tt;
  above = a;
}
put-Split x (node c l this r) rest i a new =
    let (above, order) = right_part c l this r rest i in
    let below = left_part c l this r rest i in
    elim (Bool-cases (ltb x.block_num this.block_num)) [
      | inl low ↦
          let lt : x.block_num < this.block_num = ground (arith, low) in
          rw low (
            put-Split x l (this ∷ values r rest) i
              (lt, Above-trans x.block_num this.block_num (values r rest) (omega (arith, lt)) above)
              new)
      | inr not_low ↦
          let le : this.block_num ≤ x.block_num = ground (arith, not_low) in
          let new' : lookup x.block_num (this ∷ values r rest) ≡ none =
            lookup-none-++ x.block_num (values l []) (this ∷ values r rest)
              (ap (lookup x.block_num) (sym (values-split c l this r rest)) ∙ new) in
          let lt : this.block_num < x.block_num = ground (arith, le, new') in
          let s = put-Split x r rest order a (ground (arith, lt, new')) in
          rw not_low (record {
            front = values l (this ∷ s.front);
            back = s.back;
            without = ap (λ z. values l (this ∷ z)) s.without ∙ values-++ l (this ∷ s.front) s.back;
            with_it =
                ap (λ z. values l (this ∷ z)) s.with_it ∙ values-++ l (this ∷ s.front) (x ∷ s.back);
            below = subst (Below x.block_num) (sym (values-++ l [] (this ∷ s.front))) (
                Below-++ x.block_num (values l []) (this ∷ s.front)
                  (Below-trans this.block_num x.block_num (values l []) le below) (lt, s.below));
            above = s.above;
          })
    ]

-- A new node is one value more, at its place in the order.
pub insert-Split :
    (t : Tree Slot) (k id : ℕ)
    → Increasing (values t [])
    → lookup k (values t []) ≡ none
    → Split (record { block_num = k; id = id }) (values t []) (values (insert t k id) [])
insert-Split t k id i new =
    let x : Slot = record { block_num = k; id = id } in
    subst (Split x (values t [])) (sym (descend_lem x t [])) (put-Split x t [] i tt new)
