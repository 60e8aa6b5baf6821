-- ===== src/BlockCache/Removal.antt =====
-- The tree of kernel/fs/axiomfs/cache.c as the list of its values: an erased node is one value less.
use mathlib.Core.Option.{some-injective}
use obelisk_os.Prelude.{
  ℕ, ◌≡◌, ◌≢◌, refl, ap, sym, ◌∙◌, arith, ◌==◌, List, [], ◌∷◌, ◌++◌, Option, none, some, ◌⊎◌, inl,
  inr, Bool-cases, Option-cases,
}
use obelisk_os.RbTree.Tree.{Tree, Step, plug}
use obelisk_os.RbTree.Erase.{Place}
use obelisk_os.RbTree.Order.{values, before, behind, values-plug}
use obelisk_os.RbTree.Removal.{around, rb_erase_lem}
use obelisk_os.BlockCache.Tree.{Slot, or_else, node_at, erase}
use obelisk_os.BlockCache.Slots.{lookup, lookup-some-++}
use Tree.{leaf, node}
use Step.{left_of, right_of}
use obelisk_os.BlockCache.Order.{values-++, before-++, values-split}

either : {A : Type 0} (p q : Option A) (a : A) → or_else p q ≡ some a → (p ≡ some a) ⊎ (q ≡ some a)
either none q a e = inr e
either (some b) q a e = inl e

neither : {A : Type 0} (p q : Option A) → or_else p q ≡ none → (p ≡ none) × (q ≡ none)
neither none q e = (refl, e)
neither (some b) q e = absurd (cc e)

-- The node that is found stands in the tree and has the address.
pub node_at-around :
    (id : ℕ) (t : Tree Slot) (path : List (Step Slot)) (at : Place Slot)
    → node_at id t path ≡ some at
    → (around at ≡ plug t path) × (at.value.id ≡ id)
node_at-around id leaf path at e = absurd (cc e)
node_at-around id (node c l this r) path at e = elim (Bool-cases (this.id == id)) [
  | inl here ↦
      let found : Place Slot = record {
        color = c;
        left = l;
        value = this;
        right = r;
        path = path;
      } in
      let same : found ≡ at = some-injective _ _ (ground (arith, here, e)) in
      (sym (ap around same), ap (λ (p : Place Slot). p.value.id) (sym same) ∙ ground (arith, here))
  | inr other ↦
      elim (either (node_at id l (left_of c this r ∷ path))
        (node_at id r (right_of c this l ∷ path)) at (ground (arith, other, e))) [
          | inl low ↦ node_at-around id l (left_of c this r ∷ path) at low
          | inr up ↦ node_at-around id r (right_of c this l ∷ path) at up
        ]
]

-- No node is found only where no value has the address.
node_at-none :
    (id : ℕ) (t : Tree Slot) (path : List (Step Slot)) (k : ℕ)
    → node_at id t path ≡ none
    → lookup k (values t []) ≢ some id
node_at-none id leaf path k e f = absurd (cc f)
node_at-none id (node c l this r) path k e f = elim (Bool-cases (this.id == id)) [
  | inl here ↦ absurd (ground (arith, here, e))
  | inr other ↦
      let (low, up) =
        neither (node_at id l (left_of c this r ∷ path)) (node_at id r (right_of c this l ∷ path))
          (ground (arith, other, e)) in
      elim (lookup-some-++ k id (values l []) (this ∷ values r [])
        (ap (lookup k) (sym (values-split c l this r [])) ∙ f)) [
          | inl in_left ↦ node_at-none id l (left_of c this r ∷ path) k low in_left
          | inr in_right ↦
              node_at-none id r (right_of c this l ∷ path) k up (ground (arith, other, in_right))
        ]
]

-- What an erased node leaves.
pub record Erased (id : ℕ) (old new : List Slot) : Type 0 where
  pub front : List Slot
  pub value : Slot
  pub back : List Slot
  pub with_it : old ≡ front ++ value ∷ back
  pub without : new ≡ front ++ back
  pub has_id : value.id ≡ id

-- An erased node is one value less.
pub erase-Erased :
    (t : Tree Slot) (k id : ℕ)
    → lookup k (values t []) ≡ some id
    → Erased id (values t []) (values (erase t id) [])
erase-Erased t k id e = elim (Option-cases (node_at id t [])) [
  | inl missing ↦ absurd (node_at-none id t [] k missing e)
  | inr found ↦
      let (at, is) = found in
      let (place, has) = node_at-around id t [] at is in
      let rest = values at.right (behind at.path []) in
      let front = before at.path (values at.left []) in
      rw is (record {
        front = front;
        value = at.value;
        back = rest;
        with_it =
            ap (λ u. values u []) (sym place)
            ∙ values-plug at.path (node at.color at.left at.value at.right) []
            ∙ ap (before at.path) (values-++ at.left [] (at.value ∷ rest))
            ∙ before-++ at.path (values at.left []) (at.value ∷ rest);
        without =
            rb_erase_lem at []
            ∙ ap (before at.path) (values-++ at.left [] rest)
            ∙ before-++ at.path (values at.left []) rest;
        has_id = has;
      })
]
