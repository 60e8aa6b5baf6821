-- ===== src/BlockCache/Slots.antt =====
-- Increasing lists of block numbers, as the tree of kernel/fs/axiomfs/cache.c holds them in order.
use obelisk_os.Prelude.{
  ℕ, ◌<◌, ◌≤◌, ◌≡◌, refl, ap, ◌∙◌, arith, false, ◌==◌, List, [], ◌∷◌, ◌++◌, Option, none, some,
  if◌then◌else◌, ◌⊎◌, inl, inr, Bool-cases,
}
use obelisk_os.BlockCache.Tree.{Slot}

-- The address that a list has for a block number.
abbrev pub lookup : ℕ → List Slot → Option ℕ
lookup k [] = none
lookup k (a ∷ l) = if a.block_num == k then some a.id else lookup k l

abbrev pub Above : ℕ → List Slot → Type 0
Above k [] = Unit
Above k (a ∷ l) = (k < a.block_num) × Above k l

abbrev pub Below : ℕ → List Slot → Type 0
Below k [] = Unit
Below k (a ∷ l) = (a.block_num < k) × Below k l

abbrev pub Increasing : List Slot → Type 0
Increasing [] = Unit
Increasing (a ∷ l) = Above a.block_num l × Increasing l

pub Above-trans : (j k : ℕ) (l : List Slot) → j ≤ k → Above k l → Above j l
Above-trans j k [] h a = tt
Above-trans j k (b ∷ l) h a = (omega (arith, h, a.0), Above-trans j k l h a.1)

pub Below-trans : (j k : ℕ) (l : List Slot) → j ≤ k → Below j l → Below k l
Below-trans j k [] h a = tt
Below-trans j k (b ∷ l) h a = (omega (arith, h, a.0), Below-trans j k l h a.1)

pub Below-++ : (k : ℕ) (p l : List Slot) → Below k p → Below k l → Below k (p ++ l)
Below-++ k [] l f b = b
Below-++ k (a ∷ p) l f b = (f.0, Below-++ k p l f.1 b)

Above-front :
    (k : ℕ) (p : List Slot) (a : Slot) (l : List Slot) → Above k (p ++ a ∷ l) → k < a.block_num
Above-front k [] a l b = b.0
Above-front k (c ∷ p) a l b = Above-front k p a l b.1

Above-remove :
    (k : ℕ) (p : List Slot) (a : Slot) (l : List Slot) → Above k (p ++ a ∷ l) → Above k (p ++ l)
Above-remove k [] a l b = b.1
Above-remove k (c ∷ p) a l b = (b.0, Above-remove k p a l b.1)

Above-insert :
    (k : ℕ) (p : List Slot) (a : Slot) (l : List Slot)
    → k < a.block_num
    → Above k (p ++ l)
    → Above k (p ++ a ∷ l)
Above-insert k [] a l h b = (h, b)
Above-insert k (c ∷ p) a l h b = (b.0, Above-insert k p a l h b.1)

pub Increasing-suffix : (p l : List Slot) → Increasing (p ++ l) → Increasing l
Increasing-suffix [] l i = i
Increasing-suffix (a ∷ p) l i = Increasing-suffix p l i.1

-- What stands before an element is below it.
pub Increasing-Below :
    (p : List Slot) (a : Slot) (l : List Slot) → Increasing (p ++ a ∷ l) → Below a.block_num p
Increasing-Below [] a l i = tt
Increasing-Below (c ∷ p) a l i = (Above-front c.block_num p a l i.0, Increasing-Below p a l i.1)

pub Increasing-remove :
    (p : List Slot) (a : Slot) (l : List Slot) → Increasing (p ++ a ∷ l) → Increasing (p ++ l)
Increasing-remove [] a l i = i.1
Increasing-remove (c ∷ p) a l i = (Above-remove c.block_num p a l i.0, Increasing-remove p a l i.1)

pub Increasing-insert :
    (p : List Slot) (a : Slot) (l : List Slot)
    → Increasing (p ++ l)
    → Below a.block_num p
    → Above a.block_num l
    → Increasing (p ++ a ∷ l)
Increasing-insert [] a l i b above = (above, i)
Increasing-insert (c ∷ p) a l i b above =
    (Above-insert c.block_num p a l b.0 i.0, Increasing-insert p a l i.1 b.1 above)

pub lookup-Above : (k : ℕ) (l : List Slot) → Above k l → lookup k l ≡ none
lookup-Above k [] a = refl
lookup-Above k (b ∷ l) a =
    let other : (b.block_num == k) ≡ false = ground (arith, a.0) in rw other (lookup-Above k l a.1)

pub lookup-Below : (k : ℕ) (p l : List Slot) → Below k p → lookup k (p ++ l) ≡ lookup k l
lookup-Below k [] l b = refl
lookup-Below k (a ∷ p) l b =
    let other : (a.block_num == k) ≡ false = ground (arith, b.0) in
    rw other (lookup-Below k p l b.1)

pub lookup-middle :
    (j : ℕ) (p : List Slot) (a : Slot) (l : List Slot)
    → Below a.block_num p
    → lookup j (p ++ a ∷ l) ≡ (if a.block_num == j then some a.id else lookup j (p ++ l))
lookup-middle j [] a l b = refl
lookup-middle j (c ∷ p) a l b = ground (arith, b.0, lookup-middle j p a l b.1)

pub lookup-none-++ : (k : ℕ) (p l : List Slot) → lookup k (p ++ l) ≡ none → lookup k l ≡ none
lookup-none-++ k [] l e = e
lookup-none-++ k (a ∷ p) l e = ground (arith, e, lookup-none-++ k p l)

pub lookup-some-++ :
    (k id : ℕ) (p l : List Slot)
    → lookup k (p ++ l) ≡ some id
    → (lookup k p ≡ some id) ⊎ (lookup k l ≡ some id)
lookup-some-++ k id [] l e = inr e
lookup-some-++ k id (a ∷ p) l e = elim (Bool-cases (a.block_num == k)) [
  | inl here ↦ inl (ground (arith, here, e))
  | inr other ↦ rw other (lookup-some-++ k id p l (ground (arith, other, e)))
]

-- An element leaves an increasing list.
pub lookup-remove :
    (j : ℕ) (p : List Slot) (a : Slot) (l : List Slot)
    → Increasing (p ++ a ∷ l)
    → lookup j (p ++ l) ≡ (if a.block_num == j then none else lookup j (p ++ a ∷ l))
lookup-remove j p a l i =
    let below = Increasing-Below p a l i in
    let gone : lookup a.block_num (p ++ l) ≡ none =
      lookup-Below a.block_num p l below
      ∙ lookup-Above a.block_num l (Increasing-suffix p (a ∷ l) i).0 in
    ground (
      arith,
      lookup-middle j p a l below,
      gone,
      (λ (e : a.block_num ≡ j). ap (λ x. lookup x (p ++ l)) e),
    )
