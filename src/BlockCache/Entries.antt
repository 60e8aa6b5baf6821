-- ===== src/BlockCache/Entries.antt =====
-- Lists of cache entries with different block numbers and addresses, as kernel/fs/axiomfs/cache.c keeps.
use obelisk_os.Prelude.{
  ℕ, suc, ◌≡◌, refl, ap, sym, ◌∙◌, arith, true, false, ◌==◌, List, [], ◌∷◌, length, take, ◌-◌,
  Option, none, some, if◌then◌else◌, Bool-cases, inl, inr,
}
use obelisk_os.BlockCache.State.{Entry, by_id, remove_entry, last_entry}

-- The entry of a block.
abbrev pub entry_of : ℕ → List Entry → Option Entry
entry_of k [] = none
entry_of k (e ∷ l) = if e.block_num == k then some e else entry_of k l

abbrev pub Distinct : List Entry → Type 0
Distinct [] = Unit
Distinct (e ∷ l) = (entry_of e.block_num l ≡ none) × (by_id e.id l ≡ none) × Distinct l

pub entry_of-by_id :
    (k : ℕ) (l : List Entry) (e : Entry)
    → Distinct l
    → entry_of k l ≡ some e
    → (by_id e.id l ≡ some e) × (e.block_num ≡ k)
entry_of-by_id k [] e d h = absurd (cc h)
entry_of-by_id k (c ∷ l) e d h = ground (arith, d.1, h, entry_of-by_id k l e d.2)

pub by_id-entry_of :
    (id : ℕ) (l : List Entry) (e : Entry)
    → Distinct l
    → by_id id l ≡ some e
    → (entry_of e.block_num l ≡ some e) × (e.id ≡ id)
by_id-entry_of id [] e d h = absurd (cc h)
by_id-entry_of id (c ∷ l) e d h = ground (arith, d.0, h, by_id-entry_of id l e d.2)

pub entry_of-remove_entry :
    (k : ℕ) (l : List Entry) (e : Entry)
    → Distinct l
    → by_id e.id l ≡ some e
    → entry_of k (remove_entry e.id l) ≡ (if e.block_num == k then none else entry_of k l)
entry_of-remove_entry k [] e d h = absurd (cc h)
entry_of-remove_entry k (c ∷ l) e d h =
    ground (arith, d.0, d.1, h, entry_of-remove_entry k l e d.2, by_id-entry_of e.id l e d.2)

pub by_id-remove_entry :
    (j id : ℕ) (l : List Entry)
    → Distinct l
    → by_id j (remove_entry id l) ≡ (if id == j then none else by_id j l)
by_id-remove_entry j id [] d = ground arith
by_id-remove_entry j id (c ∷ l) d = ground (arith, d.1, by_id-remove_entry j id l d.2)

-- Removing adds no entry of a block.
entry_of-remove_none :
    (k id : ℕ) (l : List Entry) → entry_of k l ≡ none → entry_of k (remove_entry id l) ≡ none
entry_of-remove_none k id [] h = refl
entry_of-remove_none k id (c ∷ l) h = ground (arith, h, entry_of-remove_none k id l)

pub remove_entry-Distinct : (id : ℕ) (l : List Entry) → Distinct l → Distinct (remove_entry id l)
remove_entry-Distinct id [] d = d
remove_entry-Distinct id (c ∷ l) d = elim (Bool-cases (c.id == id)) [
  | inl here ↦ rw here d.2
  | inr other ↦ rw other (
    entry_of-remove_none c.block_num id l d.0,
    ground (arith, d.1, by_id-remove_entry c.id id l d.2),
    remove_entry-Distinct id l d.2,
  )
]

pub length-remove_entry :
    (id : ℕ) (l : List Entry) (e : Entry)
    → by_id id l ≡ some e
    → suc (length (remove_entry id l)) ≡ length l
length-remove_entry id [] e h = absurd (cc h)
length-remove_entry id (c ∷ l) e h = ground (arith, h, length-remove_entry id l e)

-- The last entry is found by its address, and without it the others stay in order.
pub remove_entry-last_entry :
    (l : List Entry) (e : Entry)
    → Distinct l
    → last_entry l ≡ some e
    → (by_id e.id l ≡ some e) × (remove_entry e.id l ≡ take (length l - 1) l)
remove_entry-last_entry [] e d h = absurd (cc h)
remove_entry-last_entry (c ∷ []) e d h =
    let here : (c.id == e.id) ≡ true = ground (arith, h) in rw here (h, refl)
remove_entry-last_entry (c ∷ b ∷ l) e d h =
    let (found, rest) = remove_entry-last_entry (b ∷ l) e d.2 h in
    let other : (c.id == e.id) ≡ false =
      ground (arith, d.1, found, (λ (i : c.id ≡ e.id). ap (λ x. by_id x (b ∷ l)) i)) in
    let one : suc (length l) - 1 ≡ length l = omega arith in
    let two : suc (suc (length l)) - 1 ≡ suc (length l) = omega arith in
    rw other (
      found,
      ap (λ x. c ∷ x) (rest ∙ ap (λ n. take n (b ∷ l)) one)
          ∙ ap (λ n. take n (c ∷ b ∷ l)) (sym two),
    )
