-- ===== src/MsgQueue/Table/Laws.antt =====
-- The loops of kernel/ipc/msgqueue.c over its table.
use obelisk_os.Prelude.{
  ℕ, zero, suc, ◌+◌, ◌<◌, ◌≡◌, ◌≢◌, refl, ap, arith, List, [], ◌∷◌, Option, none, some, true, false,
  ◌==◌, inl, inr, Bool-cases, get_or, length,
}
use obelisk_os.MsgQueue.State.{IpcQueue}
use obelisk_os.MsgQueue.Table.{has_key, find_key, find_slot}

-- Slot `j` of the table holds `q`.
abbrev pub Holds : List (Option IpcQueue) → ℕ → IpcQueue → Type 0
Holds os j q = get_or os j none ≡ some q

pub data FoundKey (os : List (Option IpcQueue)) (key i : ℕ) : Option ℕ → Type 0 where
  no_key : ((j : ℕ) (q : IpcQueue) → Holds os j q → q.key ≢ key) → FoundKey os key i none
  key_at :
      (j : ℕ) (q : IpcQueue)
      → Holds os j q
      → q.key ≡ key
      → ((k : ℕ) (r : IpcQueue) → k < j → Holds os k r → r.key ≢ key)
      → FoundKey os key i (some (i + j))

pub data FoundSlot (os : List (Option IpcQueue)) (i : ℕ) : Option ℕ → Type 0 where
  no_slot : ((j : ℕ) → j < length os → get_or os j none ≢ none) → FoundSlot os i none
  slot_at : (j : ℕ) → j < length os → get_or os j none ≡ none → FoundSlot os i (some (i + j))

has_key_lem : (key : ℕ) (q : IpcQueue) → has_key key (some q) ≡ (q.key == key)
unfolding has_key
has_key_lem key q = refl

has_key-none : (key : ℕ) → has_key key none ≡ false
unfolding has_key
has_key-none key = refl

find_key_step :
    (o : Option IpcQueue) (os : List (Option IpcQueue)) (key i : ℕ) (r : Option ℕ)
    → has_key key o ≡ false
    → FoundKey os key (i + 1) r
    → FoundKey (o ∷ os) key i r
find_key_step o os key i none f (FoundKey.no_key n) = FoundKey.no_key slots
  where
    slots : (j : ℕ) (q : IpcQueue) → Holds (o ∷ os) j q → q.key ≢ key
    slots zero q h = ground (arith, has_key_lem key q, f, h, ap (has_key key) h)
    slots (suc j) q h = n j q h
find_key_step o os key i _ f (FoundKey.key_at j q h e least) =
    rw at_i (FoundKey.key_at (suc j) q h e slots)
  where
    at_i : i + 1 + j ≡ i + suc j
    at_i = omega arith

    slots : (k : ℕ) (r : IpcQueue) → k < suc j → Holds (o ∷ os) k r → r.key ≢ key
    slots zero r p h = ground (arith, has_key_lem key r, f, h, ap (has_key key) h)
    slots (suc k) r p h = least k r (omega arith) h

pub find_key_lem : (os : List (Option IpcQueue)) (key i : ℕ) → FoundKey os key i (find_key os key i)
unfolding find_key
find_key_lem [] key i = FoundKey.no_key (λ j q h. ground arith)
find_key_lem (o ∷ os) key i = elim (Bool-cases (has_key key o)) [
  | inl t ↦ rw t (here o t)
  | inr f ↦
      rw f (find_key_step o os key i (find_key os key (i + 1)) f (find_key_lem os key (i + 1)))
]
  where
    here : (o : Option IpcQueue) → has_key key o ≡ true → FoundKey (o ∷ os) key i (some i)
    here none t = absurd (ground (arith, t, has_key-none key))
    here (some q) t =
        let start : i + 0 ≡ i = omega arith in
        let found : FoundKey (some q ∷ os) key i (some (i + 0)) =
          FoundKey.key_at 0 q refl (ground (arith, has_key_lem key q, t))
            (λ k r p h. absurd (omega arith)) in
        rw start at found

pub find_slot_lem : (os : List (Option IpcQueue)) (i : ℕ) → FoundSlot os i (find_slot os i)
unfolding find_slot
find_slot_lem [] i = FoundSlot.no_slot (λ j p. absurd (omega arith))
find_slot_lem (none ∷ os) i =
    let start : i + 0 ≡ i = omega arith in
    let found : FoundSlot (none ∷ os) i (some (i + 0)) = FoundSlot.slot_at 0 (omega arith) refl in
    rw start at found
find_slot_lem (some q ∷ os) i = go (find_slot os (i + 1)) (find_slot_lem os (i + 1))
  where
    next : (j : ℕ) → i + 1 + j ≡ i + suc j
    next j = omega arith

    taken :
        ((j : ℕ) → j < length os → get_or os j none ≢ none)
        → (j : ℕ) → j < length (some q ∷ os)
        → get_or (some q ∷ os) j none ≢ none
    taken n zero p e = ground (arith, e)
    taken n (suc j) p e = n j (omega arith) e

    go : (r : Option ℕ) → FoundSlot os (i + 1) r → FoundSlot (some q ∷ os) i r
    go none (FoundSlot.no_slot n) = FoundSlot.no_slot (taken n)
    go _ (FoundSlot.slot_at j p e) = rw (next j) (FoundSlot.slot_at (suc j) (omega arith) e)
