-- ===== src/MsgQueue/Invariant/Slots.antt =====
-- The slots of the queue table of kernel/ipc/msgqueue.c: what a queue's number stands for, and how a slot
-- reads after a write.
use obelisk_os.Prelude.{
  ℕ, ◌<◌, ◌≡◌, ◌≢◌, ap, ◌∙◌, arith, ℤ, pos, negsuc, List, Option, none, some, ◌==◌, inl, inr, ◌⊎◌,
  set, get_or, length, get_or-set_self, get_or-set_ne, Bool-cases,
}
use obelisk_os.MsgQueue.State.{IpcQueue, Queues, max_queues, queue_of, slot}
use obelisk_os.MsgQueue.Table.Laws.{Holds}

-- What a queue's number that passes the checks stands for.
pub queue_of_lem :
    (qid : ℤ) (s : Queues) (q : IpcQueue)
    → queue_of qid s ≡ some q
    → (slot qid < max_queues) × Holds s.queue_table (slot qid) q
unfolding queue_of
queue_of_lem (pos i) s q h = ground arith
queue_of_lem (negsuc n) s q h = absurd (ground arith)

-- Slot `j` after slot `i` was written.
pub set_slot :
    (os : List (Option IpcQueue)) (i j : ℕ) (o : Option IpcQueue)
    → i < length os
    → ((j ≡ i) × (get_or (set os i o) j none ≡ o))
      ⊎ ((j ≢ i) × (get_or (set os i o) j none ≡ get_or os j none))
set_slot os i j o h = elim (Bool-cases (j == i)) [
  | inl e ↦
      let same : j ≡ i = ground arith in
      inl (same, ap (λ k. get_or (set os i o) k none) same ∙ get_or-set_self os i o none h)
  | inr e ↦ inr (ground arith, get_or-set_ne os i j o none (ground arith))
]
