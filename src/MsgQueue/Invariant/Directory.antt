-- ===== src/MsgQueue/Invariant/Directory.antt =====
-- msgqueue_create, msgqueue_destroy and msgqueue_init of kernel/ipc/msgqueue.c keep the invariant.
use mathlib.Core.Path.{subst}
use mathlib.Core.Option.{some-injective}
use obelisk_os.Prelude.{
  ℕ, ◌+◌, ◌<◌, ◌≡◌, ◌≢◌, refl, sym, ap, ◌∙◌, arith, ℤ, Option, none, some, Bool, true, false, not,
  ◌==◌, ◌&&◌, inl, inr, ◌⊎◌, if◌then◌else◌, set, length, length-set, length-replicate,
  get_or-replicate, Result, ok, err, Errno, Bool-cases, Option-cases,
}
use obelisk_os.MsgQueue.State.{IpcQueue, Queues, Caller, max_queues, queue_of, slot}
use obelisk_os.MsgQueue.Table.{
  msgqueue_create, msgqueue_destroy, msgqueue_init, find_key, find_slot, key_taken, new_queue,
  insert_queue,
}
use obelisk_os.MsgQueue.Table.Laws.{Holds, FoundKey, FoundSlot, find_key_lem, find_slot_lem}
use obelisk_os.MsgQueue.Message.Accounts.{QueueInv, AllSized, total_size_none}
use obelisk_os.MsgQueue.Invariant.{TableInv}
use obelisk_os.MsgQueue.Invariant.Slots.{queue_of_lem, set_slot}

-- A slot that is emptied.
pub destroy-TableInv : (qid : ℤ) (s : Queues) → TableInv s → TableInv (msgqueue_destroy qid s).1
unfolding msgqueue_destroy
destroy-TableInv qid s v = elim (Option-cases (queue_of qid s)) [
  | inl none_there ↦ rw (none_there, msgqueue_destroy) v
  | inr found ↦
      rw (found.1, msgqueue_destroy) (emptied found.0 (queue_of_lem qid s found.0 found.1).0)
]
  where
    kept :
        (i : ℕ) (q : IpcQueue)
        → slot qid < max_queues
        → Holds (set s.queue_table (slot qid) none) i q
        → Holds s.queue_table i q
    kept i q p h = elim (set_slot s.queue_table (slot qid) i none (omega (arith, v.slots))) [
      | inl e ↦ absurd (ground (arith, e.1, h))
      | inr e ↦ sym e.1 ∙ h
    ]

    emptied :
        (q : IpcQueue)
        → slot qid < max_queues
        → TableInv (record s { queue_table = set s.queue_table (slot qid) none })
    emptied q p = record {
      slots = length-set s.queue_table (slot qid) none ∙ v.slots;
      accounts = λ i r h. v.accounts i r (kept i r p h);
      unique = λ i j a b ha hb. v.unique i j a b (kept i a p ha) (kept j b p hb);
    }

new_queue-QueueInv :
    (id : ℕ) (current : Option Caller) (key mode : ℕ) → QueueInv (new_queue id current key mode)
unfolding new_queue
new_queue-QueueInv id current key mode = record {
  most = refl;
  largest = refl;
  counted = refl;
  bytes = sym total_size_none;
  bounded = omega arith;
  all_sized = AllSized.at_end;
}

pub key-new_queue :
    (id : ℕ) (current : Option Caller) (key mode : ℕ) → (new_queue id current key mode).key ≡ key
unfolding new_queue
key-new_queue id current key mode = refl

pub init-TableInv : TableInv msgqueue_init
unfolding msgqueue_init
init-TableInv = record {
  slots = length-replicate {A = Option IpcQueue} max_queues none;
  accounts =
      λ i q h. absurd (ground (arith, h, get_or-replicate {A = Option IpcQueue} max_queues i none));
  unique = λ i j q r hq.
      absurd (ground (arith, hq, get_or-replicate {A = Option IpcQueue} max_queues i none));
}

-- A key that is not taken is 0 or no queue's.
pub key_free :
    (s : Queues) (key i : ℕ) (q : IpcQueue)
    → key_taken s key ≡ false
    → Holds s.queue_table i q
    → q.key ≡ key
    → key ≡ 0
unfolding key_taken
key_free s key i q free h e =
    go (find_key s.queue_table key 0) (find_key_lem s.queue_table key 0) free
  where
    go :
        (r : Option ℕ)
        → FoundKey s.queue_table key 0 r
        → not (key == 0) && elim r [ none ↦ false | some i ↦ true ] ≡ false
        → key ≡ 0
    go none (FoundKey.no_key n) f = absurd (n i q h e)
    go _ (FoundKey.key_at j r k same least) f = ground arith

insert_queue-TableInv :
    (s : Queues) (current : Option Caller) (qid key mode : ℕ)
    → TableInv s
    → key_taken s key ≡ false
    → qid < length s.queue_table
    → TableInv (insert_queue s current qid key mode)
unfolding insert_queue
insert_queue-TableInv s current qid key mode v free p = record {
  slots = length-set s.queue_table qid (some new) ∙ v.slots;
  accounts = λ i r h. elim (set_slot s.queue_table qid i (some new) p) [
    | inl e ↦
        subst QueueInv (some-injective _ _ (sym e.1 ∙ h))
          (new_queue-QueueInv s.next_queue_id current key mode)
    | inr e ↦ v.accounts i r (sym e.1 ∙ h)
  ];
  unique = λ i j a b ha hb same nonzero. apart i j a b (old i a ha) (old j b hb) same nonzero;
}
  where
    new : IpcQueue
    new = new_queue s.next_queue_id current key mode

    old :
        (i : ℕ) (r : IpcQueue)
        → Holds (set s.queue_table qid (some new)) i r
        → ((i ≡ qid) × (r.key ≡ key)) ⊎ Holds s.queue_table i r
    old i r h = elim (set_slot s.queue_table qid i (some new) p) [
      | inl e ↦ inl (
        e.0,
        sym (ap (λ (x : IpcQueue). x.key) (some-injective _ _ (sym e.1 ∙ h)))
            ∙ key-new_queue s.next_queue_id current key mode,
      )
      | inr e ↦ inr (sym e.1 ∙ h)
    ]

    apart :
        (i j : ℕ) (a b : IpcQueue)
        → ((i ≡ qid) × (a.key ≡ key)) ⊎ Holds s.queue_table i a
        → ((j ≡ qid) × (b.key ≡ key)) ⊎ Holds s.queue_table j b
        → a.key ≡ b.key
        → a.key ≢ 0
        → i ≡ j
    apart i j a b (inl e) (inl f) same nonzero = e.0 ∙ sym f.0
    apart i j a b (inl e) (inr h) same nonzero =
        absurd (nonzero (e.1 ∙ key_free s key j b free h (sym same ∙ e.1)))
    apart i j a b (inr h) (inl f) same nonzero =
        absurd (nonzero (same ∙ f.1 ∙ key_free s key i a free h (same ∙ f.1)))
    apart i j a b (inr g) (inr h) same nonzero = v.unique i j a b g h same nonzero

pub create-TableInv :
    (current : Option Caller) (memory : Bool) (key mode : ℕ) (s : Queues)
    → TableInv s
    → TableInv (msgqueue_create current memory key mode s).1
unfolding msgqueue_create
create-TableInv current memory key mode s v = elim (Bool-cases (key_taken s key)) [
  | inl t ↦ rw t v
  | inr free ↦ rw free (go memory (find_slot s.queue_table 0) (find_slot_lem s.queue_table 0) free)
]
  where
    go :
        (memory : Bool) (r : Option ℕ)
        → FoundSlot s.queue_table 0 r
        → key_taken s key ≡ false
        → TableInv
            (elim r as (λ _. Result ℕ × Queues) [
              | none ↦ (err Errno.enospc, s)
              | some qid ↦
                  if memory
                  then (ok qid, insert_queue s current qid key mode)
                  else (err Errno.enomem, s)
            ]).1
    go memory none f free = v
    go false (some i) f free = v
    go true _ (FoundSlot.slot_at j p e) free =
        insert_queue-TableInv s current (0 + j) key mode v free (omega arith)
