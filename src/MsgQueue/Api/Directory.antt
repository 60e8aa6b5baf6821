-- ===== src/MsgQueue/Api/Directory.antt =====
-- Creating, finding and destroying queues: what the calls of kernel/ipc/msgqueue.c promise together.
use obelisk_os.Prelude.{
  ℕ, ◌+◌, ◌<◌, ◌≡◌, ◌≢◌, refl, sym, ap, ◌∙◌, arith, ℤ, pos, negsuc, List, Option, none, some, Bool,
  true, false, inl, inr, if◌then◌else◌, set, get_or, length, get_or-set_self, Result, ok, err,
  Errno, Bool-cases, Option-cases, ==_ne,
}
use Errno.{eexist, einval}
use obelisk_os.MsgQueue.State.{IpcQueue, Queues, Caller, queue_of, slot}
use obelisk_os.MsgQueue.Table.{
  msgqueue_create, msgqueue_get, msgqueue_destroy, find_key, find_slot, key_taken, new_queue,
  insert_queue,
}
use obelisk_os.MsgQueue.Table.Laws.{FoundKey, FoundSlot, find_key_lem, find_slot_lem}
use obelisk_os.MsgQueue.Message.{msgqueue_send, msgqueue_recv}
use obelisk_os.MsgQueue.Invariant.{TableInv}
use obelisk_os.MsgQueue.Invariant.Slots.{queue_of_lem, set_slot}
use obelisk_os.MsgQueue.Invariant.Directory.{key_free, key-new_queue}

-- The queue with the new key is the new one.
get-insert_queue :
    (s : Queues) (current : Option Caller) (qid key mode : ℕ)
    → key ≢ 0
    → key_taken s key ≡ false
    → qid < length s.queue_table
    → find_key (insert_queue s current qid key mode).queue_table key 0 ≡ some qid
unfolding insert_queue
get-insert_queue s current qid key mode nonzero free p =
    go (find_key (set s.queue_table qid (some new)) key 0)
      (find_key_lem (set s.queue_table qid (some new)) key 0)
  where
    new : IpcQueue
    new = new_queue s.next_queue_id current key mode

    there : get_or (set s.queue_table qid (some new)) qid none ≡ some new
    there = get_or-set_self s.queue_table qid (some new) none p

    go : (r : Option ℕ) → FoundKey (set s.queue_table qid (some new)) key 0 r → r ≡ some qid
    go none (FoundKey.no_key n) =
        absurd (n qid new there (key-new_queue s.next_queue_id current key mode))
    go _ (FoundKey.key_at j q h e least) = elim (set_slot s.queue_table qid j (some new) p) [
      | inl same ↦ ap some (omega (arith, same.0))
      | inr other ↦ absurd (nonzero (key_free s key j q free (sym other.1 ∙ h) e))
    ]

-- A new queue takes a free slot, and its key was free.
record Created (s : Queues) (current : Option Caller) (key mode qid : ℕ) (t : Queues) : Type 0 where
  free : key_taken s key ≡ false
  slot_in : qid < length s.queue_table
  now : t ≡ insert_queue s current qid key mode

create-Created :
    (current : Option Caller) (memory : Bool) (key mode qid : ℕ) (s t : Queues)
    → msgqueue_create current memory key mode s ≡ (ok qid, t)
    → Created s current key mode qid t
unfolding msgqueue_create
create-Created current memory key mode qid s t made = elim (Bool-cases (key_taken s key)) [
  | inl taken ↦ absurd (ground (arith, made, taken))
  | inr free ↦
      go memory (find_slot s.queue_table 0) (find_slot_lem s.queue_table 0) free (rw free at made)
]
  where
    go :
        (memory : Bool) (r : Option ℕ)
        → FoundSlot s.queue_table 0 r
        → key_taken s key ≡ false
        → (elim r as (λ _. Result ℕ × Queues) [
          | none ↦ (err Errno.enospc, s)
          | some i ↦
              if memory then (ok i, insert_queue s current i key mode) else (err Errno.enomem, s)
        ])
          ≡ (ok qid, t)
        → Created s current key mode qid t
    go memory none f free e = absurd (ground arith)
    go false (some i) f free e = absurd (ground arith)
    go true _ (FoundSlot.slot_at j p n) free e =
        let same : 0 + j ≡ qid = ground arith in
        record {
          free = free;
          slot_in = omega arith;
          now =
              sym (ap (λ (r : Result ℕ × Queues). r.1) e)
              ∙ ap (λ i. insert_queue s current i key mode) same;
        }

-- After a successful `msgqueue_create` with a key other than 0, `msgqueue_get` finds the new queue by
-- its key, and creating another queue with the key gives EEXIST and changes nothing.
pub get-create :
    (current : Option Caller) (memory : Bool) (key mode qid : ℕ) (s t : Queues)
    → msgqueue_create current memory key mode s ≡ (ok qid, t)
    → key ≢ 0
    → (msgqueue_get key t ≡ ok qid)
      × ((other : Option Caller) (found : Bool) (mode2 : ℕ)
          → msgqueue_create other found key mode2 t ≡ (err eexist, t))
unfolding msgqueue_create msgqueue_get key_taken
get-create current memory key mode qid s t made nonzero =
    let c = create-Created current memory key mode qid s t made in
    let at_slot : find_key t.queue_table key 0 ≡ some qid =
      rw c.now (get-insert_queue s current qid key mode nonzero c.free c.slot_in) in
    (
      rw (at_slot, msgqueue_get) refl,
      λ other found mode2. rw (at_slot, msgqueue_create, key_taken, ==_ne key 0 nonzero) refl,
    )

-- The three calls with a number that is not valid.
use_invalid :
    (qid : ℤ) (t : Queues)
    → queue_of qid t ≡ none
    → ((current : Option Caller) (memory : Bool) (ticks : ℕ) (bytes : List ℕ) (size kind : ℕ)
        → msgqueue_send current memory ticks qid bytes size kind t ≡ (err einval, t))
      × ((ticks size kind flags : ℕ) → msgqueue_recv ticks qid size kind flags t ≡ (err einval, t))
      × (msgqueue_destroy qid t ≡ (err einval, t))
unfolding msgqueue_destroy msgqueue_send msgqueue_recv
use_invalid qid t e = (
  λ current memory ticks bytes size kind. rw (e, msgqueue_send) refl,
  λ ticks size kind flags. rw (e, msgqueue_recv) refl,
  rw (e, msgqueue_destroy) refl,
)

queue_of-empty_slot :
    (qid : ℤ) (s : Queues) → get_or s.queue_table (slot qid) none ≡ none → queue_of qid s ≡ none
unfolding queue_of
queue_of-empty_slot (pos i) s e = ground arith
queue_of-empty_slot (negsuc n) s e = refl

queue_of-destroy :
    (qid : ℤ) (s : Queues) → TableInv s → queue_of qid (msgqueue_destroy qid s).1 ≡ none
unfolding msgqueue_destroy
queue_of-destroy qid s v = elim (Option-cases (queue_of qid s)) [
  | inl e ↦ rw (e, msgqueue_destroy) e
  | inr e ↦
      rw (e.1, msgqueue_destroy)
        (queue_of-empty_slot qid (record s { queue_table = set s.queue_table (slot qid) none })
          (get_or-set_self s.queue_table (slot qid) none none
            (omega (arith, v.slots, (queue_of_lem qid s e.0 e.1).0))))
]

-- After `msgqueue_destroy`, in a state with right accounts, the queue's number is not valid: sending,
-- receiving and destroying give EINVAL and change nothing.
pub use-destroy :
    (qid : ℤ) (s : Queues)
    → TableInv s
    → let t = (msgqueue_destroy qid s).1 in
      ((current : Option Caller) (memory : Bool) (ticks : ℕ) (bytes : List ℕ) (size kind : ℕ)
        → msgqueue_send current memory ticks qid bytes size kind t ≡ (err einval, t))
      × ((ticks size kind flags : ℕ) → msgqueue_recv ticks qid size kind flags t ≡ (err einval, t))
      × (msgqueue_destroy qid t ≡ (err einval, t))
use-destroy qid s v = use_invalid qid (msgqueue_destroy qid s).1 (queue_of-destroy qid s v)
