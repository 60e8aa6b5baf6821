-- ===== src/MsgQueue/Invariant/Transfer.antt =====
-- msgqueue_send and msgqueue_recv of kernel/ipc/msgqueue.c keep the invariant.
use mathlib.Core.Path.{subst}
use mathlib.Core.Option.{some-injective}
use obelisk_os.Prelude.{
  ℕ, ◌≤◌, ◌<◌, ◌≡◌, refl, sym, ap, ◌∙◌, arith, ℤ, List, Option, none, some, Bool, inl, inr, set,
  get_or, length, length-set, Result, Option-cases,
}
use obelisk_os.MsgQueue.State.{IpcQueue, Queues, Caller, max_queues, queue_of, slot}
use obelisk_os.MsgQueue.Table.Laws.{Holds}
use obelisk_os.MsgQueue.Message.{
  msgqueue_send, msgqueue_recv, put_queue, store_sent, store_left, send_to, recv_from,
}
use obelisk_os.MsgQueue.Message.Accounts.{QueueInv}
use obelisk_os.MsgQueue.Message.Outcome.{Sent, Received, send_to-Sent, recv_from-Received}
use obelisk_os.MsgQueue.Invariant.{TableInv}
use obelisk_os.MsgQueue.Invariant.Slots.{queue_of_lem, set_slot}

-- A queue of the same key in its place.
put_queue-TableInv :
    (s : Queues) (qid : ℤ) (q new : IpcQueue)
    → TableInv s
    → slot qid < max_queues
    → Holds s.queue_table (slot qid) q
    → new.key ≡ q.key
    → QueueInv new
    → TableInv (put_queue s qid new)
put_queue-TableInv s qid q new v p h key accounts = record {
  slots = length-set s.queue_table (slot qid) (some new) ∙ v.slots;
  accounts = λ i r holds.
      elim (set_slot s.queue_table (slot qid) i (some new) (omega (arith, v.slots))) [
        | inl e ↦ subst QueueInv (some-injective _ _ (sym e.1 ∙ holds)) accounts
        | inr e ↦ v.accounts i r (sym e.1 ∙ holds)
      ];
  unique = λ i j a b ha hb same nonzero.
      let x = old i a ha in
      let y = old j b hb in
      v.unique i j x.0 y.0 x.1 y.1 (omega (arith, x.2, y.2)) (omega (arith, x.2));
}
  where
    old :
        (i : ℕ) (r : IpcQueue)
        → Holds (set s.queue_table (slot qid) (some new)) i r
        → (a : IpcQueue) × Holds s.queue_table i a × (r.key ≡ a.key)
    old i r holds = elim (set_slot s.queue_table (slot qid) i (some new) (omega (arith, v.slots))) [
      | inl e ↦ (
        q,
        ap (λ k. get_or s.queue_table k none) e.0 ∙ h,
        sym (ap (λ (x : IpcQueue). x.key) (some-injective _ _ (sym e.1 ∙ holds))) ∙ key,
      )
      | inr e ↦ (r, sym e.1 ∙ holds, refl)
    ]

pub send-TableInv :
    (current : Option Caller) (memory : Bool) (ticks : ℕ) (qid : ℤ) (bytes : List ℕ) (size kind : ℕ)
    (s : Queues)
    → TableInv s
    → size ≤ length bytes
    → TableInv (msgqueue_send current memory ticks qid bytes size kind s).1
unfolding msgqueue_send
send-TableInv current memory ticks qid bytes size kind s v whole =
    elim (Option-cases (queue_of qid s)) [
      | inl none_there ↦ rw (none_there, msgqueue_send) v
      | inr found ↦
          rw (found.1, msgqueue_send)
            (go found.0 found.1 (send_to current memory ticks bytes size kind found.0) (
              send_to-Sent current ticks bytes size kind found.0 (inv found.0 found.1) whole
                memory))
    ]
  where
    inv : (q : IpcQueue) → queue_of qid s ≡ some q → QueueInv q
    inv q e = v.accounts (slot qid) q (queue_of_lem qid s q e).1

    go :
        (q : IpcQueue)
        → queue_of qid s ≡ some q
        → (r : Result IpcQueue) → Sent bytes size kind q r
        → TableInv (store_sent s qid r).1
    go q e _ (Sent.too_big big) = v
    go q e _ (Sent.full small room) = v
    go q e _ (Sent.no_memory small room) = v
    go q e _ (Sent.queued m sent small room k z b ms key accounts) =
        put_queue-TableInv s qid q sent v (queue_of_lem qid s q e).0 (queue_of_lem qid s q e).1 key
          accounts

pub recv-TableInv :
    (ticks : ℕ) (qid : ℤ) (size kind flags : ℕ) (s : Queues)
    → TableInv s
    → TableInv (msgqueue_recv ticks qid size kind flags s).1
unfolding msgqueue_recv
recv-TableInv ticks qid size kind flags s v = elim (Option-cases (queue_of qid s)) [
  | inl none_there ↦ rw (none_there, msgqueue_recv) v
  | inr found ↦
      rw (found.1, msgqueue_recv)
        (go found.0 found.1 (recv_from ticks size kind flags found.0)
          (recv_from-Received ticks size kind flags found.0 (inv found.0 found.1)))
]
  where
    inv : (q : IpcQueue) → queue_of qid s ≡ some q → QueueInv q
    inv q e = v.accounts (slot qid) q (queue_of_lem qid s q e).1

    go :
        (q : IpcQueue)
        → queue_of qid s ≡ some q
        → (r : Result ((ℕ × List ℕ) × IpcQueue)) → Received size kind flags q r
        → TableInv (store_left s qid r).1
    go q e _ (Received.no_message n) = v
    go q e _ (Received.too_long before m after eq n t long noerror) = v
    go q e _ (Received.received before m after left eq n t fits ms key accounts) =
        put_queue-TableInv s qid q left v (queue_of_lem qid s q e).0 (queue_of_lem qid s q e).1 key
          accounts
