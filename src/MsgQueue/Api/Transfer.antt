-- ===== src/MsgQueue/Api/Transfer.antt =====
-- Sending to a queue and receiving from it: what the calls of kernel/ipc/msgqueue.c promise together.
use obelisk_os.Prelude.{
  ℕ, ◌≤◌, ◌≡◌, ◌≢◌, refl, sym, ap, ◌∙◌, arith, ℤ, pos, negsuc, List, [], ◌∷◌, Option, none, some,
  Bool, true, ◌⊎◌, take, take-take, append_nil, length, get_or-set_self, get_or-set_ne, Result, ok,
  err,
}
use obelisk_os.MsgQueue.State.{
  IpcMessage, IpcQueue, Queues, Caller, queue_of, slot, has_flag, msg_except,
}
use obelisk_os.MsgQueue.Message.{
  msgqueue_send, msgqueue_recv, put_queue, store_sent, store_left, send_to, recv_from, wanted,
}
use obelisk_os.MsgQueue.Message.First.{NonePass}
use obelisk_os.MsgQueue.Message.Outcome.{
  Sent, Received, send_to-Sent, recv_from-Received, recv_from-append,
}
use obelisk_os.MsgQueue.Invariant.{TableInv}
use obelisk_os.MsgQueue.Invariant.Slots.{queue_of_lem}

-- In a state with right accounts, for a valid queue and a buffer that holds `size` bytes,
-- `msgqueue_send` gives EMSGSIZE for more than 8192 bytes, EAGAIN for a queue of 256 messages, ENOMEM
-- only without memory, each with no change, and otherwise stores the queue with one more message at its
-- end, which has the kind, the size and the first `size` bytes given.
pub msgqueue_send_lem :
    (current : Option Caller) (memory : Bool) (ticks : ℕ) (qid : ℤ) (bytes : List ℕ) (size kind : ℕ)
    (s : Queues) (q : IpcQueue)
    → TableInv s
    → queue_of qid s ≡ some q
    → size ≤ length bytes
    → (r : Result IpcQueue) × Sent bytes size kind q r
      × (msgqueue_send current memory ticks qid bytes size kind s ≡ store_sent s qid r)
unfolding msgqueue_send
msgqueue_send_lem current memory ticks qid bytes size kind s q v e whole = (
  send_to current memory ticks bytes size kind q,
  send_to-Sent current ticks bytes size kind q (v.accounts (slot qid) q (queue_of_lem qid s q e).1)
      whole memory,
  rw (e, msgqueue_send) refl,
)

-- In a state with right accounts and for a valid queue, `msgqueue_recv` gives EAGAIN if no message
-- passes its test; otherwise it looks at the first that does, and gives E2BIG and changes nothing if
-- that one is too long for the buffer and MSG_NOERROR is not set, or else returns as much of it as
-- fits and stores the queue without it, the order of the other messages kept.
pub msgqueue_recv_lem :
    (ticks : ℕ) (qid : ℤ) (size kind flags : ℕ) (s : Queues) (q : IpcQueue)
    → TableInv s
    → queue_of qid s ≡ some q
    → (r : Result ((ℕ × List ℕ) × IpcQueue)) × Received size kind flags q r
      × (msgqueue_recv ticks qid size kind flags s ≡ store_left s qid r)
unfolding msgqueue_recv
msgqueue_recv_lem ticks qid size kind flags s q v e = (
  recv_from ticks size kind flags q,
  recv_from-Received ticks size kind flags q (v.accounts (slot qid) q (queue_of_lem qid s q e).1),
  rw (e, msgqueue_recv) refl,
)

-- A write to one slot of the table, read at the same number.
queue_of-put_queue :
    (qid : ℤ) (s : Queues) (q new : IpcQueue)
    → TableInv s
    → queue_of qid s ≡ some q
    → queue_of qid (put_queue s qid new) ≡ some new
unfolding queue_of
queue_of-put_queue (pos i) s q new v e =
    ground
      (arith, v.slots, queue_of_lem (pos i) s q e, get_or-set_self s.queue_table i (some new) none)
queue_of-put_queue (negsuc n) s q new v e = absurd (ground arith)

queue_of-other :
    (qid other : ℤ) (s : Queues) (new : IpcQueue)
    → slot other ≢ slot qid
    → queue_of other (put_queue s qid new) ≡ queue_of other s
unfolding queue_of
queue_of-other qid (pos i) s new apart =
    rw (get_or-set_ne s.queue_table (slot qid) i (some new) none (λ same. apart (sym same))) refl
queue_of-other qid (negsuc n) s new apart = refl

-- The test of `msgqueue_recv` passes a message of the kind that is asked for, and any message for 0.
wanted_lem :
    (kind flags : ℕ) (m : IpcMessage) → (kind ≡ 0) ⊎ (kind ≡ m.kind) → wanted kind flags m ≡ true
unfolding wanted
wanted_lem kind flags m h = ground arith

wanted_except :
    (kind flags : ℕ) (m : IpcMessage)
    → has_flag flags msg_except ≡ true
    → wanted kind flags m ≡ true
unfolding wanted
wanted_except kind flags m h = ground arith

-- What was sent is received: in a state with right accounts, where `msgqueue_send` of `size` bytes of a
-- kind succeeds, a following `msgqueue_recv` that asks for this kind or for 0, with a buffer of at
-- least `size` bytes, gives those bytes, if no message that was queued before passes its test; after
-- it the queue holds the messages that it held before both.
pub recv-send :
    (current : Option Caller) (memory : Bool) (ticks later : ℕ) (qid : ℤ) (bytes : List ℕ)
    (size kind : ℕ) (room want flags : ℕ) (s t : Queues) (q : IpcQueue)
    → TableInv s
    → queue_of qid s ≡ some q
    → size ≤ length bytes
    → msgqueue_send current memory ticks qid bytes size kind s ≡ (ok 0, t)
    → (want ≡ 0) ⊎ (want ≡ kind)
    → size ≤ room
    → NonePass (wanted want flags) q.messages
    → (left : IpcQueue) × (msgqueue_recv later qid room want flags t
        ≡ (ok (size, take size bytes), put_queue t qid left))
      × (left.messages ≡ q.messages)
unfolding msgqueue_recv
recv-send current memory ticks later qid bytes size kind room want flags s t q v e whole sent asked
      fits n =
    let o = msgqueue_send_lem current memory ticks qid bytes size kind s q v e whole in
    go o.0 o.1 (sym o.2 ∙ sent)
  where
    go :
        (r : Result IpcQueue)
        → Sent bytes size kind q r
        → store_sent s qid r ≡ (ok 0, t)
        → (left : IpcQueue) × (msgqueue_recv later qid room want flags t
            ≡ (ok (size, take size bytes), put_queue t qid left))
          × (left.messages ≡ q.messages)
    go _ (Sent.too_big big) stored = absurd (ground arith)
    go _ (Sent.full small no_room) stored = absurd (ground arith)
    go _ (Sent.no_memory small free) stored = absurd (ground arith)
    go _ (Sent.queued m new small free k z b ms key accounts) stored =
        let now : put_queue s qid new ≡ t = ap (λ (x : Result ℕ × Queues). x.1) stored in
        let there : queue_of qid t ≡ some new = rw (sym now) (queue_of-put_queue qid s q new v e) in
        let taken =
          recv_from-append later room want flags new q.messages m [] ms n
            (wanted_lem want flags m (ground arith)) (omega (arith, z)) in
        let payload : take m.size m.payload ≡ take size bytes = rw (z, b) (take-take size bytes) in
        let call : msgqueue_recv later qid room want flags t
            ≡ store_left t qid (recv_from later room want flags new) =
          rw (there, msgqueue_recv) refl in
        (
          taken.0,
          call
              ∙ ap (store_left t qid) taken.1
              ∙ (λ i. (ok (z i, payload i), put_queue t qid taken.0)),
          taken.2 ∙ append_nil q.messages,
        )

-- A receiver that sets MSG_EXCEPT takes the oldest message, of whatever kind: for a valid queue that
-- holds `m` first and a buffer that holds it, `msgqueue_recv` with MSG_EXCEPT returns `m`, also where it
-- asks for every kind except that of `m`.
pub recv_except :
    (ticks : ℕ) (qid : ℤ) (size kind flags : ℕ) (s : Queues) (q : IpcQueue) (m : IpcMessage)
    (ms : List IpcMessage)
    → queue_of qid s ≡ some q
    → q.messages ≡ m ∷ ms
    → has_flag flags msg_except ≡ true
    → m.size ≤ size
    → (msgqueue_recv ticks qid size kind flags s).0 ≡ ok (m.size, take m.size m.payload)
unfolding msgqueue_recv
recv_except ticks qid size kind flags s q m ms e eq except fits =
    let taken =
      recv_from-append ticks size kind flags q [] m ms eq NonePass.at_end (passes kind) fits in
    rw (e, msgqueue_recv) (ap (λ r. (store_left s qid r).0) taken.1)
  where
    passes : (kind : ℕ) → wanted kind flags m ≡ true
    passes kind = wanted_except kind flags m except

-- Sending to one queue and receiving from it leave every queue with another number as it is, in a state
-- with right accounts.
pub transfer_apart :
    (qid other : ℤ) (s : Queues) (q : IpcQueue)
    → TableInv s
    → queue_of qid s ≡ some q
    → slot other ≢ slot qid
    → ((current : Option Caller) (memory : Bool) (ticks : ℕ) (bytes : List ℕ) (size kind : ℕ)
        → queue_of other (msgqueue_send current memory ticks qid bytes size kind s).1
          ≡ queue_of other s)
      × ((ticks size kind flags : ℕ)
          → queue_of other (msgqueue_recv ticks qid size kind flags s).1 ≡ queue_of other s)
unfolding msgqueue_send msgqueue_recv
transfer_apart qid other s q v e apart = (
  λ current memory ticks bytes size kind.
      rw (e, msgqueue_send) (sent (send_to current memory ticks bytes size kind q)),
  λ ticks size kind flags. rw (e, msgqueue_recv) (left (recv_from ticks size kind flags q)),
)
  where
    sent : (r : Result IpcQueue) → queue_of other (store_sent s qid r).1 ≡ queue_of other s
    sent (err c) = refl
    sent (ok new) = queue_of-other qid other s new apart

    left :
        (r : Result ((ℕ × List ℕ) × IpcQueue))
        → queue_of other (store_left s qid r).1 ≡ queue_of other s
    left (err c) = refl
    left (ok r) = queue_of-other qid other s r.1 apart
