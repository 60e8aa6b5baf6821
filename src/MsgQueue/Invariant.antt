-- ===== src/MsgQueue/Invariant.antt =====
-- What the calls of kernel/ipc/msgqueue.c keep, in every state that they can reach.
pub mod Slots
pub mod Directory
pub mod Transfer
pub mod Kept
use obelisk_os.Prelude.{
  ℕ, ◌≤◌, ◌<◌, ◌≡◌, ◌≢◌, ℤ, List, Option, none, some, Bool, true, false, length, Result,
}
use obelisk_os.MsgQueue.State.{IpcQueue, Queues, Caller, max_queues}
use obelisk_os.MsgQueue.Table.{msgqueue_create, msgqueue_destroy, msgqueue_init}
use obelisk_os.MsgQueue.Table.Laws.{Holds}
use obelisk_os.MsgQueue.Message.{msgqueue_send, msgqueue_recv}
use obelisk_os.MsgQueue.Message.Accounts.{QueueInv}

-- The table keeps its size, the accounts of every queue are right, and no two queues share a key but 0.
pub record TableInv (s : Queues) : Type 0 where
  pub slots : length s.queue_table ≡ max_queues
  pub accounts : (i : ℕ) (q : IpcQueue) → Holds s.queue_table i q → QueueInv q
  pub unique :
      (i j : ℕ) (q r : IpcQueue)
      → Holds s.queue_table i q
      → Holds s.queue_table j r
      → q.key ≡ r.key
      → q.key ≢ 0
      → i ≡ j

-- The states that calls reach, whoever makes them and whether memory is found or not. The buffer of a
-- sender holds the bytes that it says.
pub data Reachable : Queues → Type 0 where
  at_boot : Reachable msgqueue_init
  create :
      {s : Queues}
      → Reachable s
      → (current : Option Caller) (memory : Bool) (key mode : ℕ)
      → Reachable (msgqueue_create current memory key mode s).1
  destroy : {s : Queues} → Reachable s → (qid : ℤ) → Reachable (msgqueue_destroy qid s).1
  send :
      {s : Queues}
      → Reachable s
      → (current : Option Caller) (memory : Bool) (ticks : ℕ) (qid : ℤ) (bytes : List ℕ)
        (size kind : ℕ)
      → size ≤ length bytes
      → Reachable (msgqueue_send current memory ticks qid bytes size kind s).1
  recv :
      {s : Queues}
      → Reachable s
      → (ticks : ℕ) (qid : ℤ) (size kind flags : ℕ)
      → Reachable (msgqueue_recv ticks qid size kind flags s).1
