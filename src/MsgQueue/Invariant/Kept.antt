-- ===== src/MsgQueue/Invariant/Kept.antt =====
-- Every call of kernel/ipc/msgqueue.c keeps the invariant.
use obelisk_os.MsgQueue.State.{Queues}
use obelisk_os.MsgQueue.Invariant.{TableInv, Reachable}
use obelisk_os.MsgQueue.Invariant.Directory.{create-TableInv, destroy-TableInv, init-TableInv}
use obelisk_os.MsgQueue.Invariant.Transfer.{send-TableInv, recv-TableInv}

-- In every state that calls reach, from boot on: the table has its 256 slots, no two queues share a
-- key other than 0, and every queue counts its messages and its bytes rightly, holds at most 256
-- messages, and none of them is larger than 8192 bytes.
pub Reachable-TableInv : (s : Queues) → Reachable s → TableInv s
Reachable-TableInv _ Reachable.at_boot = init-TableInv
Reachable-TableInv _ (Reachable.create {s = s} r current memory key mode) =
    create-TableInv current memory key mode s (Reachable-TableInv s r)
Reachable-TableInv _ (Reachable.destroy {s = s} r qid) =
    destroy-TableInv qid s (Reachable-TableInv s r)
Reachable-TableInv _ (Reachable.send {s = s} r current memory ticks qid bytes size kind whole) =
    send-TableInv current memory ticks qid bytes size kind s (Reachable-TableInv s r) whole
Reachable-TableInv _ (Reachable.recv {s = s} r ticks qid size kind flags) =
    recv-TableInv ticks qid size kind flags s (Reachable-TableInv s r)
