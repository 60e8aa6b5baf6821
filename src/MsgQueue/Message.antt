-- ===== src/MsgQueue/Message.antt =====
-- kernel/ipc/msgqueue.c: sending and receiving.
pub mod First
pub mod Accounts
pub mod Outcome
use obelisk_os.Prelude.{
  ℕ, ◌%◌, ◌^◌, ℤ, List, [], ◌∷◌, ◌++◌, Option, none, some, Bool, true, false, not, ◌&&◌, ◌||◌, ◌==◌,
  leb, ltb, min, if◌then◌else◌, set, take, Result, ok, err, Errno, add64, sub64,
}
use Errno.{einval, emsgsize, eagain, enomem, e2big}
use obelisk_os.MsgQueue.State.{
  IpcMessage, IpcQueue, Queues, Caller, msg_noerror, msg_except, has_flag, queue_of, slot,
}

abbrev pid_of : Option Caller → ℕ
pid_of none = 0
pid_of (some c) = c.pid

unfoldable pub new_message : Option Caller → ℕ → List ℕ → ℕ → ℕ → IpcMessage
new_message current ticks bytes size kind = record {
  kind = kind;
  size = size % 2 ^ 32;
  sender = pid_of current;
  flags = 0;
  timestamp = ticks;
  payload = take size bytes;
}

unfoldable pub append_message : IpcQueue → IpcMessage → ℕ → IpcQueue
append_message q msg size = record q {
  messages = q.messages ++ (msg ∷ []);
  current_messages = add64 q.current_messages 1;
  current_bytes = add64 q.current_bytes size;
  send_time = msg.timestamp;
}

-- A full queue gives EAGAIN with MSG_NOWAIT and without it.
unfoldable pub send_to : Option Caller → Bool → ℕ → List ℕ → ℕ → ℕ → IpcQueue → Result IpcQueue
unfolding new_message append_message
send_to current memory ticks bytes size kind q =
    if ltb q.max_message_size size
    then err emsgsize
    else if leb q.max_messages q.current_messages
    then err eagain
    else if not memory
    then err enomem
    else ok (append_message q (new_message current ticks bytes size kind) size)

abbrev pub put_queue : Queues → ℤ → IpcQueue → Queues
put_queue s qid q = record s { queue_table = set s.queue_table (slot qid) (some q) }

abbrev pub store_sent : Queues → ℤ → Result IpcQueue → Result ℕ × Queues
store_sent s qid (err e) = (err e, s)
store_sent s qid (ok sent) = (ok 0, put_queue s qid sent)

unfoldable pub msgqueue_send :
    Option Caller → Bool → ℕ → ℤ → List ℕ → ℕ → ℕ → Queues → Result ℕ × Queues
unfolding send_to
msgqueue_send current memory ticks qid bytes size kind s = elim (queue_of qid s) [
  | none ↦ (err einval, s)
  | some q ↦ store_sent s qid (send_to current memory ticks bytes size kind q)
]

-- The two conditions of the loop, in their order.
unfoldable pub wanted : ℕ → ℕ → IpcMessage → Bool
wanted kind flags m =
    if kind == 0 || m.kind == kind then true else has_flag flags msg_except && not (m.kind == kind)

-- The first message that passes the test, and the list without it.
unfoldable pub take_first :
    (IpcMessage → Bool) → List IpcMessage → Option (IpcMessage × List IpcMessage)
take_first test [] = none
take_first test (m ∷ ms) =
    let rest = take_first test ms in
    if test m then some (m, ms) else elim rest [ none ↦ none | some r ↦ some (r.0, m ∷ r.1) ]

unfoldable pub remove_message : IpcQueue → ℕ → IpcMessage → List IpcMessage → IpcQueue
remove_message q ticks msg left = record q {
  messages = left;
  current_messages = sub64 q.current_messages 1;
  current_bytes = sub64 q.current_bytes msg.size;
  recv_time = ticks;
}

-- The returned count and the bytes that are written to the caller's buffer.
unfoldable pub recv_from : ℕ → ℕ → ℕ → ℕ → IpcQueue → Result ((ℕ × List ℕ) × IpcQueue)
unfolding take_first wanted remove_message
recv_from ticks size kind flags q = elim (take_first (wanted kind flags) q.messages) [
  | none ↦ err eagain
  | some r ↦
      let copy_size = min size r.0.size in
      if ltb copy_size r.0.size && not (has_flag flags msg_noerror)
      then err e2big
      else ok ((copy_size, take copy_size r.0.payload), remove_message q ticks r.0 r.1)
]

abbrev pub store_left : Queues → ℤ → Result ((ℕ × List ℕ) × IpcQueue) → Result (ℕ × List ℕ) × Queues
store_left s qid (err e) = (err e, s)
store_left s qid (ok r) = (ok r.0, put_queue s qid r.1)

unfoldable pub msgqueue_recv : ℕ → ℤ → ℕ → ℕ → ℕ → Queues → Result (ℕ × List ℕ) × Queues
unfolding recv_from
msgqueue_recv ticks qid size kind flags s = elim (queue_of qid s) [
  | none ↦ (err einval, s)
  | some q ↦ store_left s qid (recv_from ticks size kind flags q)
]
