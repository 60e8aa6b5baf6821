-- ===== src/MsgQueue/Table.antt =====
-- kernel/ipc/msgqueue.c: creating, finding and destroying queues.
pub mod Laws
use obelisk_os.Prelude.{
  ℕ, zero, suc, ◌+◌, ◌%◌, ◌^◌, ℤ, List, [], ◌∷◌, Option, none, some, Bool, true, false, not, ◌&&◌,
  ◌==◌, if◌then◌else◌, set, Result, ok, err, Errno, replicate,
}
use Errno.{eexist, enospc, enomem, enoent, einval}
use obelisk_os.MsgQueue.State.{IpcQueue, Queues, Caller, max_queues, queue_of, slot}

unfoldable pub has_key : ℕ → Option IpcQueue → Bool
has_key key none = false
has_key key (some q) = q.key == key

-- The loops over `queue_table` for a key and for a free slot, from slot `i` on.
unfoldable pub find_key : List (Option IpcQueue) → ℕ → ℕ → Option ℕ
unfolding has_key
find_key [] key i = none
find_key (o ∷ os) key i =
    let rest = find_key os key (i + 1) in if has_key key o then some i else rest

unfoldable pub find_slot : List (Option IpcQueue) → ℕ → Option ℕ
find_slot [] i = none
find_slot (none ∷ os) i = some i
find_slot (some q ∷ os) i = find_slot os (i + 1)

abbrev uid_of : Option Caller → ℕ
uid_of none = 0
uid_of (some c) = c.uid

abbrev gid_of : Option Caller → ℕ
gid_of none = 0
gid_of (some c) = c.gid

-- The fields that `msgqueue_create` fills in.
unfoldable pub new_queue : ℕ → Option Caller → ℕ → ℕ → IpcQueue
new_queue id current key mode = record {
  id = id;
  key = key;
  uid = uid_of current;
  gid = gid_of current;
  mode = mode;
  max_messages = 256;
  max_message_size = 8192;
  current_messages = 0;
  current_bytes = 0;
  messages = [];
  send_time = 0;
  recv_time = 0;
}

unfoldable pub insert_queue : Queues → Option Caller → ℕ → ℕ → ℕ → Queues
insert_queue s current qid key mode = record {
  queue_table = set s.queue_table qid (some (new_queue s.next_queue_id current key mode));
  next_queue_id = (s.next_queue_id + 1) % 2 ^ 32;
}

unfoldable pub key_taken : Queues → ℕ → Bool
unfolding find_key
key_taken s key =
    not (key == 0) && elim (find_key s.queue_table key 0) [ none ↦ false | some i ↦ true ]

-- `memory` says whether `kzalloc` finds room.
unfoldable pub msgqueue_create : Option Caller → Bool → ℕ → ℕ → Queues → Result ℕ × Queues
unfolding key_taken find_slot insert_queue
msgqueue_create current memory key mode s =
    if key_taken s key then (err eexist, s) else elim (find_slot s.queue_table 0) [
      | none ↦ (err enospc, s)
      | some qid ↦ if memory then (ok qid, insert_queue s current qid key mode) else (err enomem, s)
    ]

unfoldable pub msgqueue_get : ℕ → Queues → Result ℕ
unfolding find_key
msgqueue_get key s = elim (find_key s.queue_table key 0) [ none ↦ err enoent | some i ↦ ok i ]

-- The messages are freed with their queue.
unfoldable pub msgqueue_destroy : ℤ → Queues → Result ℕ × Queues
msgqueue_destroy qid s = elim (queue_of qid s) [
  | none ↦ (err einval, s)
  | some q ↦ (ok 0, record s { queue_table = set s.queue_table (slot qid) none })
]

-- `memset` of the table; `next_queue_id` starts at 1.
unfoldable pub msgqueue_init : Queues
msgqueue_init = record { queue_table = replicate max_queues none; next_queue_id = 1 }
