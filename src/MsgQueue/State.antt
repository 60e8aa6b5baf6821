-- ===== src/MsgQueue/State.antt =====
-- The data of kernel/ipc/msgqueue.c and kernel/ipc/include/ipc/msgqueue.h. The two wait queues, the
-- lock and the list links carry no state: the code never waits, and one call runs at a time.
use Prim.Native.Nat.{bit_and}
use obelisk_os.Prelude.{
  ℕ, ℤ, pos, negsuc, List, Option, none, Bool, not, ◌==◌, leb, if◌then◌else◌, get_or,
}

abbrev pub max_queues : ℕ
max_queues = 256

abbrev pub msg_noerror : ℕ
msg_noerror = 0x1000

abbrev pub msg_except : ℕ
msg_except = 0x4000

pub record IpcMessage : Type 0 where
  pub kind : ℕ
  pub size : ℕ
  pub sender : ℕ
  pub flags : ℕ
  pub timestamp : ℕ
  pub payload : List ℕ

pub record IpcQueue : Type 0 where
  pub id : ℕ
  pub key : ℕ
  pub uid : ℕ
  pub gid : ℕ
  pub mode : ℕ
  pub max_messages : ℕ
  pub max_message_size : ℕ
  pub current_messages : ℕ
  pub current_bytes : ℕ
  pub messages : List IpcMessage
  pub send_time : ℕ
  pub recv_time : ℕ

-- The globals of the file.
pub record Queues : Type 0 where
  pub queue_table : List (Option IpcQueue)
  pub next_queue_id : ℕ

-- What the code reads of `current`.
pub record Caller : Type 0 where
  pub uid : ℕ
  pub gid : ℕ
  pub pid : ℕ

-- `flags & f`
abbrev pub has_flag : ℕ → ℕ → Bool
has_flag flags f = not (bit_and flags f == 0)

-- The checks at the start of the calls that take a queue's number.
unfoldable pub queue_of : ℤ → Queues → Option IpcQueue
queue_of (negsuc n) s = none
queue_of (pos i) s = if leb max_queues i then none else get_or s.queue_table i none

abbrev pub slot : ℤ → ℕ
slot (pos i) = i
slot (negsuc n) = 0
