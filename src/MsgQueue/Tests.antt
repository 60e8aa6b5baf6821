-- ===== src/MsgQueue/Tests.antt =====
-- Runs of kernel/ipc/msgqueue.c from boot on, and the theorems at them.
use obelisk_os.Prelude.{
  ℕ, ◌≡◌, refl, arith, pos, List, [], ◌∷◌, Option, some, true, take, inr, Result, ok, err, Errno,
  Bool, ◌≤◌,
}
use Errno.{einval}
use obelisk_os.MsgQueue.State.{IpcMessage, IpcQueue, Queues, Caller, queue_of, msg_except}
use obelisk_os.MsgQueue.Table.{
  msgqueue_create, msgqueue_destroy, msgqueue_init, has_key, find_key, find_slot, key_taken,
  new_queue, insert_queue,
}
use obelisk_os.MsgQueue.Message.{
  msgqueue_send, msgqueue_recv, put_queue, store_left, send_to, recv_from, new_message,
  append_message, take_first, wanted,
}
use obelisk_os.MsgQueue.Message.First.{NonePass}
use obelisk_os.MsgQueue.Message.Outcome.{Received}
use obelisk_os.MsgQueue.Invariant.{TableInv, Reachable}
use obelisk_os.MsgQueue.Invariant.Kept.{Reachable-TableInv}
use obelisk_os.MsgQueue.Api.Directory.{use-destroy}
use obelisk_os.MsgQueue.Api.Transfer.{msgqueue_recv_lem, recv-send, recv_except}

abbrev root_task : Option Caller
root_task = some record { uid = 0; gid = 0; pid = 1 }

-- One queue, with key 7, in slot 0.
abbrev one_queue : Queues
one_queue = (msgqueue_create root_task true 7 0x1b6 msgqueue_init).1

one_queue-Reachable : Reachable one_queue
one_queue-Reachable = Reachable.create Reachable.at_boot root_task true 7 0x1b6

Reachable-TableInv_example : TableInv one_queue
Reachable-TableInv_example = Reachable-TableInv one_queue one_queue-Reachable

abbrev empty_queue : IpcQueue
empty_queue = new_queue 1 root_task 7 0x1b6

created : msgqueue_create root_task true 7 0x1b6 msgqueue_init ≡ (ok 0, one_queue)
unfolding msgqueue_create msgqueue_init find_slot find_key key_taken
created = refl

found_queue : queue_of (pos 0) one_queue ≡ some empty_queue
unfolding msgqueue_create msgqueue_init find_slot find_key has_key key_taken insert_queue queue_of
found_queue = refl

-- The four bytes of one message, and what is left of them.
abbrev note : List ℕ
note = 1 ∷ 2 ∷ 3 ∷ 4 ∷ []

abbrev with_note : Queues
with_note = (msgqueue_send root_task true 10 (pos 0) note 4 9 one_queue).1

sent_note : msgqueue_send root_task true 10 (pos 0) note 4 9 one_queue ≡ (ok 0, with_note)
unfolding msgqueue_send msgqueue_create msgqueue_init find_slot find_key has_key key_taken
    insert_queue queue_of new_queue send_to
sent_note = refl

received_note : (msgqueue_recv 11 (pos 0) 16 0 0 with_note).0 ≡ ok (4, note)
unfolding msgqueue_send msgqueue_recv msgqueue_create msgqueue_init find_slot find_key has_key
    key_taken insert_queue queue_of new_queue send_to append_message new_message recv_from
    take_first wanted
received_note = refl

use-destroy_example :
    let t = (msgqueue_destroy (pos 0) one_queue).1 in
    ((current : Option Caller) (memory : Bool) (ticks : ℕ) (bytes : List ℕ) (size kind : ℕ)
      → msgqueue_send current memory ticks (pos 0) bytes size kind t ≡ (err einval, t))
    × ((ticks size kind flags : ℕ)
        → msgqueue_recv ticks (pos 0) size kind flags t ≡ (err einval, t))
    × (msgqueue_destroy (pos 0) t ≡ (err einval, t))
use-destroy_example =
    use-destroy (pos 0) one_queue (Reachable-TableInv one_queue one_queue-Reachable)

abbrev one_queue-TableInv : TableInv one_queue
one_queue-TableInv = Reachable-TableInv one_queue one_queue-Reachable

msgqueue_recv_lem_example :
    (r : Result ((ℕ × List ℕ) × IpcQueue)) × Received 16 0 0 empty_queue r
    × (msgqueue_recv 11 (pos 0) 16 0 0 one_queue ≡ store_left one_queue (pos 0) r)
msgqueue_recv_lem_example =
    msgqueue_recv_lem 11 (pos 0) 16 0 0 one_queue empty_queue one_queue-TableInv found_queue

none_queued : NonePass (wanted 9 0) empty_queue.messages
unfolding new_queue
none_queued = NonePass.at_end

recv-send_example :
    (left : IpcQueue) × (msgqueue_recv 11 (pos 0) 16 9 0 with_note
      ≡ (ok (4, take 4 note), put_queue with_note (pos 0) left))
    × (left.messages ≡ empty_queue.messages)
recv-send_example =
    recv-send root_task true 10 11 (pos 0) note 4 9 16 9 0 one_queue with_note empty_queue
      one_queue-TableInv found_queue (omega arith) sent_note (inr refl) (omega arith) none_queued

abbrev noted : IpcMessage
noted = new_message root_task 10 note 4 9

abbrev noted_queue : IpcQueue
noted_queue = append_message empty_queue noted 4

found_noted : queue_of (pos 0) with_note ≡ some noted_queue
unfolding msgqueue_send msgqueue_create msgqueue_init find_slot find_key has_key key_taken
    insert_queue queue_of new_queue send_to
found_noted = refl

noted_first : noted_queue.messages ≡ noted ∷ []
unfolding append_message new_queue
noted_first = refl

four : noted.size ≤ 16
unfolding new_message
four = omega arith

-- The message has kind 9, which the receiver excludes.
recv_except_example :
    (msgqueue_recv 11 (pos 0) 16 9 msg_except with_note).0
    ≡ ok (noted.size, take noted.size noted.payload)
recv_except_example =
    recv_except 11 (pos 0) 16 9 msg_except with_note noted_queue noted [] found_noted noted_first
      refl four
