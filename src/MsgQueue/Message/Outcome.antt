-- ===== src/MsgQueue/Message/Outcome.antt =====
-- `msgqueue_send` and `msgqueue_recv` of kernel/ipc/msgqueue.c on one queue, branch by branch.
use obelisk_os.Prelude.{
  ℕ, ◌≤◌, ◌<◌, ◌≡◌, refl, ap, arith, List, [], ◌∷◌, ◌++◌, Option, none, some, Bool, true, false,
  not, inl, inr, min, ltb, leb, ltb→lt, ltb→le, Bool-cases, take, length, length-append,
  length-take, Result, ok, err, Errno, if◌then◌else◌, ◌&&◌,
}
use Errno.{emsgsize, eagain, enomem, e2big}
use obelisk_os.MsgQueue.State.{IpcMessage, IpcQueue, Caller, has_flag, msg_noerror}
use obelisk_os.MsgQueue.Message.{
  send_to, recv_from, wanted, take_first, new_message, append_message, remove_message,
}
use obelisk_os.MsgQueue.Message.First.{NonePass, Took, take_first-Took, take_first-append}
use obelisk_os.MsgQueue.Message.Accounts.{
  QueueInv, AllSized, total_size, total_size_le, total_size-append, total_size_one, total_size_none,
  AllSized-append, AllSized-remove, removed_counts,
}

-- What comes of sending the first `size` bytes.
pub data Sent (bytes : List ℕ) (size kind : ℕ) (q : IpcQueue) : Result IpcQueue → Type 0 where
  too_big : 8192 < size → Sent bytes size kind q (err emsgsize)
  full : size ≤ 8192 → length q.messages ≡ 256 → Sent bytes size kind q (err eagain)
  no_memory : size ≤ 8192 → length q.messages < 256 → Sent bytes size kind q (err enomem)
  queued :
      (m : IpcMessage) (sent : IpcQueue)
      → size ≤ 8192
      → length q.messages < 256
      → m.kind ≡ kind
      → m.size ≡ size
      → m.payload ≡ take size bytes
      → sent.messages ≡ q.messages ++ (m ∷ [])
      → sent.key ≡ q.key
      → QueueInv sent
      → Sent bytes size kind q (ok sent)

module _ (current : Option Caller) (ticks : ℕ) (bytes : List ℕ) (size kind : ℕ) (q : IpcQueue)
    (v : QueueInv q) where
  abbrev message : IpcMessage
  message = new_message current ticks bytes size kind

  appended :
      size ≤ 8192
      → length q.messages < 256
      → size ≤ length bytes
      → QueueInv (append_message q message size)
  unfolding append_message new_message
  appended small room whole = record {
    most = v.most;
    largest = v.largest;
    counted = omega (arith, v.counted, length-append q.messages (message ∷ []));
    bytes = omega (
      arith,
      v.bytes,
      total_size_le q.messages v.all_sized,
      total_size-append q.messages (message ∷ []),
      total_size_one message [],
      total_size_none,
    );
    bounded = omega (arith, length-append q.messages (message ∷ []));
    all_sized = AllSized-append q.messages v.all_sized (
        AllSized.sized (omega arith) (omega (arith, length-take size bytes whole)) AllSized.at_end);
  }

  -- For a queue with right accounts and a buffer that holds `size` bytes.
  pub send_to-Sent :
      size ≤ length bytes
      → (memory : Bool) → Sent bytes size kind q (send_to current memory ticks bytes size kind q)
  unfolding send_to new_message append_message
  send_to-Sent whole memory = elim (Bool-cases (ltb q.max_message_size size)) [
    | inl big ↦ rw big (Sent.too_big (omega (arith, ltb→lt _ _ big, v.largest)))
    | inr fits ↦ rw fits (elim (Bool-cases (leb q.max_messages q.current_messages)) [
      | inl no_room ↦
          rw no_room (Sent.full (omega (arith, ltb→le _ _ fits, v.largest)) (full_count no_room))
      | inr room ↦
          rw room (allocated memory (omega (arith, ltb→le _ _ fits, v.largest)) (room_count room))
    ])
  ]
    where
      full_count : leb q.max_messages q.current_messages ≡ true → length q.messages ≡ 256
      full_count h = ground (arith, v.most, v.counted, v.bounded)

      room_count : leb q.max_messages q.current_messages ≡ false → length q.messages < 256
      room_count h = ground (arith, v.most, v.counted, v.bounded)

      allocated :
          (memory : Bool)
          → size ≤ 8192
          → length q.messages < 256
          → Sent bytes size kind q
              (if not memory then err enomem else ok (append_message q message size))
      allocated false small room = Sent.no_memory small room
      allocated true small room =
          Sent.queued message (append_message q message size) small room refl (omega arith) refl
            refl refl (appended small room whole)

-- What comes of receiving into a buffer of `size` bytes.
pub data Received (size kind flags : ℕ) (q : IpcQueue)
    : Result ((ℕ × List ℕ) × IpcQueue) → Type 0 where
  no_message : NonePass (wanted kind flags) q.messages → Received size kind flags q (err eagain)
  too_long :
      (before : List IpcMessage) (m : IpcMessage) (after : List IpcMessage)
      → q.messages ≡ before ++ (m ∷ after)
      → NonePass (wanted kind flags) before
      → wanted kind flags m ≡ true
      → size < m.size
      → has_flag flags msg_noerror ≡ false
      → Received size kind flags q (err e2big)
  received :
      (before : List IpcMessage) (m : IpcMessage) (after : List IpcMessage) (left : IpcQueue)
      → q.messages ≡ before ++ (m ∷ after)
      → NonePass (wanted kind flags) before
      → wanted kind flags m ≡ true
      → (size < m.size → has_flag flags msg_noerror ≡ true)
      → left.messages ≡ before ++ after
      → left.key ≡ q.key
      → QueueInv left
      → Received size kind flags q (ok ((min size m.size, take (min size m.size) m.payload), left))

module _ (ticks size kind flags : ℕ) (q : IpcQueue) (v : QueueInv q) where
  removed :
      (before : List IpcMessage) (m : IpcMessage) (after : List IpcMessage)
      → q.messages ≡ before ++ (m ∷ after)
      → QueueInv (remove_message q ticks m (before ++ after))
  unfolding remove_message
  removed before m after eq =
      let c = removed_counts before m after in
      let sized : AllSized (before ++ (m ∷ after)) = rw eq at v.all_sized in
      let count : length q.messages ≡ length (before ++ (m ∷ after)) = ap length eq in
      let total : total_size q.messages ≡ total_size (before ++ (m ∷ after)) = ap total_size eq in
      record {
        most = v.most;
        largest = v.largest;
        counted = omega (arith, v.counted, v.bounded);
        bytes = omega (arith, v.bytes, v.bounded, total_size_le (before ++ (m ∷ after)) sized);
        bounded = omega (arith, v.bounded);
        all_sized = AllSized-remove before m after sized;
      }

  -- For a queue with right accounts.
  pub recv_from-Received : Received size kind flags q (recv_from ticks size kind flags q)
  unfolding recv_from remove_message
  recv_from-Received =
      go (take_first (wanted kind flags) q.messages)
        (take_first-Took (wanted kind flags) q.messages)
    where
      go :
          (r : Option (IpcMessage × List IpcMessage))
          → Took (wanted kind flags) q.messages r
          → Received size kind flags q (elim r [
            | none ↦ err eagain
            | some r ↦
                let copy_size = min size r.0.size in
                if ltb copy_size r.0.size && not (has_flag flags msg_noerror)
                then err e2big
                else ok ((copy_size, take copy_size r.0.payload), remove_message q ticks r.0 r.1)
          ])
      go none (Took.nothing n) = Received.no_message n
      go (some r) (Took.taken before m after eq n t) =
          elim (Bool-cases (ltb (min size m.size) m.size && not (has_flag flags msg_noerror))) [
            | inl long ↦
                rw long (Received.too_long before m after eq n t (ground arith) (ground arith))
            | inr short ↦ rw short (
                Received.received before m after (remove_message q ticks m (before ++ after)) eq n t
                  (λ less. ground arith) refl refl (removed before m after eq))
          ]

-- The queue and what it returns when the message behind `before` is the first that passes, and fits.
pub recv_from-append :
    (ticks size kind flags : ℕ) (q : IpcQueue) (before : List IpcMessage) (m : IpcMessage)
    (after : List IpcMessage)
    → q.messages ≡ before ++ (m ∷ after)
    → NonePass (wanted kind flags) before
    → wanted kind flags m ≡ true
    → m.size ≤ size
    → (left : IpcQueue) × (recv_from ticks size kind flags q
        ≡ ok ((m.size, take m.size m.payload), left))
      × (left.messages ≡ before ++ after)
unfolding recv_from remove_message
recv_from-append ticks size kind flags q before m after eq n t fits =
    (remove_message q ticks m (before ++ after), rw (look, recv_from, fitting, whole) refl, refl)
  where
    look : take_first (wanted kind flags) q.messages ≡ some (m, before ++ after)
    look = rw eq (take_first-append (wanted kind flags) before m after n t)

    fitting : min size m.size ≡ m.size
    fitting = omega arith

    whole : ltb m.size m.size ≡ false
    whole = ground arith
