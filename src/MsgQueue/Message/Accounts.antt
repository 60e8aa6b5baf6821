-- ===== src/MsgQueue/Message/Accounts.antt =====
-- The accounts of one queue of kernel/ipc/msgqueue.c, and how appending and removing change them.
use obelisk_os.Prelude.{
  ℕ, ◌+◌, ◌*◌, ◌≤◌, ◌≡◌, refl, arith, List, [], ◌∷◌, ◌++◌, length, length-append,
}
use obelisk_os.MsgQueue.State.{IpcMessage, IpcQueue}

pub total_size : List IpcMessage → ℕ
total_size [] = 0
total_size (m ∷ ms) = m.size + total_size ms

-- Every message is within the limit and holds as many bytes as it says.
pub data AllSized : List IpcMessage → Type 0 where
  at_end : AllSized []
  sized :
      {m : IpcMessage} {ms : List IpcMessage}
      → m.size ≤ 8192
      → length m.payload ≡ m.size
      → AllSized ms
      → AllSized (m ∷ ms)

pub record QueueInv (q : IpcQueue) : Type 0 where
  pub most : q.max_messages ≡ 256
  pub largest : q.max_message_size ≡ 8192
  pub counted : q.current_messages ≡ length q.messages
  pub bytes : q.current_bytes ≡ total_size q.messages
  pub bounded : length q.messages ≤ 256
  pub all_sized : AllSized q.messages

pub total_size_le : (ms : List IpcMessage) → AllSized ms → total_size ms ≤ 8192 * length ms
unfolding total_size
total_size_le [] a = omega arith
total_size_le (m ∷ ms) (AllSized.sized small exact a) = omega (arith, total_size_le ms a)

pub total_size-append :
    (xs ys : List IpcMessage) → total_size (xs ++ ys) ≡ total_size xs + total_size ys
unfolding total_size
total_size-append [] ys = omega arith
total_size-append (x ∷ xs) ys = omega (arith, total_size-append xs ys)

pub total_size_one :
    (m : IpcMessage) (ms : List IpcMessage) → total_size (m ∷ ms) ≡ m.size + total_size ms
unfolding total_size
total_size_one m ms = refl

pub total_size_none : total_size [] ≡ 0
unfolding total_size
total_size_none = refl

pub AllSized-append :
    (xs : List IpcMessage) {ys : List IpcMessage} → AllSized xs → AllSized ys → AllSized (xs ++ ys)
AllSized-append [] a b = b
AllSized-append (x ∷ xs) (AllSized.sized s e a) b = AllSized.sized s e (AllSized-append xs a b)

pub AllSized-remove :
    (xs : List IpcMessage) (m : IpcMessage) (ys : List IpcMessage)
    → AllSized (xs ++ (m ∷ ys))
    → AllSized (xs ++ ys)
AllSized-remove [] m ys (AllSized.sized s e a) = a
AllSized-remove (x ∷ xs) m ys (AllSized.sized s e a) =
    AllSized.sized s e (AllSized-remove xs m ys a)

-- Taking one message out of the middle.
pub removed_counts :
    (xs : List IpcMessage) (m : IpcMessage) (ys : List IpcMessage)
    → (length (xs ++ (m ∷ ys)) ≡ length (xs ++ ys) + 1)
      × (total_size (xs ++ (m ∷ ys)) ≡ total_size (xs ++ ys) + m.size)
removed_counts xs m ys = omega (
  arith,
  length-append xs (m ∷ ys),
  length-append xs ys,
  total_size-append xs (m ∷ ys),
  total_size-append xs ys,
  total_size_one m ys,
)
