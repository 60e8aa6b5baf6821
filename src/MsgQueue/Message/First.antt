-- ===== src/MsgQueue/Message/First.antt =====
-- The search of `msgqueue_recv` in kernel/ipc/msgqueue.c.
use obelisk_os.Prelude.{
  ◌≡◌, refl, ap, List, [], ◌∷◌, ◌++◌, Option, none, some, Bool, true, false, inl, inr, Bool-cases,
}
use obelisk_os.MsgQueue.State.{IpcMessage}
use obelisk_os.MsgQueue.Message.{take_first}

-- No message of the list passes the test.
pub data NonePass (test : IpcMessage → Bool) : List IpcMessage → Type 0 where
  at_end : NonePass test []
  later :
      {m : IpcMessage} {ms : List IpcMessage}
      → test m ≡ false
      → NonePass test ms
      → NonePass test (m ∷ ms)

-- The first message that passes, taken out of the list, or no message at all.
pub data Took (test : IpcMessage → Bool) (ms : List IpcMessage)
    : Option (IpcMessage × List IpcMessage) → Type 0 where
  nothing : NonePass test ms → Took test ms none
  taken :
      (before : List IpcMessage) (m : IpcMessage) (after : List IpcMessage)
      → ms ≡ before ++ (m ∷ after)
      → NonePass test before
      → test m ≡ true
      → Took test ms (some (m, before ++ after))

skip :
    (test : IpcMessage → Bool) (m : IpcMessage) (ms : List IpcMessage)
    (r : Option (IpcMessage × List IpcMessage))
    → test m ≡ false
    → Took test ms r
    → Took test (m ∷ ms) (elim r [ none ↦ none | some r ↦ some (r.0, m ∷ r.1) ])
skip test m ms _ e (Took.nothing n) = Took.nothing (NonePass.later e n)
skip test m ms _ e (Took.taken before x after eq n t) =
    Took.taken (m ∷ before) x after (ap (λ l. m ∷ l) eq) (NonePass.later e n) t

pub take_first-Took :
    (test : IpcMessage → Bool) (ms : List IpcMessage) → Took test ms (take_first test ms)
unfolding take_first
take_first-Took test [] = Took.nothing NonePass.at_end
take_first-Took test (m ∷ ms) = elim (Bool-cases (test m)) [
  | inl t ↦ rw t (Took.taken [] m ms refl NonePass.at_end t)
  | inr f ↦ rw f (skip test m ms (take_first test ms) f (take_first-Took test ms))
]

-- If nothing passes in `before`, a message behind it that passes is taken.
pub take_first-append :
    (test : IpcMessage → Bool) (before : List IpcMessage) (m : IpcMessage) (after : List IpcMessage)
    → NonePass test before
    → test m ≡ true
    → take_first test (before ++ (m ∷ after)) ≡ some (m, before ++ after)
unfolding take_first
take_first-append test [] m after n t = rw t refl
take_first-append test (x ∷ before) m after (NonePass.later f n) t =
    rw (f, take_first-append test before m after n t) refl
