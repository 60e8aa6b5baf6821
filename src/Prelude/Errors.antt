-- ===== src/Prelude/Errors.antt =====
-- The kernel's return convention: a value, or a negated code of kernel/include/obelisk/errno.h.
use Prim.Native.Nat.{ℕ}

pub data Errno : Type 0 where
  enoent e2big ebadf eagain enomem eacces efault ebusy eexist einval emfile enospc emsgsize : Errno

-- The number that the C code returns with its sign turned.
abbrev pub errno_code : Errno → ℕ
errno_code enoent = 2
errno_code e2big = 7
errno_code ebadf = 9
errno_code eagain = 11
errno_code enomem = 12
errno_code eacces = 13
errno_code efault = 14
errno_code ebusy = 16
errno_code eexist = 17
errno_code einval = 22
errno_code emfile = 24
errno_code enospc = 28
errno_code emsgsize = 90

pub data Result {ℓ} (A : Type ℓ) : Type ℓ where
  ok : A → Result A
  err : Errno → Result A
