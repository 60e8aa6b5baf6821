-- ===== src/Files/Buffer.antt =====
-- kernel/fs/file.c: `simple_read_from_buffer` and `simple_write_to_buffer`. A position is a `loff_t`;
-- sizes are below 2^63, as the casts of the code need.
pub mod Laws
use obelisk_os.Prelude.{
  ℕ, ◌+◌, ◌-◌, ℤ, pos, negsuc, List, ◌++◌, leb, ltb, if◌then◌else◌, take, drop, [], Result, ok, err,
  Errno,
}
use Errno.{einval, enospc}

-- `if (count > available - pos) count = available - pos;`
abbrev pub clamp : ℕ → ℕ → ℕ → ℕ
clamp count available p = if ltb (available - p) count then available - p else count

-- The result is the count, the bytes written to the caller, and the new position.
unfoldable pub simple_read_from_buffer : ℕ → ℤ → List ℕ → ℕ → Result (ℕ × List ℕ × ℕ)
simple_read_from_buffer count (negsuc n) from available = err einval
simple_read_from_buffer count (pos p) from available =
    if leb available p
    then ok (0, [], p)
    else (let n = clamp count available p in ok (n, take n (drop p from), p + n))

-- The result is the count, the buffer, and the new position.
unfoldable pub simple_write_to_buffer : List ℕ → ℕ → ℤ → List ℕ → ℕ → Result (ℕ × List ℕ × ℕ)
simple_write_to_buffer to available (negsuc n) from count = err einval
simple_write_to_buffer to available (pos p) from count =
    if leb available p
    then err enospc
    else (let n = clamp count available p in
        ok (n, take p to ++ (take n from ++ drop (p + n) to), p + n))
