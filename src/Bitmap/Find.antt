-- ===== src/Bitmap/Find.antt =====
-- kernel/lib/bitmap.c, the searches. A loop over words takes fuel, one unit a word; the callers give
-- one more than the number of words below `size`. `size` and `offset` are bit counts that leave room
-- for a word below 2^64, so no index wraps.
pub mod First
pub mod Loop
pub mod Laws
use Prim.Native.Nat.{bit_and}
use obelisk_os.Prelude.{
  ℕ, zero, suc, ◌+◌, ◌-◌, ◌*◌, ◌/◌, ◌%◌, ◌^◌, min, List, ◌==◌, ltb, leb, if◌then◌else◌, get_or,
}
use obelisk_os.Word.Laws.{complement}
use obelisk_os.Word.First.{builtin_ffs, builtin_clz}
use obelisk_os.Bitmap.Bits.{bit_word}

pub ffs : ℕ → ℕ
ffs x = if x == 0 then 0 else builtin_ffs 64 x

pub fls : ℕ → ℕ
fls x = if x == 0 then 0 else 64 - builtin_clz 64 x

-- The `- 1` is on `unsigned long`, and wraps where `~x` has no bit.
pub ffz : ℕ → ℕ
unfolding ffs
ffz x = (ffs (complement 64 x) + 2 ^ 64 - 1) % 2 ^ 64

first_bit_from : ℕ → ℕ → List ℕ → ℕ → ℕ
first_bit_from zero idx addr size = size
first_bit_from (suc fuel) idx addr size =
    let rest = first_bit_from fuel (idx + 1) addr size in
    let word = get_or addr idx 0 in
    if ltb (idx * 64) size
    then (if word == 0 then rest else min (idx * 64 + builtin_ffs 64 word - 1) size)
    else size

pub find_first_bit : List ℕ → ℕ → ℕ
find_first_bit addr size = first_bit_from (size / 64 + 1) 0 addr size

first_zero_from : ℕ → ℕ → List ℕ → ℕ → ℕ
first_zero_from zero idx addr size = size
first_zero_from (suc fuel) idx addr size =
    let rest = first_zero_from fuel (idx + 1) addr size in
    let word = get_or addr idx 0 in
    if ltb (idx * 64) size
    then (if complement 64 word == 0 then rest else min (idx * 64 + ffz word) size)
    else size

pub find_first_zero_bit : List ℕ → ℕ → ℕ
find_first_zero_bit addr size = first_zero_from (size / 64 + 1) 0 addr size

-- `~0UL << k`
abbrev pub high_mask : ℕ → ℕ
high_mask k = 2 ^ 64 - 2 ^ k

-- The loop that ends `find_next_bit` and `find_next_zero_bit`; `view` is the word itself or `~` of it.
pub next_from : (ℕ → ℕ) → ℕ → List ℕ → ℕ → ℕ → ℕ
next_from view zero addr size offset = size
next_from view (suc fuel) addr size offset =
    let rest = next_from view fuel addr size (offset + 64) in
    let tmp = view (get_or addr (bit_word offset) 0) in
    if ltb offset size
    then (if tmp == 0 then rest else min (offset + builtin_ffs 64 tmp - 1) size)
    else size

pub find_next : (ℕ → ℕ) → List ℕ → ℕ → ℕ → ℕ
unfolding next_from
find_next view addr size offset =
    let tmp = bit_and (view (get_or addr (bit_word offset) 0)) (high_mask (offset % 64)) in
    if leb size offset
    then size
    else if tmp == 0
    then next_from view (size / 64 + 1) addr size ((bit_word offset + 1) * 64)
    else min (bit_word offset * 64 + builtin_ffs 64 tmp - 1) size

pub find_next_bit : List ℕ → ℕ → ℕ → ℕ
unfolding find_next
find_next_bit addr size offset = find_next (λ word. word) addr size offset

pub find_next_zero_bit : List ℕ → ℕ → ℕ → ℕ
unfolding find_next
find_next_zero_bit addr size offset = find_next (complement 64) addr size offset
