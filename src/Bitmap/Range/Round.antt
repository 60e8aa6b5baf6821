-- ===== src/Bitmap/Range/Round.antt =====
-- One round of the loop of `bitmap_set` and `bitmap_clear` of kernel/lib/bitmap.c, and the masks it writes.
use Prim.Native.Nat.{bit_and}
use native.Mathlib.Nat.{one-le-pow}
use obelisk_os.Prelude.{
  ℕ, suc, ◌+◌, ◌-◌, ◌^◌, ◌<◌, ◌≡◌, arith, List, Bool, true, false, ◌&&◌, ◌==◌, leb, ltb,
  if◌then◌else◌, set, get_or,
}
use obelisk_os.Word.{bit, bit_le, bit_or-bit, bit_and-bit}
use obelisk_os.Word.Laws.{complement, bit-complement, bit-high_mask}
use obelisk_os.Bitmap.Find.{high_mask}
use obelisk_os.Bitmap.Range.{range_loop, set_mask, clear_mask}

-- `m` is one of the `n` bits from `lo` on.
abbrev pub within : ℕ → ℕ → ℕ → Bool
within lo n m = leb lo m && ltb m (lo + n)

-- How many of the `nbits` bits are written. A range that ends inside its first word, and does not
-- begin at the start of it, loses as many bits as its offset in the word.
abbrev pub covered : ℕ → ℕ → ℕ
covered offset nbits = if ltb (offset + nbits) 64 then nbits - offset else nbits

-- Writing a mask gives digit `x` where the mask has a 1.
abbrev pub Writes : (ℕ → ℕ → ℕ) → ℕ → Type 0
Writes write x =
    (word mask j : ℕ)
    → mask < 2 ^ 64
    → j < 64
    → bit (write word mask) j ≡ (if bit mask j == 1 then x else bit word j)

pub set_mask-Writes : Writes set_mask 1
unfolding set_mask
set_mask-Writes word mask j small h =
    ground (arith, bit_or-bit word mask j, bit_le mask j, bit_le word j)

pub clear_mask-Writes : Writes clear_mask 0
unfolding clear_mask
clear_mask-Writes word mask j small h = ground (
  arith,
  bit_and-bit word (complement 64 mask) j,
  bit-complement 64 mask j small h,
  bit_le mask j,
  bit_le word j,
)

-- The mask of digits `[k, n)`, as the code makes it.
pub tail_mask :
    (k n j : ℕ)
    → k < 64
    → n < 64
    → j < 64
    → bit (bit_and (high_mask k) (complement 64 (high_mask n))) j
      ≡ (if leb k j && ltb j n then 1 else 0)
tail_mask k n j p q r = ground (
  arith,
  bit_and-bit (high_mask k) (complement 64 (high_mask n)) j,
  bit-complement 64 (high_mask n) j (omega (arith, one-le-pow n 2)) r,
  bit-high_mask 64 k j (omega arith) r,
  bit-high_mask 64 n j (omega arith) r,
)

-- One round of the loop, as equations.
pub round_more :
    (write : ℕ → ℕ → ℕ) (fuel : ℕ) (map : List ℕ) (p nbits bits mask : ℕ)
    → leb bits nbits ≡ true
    → range_loop write (suc fuel) map p nbits bits mask
      ≡ range_loop write fuel
          (set map p (write (get_or map p 0) mask))
          (p + 1)
          (nbits - bits)
          64
          (high_mask 0)
unfolding range_loop
round_more write fuel map p nbits bits mask e = rw e

pub round_last :
    (write : ℕ → ℕ → ℕ) (fuel : ℕ) (map : List ℕ) (p nbits bits mask : ℕ)
    → leb bits nbits ≡ false
    → range_loop write (suc fuel) map p nbits bits mask ≡ (
        if nbits == 0
        then map
        else set map p (write (get_or map p 0) (bit_and mask (complement 64 (high_mask nbits)))))
unfolding range_loop
round_last write fuel map p nbits bits mask e = rw e
