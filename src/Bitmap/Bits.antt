-- ===== src/Bitmap/Bits.antt =====
-- kernel/lib/bitmap.c, the operations on one bit. A bitmap is the list of its words; the kernel
-- never checks `nr`, and a word past the end reads as 0 here and is never written.
use Prim.Native.Nat.{bit_and, bit_or, bit_xor}
use native.Mathlib.Nat.{one-le-pow}
use obelisk_os.Prelude.{
  ℕ, ◌*◌, ◌/◌, ◌%◌, ◌^◌, ◌<◌, ◌≡◌, List, Bool, true, false, not, refl, ap, arith, ◌==◌,
  if◌then◌else◌, set, get_or, length,
}
use obelisk_os.Word.{bit_le}
use obelisk_os.Word.Laws.{complement, bit_and-pow}
use obelisk_os.Word.Array.{bit_at, or_bit, xor_bit}
use obelisk_os.Word.Array

-- BIT_WORD and BIT_MASK
abbrev pub bit_word : ℕ → ℕ
bit_word nr = nr / 64

abbrev pub bit_mask : ℕ → ℕ
bit_mask nr = 2 ^ (nr % 64)

-- The word that holds bit `nr`.
abbrev pub word_of : List ℕ → ℕ → ℕ
word_of addr nr = get_or addr (bit_word nr) 0

unfoldable pub set_bit : ℕ → List ℕ → List ℕ
set_bit nr addr = set addr (bit_word nr) (bit_or (word_of addr nr) (bit_mask nr))

unfoldable pub clear_bit : ℕ → List ℕ → List ℕ
clear_bit nr addr = set addr (bit_word nr) (bit_and (word_of addr nr) (complement 64 (bit_mask nr)))

unfoldable pub test_bit : ℕ → List ℕ → Bool
test_bit nr addr = not (bit_and (word_of addr nr) (bit_mask nr) == 0)

pub test_and_set_bit : ℕ → List ℕ → Bool × List ℕ
test_and_set_bit nr addr =
    let mask = bit_mask nr in
    let old = word_of addr nr in
    (not (bit_and old mask == 0), set addr (bit_word nr) (bit_or old mask))

pub test_and_clear_bit : ℕ → List ℕ → Bool × List ℕ
test_and_clear_bit nr addr =
    let mask = bit_mask nr in
    let old = word_of addr nr in
    (not (bit_and old mask == 0), set addr (bit_word nr) (bit_and old (complement 64 mask)))

unfoldable pub change_bit : ℕ → List ℕ → List ℕ
change_bit nr addr = set addr (bit_word nr) (bit_xor (word_of addr nr) (bit_mask nr))

-- `test_bit` reads the digit.
pub test_bit_lem : (nr : ℕ) (addr : List ℕ) → test_bit nr addr ≡ (bit_at 64 addr nr == 1)
unfolding test_bit
test_bit_lem nr addr = grind (
  arith,
  bit_and-pow (word_of addr nr) (nr % 64),
  one-le-pow (nr % 64) 2,
  bit_le (word_of addr nr) (nr % 64),
)

-- After `set_bit nr`, for `nr` in the array, bit `nr` is set and every other bit reads as before.
pub test_bit-set_bit :
    (nr m : ℕ) (addr : List ℕ)
    → nr < 64 * length addr
    → test_bit m (set_bit nr addr) ≡ (if nr == m then true else test_bit m addr)
unfolding set_bit
test_bit-set_bit nr m addr h = ground (
  arith,
  test_bit_lem m (set_bit nr addr),
  test_bit_lem m addr,
  or_bit 64 (omega arith) addr nr m h,
)

-- After `clear_bit nr`, for `nr` in the array, bit `nr` is clear and every other bit reads as before.
pub test_bit-clear_bit :
    (nr m : ℕ) (addr : List ℕ)
    → nr < 64 * length addr
    → test_bit m (clear_bit nr addr) ≡ (if nr == m then false else test_bit m addr)
unfolding clear_bit
test_bit-clear_bit nr m addr h = ground (
  arith,
  test_bit_lem m (clear_bit nr addr),
  test_bit_lem m addr,
  Array.clear_bit 64 (omega arith) addr nr m h,
)

-- After `change_bit nr`, for `nr` in the array, bit `nr` is the other value and every other bit reads as before.
pub test_bit-change_bit :
    (nr m : ℕ) (addr : List ℕ)
    → nr < 64 * length addr
    → test_bit m (change_bit nr addr) ≡ (if nr == m then not (test_bit m addr) else test_bit m addr)
unfolding change_bit
test_bit-change_bit nr m addr h = ground (
  arith,
  test_bit_lem m (change_bit nr addr),
  test_bit_lem m addr,
  xor_bit 64 (omega arith) addr nr m h,
  bit_le (word_of addr m) (m % 64),
  (λ (e : nr ≡ m). ap (bit_at 64 addr) e),
)

pub test_and_set_bit_lem :
    (nr : ℕ) (addr : List ℕ) → test_and_set_bit nr addr ≡ (test_bit nr addr, set_bit nr addr)
unfolding test_and_set_bit test_bit set_bit
test_and_set_bit_lem nr addr = refl

pub test_and_clear_bit_lem :
    (nr : ℕ) (addr : List ℕ) → test_and_clear_bit nr addr ≡ (test_bit nr addr, clear_bit nr addr)
unfolding test_and_clear_bit test_bit clear_bit
test_and_clear_bit_lem nr addr = refl
