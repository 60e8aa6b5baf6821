-- ===== src/Pmm/Bits.antt =====
-- kernel/mm/pmm.c, the static bitmap functions over `uint32_t` words. A bit that is set is a page in use.
use Prim.Native.Nat.{bit_and, bit_or}
use native.Mathlib.Nat.{one-le-pow}
use obelisk_os.Prelude.{
  ℕ, zero, suc, ◌+◌, ◌-◌, ◌*◌, ◌/◌, ◌%◌, ◌^◌, ◌<◌, ◌≡◌, Option, none, some, List, Bool, true, false,
  not, arith, ◌==◌, if◌then◌else◌, set, get_or, length, length-set,
}
use obelisk_os.Word.{bit_le}
use obelisk_os.Word.Laws.{complement, bit_and-pow}
use obelisk_os.Word.Array.{bit_at, or_bit, clear_bit}

unfoldable pub bitmap_set : List ℕ → ℕ → List ℕ
bitmap_set bitmap n = set bitmap (n / 32) (bit_or (get_or bitmap (n / 32) 0) (2 ^ (n % 32)))

unfoldable pub bitmap_clear : List ℕ → ℕ → List ℕ
bitmap_clear bitmap n =
    set bitmap (n / 32) (bit_and (get_or bitmap (n / 32) 0) (complement 32 (2 ^ (n % 32))))

unfoldable pub bitmap_test : List ℕ → ℕ → Bool
bitmap_test bitmap n = not (bit_and (get_or bitmap (n / 32) 0) (2 ^ (n % 32)) == 0)

-- `for (i = start; i < end; i++)`: `left` is how many `i` are still to come. The C functions return
-- the position as `int64_t`, and -1 where this is `none`.
unfoldable pub find_free_from : ℕ → List ℕ → ℕ → Option ℕ
find_free_from zero bitmap i = none
find_free_from (suc left) bitmap i =
    let rest = find_free_from left bitmap (i + 1) in
    if not (bitmap_test bitmap i) then some i else rest

unfoldable pub bitmap_find_free : List ℕ → ℕ → ℕ → Option ℕ
unfolding find_free_from
bitmap_find_free bitmap start end = find_free_from (end - start) bitmap start

unfoldable pub find_region_from : ℕ → List ℕ → ℕ → ℕ → ℕ → ℕ → Option ℕ
find_region_from zero bitmap i found_start found_count count = none
find_region_from (suc left) bitmap i found_start found_count count =
    let start = if found_count == 0 then i else found_start in
    let longer = find_region_from left bitmap (i + 1) start (found_count + 1) count in
    let again = find_region_from left bitmap (i + 1) found_start 0 count in
    if not (bitmap_test bitmap i)
    then (if found_count + 1 == count then some start else longer)
    else again

unfoldable pub bitmap_find_free_region : List ℕ → ℕ → ℕ → ℕ → Option ℕ
unfolding find_region_from
bitmap_find_free_region bitmap start end count =
    find_region_from (end - start) bitmap start 0 0 count

pub test_lem : (bitmap : List ℕ) (n : ℕ) → bitmap_test bitmap n ≡ (bit_at 32 bitmap n == 1)
unfolding bitmap_test
test_lem bitmap n = grind (
  arith,
  bit_and-pow (get_or bitmap (n / 32) 0) (n % 32),
  one-le-pow (n % 32) 2,
  bit_le (get_or bitmap (n / 32) 0) (n % 32),
)

pub test-set :
    (bitmap : List ℕ) (n m : ℕ)
    → n < 32 * length bitmap
    → bitmap_test (bitmap_set bitmap n) m ≡ (if n == m then true else bitmap_test bitmap m)
unfolding bitmap_set
test-set bitmap n m h = ground (
  arith,
  test_lem (bitmap_set bitmap n) m,
  test_lem bitmap m,
  or_bit 32 (omega arith) bitmap n m h,
)

pub test-clear :
    (bitmap : List ℕ) (n m : ℕ)
    → n < 32 * length bitmap
    → bitmap_test (bitmap_clear bitmap n) m ≡ (if n == m then false else bitmap_test bitmap m)
unfolding bitmap_clear
test-clear bitmap n m h = ground (
  arith,
  test_lem (bitmap_clear bitmap n) m,
  test_lem bitmap m,
  clear_bit 32 (omega arith) bitmap n m h,
)

pub length-bitmap_set : (bitmap : List ℕ) (n : ℕ) → length (bitmap_set bitmap n) ≡ length bitmap
unfolding bitmap_set
length-bitmap_set bitmap n = length-set bitmap (n / 32) _

pub length-bitmap_clear : (bitmap : List ℕ) (n : ℕ) → length (bitmap_clear bitmap n) ≡ length bitmap
unfolding bitmap_clear
length-bitmap_clear bitmap n = length-set bitmap (n / 32) _
