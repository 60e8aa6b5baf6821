-- ===== src/Bitmap/Tests.antt =====
-- Runs of kernel/lib/bitmap.c on a map of two words, and the theorems at it.
use obelisk_os.Prelude.{ℕ, zero, suc, ◌≡◌, arith, List, [], ◌∷◌, false}
use obelisk_os.Bitmap.Bits.{test_bit}
use obelisk_os.Bitmap.Find.{find_next_zero_bit}
use obelisk_os.Bitmap.Find.Laws.{IsWords, Finds, find_next_zero_bit_lem}
use obelisk_os.Bitmap.Range.{bitmap_set, bitmap_clear}
use obelisk_os.Bitmap.Range.Laws.{range_misses_last}

abbrev map : List ℕ
map = 0xf0 ∷ 0x3 ∷ []

map-IsWords : IsWords map
map-IsWords zero = omega arith
map-IsWords (suc zero) = omega arith
map-IsWords (suc (suc i)) = omega arith

find_next_zero_bit_lem_example : Finds false map 5 100 (find_next_zero_bit map 100 5)
find_next_zero_bit_lem_example = find_next_zero_bit_lem map map-IsWords 100 5

range_misses_last_example :
    (test_bit 17 (bitmap_set map 10 8) ≡ test_bit 17 map)
    × (test_bit 17 (bitmap_clear map 10 8) ≡ test_bit 17 map)
range_misses_last_example =
    range_misses_last map 10 8 (omega arith) (omega arith) (omega arith) (omega arith)
