-- ===== src/Bitmap/Range.antt =====
-- kernel/lib/bitmap.c, the operations on ranges of bits. `range_loop` is the loop of `bitmap_set` and
-- `bitmap_clear`, which differ in how they write a mask into a word; a round takes a unit of fuel, and
-- the first round takes at least one bit and each other round 64.
pub mod Round
pub mod Laws
pub mod Weight
use Prim.Native.Nat.{bit_and, bit_or}
use obelisk_os.Prelude.{
  ℕ, zero, suc, ◌+◌, ◌-◌, ◌/◌, ◌%◌, ◌^◌, List, [], ◌∷◌, ◌==◌, leb, if◌then◌else◌, set, get_or,
}
use obelisk_os.Word.Laws.{complement}
use obelisk_os.Bitmap.Bits.{bit_word}
use obelisk_os.Bitmap.Find.{high_mask}

pub range_loop : (ℕ → ℕ → ℕ) → ℕ → List ℕ → ℕ → ℕ → ℕ → ℕ → List ℕ
range_loop write zero map p nbits bits mask = map
range_loop write (suc fuel) map p nbits bits mask =
    let rest =
      range_loop write fuel (set map p (write (get_or map p 0) mask)) (p + 1) (nbits - bits) 64
        (2 ^ 64 - 1) in
    if leb bits nbits
    then rest
    else if nbits == 0
    then map
    else set map p (write (get_or map p 0) (bit_and mask (complement 64 (high_mask nbits))))

pub set_mask : ℕ → ℕ → ℕ
set_mask word mask = bit_or word mask

pub clear_mask : ℕ → ℕ → ℕ
clear_mask word mask = bit_and word (complement 64 mask)

pub bitmap_set : List ℕ → ℕ → ℕ → List ℕ
bitmap_set map start nbits =
    range_loop set_mask (nbits / 64 + 2) map (bit_word start) nbits (64 - start % 64)
      (high_mask (start % 64))

pub bitmap_clear : List ℕ → ℕ → ℕ → List ℕ
bitmap_clear map start nbits =
    range_loop clear_mask (nbits / 64 + 2) map (bit_word start) nbits (64 - start % 64)
      (high_mask (start % 64))

-- BITS_TO_LONGS
abbrev pub bits_to_longs : ℕ → ℕ
bits_to_longs bits = (bits + 63) / 64

-- The inner loop of `bitmap_weight`: `while (v)`, at most 64 rounds.
pub count_ones : ℕ → ℕ → ℕ
count_ones zero v = 0
count_ones (suc fuel) v =
    let rest = count_ones fuel (v / 2) in if v == 0 then 0 else bit_and v 1 + rest

pub weight_from : ℕ → List ℕ → ℕ → ℕ
weight_from zero bitmap k = 0
weight_from (suc left) bitmap k =
    count_ones 64 (get_or bitmap k 0) + weight_from left bitmap (k + 1)

pub bitmap_weight : List ℕ → ℕ → ℕ
unfolding count_ones weight_from
bitmap_weight bitmap bits = weight_from (bits_to_longs bits) bitmap 0

-- `memset` of whole words to bytes 0 and 0xFF.
fill_from : ℕ → ℕ → List ℕ → List ℕ
fill_from word zero bitmap = bitmap
fill_from word (suc left) [] = []
fill_from word (suc left) (w ∷ bitmap) = word ∷ fill_from word left bitmap

pub bitmap_zero : List ℕ → ℕ → List ℕ
unfolding fill_from
bitmap_zero bitmap bits = fill_from 0 (bits_to_longs bits) bitmap

pub bitmap_fill : List ℕ → ℕ → List ℕ
unfolding fill_from
bitmap_fill bitmap bits = fill_from (2 ^ 64 - 1) (bits_to_longs bits) bitmap
