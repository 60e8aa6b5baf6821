-- ===== src/Bitmap/Range/Laws.antt =====
-- Which bits `bitmap_set` and `bitmap_clear` of kernel/lib/bitmap.c write.
use Prim.Native.Nat.{bit_and}
use native.Mathlib.Nat.{one-le-pow}
use mathlib.Core.Logic.{◌⊎◌}
use native.Mathlib.Decide.{ℕ_discrete, dec_le}
use obelisk_os.Prelude.{
  ℕ, zero, suc, ◌+◌, ◌-◌, ◌*◌, ◌/◌, ◌%◌, ◌^◌, ◌≤◌, ◌<◌, ◌≡◌, ap, arith, List, true, false, ◌&&◌,
  ◌==◌, ltb, if◌then◌else◌, set, get_or, length, length-set, get_or-set_self, get_or-set_ne,
}
use obelisk_os.Word.{bit}
use obelisk_os.Word.Laws.{complement, bit-high_mask, bit_and_le}
use obelisk_os.Word.Array.{bit_at}
use obelisk_os.Bitmap.Bits.{test_bit, test_bit_lem}
use obelisk_os.Bitmap.Find.{high_mask}
use obelisk_os.Bitmap.Range.{range_loop, set_mask, clear_mask, bitmap_set, bitmap_clear}
use obelisk_os.Bitmap.Range.Round.{
  covered, within, Writes, set_mask-Writes, clear_mask-Writes, tail_mask, round_more, round_last,
}

module _ (write : ℕ → ℕ → ℕ) (x : ℕ) (writes : Writes write x) where
  write_at :
      (map : List ℕ) (p mask m : ℕ)
      → p < length map
      → mask < 2 ^ 64
      → bit_at 64 (set map p (write (get_or map p 0) mask)) m
        ≡ (if (p == (m / 64)) && (bit mask (m % 64) == 1) then x else bit_at 64 map m)
  write_at map p mask m h small = elim (ℕ_discrete p (m / 64)) [
    | yes e ↦ ground (
      arith,
      ap (λ (t : ℕ). get_or (set map p (write (get_or map p 0) mask)) t 0) e,
      ap (λ (t : ℕ). get_or map t 0) e,
      get_or-set_self map p (write (get_or map p 0) mask) 0 h,
      writes (get_or map p 0) mask (m % 64) small (omega arith),
    )
    | no ne ↦ ground (arith, get_or-set_ne map p (m / 64) (write (get_or map p 0) mask) 0 ne)
  ]

  -- The round that ends the loop, with digits `[k, n)` of word `p`.
  tail_round :
      (map : List ℕ) (p k n m : ℕ)
      → p < length map
      → k < 64
      → n < 64
      → bit_at 64
          (set map p (write (get_or map p 0) (bit_and (high_mask k) (complement 64 (high_mask n)))))
          m
        ≡ (if within (p * 64 + k) (n - k) m then x else bit_at 64 map m)
  tail_round map p k n m h hk hn = ground (
    arith,
    write_at map p (bit_and (high_mask k) (complement 64 (high_mask n))) m h
        (omega (arith, bit_and_le (high_mask k) (complement 64 (high_mask n)), one-le-pow k 2)),
    tail_mask k n (m % 64) hk hn (omega arith),
  )

  -- A round that fills word `p` from digit `k` on.
  full_round :
      (map : List ℕ) (p k m : ℕ)
      → p < length map
      → k < 64
      → bit_at 64 (set map p (write (get_or map p 0) (high_mask k))) m
        ≡ (if within (p * 64 + k) (64 - k) m then x else bit_at 64 map m)
  full_round map p k m h hk = ground (
    arith,
    write_at map p (high_mask k) m h (omega (arith, one-le-pow k 2)),
    bit-high_mask 64 k (m % 64) (omega arith) (omega arith),
  )

  -- The range `[lo, lo + n)` is its first `a` bits and the rest.
  within_join :
      (lo a n m y : ℕ)
      → a ≤ n
      → (if within (lo + a) (n - a) m then x else (if within lo a m then x else y))
        ≡ (if within lo n m then x else y)
  within_join lo a n m y h = ground arith

  more_round :
      (fuel : ℕ) (map : List ℕ) (p k nbits m : ℕ)
      → p < length map
      → k < 64
      → 64 - k ≤ nbits
      → bit_at 64
          (range_loop write fuel
            (set map p (write (get_or map p 0) (high_mask k)))
            (p + 1)
            (nbits - (64 - k))
            64
            (high_mask 0))
          m
        ≡ (if within ((p + 1) * 64 + 0) (nbits - (64 - k)) m
            then x
            else bit_at 64 (set map p (write (get_or map p 0) (high_mask k))) m)
      → bit_at 64 (range_loop write (suc fuel) map p nbits (64 - k) (high_mask k)) m
        ≡ (if within (p * 64 + k) nbits m then x else bit_at 64 map m)
  more_round fuel map p k nbits m hp hk hn ih =
      rw
        (
          round_more write fuel map p nbits (64 - k) (high_mask k) (ground arith),
          ih,
          full_round map p k m hp hk,
          place,
        )
        (within_join (p * 64 + k) (64 - k) nbits m (bit_at 64 map m) hn)
    where
      place : (p + 1) * 64 + 0 ≡ p * 64 + k + (64 - k)
      place = omega arith

  last_round :
      (fuel : ℕ) (map : List ℕ) (p k nbits m : ℕ)
      → p * 64 + k + nbits ≤ 64 * length map
      → k < 64
      → nbits < 64 - k
      → bit_at 64 (range_loop write (suc fuel) map p nbits (64 - k) (high_mask k)) m
        ≡ (if within (p * 64 + k) (nbits - k) m then x else bit_at 64 map m)
  last_round fuel map p k nbits m hl hk hn =
      rw (round_last write fuel map p nbits (64 - k) (high_mask k) (ground arith))
        (ground (arith, tail_round map p k nbits m))

  whole_words :
      (fuel : ℕ) (map : List ℕ) (p nbits m : ℕ)
      → nbits < 64 * fuel
      → p * 64 + nbits ≤ 64 * length map
      → bit_at 64 (range_loop write fuel map p nbits 64 (high_mask 0)) m
        ≡ (if within (p * 64 + 0) nbits m then x else bit_at 64 map m)
  whole_words zero map p nbits m hf hl = absurd (omega arith)
  whole_words (suc fuel) map p nbits m hf hl = elim (dec_le 64 nbits) [
    | yes more ↦ more_round fuel map p 0 nbits m (omega arith) (omega arith) more (
        whole_words fuel (set map p (write (get_or map p 0) (high_mask 0))) (p + 1) (nbits - 64) m
          (omega arith) (omega (arith, length-set map p (write (get_or map p 0) (high_mask 0)))))
    | no last ↦
        let whole : nbits - 0 ≡ nbits = omega arith in
        rw whole at (last_round fuel map p 0 nbits m (omega arith) (omega arith) (omega arith))
  ]

  pub range_loop_lem :
      (fuel : ℕ) (map : List ℕ) (p k nbits m : ℕ)
      → nbits < 64 * fuel
      → k < 64
      → p * 64 + k + nbits ≤ 64 * length map
      → bit_at 64 (range_loop write (suc fuel) map p nbits (64 - k) (high_mask k)) m
        ≡ (if within (p * 64 + k) (covered k nbits) m then x else bit_at 64 map m)
  range_loop_lem fuel map p k nbits m hf hk hl = elim (dec_le (64 - k) nbits) [
    | yes more ↦
        let e : ltb (k + nbits) 64 ≡ false = ground arith in
        rw e (
          more_round fuel map p k nbits m (omega arith) hk more (
            whole_words fuel (set map p (write (get_or map p 0) (high_mask k))) (p + 1)
              (nbits - (64 - k)) m (omega arith)
              (omega (arith, length-set map p (write (get_or map p 0) (high_mask k))))))
    | no last ↦
        let e : ltb (k + nbits) 64 ≡ true = ground arith in
        rw e (last_round fuel map p k nbits m hl hk (omega arith))
  ]

  at_start :
      (map : List ℕ) (start nbits m : ℕ)
      → start + nbits ≤ 64 * length map
      → bit_at 64
          (range_loop write
            (nbits / 64 + 2)
            map
            (start / 64)
            nbits
            (64 - start % 64)
            (high_mask (start % 64)))
          m
        ≡ (if within start (covered (start % 64) nbits) m then x else bit_at 64 map m)
  at_start map start nbits m h = rw rounds (
      rw split at (
        range_loop_lem (nbits / 64 + 1) map (start / 64) (start % 64) nbits m (omega arith)
          (omega arith) (omega arith)))
    where
      rounds : nbits / 64 + 2 ≡ suc (nbits / 64 + 1)
      rounds = omega arith

      split : start / 64 * 64 + start % 64 ≡ start
      split = omega arith

-- Where the whole of the range lies in the array, `bitmap_set` sets exactly the bits from `start` on
-- that `covered` counts, and leaves every other bit.
pub bitmap_set_lem :
    (map : List ℕ) (start nbits m : ℕ)
    → start + nbits ≤ 64 * length map
    → test_bit m (bitmap_set map start nbits)
      ≡ (if within start (covered (start % 64) nbits) m then true else test_bit m map)
unfolding bitmap_set
bitmap_set_lem map start nbits m h = ground (
  arith,
  test_bit_lem m (bitmap_set map start nbits),
  test_bit_lem m map,
  at_start set_mask 1 set_mask-Writes map start nbits m h,
)

-- Where the whole of the range lies in the array, `bitmap_clear` clears exactly the bits from `start`
-- on that `covered` counts, and leaves every other bit.
pub bitmap_clear_lem :
    (map : List ℕ) (start nbits m : ℕ)
    → start + nbits ≤ 64 * length map
    → test_bit m (bitmap_clear map start nbits)
      ≡ (if within start (covered (start % 64) nbits) m then false else test_bit m map)
unfolding bitmap_clear
bitmap_clear_lem map start nbits m h = ground (
  arith,
  test_bit_lem m (bitmap_clear map start nbits),
  test_bit_lem m map,
  at_start clear_mask 0 clear_mask-Writes map start nbits m h,
)

-- A range in the array that starts at a word, or reaches the end of its first word, is set as asked: its bits
-- become 1 and every other bit reads as before.
pub bitmap_set_exact :
    (map : List ℕ) (start nbits m : ℕ)
    → start + nbits ≤ 64 * length map
    → (start % 64 ≡ 0) ⊎ (64 ≤ start % 64 + nbits)
    → test_bit m (bitmap_set map start nbits)
      ≡ (if within start nbits m then true else test_bit m map)
bitmap_set_exact map start nbits m h reach = ground (arith, bitmap_set_lem map start nbits m h)

-- A range in the array that is not empty, starts inside a word and ends before the end of that word
-- is not written whole: its last bit reads after `bitmap_set` and after `bitmap_clear` as before.
pub range_misses_last :
    (map : List ℕ) (start nbits : ℕ)
    → start + nbits ≤ 64 * length map
    → 0 < start % 64
    → 0 < nbits
    → start % 64 + nbits < 64
    → (test_bit (start + nbits - 1) (bitmap_set map start nbits) ≡ test_bit (start + nbits - 1) map)
      × (test_bit (start + nbits - 1) (bitmap_clear map start nbits)
          ≡ test_bit (start + nbits - 1) map)
range_misses_last map start nbits h offset some_bits inside = (
  ground (arith, bitmap_set_lem map start nbits (start + nbits - 1) h),
  ground (arith, bitmap_clear_lem map start nbits (start + nbits - 1) h),
)
