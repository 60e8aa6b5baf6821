-- ===== src/Bitmap/Find/Loop.antt =====
-- The loops of the searches meet the promise of `IsFirst`, for the words and for their complements.
use Prim.Native.Nat.{bit_and}
use obelisk_os.Prelude.{
  ℕ, zero, suc, ◌+◌, ◌-◌, ◌*◌, ◌/◌, ◌%◌, ◌^◌, ◌≤◌, ◌<◌, ◌≡◌, ◌≢◌, min, ap, arith, List, ◌==◌, leb,
  ltb, if◌then◌else◌, get_or, Bool-cases, inl, inr, ltb→le, leb→le, ==_iff,
}
use obelisk_os.Word.{bit, bit_le, bit_and-bit}
use obelisk_os.Word.Laws.{bit-high_mask, bit_and_le, bit-zero}
use obelisk_os.Word.First.{builtin_ffs}
use obelisk_os.Bitmap.Find.{high_mask, next_from, find_next}
use obelisk_os.Bitmap.Find.First.{IsFirst, IsFirst-none, IsFirst-skip, IsFirst-found}

module _ (view : ℕ → ℕ) (addr : List ℕ) where
  -- Word `i` as the search sees it, and bit `k`.
  abbrev pub seen : ℕ → ℕ
  seen i = view (get_or addr i 0)

  abbrev pub digit : ℕ → ℕ
  digit k = bit (seen (k / 64)) (k % 64)

module _ (view : ℕ → ℕ) (addr : List ℕ) (size : ℕ)
    (small : (i : ℕ) → seen view addr i < 2 ^ 64) where
  digit_of_word : (i j : ℕ) → j < 64 → digit view addr (i * 64 + j) ≡ bit (seen view addr i) j
  digit_of_word i j h = rw (word, place)
    where
      word : (i * 64 + j) / 64 ≡ i
      word = omega arith

      place : (i * 64 + j) % 64 ≡ j
      place = omega arith

  clear_word :
      (i k : ℕ) → seen view addr i ≡ 0 → i * 64 ≤ k → k < i * 64 + 64 → digit view addr k ≡ 0
  clear_word i k e p q = rw (place, e) (bit-zero (k % 64))
    where
      place : k / 64 ≡ i
      place = omega arith

  -- One round of the loop, at word `i`.
  IsFirst-word :
      (i : ℕ)
      → seen view addr i ≢ 0
      → IsFirst
          (digit view addr)
          (i * 64)
          size
          (min (i * 64 + builtin_ffs 64 (seen view addr i) - 1) size)
  IsFirst-word i ne =
      IsFirst-found (digit view addr) (i * 64) size (i * 64) (seen view addr i)
        (λ j h. ground (arith, digit_of_word i j h)) (small i) ne (omega arith)

  next_word :
      (i r : ℕ)
      → seen view addr i ≡ 0
      → IsFirst (digit view addr) (i * 64 + 64) size r
      → IsFirst (digit view addr) (i * 64) size r
  next_word i r e v =
      IsFirst-skip (digit view addr) (i * 64) size (i * 64 + 64) r (omega arith)
        (λ k p q. clear_word i k e p q) v

  pub next_from-IsFirst :
      (fuel i : ℕ)
      → size < i * 64 + fuel * 64
      → IsFirst (digit view addr) (i * 64) size (next_from view fuel addr size (i * 64))
  unfolding next_from
  next_from-IsFirst zero i h = IsFirst-none (digit view addr) (i * 64) size (omega arith)
  next_from-IsFirst (suc fuel) i h = elim (Bool-cases (ltb (i * 64) size)) [
    | inr past ↦ rw past (IsFirst-none (digit view addr) (i * 64) size (ltb→le _ _ past))
    | inl more ↦ elim (Bool-cases (seen view addr i == 0)) [
      | inl zeros ↦
          rw (more, word, zeros)
            (next_word i _ ((==_iff _ 0).0 zeros)
              (rw next (next_from-IsFirst fuel (i + 1) (omega arith))))
      | inr ones ↦ rw (more, word, ones) (IsFirst-word i (λ e. ground arith))
    ]
  ]
    where
      word : i * 64 / 64 ≡ i
      word = omega arith

      next : i * 64 + 64 ≡ (i + 1) * 64
      next = omega arith

  -- The first word is masked below `offset`.
  abbrev masked : (offset : ℕ) → ℕ
  masked offset = bit_and (seen view addr (offset / 64)) (high_mask (offset % 64))

  masked_digits :
      (offset j : ℕ)
      → j < 64
      → bit (masked offset) j
        ≡ (if leb offset (offset / 64 * 64 + j) then digit view addr (offset / 64 * 64 + j) else 0)
  masked_digits offset j h = ground (
    arith,
    bit_and-bit (seen view addr (offset / 64)) (high_mask (offset % 64)) j,
    bit-high_mask 64 (offset % 64) j (omega arith) h,
    digit_of_word (offset / 64) j h,
    bit_le (seen view addr (offset / 64)) j,
  )

  clear_to_end :
      (offset k : ℕ)
      → masked offset ≡ 0
      → offset ≤ k
      → k < (offset / 64 + 1) * 64
      → digit view addr k ≡ 0
  clear_to_end offset k e p q = ground (
    arith,
    masked_digits offset (k % 64) (omega arith),
    ap (digit view addr) here,
    ap (λ (t : ℕ). bit t (k % 64)) e,
    bit-zero (k % 64),
    here,
  )
    where
      here : offset / 64 * 64 + k % 64 ≡ k
      here = omega arith

  pub find_next-IsFirst :
      (offset : ℕ) → IsFirst (digit view addr) offset size (find_next view addr size offset)
  unfolding find_next
  find_next-IsFirst offset = elim (Bool-cases (leb size offset)) [
    | inl past ↦ rw past (IsFirst-none (digit view addr) offset size (leb→le _ _ past))
    | inr more ↦ elim (Bool-cases (masked offset == 0)) [
      | inl zeros ↦
          rw (more, zeros)
            (IsFirst-skip (digit view addr) offset size ((offset / 64 + 1) * 64) _ (omega arith)
              (λ k p q. clear_to_end offset k ((==_iff _ 0).0 zeros) p q)
              (next_from-IsFirst (size / 64 + 1) (offset / 64 + 1) (omega arith)))
      | inr ones ↦
          rw (more, ones)
            (IsFirst-found (digit view addr) offset size (offset / 64 * 64) (masked offset)
              (masked_digits offset)
              (omega (
                arith,
                bit_and_le (seen view addr (offset / 64)) (high_mask (offset % 64)),
                small (offset / 64),
              ))
              (λ e. ground arith) (omega arith))
    ]
  ]
