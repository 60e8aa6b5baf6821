-- ===== src/Word/Array.antt =====
-- A bitmap is an array of words of `w` bits: bit `n` is digit `n % w` of word `n / w`.
use Prim.Native.Nat.{bit_and, bit_or, bit_xor}
use native.Mathlib.Decide.{ℕ_discrete}
use native.Mathlib.Nat.{div-add-mod, mod-lt}
use obelisk_os.Prelude.{
  ℕ, ◌-◌, ◌*◌, ◌/◌, ◌%◌, ◌^◌, ◌<◌, ◌≡◌, ap, List, arith, ◌==◌, if◌then◌else◌, set, get_or, length,
  get_or-set_self, get_or-set_ne,
}
use obelisk_os.Word.Step.{bit}
use obelisk_os.Word.Laws.{complement, or_mask, xor_mask, and_complement_mask}

module _ (w : ℕ) where
  abbrev pub bit_at : List ℕ → ℕ → ℕ
  bit_at ws n = bit (get_or ws (n / w) 0) (n % w)

module _ (w : ℕ) (pos : 0 < w) where
  pub same_place : (n m : ℕ) → n / w ≡ m / w → n % w ≡ m % w → n ≡ m
  same_place n m p q = omega (arith, div-add-mod n w, div-add-mod m w, ap (λ (t : ℕ). w * t) p)

  pub in_words : (ws : List ℕ) (n : ℕ) → n < w * length ws → n / w < length ws
  in_words ws n h = grind (arith, div-add-mod n w)

  -- A new word that differs from the old one in digit `n % w` at most changes bit `n` only.
  update_bit :
      (ws : List ℕ) (n m v x : ℕ)
      → n < w * length ws
      → ((j : ℕ) → j < w → bit v j ≡ (if (n % w) == j then x else bit (get_or ws (n / w) 0) j))
      → bit_at w (set ws (n / w) v) m ≡ (if n == m then x else bit_at w ws m)
  update_bit ws n m v x h digits = elim (ℕ_discrete (n / w) (m / w)) [
    | yes e ↦ ground (
      arith,
      same_place n m e,
      ap (λ (t : ℕ). get_or (set ws (n / w) v) t 0) e,
      ap (λ (t : ℕ). get_or ws t 0) e,
      get_or-set_self ws (n / w) v 0 (in_words ws n h),
      digits (m % w) (mod-lt m pos),
    )
    | no ne ↦ ground (
      arith,
      get_or-set_ne ws (n / w) (m / w) v 0 ne,
      (λ (e : n ≡ m). ne (ap (λ (t : ℕ). t / w) e)),
    )
  ]

  pub or_bit :
      (ws : List ℕ) (n m : ℕ)
      → n < w * length ws
      → bit_at w (set ws (n / w) (bit_or (get_or ws (n / w) 0) (2 ^ (n % w)))) m
        ≡ (if n == m then 1 else bit_at w ws m)
  or_bit ws n m h = update_bit ws n m _ 1 h (λ j _. or_mask (get_or ws (n / w) 0) (n % w) j)

  pub clear_bit :
      (ws : List ℕ) (n m : ℕ)
      → n < w * length ws
      → bit_at w (set ws (n / w) (bit_and (get_or ws (n / w) 0) (complement w (2 ^ (n % w))))) m
        ≡ (if n == m then 0 else bit_at w ws m)
  clear_bit ws n m h =
      update_bit ws n m _ 0 h
        (λ j p. and_complement_mask w (get_or ws (n / w) 0) (n % w) j (mod-lt n pos) p)

  pub xor_bit :
      (ws : List ℕ) (n m : ℕ)
      → n < w * length ws
      → bit_at w (set ws (n / w) (bit_xor (get_or ws (n / w) 0) (2 ^ (n % w)))) m
        ≡ (if n == m then 1 - bit_at w ws n else bit_at w ws m)
  xor_bit ws n m h = update_bit ws n m _ (1 - bit_at w ws n) h (λ j _. ground (
    arith,
    xor_mask (get_or ws (n / w) 0) (n % w) j,
    (λ (e : n % w ≡ j). ap (bit (get_or ws (n / w) 0)) e),
  ))
