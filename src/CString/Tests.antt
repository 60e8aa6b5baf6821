-- ===== src/CString/Tests.antt =====
-- Runs of kernel/lib/string.c on short strings, and the theorems at them.
use obelisk_os.Prelude.{
  inl, inr, ℕ, suc, ◌-◌, ◌%◌, ◌^◌, ◌≡◌, refl, arith, List, [], ◌∷◌, ◌++◌, drop, replicate,
}
use obelisk_os.CString.Length.{strlen, text}
use obelisk_os.CString.Copy.{strncpy}
use obelisk_os.CString.Copy.Laws.{strncpy_overrun}
use obelisk_os.CString.Memory.{memmove}
use obelisk_os.CString.Memory.Laws.{Moved, memmove-Moved}
use obelisk_os.CString.Number.{strtoul}
use obelisk_os.CString.Number.Laws.{value, Spells, strtoul_lem}

-- "ab" and "abc", and an array of six bytes
abbrev ab : List ℕ
ab = 97 ∷ 98 ∷ 0 ∷ []

abbrev abc : List ℕ
abc = 97 ∷ 98 ∷ 99 ∷ 0 ∷ []

abbrev six : List ℕ
six = 120 ∷ 0 ∷ 121 ∷ 122 ∷ 123 ∷ 124 ∷ []

two : strlen ab ≡ 2
unfolding strlen
two = refl

three : strlen abc ≡ 3
unfolding strlen
three = refl

one : strlen six ≡ 1
unfolding strlen
one = refl

strncpy_overrun_example :
    strncpy 4 six ab ≡ text ab ++ (replicate (suc (4 - strlen ab)) 0 ++ drop 5 six)
strncpy_overrun_example = strncpy_overrun 4 six ab (omega arith) (omega (arith, two))

-- Twenty-four bytes of memory.
abbrev memory : List ℕ
memory = 1 ∷ 2 ∷ 3 ∷ 4 ∷ 5 ∷ 6 ∷ 7 ∷ 8 ∷ 9 ∷ 10 ∷ 11 ∷ 12 ∷ replicate 12 0

memmove-Moved_example : Moved memory (memmove memory 2 0 10) 2 0 10
memmove-Moved_example = memmove-Moved memory 2 0 10 (omega arith)

-- "B2a" in base 13, before a blank
strtoul_lem_example :
    strtoul (66 ∷ ((50 ∷ 97 ∷ []) ++ (32 ∷ []))) 13
    ≡ (value 13 0 (11 ∷ 2 ∷ 10 ∷ []) % 2 ^ 64, 32 ∷ [])
strtoul_lem_example =
    strtoul_lem 13 11 66 (2 ∷ 10 ∷ []) (50 ∷ 97 ∷ []) (32 ∷ []) (omega arith) (omega arith)
      (Spells.digit (inr (omega arith, inr refl)) (omega arith) (
        Spells.digit (inl (omega arith, refl)) (omega arith)
          (Spells.digit (inr (omega arith, inl refl)) (omega arith) Spells.at_end)))
      (λ d lt is. ground (arith, lt, is))
