-- ===== src/CString/Length.antt =====
-- `strlen` and `strnlen` of kernel/lib/string.c, and the text that a string holds.
use obelisk_os.Prelude.{
  ℕ, zero, suc, ◌≡◌, refl, arith, List, [], ◌∷◌, ◌==◌, if◌then◌else◌, length, min,
}

unfoldable pub strlen : List ℕ → ℕ
strlen [] = 0
strlen (c ∷ s) = let rest = strlen s in if c == 0 then 0 else suc rest

unfoldable pub strnlen : List ℕ → ℕ → ℕ
strnlen s zero = 0
strnlen [] (suc maxlen) = 0
strnlen (c ∷ s) (suc maxlen) = let rest = strnlen s maxlen in if c == 0 then 0 else suc rest

-- The bytes before the first 0.
unfoldable pub text : List ℕ → List ℕ
text [] = []
text (c ∷ s) = let rest = text s in if c == 0 then [] else c ∷ rest

pub strlen-text : (s : List ℕ) → strlen s ≡ length (text s)
unfolding strlen text
strlen-text [] = refl
strlen-text (c ∷ s) = ground (arith, strlen-text s)

-- `strnlen` gives the length of the string or its bound, whichever is less.
pub strnlen_lem : (s : List ℕ) (maxlen : ℕ) → strnlen s maxlen ≡ min (strlen s) maxlen
unfolding strlen strnlen
strnlen_lem s zero = omega arith
strnlen_lem [] (suc n) = omega arith
strnlen_lem (c ∷ s) (suc n) = ground (arith, strnlen_lem s n)
