-- ===== src/CString/Number/Laws.antt =====
-- `strtoul` of kernel/lib/string.c reads a number that is written in its base.
use obelisk_os.Prelude.{
  ◌-◌, ℕ, ◌+◌, ◌*◌, ◌%◌, ◌^◌, ◌≤◌, ◌<◌, ◌≡◌, refl, sym, ap, ◌∙◌, arith, List, [], ◌∷◌, ◌++◌, none,
  some, ◌⊎◌, ◌/◌,
}
use native.Mathlib.Nat.{div-add-mod, mul-add-mod_self_left}
use obelisk_os.CString.Compare.{char_at}
use obelisk_os.CString.Number.{
  skip_blanks, digit_of, digit_in, convert, detect_base, skip_plus, strtoul,
}

-- The character `c` is the digit `d`: '0' to '9', or a letter from 'a' or from 'A' on.
abbrev pub IsDigit : ℕ → ℕ → Type 0
IsDigit d c = ((d < 10) × (c ≡ 48 + d)) ⊎ ((10 ≤ d) × ((c ≡ 97 + (d - 10)) ⊎ (c ≡ 65 + (d - 10))))

-- The number that digits stand for behind the number `acc`.
abbrev pub value : ℕ → ℕ → List ℕ → ℕ
value base acc [] = acc
value base acc (d ∷ ds) = value base (acc * base + d) ds

-- The characters `cs` spell the digits `ds` of the base.
pub data Spells (base : ℕ) : List ℕ → List ℕ → Type 0 where
  at_end : Spells base [] []
  digit :
      {d c : ℕ} {ds cs : List ℕ}
      → IsDigit d c
      → d < base
      → Spells base ds cs
      → Spells base (d ∷ ds) (c ∷ cs)

-- The character is no digit of the base.
abbrev pub NoDigit : ℕ → ℕ → Type 0
NoDigit base c = (d : ℕ) → d < base → IsDigit d c → ⊥

digit_in-IsDigit : (base d c : ℕ) → base ≤ 16 → d < base → IsDigit d c → digit_in base c ≡ some d
unfolding digit_in digit_of
digit_in-IsDigit base d c le lt is = ground (arith, is)

digit_in-NoDigit : (base c : ℕ) → NoDigit base c → digit_in base c ≡ none
unfolding digit_in digit_of
digit_in-NoDigit base c none_is =
    ground (arith, none_is (c - 48), none_is (c - 87), none_is (c - 55))

-- Cutting to a word before a digit is added changes nothing after it.
wrap_step : (m acc base d : ℕ) → (acc % m * base + d) % m ≡ (acc * base + d) % m
wrap_step m acc base d =
    let whole : acc * base + d ≡ m * (acc / m * base) + (acc % m * base + d) =
      ap (λ n. n * base + d) (sym (div-add-mod acc m)) ∙ spread m (acc / m) (acc % m) base d in
    sym (ap (λ n. n % m) whole ∙ mul-add-mod_self_left m (acc / m * base) (acc % m * base + d))
  where
    spread : (m q r base d : ℕ) → (m * q + r) * base + d ≡ m * (q * base) + (r * base + d)
    spread m q r base d = grind arith

convert-stop :
    (base acc : ℕ) (rest : List ℕ)
    → digit_in base (char_at rest) ≡ none
    → convert base acc rest ≡ (acc, rest)
unfolding convert
convert-stop base acc [] stop = refl
convert-stop base acc (c ∷ rest) stop = rw (stop, convert) refl

convert-Spells :
    (base acc : ℕ) (ds cs rest : List ℕ)
    → base ≤ 16
    → Spells base ds cs
    → digit_in base (char_at rest) ≡ none
    → convert base (acc % 2 ^ 64) (cs ++ rest) ≡ (value base acc ds % 2 ^ 64, rest)
unfolding convert
convert-Spells base acc [] [] rest le Spells.at_end stop =
    convert-stop base (acc % 2 ^ 64) rest stop
convert-Spells base acc [] (c ∷ cs) rest le a stop = elim a [ ]
convert-Spells base acc (d ∷ ds) [] rest le a stop = elim a [ ]
convert-Spells base acc (d ∷ ds) (c ∷ cs) rest le (Spells.digit is lt a) stop =
    rw (digit_in-IsDigit base d c le lt is, convert, wrap_step (2 ^ 64) acc base d)
      (convert-Spells base (acc * base + d) ds cs rest le a stop)

skip_blanks-IsDigit : (d c : ℕ) (s : List ℕ) → d < 16 → IsDigit d c → skip_blanks (c ∷ s) ≡ c ∷ s
unfolding skip_blanks
skip_blanks-IsDigit d c s lt is = ground (arith, is)

-- For a base from 1 to 15, `strtoul` reads one or more digits of the base, letters of either case, up to
-- the first character that is no digit of it: it gives their value modulo 2^64 and leaves the end pointer
-- at that character.
pub strtoul_lem :
    (base d c : ℕ) (ds cs rest : List ℕ)
    → 0 < base
    → base < 16
    → Spells base (d ∷ ds) (c ∷ cs)
    → NoDigit base (char_at rest)
    → strtoul (c ∷ (cs ++ rest)) base ≡ (value base 0 (d ∷ ds) % 2 ^ 64, rest)
unfolding strtoul detect_base
strtoul_lem base d c ds cs rest pos_base small (Spells.digit is lt a) stop =
    let read =
      convert-Spells base 0 (d ∷ ds) (c ∷ cs) rest (omega arith) (Spells.digit is lt a)
        (digit_in-NoDigit base (char_at rest) stop) in
    rw (skip_blanks-IsDigit d c (cs ++ rest) (omega arith) is, plain) read
  where
    plain : detect_base base (skip_plus (c ∷ (cs ++ rest))) ≡ (base, c ∷ (cs ++ rest))
    plain = ground (arith, is, pos_base, small, lt)

-- For base 0 and for base 16, `strtoul` reads hexadecimal digits behind `0x` or `0X` in the same way.
pub strtoul_hex :
    (x base : ℕ) (ds cs rest : List ℕ)
    → (x ≡ 120) ⊎ (x ≡ 88)
    → (base ≡ 0) ⊎ (base ≡ 16)
    → Spells 16 ds cs
    → NoDigit 16 (char_at rest)
    → strtoul (48 ∷ x ∷ (cs ++ rest)) base ≡ (value 16 0 ds % 2 ^ 64, rest)
unfolding strtoul detect_base skip_blanks
strtoul_hex x base ds cs rest is_x which a stop =
    let read =
      convert-Spells 16 0 ds cs rest (omega arith) a (digit_in-NoDigit 16 (char_at rest) stop) in
    rw (prefix (cs ++ rest)) read
  where
    prefix : (s : List ℕ) → detect_base base (skip_plus (skip_blanks (48 ∷ x ∷ s))) ≡ (16, s)
    prefix s = ground arith
