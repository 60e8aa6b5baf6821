-- ===== src/CString/Number.antt =====
-- `atoi`, `atol` and `strtoul` of kernel/lib/string.c. An `int` or `long` is its word, and arithmetic on
-- it wraps.
pub mod Laws
use obelisk_os.Prelude.{
  ℕ, zero, suc, ◌+◌, ◌-◌, ◌*◌, ◌%◌, ◌^◌, List, [], ◌∷◌, Option, none, some, Bool, true, false, not,
  ◌&&◌, ◌||◌, ◌==◌, leb, if◌then◌else◌,
}
use obelisk_os.CString.Compare.{char_at, next_char}

-- ' ' and '\t'
pub skip_blanks : List ℕ → List ℕ
skip_blanks [] = []
skip_blanks (c ∷ s) = let rest = skip_blanks s in if c == 32 || c == 9 then rest else c ∷ s

-- The sign and the string behind it: '-' or '+'.
abbrev pub read_sign : List ℕ → Bool × List ℕ
read_sign s =
    if char_at s == 45
    then (true, next_char s)
    else if char_at s == 43
    then (false, next_char s)
    else (false, s)

pub decimal_from : ℕ → ℕ → List ℕ → ℕ
decimal_from width result [] = result
decimal_from width result (c ∷ s) =
    let rest = decimal_from width ((result * 10 + (c - 48)) % 2 ^ width) s in
    if leb 48 c && leb c 57 then rest else result

-- `result * sign`
abbrev pub signed_word : ℕ → Bool × ℕ → ℕ
signed_word width (false, r) = r
signed_word width (true, r) = (2 ^ width - r) % 2 ^ width

pub atoi : List ℕ → ℕ
unfolding skip_blanks decimal_from
atoi s =
    let signed = read_sign (skip_blanks s) in signed_word 32 (signed.0, decimal_from 32 0 signed.1)

pub atol : List ℕ → ℕ
unfolding skip_blanks decimal_from
atol s =
    let signed = read_sign (skip_blanks s) in signed_word 64 (signed.0, decimal_from 64 0 signed.1)

-- '0' to '9', 'a' to 'f' and 'A' to 'F'
unfoldable pub digit_of : ℕ → Option ℕ
digit_of c =
    if leb 48 c && leb c 57
    then some (c - 48)
    else if leb 97 c && leb c 102
    then some (c - 97 + 10)
    else if leb 65 c && leb c 70
    then some (c - 65 + 10)
    else none

-- The digit of `c`, if it is one of the base.
unfoldable pub digit_in : ℕ → ℕ → Option ℕ
unfolding digit_of
digit_in base c = elim (digit_of c) [ none ↦ none | some d ↦ if leb base d then none else some d ]

-- The loop of `strtoul`, with the string that `*endptr` is left at.
pub convert : ℕ → ℕ → List ℕ → ℕ × List ℕ
convert base result [] = (result, [])
convert base result (c ∷ s) = elim (digit_in base c) [
  | none ↦ (result, c ∷ s)
  | some d ↦ convert base ((result * base + d) % 2 ^ 64) s
]

abbrev pub is_x : ℕ → Bool
is_x c = c == 120 || c == 88

-- The base that is used, and the string behind its prefix.
unfoldable pub detect_base : ℕ → List ℕ → ℕ × List ℕ
detect_base base s =
    if base == 0
    then (if char_at s == 48
        then (if is_x (char_at (next_char s))
            then (16, next_char (next_char s))
            else (8, next_char s))
        else (10, s))
    else if base == 16 && (char_at s == 48) && is_x (char_at (next_char s))
    then (16, next_char (next_char s))
    else (base, s)

abbrev pub skip_plus : List ℕ → List ℕ
skip_plus s = if char_at s == 43 then next_char s else s

unfoldable pub strtoul : List ℕ → ℕ → ℕ × List ℕ
unfolding skip_blanks convert
strtoul s base =
    let found = detect_base base (skip_plus (skip_blanks s)) in convert found.0 0 found.1
