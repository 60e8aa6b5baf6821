-- ===== src/CString/Copy/Laws.antt =====
-- What the copying functions of kernel/lib/string.c leave at the destination.
use obelisk_os.Prelude.{
  ℕ, zero, suc, ◌+◌, ◌-◌, ◌≤◌, ◌<◌, ◌≡◌, refl, ap, ◌∙◌, arith, List, [], ◌∷◌, ◌++◌, inl, inr, ◌==◌,
  Bool-cases, length, take, drop, replicate, min,
}
use obelisk_os.CString.Length.{text, strlen}
use obelisk_os.CString.Copy.{strcpy, zero_fill, strncpy, strcat, append_bounded, strncat}

-- Where the string and its terminator fit, `strcpy` writes them at the front and leaves the rest.
pub strcpy_lem :
    (dest src : List ℕ)
    → strlen src < length dest
    → strcpy dest src ≡ text src ++ (0 ∷ drop (suc (strlen src)) dest)
unfolding strcpy text strlen
strcpy_lem [] src h = absurd (omega arith)
strcpy_lem (d ∷ dest) [] h = refl
strcpy_lem (d ∷ dest) (c ∷ src) h = elim (Bool-cases (c == 0)) [
  | inl e ↦ let nul : c ≡ 0 = ground arith in rw nul refl
  | inr ne ↦ rw ne (ap (λ l. c ∷ l) (strcpy_lem dest src (ground arith)))
]

zero_fill_lem :
    (n : ℕ) (dest : List ℕ) → n ≤ length dest → zero_fill n dest ≡ replicate n 0 ++ drop n dest
unfolding zero_fill
zero_fill_lem zero dest h = refl
zero_fill_lem (suc n) [] h = absurd (omega arith)
zero_fill_lem (suc n) (d ∷ dest) h = ap (λ l. 0 ∷ l) (zero_fill_lem n dest (omega arith))

-- A string of `n` bytes or more is cut: where `n` bytes fit, `strncpy` writes its first `n` bytes and no
-- terminator, and leaves the rest.
pub strncpy_cut :
    (n : ℕ) (dest src : List ℕ)
    → n ≤ length dest
    → n ≤ strlen src
    → strncpy n dest src ≡ take n (text src) ++ drop n dest
unfolding strncpy text strlen
strncpy_cut zero dest src fits long = refl
strncpy_cut (suc n) [] src fits long = absurd (omega arith)
strncpy_cut (suc n) (d ∷ dest) [] fits long = absurd (omega arith)
strncpy_cut (suc n) (d ∷ dest) (c ∷ src) fits long = elim (Bool-cases (c == 0)) [
  | inl e ↦ absurd (ground arith)
  | inr ne ↦ rw ne (ap (λ l. c ∷ l) (strncpy_cut n dest src (omega arith) (ground arith)))
]

-- A string shorter than `n` overruns: where one byte more than `n` fits, `strncpy` writes the string, its
-- terminator and as many zeros as `n` exceeds its length, which are `n + 1` bytes together.
pub strncpy_overrun :
    (n : ℕ) (dest src : List ℕ)
    → n < length dest
    → strlen src < n
    → strncpy n dest src ≡ text src ++ (replicate (suc (n - strlen src)) 0 ++ drop (suc n) dest)
unfolding strncpy text strlen
strncpy_overrun zero dest src fits short = absurd (omega arith)
strncpy_overrun (suc n) [] src fits short = absurd (omega arith)
strncpy_overrun (suc n) (d ∷ dest) [] fits short =
    let count : suc n - 0 ≡ suc n = omega arith in
    rw count (ap (λ l. 0 ∷ l) (zero_fill_lem (suc n) dest (omega arith)))
strncpy_overrun (suc n) (d ∷ dest) (c ∷ src) fits short = elim (Bool-cases (c == 0)) [
  | inl e ↦
      let nul : c ≡ 0 = ground arith in
      let count : suc n - 0 ≡ suc n = omega arith in
      rw (nul, count) (ap (λ l. 0 ∷ l) (zero_fill_lem (suc n) dest (omega arith)))
  | inr ne ↦
      let count : suc n - suc (strlen src) ≡ n - strlen src = omega arith in
      rw (ne, count) (ap (λ l. c ∷ l) (strncpy_overrun n dest src (omega arith) (ground arith)))
]

-- The bound of an appended text is met by cutting it.
text-append : (s t : List ℕ) → text (text s ++ (0 ∷ t)) ≡ text s
unfolding text
text-append [] t = refl
text-append (c ∷ s) t = elim (Bool-cases (c == 0)) [
  | inl e ↦ rw e refl
  | inr ne ↦ rw (ne, ne) (ap (λ l. c ∷ l) (text-append s t))
]

text-strcpy : (dest src : List ℕ) → strlen src < length dest → text (strcpy dest src) ≡ text src
text-strcpy dest src h =
    ap text (strcpy_lem dest src h) ∙ text-append src (drop (suc (strlen src)) dest)

-- Where the two strings and a terminator fit, `strcat` leaves the text of the second behind that of the
-- first.
pub text-strcat :
    (dest src : List ℕ)
    → strlen dest + strlen src < length dest
    → text (strcat dest src) ≡ text dest ++ text src
unfolding strcat text strlen
text-strcat [] src h = absurd (omega arith)
text-strcat (d ∷ dest) src h = elim (Bool-cases (d == 0)) [
  | inl e ↦ rw e (text-strcpy (d ∷ dest) src (ground arith))
  | inr ne ↦ rw (ne, ne) (ap (λ l. d ∷ l) (text-strcat dest src (ground arith)))
]

text-append_bounded :
    (n : ℕ) (dest src : List ℕ)
    → min (strlen src) n < length dest
    → text (append_bounded n dest src) ≡ take n (text src)
unfolding append_bounded text strlen
text-append_bounded n [] src h = absurd (omega arith)
text-append_bounded zero (d ∷ dest) src h = refl
text-append_bounded (suc n) (d ∷ dest) [] h = refl
text-append_bounded (suc n) (d ∷ dest) (c ∷ src) h = elim (Bool-cases (c == 0)) [
  | inl e ↦ rw e refl
  | inr ne ↦ rw (ne, ne) (ap (λ l. c ∷ l) (text-append_bounded n dest src (ground arith)))
]

-- Where the first string, at most `n` bytes of the second and a terminator fit, `strncat` leaves the first
-- `n` bytes of the second text, or all of it, behind the first, and always ends the string.
pub text-strncat :
    (dest src : List ℕ) (n : ℕ)
    → strlen dest + min (strlen src) n < length dest
    → text (strncat dest src n) ≡ text dest ++ take n (text src)
unfolding strncat text strlen
text-strncat [] src n h = absurd (omega arith)
text-strncat (d ∷ dest) src n h = elim (Bool-cases (d == 0)) [
  | inl e ↦ rw e (text-append_bounded n (d ∷ dest) src (ground arith))
  | inr ne ↦ rw (ne, ne) (ap (λ l. d ∷ l) (text-strncat dest src n (ground arith)))
]
