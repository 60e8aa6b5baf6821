-- ===== src/CString/Search/Laws.antt =====
-- What the searches of kernel/lib/string.c find.
use obelisk_os.Prelude.{
  ℕ, zero, suc, ◌%◌, ◌<◌, ◌≡◌, ◌≢◌, refl, sym, ap, ◌∙◌, arith, List, [], ◌∷◌, Option, none, some,
  true, false, inl, inr, ◌==◌, Bool-cases, get_or, ℤ, pos, negsuc, take, drop, ◌↔◌,
}
use obelisk_os.CString.Length.{strlen, text}
use obelisk_os.CString.Compare.{strncmp}
use obelisk_os.CString.Compare.Laws.{strncmp-strcmp, strcmp_iff}
use obelisk_os.CString.Search.{one_on, strchr, is_zero, find_needle, strstr}

-- What `strchr` finds for a character: the first place of it in the string, or NULL if it has none.
pub data FirstChar (s : List ℕ) (c : ℕ) : Option ℕ → Type 0 where
  absent : ((j : ℕ) → j < strlen s → get_or s j 0 ≢ c) → FirstChar s c none
  at_place :
      (i : ℕ)
      → i < strlen s
      → get_or s i 0 ≡ c
      → ((j : ℕ) → j < i → get_or s j 0 ≢ c)
      → FirstChar s c (some i)

strlen_over : (x : ℕ) (s : List ℕ) → (x == 0) ≡ true → strlen (x ∷ s) ≡ 0
unfolding strlen
strlen_over x s e = rw e refl

strlen_nil : strlen [] ≡ 0
unfolding strlen
strlen_nil = refl

strlen_more : (x : ℕ) (s : List ℕ) → (x == 0) ≡ false → strlen (x ∷ s) ≡ suc (strlen s)
unfolding strlen
strlen_more x s e = rw e refl

step :
    (x : ℕ) (s : List ℕ) (c : ℕ) (r : Option ℕ)
    → (x == 0) ≡ false
    → x ≢ c
    → FirstChar s c r
    → FirstChar (x ∷ s) c (one_on r)
step x s c none nz other (FirstChar.absent a) = FirstChar.absent places
  where
    places : (j : ℕ) → j < strlen (x ∷ s) → get_or (x ∷ s) j 0 ≢ c
    places zero h = other
    places (suc j) h = a j (omega (arith, strlen_more x s nz))
step x s c _ nz other (FirstChar.at_place i h e least) =
    FirstChar.at_place (suc i) (omega (arith, strlen_more x s nz)) e places
  where
    places : (j : ℕ) → j < suc i → get_or (x ∷ s) j 0 ≢ c
    places zero h = other
    places (suc j) h = least j (omega arith)

-- For a character from 1 to 255, `strchr` finds its first place in the string, or NULL if it has none.
pub strchr_lem : (s : List ℕ) (c : ℕ) → 0 < c → c < 256 → FirstChar s c (strchr s c)
unfolding strchr strlen
strchr_lem [] c pos_c small =
    let nonzero : (c == 0) ≡ false = ground arith in
    rw nonzero (FirstChar.absent (λ j h. absurd (omega arith)))
strchr_lem (x ∷ s) c pos_c small = elim (Bool-cases (x == 0)) [
  | inl e ↦
      let nonzero : (c == 0) ≡ false = ground arith in
      rw (e, nonzero) (FirstChar.absent (λ j h. absurd (omega (arith, strlen_over x s e))))
  | inr nz ↦ elim (Bool-cases (x == c % 256)) [
    | inl same ↦
        rw (nz, same)
          (FirstChar.at_place 0 (omega (arith, strlen_more x s nz)) (ground arith)
            (λ j h. absurd (omega arith)))
    | inr other ↦
        rw (nz, other) (step x s c (strchr s c) nz (ground arith) (strchr_lem s c pos_c small))
  ]
]

-- For 0, `strchr` gives the end of the string.
pub strchr_end : (s : List ℕ) → strchr s 0 ≡ some (strlen s)
unfolding strchr strlen
strchr_end [] = refl
strchr_end (x ∷ s) = elim (Bool-cases (x == 0)) [
  | inl e ↦ rw e refl
  | inr nz ↦ rw (nz, ap one_on (strchr_end s)) (ground arith)
]

text-take : (n : ℕ) (s : List ℕ) → text (take n s) ≡ take n (text s)
unfolding text
text-take zero s = refl
text-take (suc n) [] = refl
text-take (suc n) (x ∷ s) = elim (Bool-cases (x == 0)) [
  | inl e ↦ rw e refl
  | inr nz ↦ rw nz (ap (λ l. x ∷ l) (text-take n s))
]

take_whole : (s : List ℕ) → take (strlen s) (text s) ≡ text s
unfolding text strlen
take_whole [] = refl
take_whole (x ∷ s) = elim (Bool-cases (x == 0)) [
  | inl e ↦ rw e refl
  | inr nz ↦ rw nz (ap (λ l. x ∷ l) (take_whole s))
]

-- The text of `needle` stands in `haystack` at place `j`.
abbrev pub Occurs : List ℕ → List ℕ → ℕ → Type 0
Occurs needle haystack j = take (strlen needle) (text (drop j haystack)) ≡ text needle

strncmp_occurs :
    (s needle : List ℕ)
    → (strncmp (strlen needle) s needle ≡ pos 0) ↔ (take (strlen needle) (text s) ≡ text needle)
strncmp_occurs s needle =
    let n = strlen needle in
    let cut = strcmp_iff (take n s) (take n needle) in
    let left = text-take n s in
    let right = text-take n needle ∙ take_whole needle in
    (
      λ e. sym left ∙ cut.0 (sym (strncmp-strcmp n s needle) ∙ e) ∙ right,
      λ e. strncmp-strcmp n s needle ∙ cut.1 (left ∙ e ∙ sym right),
    )

-- The first place in the string where the needle stands, or NULL if it stands nowhere before the end.
pub data FirstOccurrence (haystack needle : List ℕ) : Option ℕ → Type 0 where
  nowhere :
      ((j : ℕ) → j < strlen haystack → ¬ Occurs needle haystack j)
      → FirstOccurrence haystack needle none
  stands :
      (i : ℕ)
      → Occurs needle haystack i
      → ((j : ℕ) → j < i → ¬ Occurs needle haystack j)
      → FirstOccurrence haystack needle (some i)

is_zero_iff : (z : ℤ) → (is_zero z ≡ true) ↔ (z ≡ pos 0)
is_zero_iff (pos n) = ground arith
is_zero_iff (negsuc n) = ground arith

FirstOccurrence-later :
    (x : ℕ) (s needle : List ℕ) (r : Option ℕ)
    → (x == 0) ≡ false
    → ¬ Occurs needle (x ∷ s) 0
    → FirstOccurrence s needle r
    → FirstOccurrence (x ∷ s) needle (one_on r)
FirstOccurrence-later x s needle none nz other (FirstOccurrence.nowhere n) =
    FirstOccurrence.nowhere places
  where
    places : (j : ℕ) → j < strlen (x ∷ s) → ¬ Occurs needle (x ∷ s) j
    places zero h = other
    places (suc j) h = n j (omega (arith, strlen_more x s nz))
FirstOccurrence-later x s needle _ nz other (FirstOccurrence.stands i o least) =
    FirstOccurrence.stands (suc i) o places
  where
    places : (j : ℕ) → j < suc i → ¬ Occurs needle (x ∷ s) j
    places zero h = other
    places (suc j) h = least j (omega arith)

find_needle_lem :
    (s needle : List ℕ) → FirstOccurrence s needle (find_needle s needle (strlen needle))
unfolding find_needle
find_needle_lem [] needle = FirstOccurrence.nowhere (λ j h. absurd (omega (arith, strlen_nil)))
find_needle_lem (x ∷ s) needle = elim (Bool-cases (x == 0)) [
  | inl e ↦ rw e (FirstOccurrence.nowhere (λ j h. absurd (omega (arith, strlen_over x s e))))
  | inr nz ↦ elim (Bool-cases (is_zero (strncmp (strlen needle) (x ∷ s) needle))) [
    | inl same ↦ rw (nz, same) (FirstOccurrence.stands 0 (here same) (λ j h. absurd (omega arith)))
    | inr other ↦
        rw (nz, other)
          (FirstOccurrence-later x s needle (find_needle s needle (strlen needle)) nz
            (not_here other) (find_needle_lem s needle))
  ]
]
  where
    here : is_zero (strncmp (strlen needle) (x ∷ s) needle) ≡ true → Occurs needle (x ∷ s) 0
    here same =
        (strncmp_occurs (x ∷ s) needle).0
          ((is_zero_iff (strncmp (strlen needle) (x ∷ s) needle)).0 same)

    not_here : is_zero (strncmp (strlen needle) (x ∷ s) needle) ≡ false → ¬ Occurs needle (x ∷ s) 0
    not_here other o = ground (
      arith,
      other,
      (is_zero_iff (strncmp (strlen needle) (x ∷ s) needle)).1
          ((strncmp_occurs (x ∷ s) needle).1 o),
    )

text_of_empty : (s : List ℕ) → strlen s ≡ 0 → text s ≡ []
text_of_empty s e = sym (take_whole s) ∙ ap (λ n. take n (text s)) e

-- `strstr` gives the first place in the string where the needle stands, which is 0 for an empty needle,
-- or NULL if it stands nowhere before the end.
pub strstr_lem :
    (haystack needle : List ℕ) → FirstOccurrence haystack needle (strstr haystack needle)
unfolding strstr
strstr_lem haystack needle = elim (Bool-cases (strlen needle == 0)) [
  | inl e ↦ rw e (FirstOccurrence.stands 0 (at_front (ground arith)) (λ j h. absurd (omega arith)))
  | inr nz ↦ rw nz (find_needle_lem haystack needle)
]
  where
    at_front : strlen needle ≡ 0 → Occurs needle haystack 0
    at_front e = ap (λ n. take n (text haystack)) e ∙ sym (text_of_empty needle e)
