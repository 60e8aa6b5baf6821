-- ===== src/CString/Compare/Laws.antt =====
-- The comparisons of kernel/lib/string.c decide what they are asked.
use obelisk_os.Prelude.{
  ℕ, zero, suc, ◌+◌, ◌-◌, ◌≡◌, ◌↔◌, refl, sym, ap, ◌∙◌, arith, ℤ, pos, negsuc, List, [], ◌∷◌, true,
  false, not, ◌&&◌, inl, inr, ◌==◌, if◌then◌else◌, Bool-cases, take,
}
use obelisk_os.CString.Length.{text}
use obelisk_os.CString.Compare.{char_diff, char_at, next_char, strcmp, strncmp}

char_diff_iff : (a b : ℕ) → (char_diff a b ≡ pos 0) ↔ (a ≡ b)
char_diff_iff a b = ground arith

text_empty : (t : List ℕ) → (char_at t ≡ 0) ↔ (text t ≡ [])
unfolding text
text_empty [] = ground arith
text_empty (c ∷ t) = ground arith

-- The text of a string that goes on.
text_more : (c : ℕ) (s : List ℕ) → (c == 0) ≡ false → text (c ∷ s) ≡ c ∷ text s
unfolding text
text_more c s ne = rw ne refl

text_over : (c : ℕ) (s : List ℕ) → (c == 0) ≡ true → text (c ∷ s) ≡ []
unfolding text
text_over c s e = rw e refl

same_text : (s t : List ℕ) → strcmp s t ≡ pos 0 → text s ≡ text t
unfolding strcmp text
same_text [] t h = sym ((text_empty t).0 (sym ((char_diff_iff 0 (char_at t)).0 h)))
same_text (a ∷ s) t h = elim (Bool-cases (not (a == 0) && (a == char_at t))) [
  | inr stop ↦ stopped stop ((char_diff_iff a (char_at t)).0 (rw stop at h))
  | inl on ↦ goes_on t (λ u. same_text s u) on (rw on at h)
]
  where
    stopped : not (a == 0) && (a == char_at t) ≡ false → a ≡ char_at t → text (a ∷ s) ≡ text t
    stopped stop same = text_over a s (ground arith) ∙ sym ((text_empty t).0 (ground arith))

    goes_on :
        (t : List ℕ)
        → ((u : List ℕ) → strcmp s u ≡ pos 0 → text s ≡ text u)
        → not (a == 0) && (a == char_at t) ≡ true
        → strcmp s (next_char t) ≡ pos 0
        → text (a ∷ s) ≡ text t
    goes_on [] rest on h = absurd (ground arith)
    goes_on (b ∷ t) rest on h =
        let same : a ≡ b = ground arith in
        text_more a s (ground arith)
        ∙ (λ i. same i ∷ rest t h i)
        ∙ sym (text_more b t (ground arith))

list_head : {a b : ℕ} {s t : List ℕ} → a ∷ s ≡ b ∷ t → (a ≡ b) × (s ≡ t)
list_head {b = b} {t = t} e = (ap char_at e, ap next_char e)

text_equal : (s t : List ℕ) → text s ≡ text t → strcmp s t ≡ pos 0
unfolding strcmp text
text_equal [] t h = (char_diff_iff 0 (char_at t)).1 (sym ((text_empty t).1 (sym h)))
text_equal (a ∷ s) t h = elim (Bool-cases (a == 0)) [
  | inl e ↦
      let over : char_at t ≡ 0 = (text_empty t).1 (sym h ∙ text_over a s e) in
      let stop : not (a == 0) && (a == char_at t) ≡ false = ground arith in
      rw stop ((char_diff_iff a (char_at t)).1 (ground arith))
  | inr ne ↦ goes_on t (λ u. text_equal s u) ne h
]
  where
    goes_on :
        (t : List ℕ)
        → ((u : List ℕ) → text s ≡ text u → strcmp s u ≡ pos 0)
        → (a == 0) ≡ false
        → text (a ∷ s) ≡ text t
        → strcmp (a ∷ s) t ≡ pos 0
    goes_on [] rest ne h = absurd (ground (arith, (text_empty (a ∷ s)).1 h))
    goes_on (b ∷ t) rest ne h = elim (Bool-cases (b == 0)) [
      | inl z ↦ absurd (ground (arith, (text_empty (a ∷ s)).1 (h ∙ text_over b t z)))
      | inr nz ↦
          let both = list_head (sym (text_more a s ne) ∙ h ∙ text_more b t nz) in
          let on : not (a == 0) && (a == b) ≡ true = ground (arith, both.0) in rw on (rest t both.1)
    ]

-- `strcmp` gives 0 exactly for strings of the same text.
pub strcmp_iff : (s t : List ℕ) → (strcmp s t ≡ pos 0) ↔ (text s ≡ text t)
strcmp_iff s t = (same_text s t, text_equal s t)

-- The negative of a number.
abbrev pub minus : ℤ → ℤ
minus (pos n) = if n == 0 then pos 0 else negsuc (n - 1)
minus (negsuc n) = pos (n + 1)

minus-char_diff : (a b : ℕ) → char_diff b a ≡ minus (char_diff a b)
minus-char_diff a b = ground arith

-- Exchanging the strings changes the sign of what `strcmp` gives.
pub strcmp_swap : (s t : List ℕ) → strcmp t s ≡ minus (strcmp s t)
unfolding strcmp
strcmp_swap [] [] = ground arith
strcmp_swap [] (b ∷ t) = ground (arith, minus-char_diff 0 b)
strcmp_swap (a ∷ s) [] = ground (arith, minus-char_diff a 0)
strcmp_swap (a ∷ s) (b ∷ t) = ground (arith, minus-char_diff a b, strcmp_swap s t)

-- `strncmp` compares the strings that end after `n` bytes at the latest.
pub strncmp-strcmp : (n : ℕ) (s t : List ℕ) → strncmp n s t ≡ strcmp (take n s) (take n t)
unfolding strncmp strcmp
strncmp-strcmp zero s t = refl
strncmp-strcmp (suc zero) [] [] = refl
strncmp-strcmp (suc zero) [] (b ∷ t) = refl
strncmp-strcmp (suc zero) (a ∷ s) [] = ground arith
strncmp-strcmp (suc zero) (a ∷ s) (b ∷ t) = ground arith
strncmp-strcmp (suc (suc n)) [] [] = refl
strncmp-strcmp (suc (suc n)) [] (b ∷ t) = refl
strncmp-strcmp (suc (suc n)) (a ∷ s) [] = ground (arith, strncmp-strcmp (suc n) s [])
strncmp-strcmp (suc (suc n)) (a ∷ s) (b ∷ t) = rw (strncmp-strcmp (suc n) s t) refl
