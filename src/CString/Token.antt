-- ===== src/CString/Token.antt =====
-- `strtok_r` and `strtok` of kernel/lib/string.c. Cutting a string puts a 0 after the token: the token and
-- what `*saveptr` points to are the two parts of the array.
use obelisk_os.Prelude.{
  ℕ, List, [], ◌∷◌, Option, none, some, Bool, true, false, not, ◌&&◌, ◌==◌, if◌then◌else◌,
}
use obelisk_os.CString.Search.{strchr}

-- `strchr(delim, c)` is not NULL.
pub is_delim : List ℕ → ℕ → Bool
is_delim delim c = elim (strchr delim c) [ none ↦ false | some i ↦ true ]

pub skip_delims : List ℕ → List ℕ → List ℕ
unfolding is_delim
skip_delims delim [] = []
skip_delims delim (c ∷ s) =
    let rest = skip_delims delim s in if not (c == 0) && is_delim delim c then rest else c ∷ s

-- The token with the 0 that is written, and the string behind it.
pub cut_token : List ℕ → List ℕ → List ℕ × List ℕ
unfolding is_delim
cut_token delim [] = ([], [])
cut_token delim (c ∷ s) =
    let rest = cut_token delim s in
    if c == 0
    then (0 ∷ [], c ∷ s)
    else if is_delim delim c
    then (0 ∷ [], s)
    else (c ∷ rest.0, rest.1)

-- At the end of the string there is no token, and the saved pointer stays there.
pub token_at : List ℕ → List ℕ → Option (List ℕ) × List ℕ
unfolding cut_token
token_at delim [] = (none, [])
token_at delim (c ∷ s) =
    let cut = cut_token delim (c ∷ s) in if c == 0 then (none, c ∷ s) else (some cut.0, cut.1)

pub strtok_r : Option (List ℕ) → List ℕ → List ℕ → Option (List ℕ) × List ℕ
unfolding token_at skip_delims
strtok_r none delim saved = token_at delim (skip_delims delim saved)
strtok_r (some str) delim saved = token_at delim (skip_delims delim str)
