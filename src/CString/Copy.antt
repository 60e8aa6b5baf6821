-- ===== src/CString/Copy.antt =====
-- `strcpy`, `strncpy`, `strcat` and `strncat` of kernel/lib/string.c; the result is the array at `dest`.
pub mod Laws
use obelisk_os.Prelude.{ℕ, zero, suc, List, [], ◌∷◌, Bool, true, false, ◌==◌, if◌then◌else◌}

pub strcpy : List ℕ → List ℕ → List ℕ
strcpy [] src = []
strcpy (d ∷ dest) [] = 0 ∷ dest
strcpy (d ∷ dest) (c ∷ src) = let rest = strcpy dest src in c ∷ (if c == 0 then dest else rest)

-- `while (n--) *dest++ = '\0';`
pub zero_fill : ℕ → List ℕ → List ℕ
zero_fill zero dest = dest
zero_fill (suc n) [] = []
zero_fill (suc n) (d ∷ dest) = 0 ∷ zero_fill n dest

-- The first loop leaves `n` as it is when it copies the 0, and the second writes `n` more bytes.
pub strncpy : ℕ → List ℕ → List ℕ → List ℕ
unfolding zero_fill
strncpy zero dest src = dest
strncpy (suc n) [] src = []
strncpy (suc n) (d ∷ dest) [] = 0 ∷ zero_fill (suc n) dest
strncpy (suc n) (d ∷ dest) (c ∷ src) =
    let rest = strncpy n dest src in c ∷ (if c == 0 then zero_fill (suc n) dest else rest)

pub strcat : List ℕ → List ℕ → List ℕ
unfolding strcpy
strcat [] src = []
strcat (d ∷ dest) src =
    let rest = strcat dest src in if d == 0 then strcpy (d ∷ dest) src else d ∷ rest

-- The second loop of `strncat` and the terminator, from the end of `dest` on.
pub append_bounded : ℕ → List ℕ → List ℕ → List ℕ
append_bounded n [] src = []
append_bounded zero (d ∷ dest) src = 0 ∷ dest
append_bounded (suc n) (d ∷ dest) [] = 0 ∷ dest
append_bounded (suc n) (d ∷ dest) (c ∷ src) =
    let rest = append_bounded n dest src in if c == 0 then 0 ∷ dest else c ∷ rest

pub strncat : List ℕ → List ℕ → ℕ → List ℕ
unfolding append_bounded
strncat [] src n = []
strncat (d ∷ dest) src n =
    let rest = strncat dest src n in if d == 0 then append_bounded n (d ∷ dest) src else d ∷ rest
