-- ===== src/CString/Compare.antt =====
-- `strcmp`, `strncmp`, `strcasecmp` and `memcmp` of kernel/lib/string.c.
pub mod Laws
use obelisk_os.Prelude.{
  ℕ, zero, suc, ◌+◌, ◌-◌, ℤ, pos, negsuc, List, [], ◌∷◌, Bool, true, false, not, ◌&&◌, ◌==◌, leb,
  if◌then◌else◌, get_or, drop,
}

-- `*(unsigned char *)s1 - *(unsigned char *)s2`
abbrev pub char_diff : ℕ → ℕ → ℤ
char_diff a b = if leb b a then pos (a - b) else negsuc (b - a - 1)

abbrev pub char_at : List ℕ → ℕ
char_at [] = 0
char_at (c ∷ s) = c

abbrev pub next_char : List ℕ → List ℕ
next_char [] = []
next_char (c ∷ s) = s

pub strcmp : List ℕ → List ℕ → ℤ
strcmp [] t = char_diff 0 (char_at t)
strcmp (a ∷ s) t =
    let rest = strcmp s (next_char t) in
    if not (a == 0) && (a == char_at t) then rest else char_diff a (char_at t)

pub strncmp : ℕ → List ℕ → List ℕ → ℤ
strncmp zero s t = pos 0
strncmp (suc zero) s t = char_diff (char_at s) (char_at t)
strncmp (suc (suc n)) s t =
    let rest = strncmp (suc n) (next_char s) (next_char t) in
    if not (char_at s == 0) && (char_at s == char_at t)
    then rest
    else char_diff (char_at s) (char_at t)

-- 'A' to 'Z' to lower case
abbrev pub lower : ℕ → ℕ
lower c = if leb 65 c && leb c 90 then c + 32 else c

pub strcasecmp : List ℕ → List ℕ → ℤ
strcasecmp [] t = char_diff 0 (lower (char_at t))
strcasecmp (a ∷ s) t =
    let rest = strcasecmp s (next_char t) in
    let c1 = lower a in
    let c2 = lower (char_at t) in if not (c1 == 0) && (c1 == c2) then rest else char_diff c1 c2

pub memcmp : ℕ → List ℕ → List ℕ → ℤ
memcmp zero s t = pos 0
memcmp (suc n) s t =
    let rest = memcmp n (next_char s) (next_char t) in
    if not (char_at s == char_at t) then char_diff (char_at s) (char_at t) else rest
