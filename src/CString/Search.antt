-- ===== src/CString/Search.antt =====
-- `strchr`, `strrchr`, `strstr` and `memchr` of kernel/lib/string.c. A pointer into the string is its
-- offset, and `none` is NULL.
pub mod Laws
use obelisk_os.Prelude.{
  ℕ, zero, suc, ◌+◌, ◌%◌, ℤ, pos, negsuc, List, [], ◌∷◌, Option, none, some, Bool, true, false, not,
  ◌&&◌, ◌==◌, if◌then◌else◌,
}
use obelisk_os.CString.Length.{strlen}
use obelisk_os.CString.Compare.{strncmp}

-- The offset in the rest of a string, seen from one byte before.
abbrev pub one_on : Option ℕ → Option ℕ
one_on none = none
one_on (some i) = some (suc i)

pub strchr : List ℕ → ℕ → Option ℕ
strchr [] c = if c == 0 then some 0 else none
strchr (x ∷ s) c =
    let rest = strchr s c in
    if x == 0
    then (if c == 0 then some 0 else none)
    else if x == c % 256
    then some 0
    else one_on rest

-- The loop of `strrchr`, at offset `i`, with what it found last.
pub last_from : List ℕ → ℕ → ℕ → Option ℕ → Option ℕ
last_from [] c i last = if c == 0 then some i else last
last_from (x ∷ s) c i last =
    let found = last_from s c (suc i) (some i) in
    let rest = last_from s c (suc i) last in
    if x == 0 then (if c == 0 then some i else last) else if x == c % 256 then found else rest

pub strrchr : List ℕ → ℕ → Option ℕ
unfolding last_from
strrchr s c = last_from s c 0 none

abbrev pub is_zero : ℤ → Bool
is_zero (pos n) = n == 0
is_zero (negsuc n) = false

pub find_needle : List ℕ → List ℕ → ℕ → Option ℕ
find_needle [] needle needle_len = none
find_needle (x ∷ s) needle needle_len =
    let rest = find_needle s needle needle_len in
    if x == 0
    then none
    else if is_zero (strncmp needle_len (x ∷ s) needle)
    then some 0
    else one_on rest

pub strstr : List ℕ → List ℕ → Option ℕ
unfolding find_needle
strstr haystack needle =
    if strlen needle == 0 then some 0 else find_needle haystack needle (strlen needle)

pub memchr : List ℕ → ℕ → ℕ → Option ℕ
memchr s c zero = none
memchr [] c (suc n) = if 0 == c % 256 then some 0 else one_on (memchr [] c n)
memchr (x ∷ s) c (suc n) = let rest = memchr s c n in if x == c % 256 then some 0 else one_on rest
