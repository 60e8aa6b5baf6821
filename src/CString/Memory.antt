-- ===== src/CString/Memory.antt =====
-- `memcpy` and `memmove` of kernel/lib/string.c on one memory: the list of its bytes, by address.
pub mod Laws
use obelisk_os.Prelude.{
  ℕ, zero, suc, ◌+◌, ◌*◌, ◌/◌, ◌%◌, List, [], ◌∷◌, Bool, ◌&&◌, ◌||◌, ◌==◌, leb, ltb, if◌then◌else◌,
  get_or, set,
}

-- `*d++ = *s++`
unfoldable pub copy_bytes : ℕ → List ℕ → ℕ → ℕ → List ℕ
copy_bytes zero mem d s = mem
copy_bytes (suc n) mem d s = copy_bytes n (set mem d (get_or mem s 0)) (d + 1) (s + 1)

pub read_bytes : ℕ → List ℕ → ℕ → List ℕ
read_bytes zero mem s = []
read_bytes (suc n) mem s = get_or mem s 0 ∷ read_bytes n mem (s + 1)

pub write_bytes : List ℕ → List ℕ → ℕ → List ℕ
write_bytes [] mem d = mem
write_bytes (b ∷ bs) mem d = write_bytes bs (set mem d b) (d + 1)

-- `*d64++ = *s64++`: a word is its eight bytes, all read before the first is written.
unfoldable pub copy_words : ℕ → List ℕ → ℕ → ℕ → List ℕ
unfolding read_bytes write_bytes
copy_words zero mem d s = mem
copy_words (suc n) mem d s = copy_words n (write_bytes (read_bytes 8 mem s) mem d) (d + 8) (s + 8)

unfoldable pub memcpy : List ℕ → ℕ → ℕ → ℕ → List ℕ
unfolding copy_bytes copy_words
memcpy mem d s n =
    if leb 8 n && (d % 8 == 0) && (s % 8 == 0)
    then copy_bytes (n % 8) (copy_words (n / 8) mem d s) (d + 8 * (n / 8)) (s + 8 * (n / 8))
    else copy_bytes n mem d s

-- `*--d = *--s`
unfoldable pub copy_back : ℕ → List ℕ → ℕ → ℕ → List ℕ
copy_back zero mem d s = mem
copy_back (suc n) mem d s = copy_back n (set mem (d + n) (get_or mem (s + n) 0)) d s

unfoldable pub memmove : List ℕ → ℕ → ℕ → ℕ → List ℕ
unfolding memcpy copy_back
memmove mem d s n = if ltb d s || leb (s + n) d then memcpy mem d s n else copy_back n mem d s
