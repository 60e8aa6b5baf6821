-- ===== src/CString/Fill.antt =====
-- `memset` and `bzero` of kernel/lib/string.c, on one memory.
pub mod Laws
use Prim.Native.Nat.{bit_or}
use obelisk_os.Prelude.{
  ℕ, zero, suc, ◌+◌, ◌*◌, ◌/◌, ◌%◌, ◌^◌, List, [], ◌∷◌, ◌&&◌, ◌==◌, leb, if◌then◌else◌, set,
}
use obelisk_os.CString.Memory.{write_bytes}

-- `fill |= fill << 8` and so on
unfoldable pub fill_word : ℕ → ℕ
fill_word byte =
    let two = bit_or byte (byte * 2 ^ 8 % 2 ^ 64) in
    let four = bit_or two (two * 2 ^ 16 % 2 ^ 64) in bit_or four (four * 2 ^ 32 % 2 ^ 64)

-- The bytes of a word, the low one first, as the machine stores them.
unfoldable pub word_bytes : ℕ → ℕ → List ℕ
word_bytes zero w = []
word_bytes (suc n) w = w % 2 ^ 8 ∷ word_bytes n (w / 2 ^ 8)

unfoldable pub set_bytes : ℕ → List ℕ → ℕ → ℕ → List ℕ
set_bytes zero mem p byte = mem
set_bytes (suc n) mem p byte = set_bytes n (set mem p byte) (p + 1) byte

unfoldable pub set_words : ℕ → List ℕ → ℕ → ℕ → List ℕ
unfolding word_bytes
set_words zero mem p fill = mem
set_words (suc n) mem p fill = set_words n (write_bytes (word_bytes 8 fill) mem p) (p + 8) fill

-- `c` is cut to a byte.
unfoldable pub memset : List ℕ → ℕ → ℕ → ℕ → List ℕ
unfolding set_bytes set_words fill_word
memset mem s c n =
    let byte = c % 2 ^ 8 in
    if leb 8 n && (s % 8 == 0)
    then set_bytes (n % 8) (set_words (n / 8) mem s (fill_word byte)) (s + 8 * (n / 8)) byte
    else set_bytes n mem s byte

unfoldable pub bzero : List ℕ → ℕ → ℕ → List ℕ
unfolding memset
bzero mem s n = memset mem s 0 n
