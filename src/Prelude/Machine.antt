-- ===== src/Prelude/Machine.antt =====
-- Arithmetic on `uint64_t` and page sizes.
use Prim.Native.Nat.{ℕ, ◌+◌, ◌-◌, ◌*◌, ◌/◌, ◌%◌, ◌^◌}

-- The word wraps; `-` on ℕ stops at 0, so the modulus is added first.
abbrev pub add64 : ℕ → ℕ → ℕ
add64 a b = (a + b) % 2 ^ 64

abbrev pub sub64 : ℕ → ℕ → ℕ
sub64 a b = (a + 2 ^ 64 - b) % 2 ^ 64

abbrev pub page_size : ℕ
page_size = 4096

-- ALIGN_UP and ALIGN_DOWN to a page
abbrev pub align_up : ℕ → ℕ
align_up x = add64 x 4095 / 4096 * 4096

abbrev pub align_down : ℕ → ℕ
align_down x = x / 4096 * 4096
