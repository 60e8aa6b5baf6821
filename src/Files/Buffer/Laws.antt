-- ===== src/Files/Buffer/Laws.antt =====
-- What the buffer helpers of kernel/fs/file.c promise together.
use obelisk_os.Prelude.{
  ℕ, zero, suc, ◌+◌, ◌-◌, ◌≤◌, ◌<◌, ◌≡◌, refl, ap, ◌∙◌, arith, pos, List, [], ◌∷◌, ◌++◌, leb, take,
  drop, length, length-take, length-append, false, ok,
}
use obelisk_os.Files.Buffer.{clamp, simple_read_from_buffer, simple_write_to_buffer}

length-drop : (n : ℕ) (xs : List ℕ) → length (drop n xs) ≡ length xs - n
length-drop zero xs = omega arith
length-drop (suc n) [] = omega arith
length-drop (suc n) (x ∷ xs) = omega (arith, length-drop n xs)

drop_whole : (n : ℕ) (xs ys : List ℕ) → length xs ≡ n → drop n (xs ++ ys) ≡ ys
drop_whole zero [] ys e = refl
drop_whole zero (x ∷ xs) ys e = absurd (omega arith)
drop_whole (suc n) [] ys e = absurd (omega arith)
drop_whole (suc n) (x ∷ xs) ys e = drop_whole n xs ys (omega arith)

take_whole : (n : ℕ) (xs ys : List ℕ) → length xs ≡ n → take n (xs ++ ys) ≡ xs
take_whole zero [] ys e = refl
take_whole zero (x ∷ xs) ys e = absurd (omega arith)
take_whole (suc n) [] ys e = absurd (omega arith)
take_whole (suc n) (x ∷ xs) ys e = ap (λ l. x ∷ l) (take_whole n xs ys (omega arith))

-- The buffer after `n` bytes were written at `p`.
abbrev pub patched : List ℕ → ℕ → ℕ → List ℕ → List ℕ
patched to p n from = take p to ++ (take n from ++ drop (p + n) to)

-- What was written is read: for a position inside a buffer of `available` bytes and a source of `count`
-- bytes, `simple_write_to_buffer` writes as many bytes as fit, moves the position behind them and keeps
-- the size of the buffer; `simple_read_from_buffer` from the old position and with the same count then
-- gives the same bytes and ends at the same new position.
pub read-write :
    (to from : List ℕ) (p count : ℕ)
    → p < length to
    → count ≤ length from
    → let n = clamp count (length to) p in
      (simple_write_to_buffer to (length to) (pos p) from count
        ≡ ok (n, patched to p n from, p + n))
      × (length (patched to p n from) ≡ length to)
      × (simple_read_from_buffer count (pos p) (patched to p n from) (length to)
          ≡ ok (n, take n from, p + n))
unfolding simple_write_to_buffer simple_read_from_buffer
read-write to from p count inside whole = (rw room refl, size, rw (room, bytes) refl)
  where
    n : ℕ
    n = clamp count (length to) p

    room : leb (length to) p ≡ false
    room = ground arith

    n_fits : (n ≤ length from) × (p + n ≤ length to)
    n_fits = ground arith

    size : length (patched to p n from) ≡ length to
    size = omega (
      arith,
      length-append (take p to) (take n from ++ drop (p + n) to),
      length-append (take n from) (drop (p + n) to),
      length-take p to (omega arith),
      length-take n from (n_fits.0),
      length-drop (p + n) to,
      n_fits,
    )

    bytes : take n (drop p (patched to p n from)) ≡ take n from
    bytes =
        ap (take n) (
          drop_whole p (take p to) (take n from ++ drop (p + n) to)
            (length-take p to (omega arith)))
        ∙ take_whole n (take n from) (drop (p + n) to) (length-take n from (n_fits.0))
