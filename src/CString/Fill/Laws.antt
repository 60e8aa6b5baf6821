-- ===== src/CString/Fill/Laws.antt =====
-- `memset` of kernel/lib/string.c sets the bytes that it is asked to, by words or by bytes.
use obelisk_os.Prelude.{
  ℕ, zero, suc, ◌+◌, ◌-◌, ◌*◌, ◌/◌, ◌%◌, ◌^◌, ◌≤◌, ◌<◌, ◌≡◌, ◌⊎◌, inl, inr, refl, ◌∙◌, ap, arith,
  List, [], ◌∷◌, Bool, true, ◌&&◌, ◌==◌, leb, ltb, get_or, set, length, length-set, get_or-set_self,
  get_or-set_ne, Bool-cases,
}
use obelisk_os.CString.Memory.{write_bytes}
use obelisk_os.CString.Memory.Laws.{
  byte, length-write_bytes, write_bytes_outside, write_bytes_inside,
}
use obelisk_os.CString.Fill.{fill_word, word_bytes, set_bytes, set_words, memset}

-- Every byte of the word is the given one.
all_equal : ℕ → List ℕ → Bool
all_equal b [] = true
all_equal b (x ∷ xs) = x == b && all_equal b xs

fills_below : ℕ → Bool
unfolding all_equal
fills_below zero = true
fills_below (suc b) = all_equal b (word_bytes 8 (fill_word b)) && fills_below b

-- Each of the 256 bytes, computed.
every_fill : fills_below 256 ≡ true
unfolding fills_below fill_word word_bytes
every_fill = refl

all_equal_lem :
    (b : ℕ) (xs : List ℕ) (i : ℕ) → all_equal b xs ≡ true → i < length xs → get_or xs i 0 ≡ b
unfolding all_equal
all_equal_lem b [] i e h = absurd (omega arith)
all_equal_lem b (x ∷ xs) zero e h = ground arith
all_equal_lem b (x ∷ xs) (suc i) e h = all_equal_lem b xs i (ground arith) (omega arith)

fills_below_lem :
    (n b : ℕ) → fills_below n ≡ true → b < n → all_equal b (word_bytes 8 (fill_word b)) ≡ true
unfolding fills_below
fills_below_lem zero b e h = absurd (omega arith)
fills_below_lem (suc n) b e h = elim (Bool-cases (b == n)) [
  | inl same ↦ let here : n ≡ b = ground arith in rw here at (first n e)
  | inr other ↦ fills_below_lem n b (ground arith) (ground arith)
]
  where
    first :
        (n : ℕ)
        → all_equal n (word_bytes 8 (fill_word n)) && fills_below n ≡ true
        → all_equal n (word_bytes 8 (fill_word n)) ≡ true
    first n e = ground arith

length-word_bytes : (n w : ℕ) → length (word_bytes n w) ≡ n
unfolding word_bytes
length-word_bytes zero w = refl
length-word_bytes (suc n) w = ap suc (length-word_bytes n (w / 2 ^ 8))

fill_byte : (b i : ℕ) → b < 256 → i < 8 → get_or (word_bytes 8 (fill_word b)) i 0 ≡ b
fill_byte b i small h =
    all_equal_lem b (word_bytes 8 (fill_word b)) i (fills_below_lem 256 b every_fill small)
      (omega (arith, length-word_bytes 8 (fill_word b)))

-- `new` is `old` with `n` bytes `b` from `p` on.
pub record Filled (old new : List ℕ) (p n b : ℕ) : Type 0 where
  pub same_size : length new ≡ length old
  pub inside : (i : ℕ) → i < n → byte new (p + i) ≡ b
  pub outside : (i : ℕ) → (i < p) ⊎ (p + n ≤ i) → byte new i ≡ byte old i

Filled-nothing : (mem : List ℕ) (p b : ℕ) → Filled mem mem p 0 b
Filled-nothing mem p b = record {
  same_size = refl;
  inside = λ i h. absurd (omega arith);
  outside = λ i h. refl;
}

Filled-joined :
    {old mid new : List ℕ} (p m n b : ℕ)
    → Filled old mid p m b
    → Filled mid new (p + m) n b
    → Filled old new p (m + n) b
Filled-joined {new = new} p m n b first second = record {
  same_size = second.same_size ∙ first.same_size;
  inside = λ i h. elim (Bool-cases (ltb i m)) [
    | inl lt ↦ second.outside (p + i) (ground arith) ∙ first.inside i (ground arith)
    | inr ge ↦
        ap (byte new) (place i (ground arith)) ∙ second.inside (i - m) (ground (arith, ge, h))
  ];
  outside = λ i h. second.outside i (omega arith) ∙ first.outside i (omega arith);
}
  where
    place : (i : ℕ) → m ≤ i → p + i ≡ p + m + (i - m)
    place i h = omega arith

one_byte : (mem : List ℕ) (p b : ℕ) → p < length mem → Filled mem (set mem p b) p 1 b
one_byte mem p b h = record {
  same_size = length-set mem p b;
  inside = λ i lt. let to : p + i ≡ p = omega arith in rw to (get_or-set_self mem p b 0 h);
  outside = λ i out. get_or-set_ne mem p i b 0 (omega arith);
}

one_word :
    (mem : List ℕ) (p b : ℕ)
    → b < 256
    → p + 8 ≤ length mem
    → Filled mem (write_bytes (word_bytes 8 (fill_word b)) mem p) p 8 b
one_word mem p b small h =
    let bs = word_bytes 8 (fill_word b) in
    let eight = length-word_bytes 8 (fill_word b) in
    record {
      same_size = length-write_bytes bs mem p;
      inside = λ i lt.
          write_bytes_inside bs mem p i (omega (arith, eight)) (omega (arith, eight))
          ∙ fill_byte b i small lt;
      outside = λ i out. write_bytes_outside bs mem p i (omega (arith, eight));
    }

set_bytes-Filled :
    (n : ℕ) (mem : List ℕ) (p b : ℕ) → p + n ≤ length mem → Filled mem (set_bytes n mem p b) p n b
unfolding set_bytes
set_bytes-Filled zero mem p b fits = Filled-nothing mem p b
set_bytes-Filled (suc n) mem p b fits =
    let more : suc n ≡ 1 + n = omega arith in
    let first = one_byte mem p b (omega arith) in
    rw more (
      Filled-joined p 1 n b first
        (set_bytes-Filled n (set mem p b) (p + 1) b (omega (arith, first.same_size))))

set_words-Filled :
    (n : ℕ) (mem : List ℕ) (p b : ℕ)
    → b < 256
    → p + 8 * n ≤ length mem
    → Filled mem (set_words n mem p (fill_word b)) p (8 * n) b
unfolding set_words
set_words-Filled zero mem p b small fits = Filled-nothing mem p b
set_words-Filled (suc n) mem p b small fits =
    let more : 8 * suc n ≡ 8 + 8 * n = omega arith in
    let first = one_word mem p b small (omega arith) in
    rw more (
      Filled-joined p 8 (8 * n) b first (
        set_words-Filled n (write_bytes (word_bytes 8 (fill_word b)) mem p) (p + 8) b small
          (omega (arith, first.same_size))))

-- Where the area lies in memory, `memset` sets every byte of it to the low byte of `c` and leaves all
-- others, whether it fills by words or by bytes.
pub memset-Filled :
    (mem : List ℕ) (s c n : ℕ) → s + n ≤ length mem → Filled mem (memset mem s c n) s n (c % 2 ^ 8)
unfolding memset
memset-Filled mem s c n fits = elim (Bool-cases (leb 8 n && (s % 8 == 0))) [
  | inr bytes ↦ rw bytes (set_bytes-Filled n mem s (c % 2 ^ 8) fits)
  | inl words ↦
      let split : 8 * (n / 8) + n % 8 ≡ n = omega arith in
      let first = set_words-Filled (n / 8) mem s (c % 2 ^ 8) (omega arith) (omega arith) in
      rw words (
        rw split at (
          Filled-joined s (8 * (n / 8)) (n % 8) (c % 2 ^ 8) first (
            set_bytes-Filled (n % 8) (set_words (n / 8) mem s (fill_word (c % 2 ^ 8)))
              (s + 8 * (n / 8)) (c % 2 ^ 8) (omega (arith, first.same_size)))))
]
