-- ===== src/CString/Memory/Laws.antt =====
-- `memcpy` and `memmove` of kernel/lib/string.c move the bytes that they are asked to.
use obelisk_os.Prelude.{
  ℕ, zero, suc, ◌+◌, ◌-◌, ◌*◌, ◌/◌, ◌%◌, ◌≤◌, ◌<◌, ◌≡◌, ◌⊎◌, inl, inr, refl, sym, ◌∙◌, ap, arith,
  List, [], ◌∷◌, ◌&&◌, ◌||◌, ◌==◌, leb, ltb, if◌then◌else◌, get_or, set, length, length-set,
  get_or-set_self, get_or-set_ne, Bool-cases,
}
use obelisk_os.CString.Memory.{
  copy_bytes, read_bytes, write_bytes, copy_words, memcpy, copy_back, memmove,
}

abbrev pub byte : List ℕ → ℕ → ℕ
byte mem i = get_or mem i 0

-- `new` is `old` with the `n` bytes from `s` on, as they were, at `d`.
pub record Moved (old new : List ℕ) (d s n : ℕ) : Type 0 where
  pub same_size : length new ≡ length old
  pub inside : (i : ℕ) → i < n → byte new (d + i) ≡ byte old (s + i)
  pub outside : (i : ℕ) → (i < d) ⊎ (d + n ≤ i) → byte new i ≡ byte old i

Moved-nothing : (mem : List ℕ) (d s : ℕ) → Moved mem mem d s 0
Moved-nothing mem d s = record {
  same_size = refl;
  inside = λ i h. absurd (omega arith);
  outside = λ i h. refl;
}

byte-set :
    (mem : List ℕ) (d v i : ℕ)
    → d < length mem
    → byte (set mem d v) i ≡ (if i == d then v else byte mem i)
byte-set mem d v i h = elim (Bool-cases (i == d)) [
  | inl e ↦
      let same : i ≡ d = ground arith in
      rw e (ap (byte (set mem d v)) same ∙ get_or-set_self mem d v 0 h)
  | inr e ↦ rw e (get_or-set_ne mem d i v 0 (ground arith))
]

-- A run and the run behind it: the second reads what the first left alone, or what lies below it.
joined :
    {old mid new : List ℕ} (d s a b : ℕ)
    → Moved old mid d s a
    → Moved mid new (d + a) (s + a) b
    → (d ≤ s) ⊎ (s + (a + b) ≤ d)
    → Moved old new d s (a + b)
joined {old = old} {mid = mid} {new = new} d s a b first second way = record {
  same_size = second.same_size ∙ first.same_size;
  inside = λ i h. elim (Bool-cases (ltb i a)) [
    | inl lt ↦ second.outside (d + i) (ground arith) ∙ first.inside i (ground arith)
    | inr ge ↦ later i h (ground arith)
  ];
  outside = λ i h. second.outside i (omega arith) ∙ first.outside i (omega arith);
}
  where
    later : (i : ℕ) → i < a + b → a ≤ i → byte new (d + i) ≡ byte old (s + i)
    later i h le =
        let k = i - a in
        let at_new : d + a + k ≡ d + i = omega arith in
        let at_old : s + a + k ≡ s + i = omega arith in
        ap (byte new) (sym at_new)
        ∙ second.inside k (omega arith)
        ∙ ap (byte mid) at_old
        ∙ first.outside (s + i) (omega arith)

one_byte : (mem : List ℕ) (d s : ℕ) → d < length mem → Moved mem (set mem d (byte mem s)) d s 1
one_byte mem d s h = record {
  same_size = length-set mem d (byte mem s);
  inside = λ i lt.
      let to : d + i ≡ d = omega arith in
      let from : s + i ≡ s = omega arith in rw (to, from) (get_or-set_self mem d (byte mem s) 0 h);
  outside = λ i out. get_or-set_ne mem d i (byte mem s) 0 (omega arith);
}

copy_bytes-Moved :
    (n : ℕ) (mem : List ℕ) (d s : ℕ)
    → d + n ≤ length mem
    → (d ≤ s) ⊎ (s + n ≤ d)
    → Moved mem (copy_bytes n mem d s) d s n
unfolding copy_bytes
copy_bytes-Moved zero mem d s fits way = Moved-nothing mem d s
copy_bytes-Moved (suc n) mem d s fits way =
    let more : suc n ≡ 1 + n = omega arith in
    let first = one_byte mem d s (omega arith) in
    rw more (
      joined d s 1 n first
        (copy_bytes-Moved n (set mem d (byte mem s)) (d + 1) (s + 1)
          (omega (arith, first.same_size)) (omega arith))
        (omega arith))

length-read_bytes : (n : ℕ) (mem : List ℕ) (s : ℕ) → length (read_bytes n mem s) ≡ n
unfolding read_bytes
length-read_bytes zero mem s = refl
length-read_bytes (suc n) mem s = ap suc (length-read_bytes n mem (s + 1))

get_or-read_bytes :
    (n : ℕ) (mem : List ℕ) (s i : ℕ) → i < n → get_or (read_bytes n mem s) i 0 ≡ byte mem (s + i)
unfolding read_bytes
get_or-read_bytes zero mem s i h = absurd (omega arith)
get_or-read_bytes (suc n) mem s zero h = ap (byte mem) (omega arith)
get_or-read_bytes (suc n) mem s (suc i) h =
    get_or-read_bytes n mem (s + 1) i (omega arith) ∙ ap (byte mem) (omega arith)

pub length-write_bytes : (bs mem : List ℕ) (d : ℕ) → length (write_bytes bs mem d) ≡ length mem
unfolding write_bytes
length-write_bytes [] mem d = refl
length-write_bytes (b ∷ bs) mem d = length-write_bytes bs (set mem d b) (d + 1) ∙ length-set mem d b

pub write_bytes_outside :
    (bs mem : List ℕ) (d i : ℕ)
    → (i < d) ⊎ (d + length bs ≤ i)
    → byte (write_bytes bs mem d) i ≡ byte mem i
unfolding write_bytes
write_bytes_outside [] mem d i h = refl
write_bytes_outside (b ∷ bs) mem d i h =
    write_bytes_outside bs (set mem d b) (d + 1) i (omega arith)
    ∙ get_or-set_ne mem d i b 0 (omega arith)

pub write_bytes_inside :
    (bs mem : List ℕ) (d i : ℕ)
    → d + length bs ≤ length mem
    → i < length bs
    → byte (write_bytes bs mem d) (d + i) ≡ get_or bs i 0
unfolding write_bytes
write_bytes_inside [] mem d i fits h = absurd (omega arith)
write_bytes_inside (b ∷ bs) mem d zero fits h =
    ap (byte (write_bytes bs (set mem d b) (d + 1))) (omega arith)
    ∙ write_bytes_outside bs (set mem d b) (d + 1) d (omega arith)
    ∙ get_or-set_self mem d b 0 (omega arith)
write_bytes_inside (b ∷ bs) mem d (suc i) fits h =
    ap (byte (write_bytes bs (set mem d b) (d + 1))) (omega arith)
    ∙ write_bytes_inside bs (set mem d b) (d + 1) i (omega (arith, length-set mem d b))
        (omega arith)

one_word :
    (mem : List ℕ) (d s : ℕ)
    → d + 8 ≤ length mem
    → Moved mem (write_bytes (read_bytes 8 mem s) mem d) d s 8
one_word mem d s h = record {
  same_size = length-write_bytes (read_bytes 8 mem s) mem d;
  inside = λ i lt.
      write_bytes_inside (read_bytes 8 mem s) mem d i (omega (arith, length-read_bytes 8 mem s))
        (omega (arith, length-read_bytes 8 mem s))
      ∙ get_or-read_bytes 8 mem s i lt;
  outside = λ i out.
      write_bytes_outside (read_bytes 8 mem s) mem d i (omega (arith, length-read_bytes 8 mem s));
}

copy_words-Moved :
    (n : ℕ) (mem : List ℕ) (d s : ℕ)
    → d + 8 * n ≤ length mem
    → (d ≤ s) ⊎ (s + 8 * n ≤ d)
    → Moved mem (copy_words n mem d s) d s (8 * n)
unfolding copy_words
copy_words-Moved zero mem d s fits way = Moved-nothing mem d s
copy_words-Moved (suc n) mem d s fits way =
    let more : 8 * suc n ≡ 8 + 8 * n = omega arith in
    let first = one_word mem d s (omega arith) in
    rw more (
      joined d s 8 (8 * n) first
        (copy_words-Moved n (write_bytes (read_bytes 8 mem s) mem d) (d + 8) (s + 8)
          (omega (arith, first.same_size)) (omega arith))
        (omega arith))

-- Where the destination lies in memory, and the two areas do not overlap or the destination starts
-- first, `memcpy` puts the bytes of the source at the destination and leaves all others, whether it
-- copies by words or by bytes.
pub memcpy-Moved :
    (mem : List ℕ) (d s n : ℕ)
    → d + n ≤ length mem
    → (d ≤ s) ⊎ (s + n ≤ d)
    → Moved mem (memcpy mem d s n) d s n
unfolding memcpy
memcpy-Moved mem d s n fits way = elim (Bool-cases (leb 8 n && (d % 8 == 0) && (s % 8 == 0))) [
  | inr bytes ↦ rw bytes (copy_bytes-Moved n mem d s fits way)
  | inl words ↦
      let split : 8 * (n / 8) + n % 8 ≡ n = omega arith in
      let first = copy_words-Moved (n / 8) mem d s (omega arith) (omega arith) in
      rw words (
        rw split at (
          joined d s (8 * (n / 8)) (n % 8) first
            (copy_bytes-Moved (n % 8) (copy_words (n / 8) mem d s) (d + 8 * (n / 8))
              (s + 8 * (n / 8)) (omega (arith, first.same_size)) (omega arith))
            (omega arith)))
]

-- The loop that runs down, with the source below the destination.
copy_back-Moved :
    (n : ℕ) (mem : List ℕ) (d s : ℕ)
    → d + n ≤ length mem
    → s ≤ d
    → Moved mem (copy_back n mem d s) d s n
unfolding copy_back
copy_back-Moved zero mem d s fits below = Moved-nothing mem d s
copy_back-Moved (suc n) mem d s fits below =
    let mid = set mem (d + n) (byte mem (s + n)) in
    let rest =
      copy_back-Moved n mid d s (omega (arith, length-set mem (d + n) (byte mem (s + n)))) below in
    record {
      same_size = rest.same_size ∙ length-set mem (d + n) (byte mem (s + n));
      inside = λ i h. elim (Bool-cases (i == n)) [
        | inl e ↦
            let last : i ≡ n = ground arith in
            rw last (
              rest.outside (d + n) (omega arith)
              ∙ get_or-set_self mem (d + n) (byte mem (s + n)) 0 (omega arith))
        | inr ne ↦
            rest.inside i (ground arith)
            ∙ get_or-set_ne mem (d + n) (s + i) (byte mem (s + n)) 0 (ground arith)
      ];
      outside = λ i h.
          rest.outside i (omega arith)
          ∙ get_or-set_ne mem (d + n) i (byte mem (s + n)) 0 (omega arith);
    }

-- Where the destination lies in memory, `memmove` puts the bytes that the source held before the call at
-- the destination and leaves all others, however the two areas overlap.
pub memmove-Moved :
    (mem : List ℕ) (d s n : ℕ) → d + n ≤ length mem → Moved mem (memmove mem d s n) d s n
unfolding memmove
memmove-Moved mem d s n fits = elim (Bool-cases (ltb d s || leb (s + n) d)) [
  | inl way ↦ rw way (memcpy-Moved mem d s n fits (ground arith))
  | inr back ↦ rw back (copy_back-Moved n mem d s fits (ground arith))
]
