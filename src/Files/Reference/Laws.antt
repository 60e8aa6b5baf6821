-- ===== src/Files/Reference/Laws.antt =====
-- How the reference counts of kernel/fs/file.c change.
use obelisk_os.Prelude.{
  ℕ, zero, suc, ◌+◌, ◌-◌, ◌%◌, ◌^◌, ◌<◌, ◌≡◌, refl, ap, ◌∙◌, arith, List, [], ◌∷◌, Option, none,
  some, ◌==◌, if◌then◌else◌, set, get_or, length, inl, inr, Bool-cases, get_or-set_self,
  get_or-set_ne,
}
use obelisk_os.Files.State.{File, Kernel, count_of, file_count}
use obelisk_os.Files.Reference.{get_file, put_file, get_live, put_live, free_file}

live_inside : (heap : List (Option File)) (p : ℕ) → 0 < file_count heap p → p < length heap
live_inside [] p h = absurd (omega arith)
live_inside (o ∷ heap) zero h = omega arith
live_inside (o ∷ heap) (suc p) h = omega (arith, live_inside heap p h)

pub file_count-set :
    (heap : List (Option File)) (p q : ℕ) (o : Option File)
    → p < length heap
    → file_count (set heap p o) q ≡ (if q == p then count_of o else file_count heap q)
file_count-set heap p q o h = elim (Bool-cases (q == p)) [
  | inl e ↦
      let same : q ≡ p = ground arith in
      rw e (ap (file_count (set heap p o)) same ∙ ap count_of (get_or-set_self heap p o none h))
  | inr e ↦ rw e (ap count_of (get_or-set_ne heap p q o none (ground arith)))
]

-- Dropping a reference of a live file lowers its count by one and no other.
pub file_count-put_file :
    (k : Kernel) (p q : ℕ)
    → 0 < file_count k.heap p
    → file_count k.heap p < 2 ^ 32
    → file_count (put_file k p).heap q
      ≡ (if q == p then file_count k.heap p - 1 else file_count k.heap q)
unfolding put_file put_live free_file
file_count-put_file k p q live small = go (get_or k.heap p none) refl
  where
    inside : p < length k.heap
    inside = live_inside k.heap p live

    go :
        (o : Option File)
        → get_or k.heap p none ≡ o
        → file_count (put_live k p o).heap q
          ≡ (if q == p then file_count k.heap p - 1 else file_count k.heap q)
    go none e = absurd (ground (arith, ap count_of e))
    go (some f) e =
        let here : file_count k.heap p ≡ f.f_count = ap count_of e in
        let left = (f.f_count + 2 ^ 32 - 1) % 2 ^ 32 in
        elim (Bool-cases (left == 0)) [
          | inl last ↦
              rw last (ground (arith, file_count-set k.heap p q none inside, here, live, small))
          | inr more ↦ rw more (
              ground (
                arith,
                file_count-set k.heap p q (some record f { f_count = left }) inside,
                here,
                live,
                small,
              ))
        ]

-- Taking a reference of a live file raises its count by one and no other.
pub file_count-get_file :
    (k : Kernel) (p q : ℕ)
    → 0 < file_count k.heap p
    → file_count k.heap p + 1 < 2 ^ 32
    → file_count (get_file k p).heap q
      ≡ (if q == p then file_count k.heap p + 1 else file_count k.heap q)
unfolding get_file get_live
file_count-get_file k p q live small = go (get_or k.heap p none) refl
  where
    inside : p < length k.heap
    inside = live_inside k.heap p live

    go :
        (o : Option File)
        → get_or k.heap p none ≡ o
        → file_count (get_live k p o).heap q
          ≡ (if q == p then file_count k.heap p + 1 else file_count k.heap q)
    go none e = absurd (ground (arith, ap count_of e))
    go (some f) e =
        let here : file_count k.heap p ≡ f.f_count = ap count_of e in
        ground (
          arith,
          file_count-set k.heap p q (some record f { f_count = (f.f_count + 1) % 2 ^ 32 }) inside,
          here,
          small,
        )

pub files-put_file : (k : Kernel) (p : ℕ) → (put_file k p).files ≡ k.files
unfolding put_file put_live free_file
files-put_file k p = go (get_or k.heap p none)
  where
    go : (o : Option File) → (put_live k p o).files ≡ k.files
    go none = refl
    go (some f) = elim (Bool-cases ((f.f_count + 2 ^ 32 - 1) % 2 ^ 32 == 0)) [
      | inl e ↦ rw e refl
      | inr e ↦ rw e refl
    ]
