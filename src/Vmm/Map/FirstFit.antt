-- ===== src/Vmm/Map/FirstFit.antt =====
-- The search for a gap in `vmm_mmap` of kernel/mm/vmm.c: it ends, and it takes the first gap.
use obelisk_os.Prelude.{
  ℕ, zero, suc, ◌+◌, ◌%◌, ◌≤◌, ◌<◌, ◌≡◌, ◌≢◌, refl, arith, ltb, leb, List, [], ◌∷◌, length, none,
  some, if◌then◌else◌, align_up, Option-cases, Bool-cases, inl, inr,
}
use obelisk_os.Vmm.Area.{Vma, user_space_end, vmm_find_vma_intersection}
use obelisk_os.Vmm.Area.Laws.{SortedFrom}
use obelisk_os.Vmm.Unmap.{range_end}
use obelisk_os.Vmm.Unmap.Refine.{range_end-some}
use obelisk_os.Vmm.Map.{Gap, find_gap}
use Gap.{found, no_space, out_of_fuel}

-- How many areas reach past `start`.
later : ℕ → List Vma → ℕ
later start [] = 0
later start (v ∷ l) = if ltb start v.end then suc (later start l) else later start l

later_le : (start : ℕ) (l : List Vma) → later start l ≤ length l
unfolding later
later_le start [] = omega arith
later_le start (v ∷ l) = ground (arith, later_le start l)

later_anti : (start start' : ℕ) (l : List Vma) → start ≤ start' → later start' l ≤ later start l
unfolding later
later_anti start start' [] h = omega arith
later_anti start start' (v ∷ l) h = ground (arith, later_anti start start' l h)

-- A round of the search passes an area.
later_less :
    (start start' end : ℕ) (l : List Vma) (v : Vma)
    → vmm_find_vma_intersection l start end ≡ some v
    → v.end ≤ start'
    → start ≤ start'
    → later start' l < later start l
unfolding later vmm_find_vma_intersection
later_less start start' end [] v e h h' = ground (arith, e)
later_less start start' end (c ∷ l) v e h h' =
    ground (arith, later_anti start start' l h', later_less start start' end l v)

-- An area that is found meets the range.
found_meets :
    (lo start end : ℕ) (l : List Vma) (v : Vma)
    → SortedFrom lo l
    → vmm_find_vma_intersection l start end ≡ some v
    → (v.start < end) × (start < v.end) × (v.end ≤ user_space_end)
unfolding vmm_find_vma_intersection
found_meets lo start end [] v s e = ground (arith, e)
found_meets lo start end (c ∷ l) v s e = ground (arith, s, e, found_meets c.end start end l v s.3)

-- A free place that is not below the range is not below the area found there.
free_behind :
    (start end b b' : ℕ) (l : List Vma) (v : Vma)
    → vmm_find_vma_intersection l start end ≡ some v
    → vmm_find_vma_intersection l b b' ≡ none
    → start ≤ b
    → end ≤ b'
    → v.end ≤ b
unfolding vmm_find_vma_intersection
free_behind start end b b' [] v e e' h h' = ground (arith, e)
free_behind start end b b' (c ∷ l) v e e' h h' =
    ground (arith, e, e', free_behind start end b b' l v)

-- One round of the search.
round :
    (fuel len start : ℕ) (l : List Vma) (v : Vma)
    → start + len ≤ user_space_end
    → vmm_find_vma_intersection l start (start + len) ≡ some v
    → find_gap (suc fuel) l len start ≡ find_gap fuel l len (align_up v.end)
unfolding find_gap
round fuel len start l v top e =
    rw (range_end-some start len user_space_end top (omega arith), e, find_gap) refl

stops :
    (fuel len start : ℕ) (l : List Vma)
    → start + len ≤ user_space_end
    → vmm_find_vma_intersection l start (start + len) ≡ none
    → find_gap (suc fuel) l len start ≡ found start
unfolding find_gap
stops fuel len start l top e =
    rw (range_end-some start len user_space_end top (omega arith), e, find_gap) refl

fails :
    (fuel len start : ℕ) (l : List Vma)
    → user_space_end < start + len
    → find_gap (suc fuel) l len start ≡ no_space
unfolding find_gap
fails fuel len start l top =
    let none_left : range_end start len user_space_end ≡ none = ground (arith, top) in
    rw (none_left, find_gap) refl

enough_later :
    (fuel len start lo : ℕ) (l : List Vma)
    → SortedFrom lo l
    → later start l < fuel
    → find_gap fuel l len start ≢ out_of_fuel
enough_later zero len start lo l s h = absurd (omega (arith, h))
enough_later (suc fuel) len start lo l s h = elim (Bool-cases (leb (start + len) user_space_end)) [
  | inl fits ↦ elim (Option-cases (vmm_find_vma_intersection l start (start + len))) [
    | inl free ↦ rw (stops fuel len start l (ground (arith, fits)) free) (λ e. cc e)
    | inr hit ↦
        let (v, e) = hit in
        let (below, above, top) = found_meets lo start (start + len) l v s e in
        let less =
          later_less start (align_up v.end) (start + len) l v e (omega arith) (omega arith) in
        rw (round fuel len start l v (ground (arith, fits)) e)
          (enough_later fuel len (align_up v.end) lo l s (omega (arith, less, h)))
  ]
  | inr not_fits ↦ rw (fails fuel len start l (ground (arith, not_fits))) (λ e. cc e)
]

-- On areas in order, one round more than there are areas is enough for the search of `vmm_mmap` for a
-- gap: it finds one or finds that there is none.
pub find_gap-ends :
    (len start lo : ℕ) (l : List Vma)
    → SortedFrom lo l
    → find_gap (suc (length l)) l len start ≢ out_of_fuel
find_gap-ends len start lo l s =
    let h = later_le start l in enough_later (suc (length l)) len start lo l s (omega (arith, h))

-- The gap that is found: it is inside the user's space, free, and at most `b`.
pub record FoundBy (b len : ℕ) (l : List Vma) (gap : Gap) : Type 0 where
  pub start : ℕ
  pub is_found : gap ≡ found start
  pub first : start ≤ b
  pub inside : start + len ≤ user_space_end
  pub free : vmm_find_vma_intersection l start (start + len) ≡ none

first_later :
    (fuel len start lo b : ℕ) (l : List Vma)
    → SortedFrom lo l
    → later start l < fuel
    → start ≤ b
    → b % 4096 ≡ 0
    → b + len ≤ user_space_end
    → vmm_find_vma_intersection l b (b + len) ≡ none
    → FoundBy b len l (find_gap fuel l len start)
first_later zero len start lo b l s h low aligned top free = absurd (omega (arith, h))
first_later (suc fuel) len start lo b l s h low aligned top free =
    elim (Option-cases (vmm_find_vma_intersection l start (start + len))) [
      | inl here ↦ record {
        start = start;
        is_found = stops fuel len start l (omega arith) here;
        first = low;
        inside = omega arith;
        free = here;
      }
      | inr hit ↦
          let (v, e) = hit in
          let (below, above, inside) = found_meets lo start (start + len) l v s e in
          let less =
            later_less start (align_up v.end) (start + len) l v e (omega arith) (omega arith) in
          let behind = free_behind start (start + len) b (b + len) l v e free low (omega arith) in
          rw (round fuel len start l v (omega arith) e) (
            first_later fuel len (align_up v.end) lo b l s (omega (arith, less, h)) (omega arith)
              aligned top free)
    ]

-- If some page-aligned place from `start` on is free for `len` bytes, the search finds a free place, and
-- none of those is lower.
pub find_gap-first :
    (len start lo b : ℕ) (l : List Vma)
    → SortedFrom lo l
    → start ≤ b
    → b % 4096 ≡ 0
    → b + len ≤ user_space_end
    → vmm_find_vma_intersection l b (b + len) ≡ none
    → FoundBy b len l (find_gap (suc (length l)) l len start)
find_gap-first len start lo b l s low aligned top free =
    let h = later_le start l in
    first_later (suc (length l)) len start lo b l s (omega (arith, h)) low aligned top free
