-- ===== src/Vmm/Area/Laws.antt =====
-- What the areas of kernel/mm/vmm.c say about an address, and that inserting keeps them in order.
use obelisk_os.Prelude.{
  ℕ, ◌-◌, ◌≤◌, ◌<◌, ◌≡◌, refl, ap, ◌∙◌, arith, Bool, true, false, ltb, List, [], ◌∷◌, Option, none,
  some, if◌then◌else◌, add64, Result, ok, Bool-cases, inl, inr,
}
use obelisk_os.Vmm.Area.{
  Vma, user_space_end, contains, vmm_find_vma, intersects, vmm_find_vma_intersection, ends_above,
  link_vma, put_front, insert_behind,
}

-- The areas lie from `lo` on, one behind the other, none is empty, and none leaves the user's space.
abbrev pub SortedFrom : ℕ → List Vma → Type 0
SortedFrom lo [] = Unit
SortedFrom lo (v ∷ l) =
    (lo ≤ v.start) × (v.start < v.end) × (v.end ≤ user_space_end) × SortedFrom v.end l

-- What a mapping says about one address: its flags, its protection, its file and the place in it.
pub record Region : Type 0 where
  pub flags : ℕ
  pub prot : ℕ
  pub file : Option ℕ
  pub place : ℕ

abbrev pub region : Vma → ℕ → Region
region v addr = record {
  flags = v.flags;
  prot = v.prot;
  file = v.file;
  place = add64 v.offset (addr - v.start);
}

-- The abstract address space: a function from addresses.
abbrev pub region_of : Option Vma → ℕ → Option Region
region_of none addr = none
region_of (some v) addr = some (region v addr)

abbrev pub view : List Vma → ℕ → Option Region
view l addr = region_of (vmm_find_vma l addr) addr

pub SortedFrom-le : (lo lo' : ℕ) (l : List Vma) → lo' ≤ lo → SortedFrom lo l → SortedFrom lo' l
SortedFrom-le lo lo' [] h s = s
SortedFrom-le lo lo' (v ∷ l) h s = (omega arith, s.1, s.2, s.3)

-- Below the first area there is nothing.
pub find_below :
    (lo addr : ℕ) (l : List Vma) → SortedFrom lo l → addr < lo → vmm_find_vma l addr ≡ none
unfolding vmm_find_vma
find_below lo addr [] s h = refl
find_below lo addr (v ∷ l) s h = ground (arith, s)

-- The search may stop early without missing an area.
pub find_cons :
    (lo addr : ℕ) (v : Vma) (l : List Vma)
    → SortedFrom lo (v ∷ l)
    → vmm_find_vma (v ∷ l) addr ≡ (if contains v addr then some v else vmm_find_vma l addr)
unfolding vmm_find_vma
find_cons lo addr v l s = ground (arith, s, find_below v.end addr l s.3)

pub view_cons :
    (lo addr : ℕ) (v : Vma) (l : List Vma)
    → SortedFrom lo (v ∷ l)
    → view (v ∷ l) addr ≡ (if contains v addr then some (region v addr) else view l addr)
view_cons lo addr v l s =
    ap (λ o. region_of o addr) (find_cons lo addr v l s) ∙ split (contains v addr)
  where
    split :
        (b : Bool)
        → region_of (if b then some v else vmm_find_vma l addr) addr
          ≡ (if b then some (region v addr) else view l addr)
    split true = refl
    split false = refl

pub view_below : (lo addr : ℕ) (l : List Vma) → SortedFrom lo l → addr < lo → view l addr ≡ none
view_below lo addr l s h = ap (λ o. region_of o addr) (find_below lo addr l s h)

-- The list with `v` in its place.
pub record Inserted (lo : ℕ) (l : List Vma) (v : Vma) (r : Result (List Vma)) : Type 0 where
  pub list : List Vma
  pub done : r ≡ ok list
  pub sorted : SortedFrom lo list
  pub views :
      (addr : ℕ) → view list addr ≡ (if contains v addr then some (region v addr) else view l addr)

first_clear :
    (c v : Vma) (l : List Vma)
    → vmm_find_vma_intersection (c ∷ l) v.start v.end ≡ none
    → intersects c v.start v.end ≡ false
unfolding vmm_find_vma_intersection
first_clear c v l h = ground (arith, h)

rest_clear :
    (c v : Vma) (l : List Vma)
    → vmm_find_vma_intersection (c ∷ l) v.start v.end ≡ none
    → c.start < v.end
    → vmm_find_vma_intersection l v.start v.end ≡ none
unfolding vmm_find_vma_intersection
rest_clear c v l h lt = ground (arith, h, lt)

-- An area that is not empty and meets no other finds its place.
pub insert-Inserted :
    (lo : ℕ) (prev : Option Vma) (l : List Vma) (v : Vma)
    → SortedFrom lo l
    → lo ≤ v.start
    → v.start < v.end
    → v.end ≤ user_space_end
    → ends_above prev v.start ≡ false
    → vmm_find_vma_intersection l v.start v.end ≡ none
    → Inserted lo l v (insert_behind prev l v)
unfolding insert_behind link_vma
insert-Inserted lo prev [] v s low size top behind clear = record {
  list = v ∷ [];
  done = rw behind refl;
  sorted = (low, size, top, tt);
  views = λ addr. view_cons lo addr v [] (low, size, top, tt);
}
insert-Inserted lo prev (c ∷ l) v s low size top behind clear =
    elim (Bool-cases (ltb c.start v.start)) [
      | inl later ↦
          let apart : c.end ≤ v.start = ground (arith, first_clear c v l clear) in
          let r =
            insert-Inserted c.end (some c) l v s.3 apart size top (ground arith)
              (rest_clear c v l clear (ground arith)) in
          record {
            list = c ∷ r.list;
            done = rw later (ap (put_front c) r.done);
            sorted = (s.0, s.1, s.2, r.sorted);
            views = λ addr. ground (
              arith,
              view_cons lo addr c r.list (s.0, s.1, s.2, r.sorted),
              view_cons lo addr c l s,
              r.views addr,
            );
          }
      | inr here ↦
          let apart : v.end ≤ c.start = ground (arith, first_clear c v l clear, s) in
          let sorted : SortedFrom lo (v ∷ c ∷ l) = (low, size, top, (apart, s.1, s.2, s.3)) in
          record {
            list = v ∷ c ∷ l;
            done = rw here (link_clear apart);
            sorted = sorted;
            views = λ addr. view_cons lo addr v (c ∷ l) sorted;
          }
    ]
  where
    link_clear : v.end ≤ c.start → link_vma prev (c ∷ l) v ≡ ok (v ∷ c ∷ l)
    link_clear apart = ground (arith, behind, apart)
