-- ===== src/Vmm/Unmap/Laws.antt =====
-- What unmapping of kernel/mm/vmm.c does to the list of areas: it stays sorted and forgets the range.
use obelisk_os.Prelude.{
  ℕ, suc, ◌-◌, ◌≤◌, ◌<◌, ◌≡◌, ap, arith, true, false, ◌&&◌, ltb, leb, List, [], ◌∷◌, ◌++◌, Option,
  none, if◌then◌else◌, add64, sub64, Bool-cases, inl, inr,
}
use obelisk_os.Vmm.Area.{Vma, AddressSpace, user_space_end, link_vma, vmm_create_vma}
use obelisk_os.Vmm.Area.Laws.{
  SortedFrom, Region, region, view, view_cons, view_below, SortedFrom-le,
}
use obelisk_os.Vmm.Pages.{Mmu}
use obelisk_os.Vmm.Unmap.{tail_of, head_of, place_tail, split_vma, cut_vma, unmap_vma, unmap_from}

-- An address space without `[start, end)`.
abbrev pub without : ℕ → ℕ → ℕ → Option Region → Option Region
without start end addr r = if leb start addr && ltb addr end then none else r

pub record Cleared (lo start end : ℕ) (l list : List Vma) : Type 0 where
  pub sorted : SortedFrom lo list
  pub views : (addr : ℕ) → view list addr ≡ without start end addr (view l addr)

-- Cutting the front off moves the place in the file with it.
region-tail :
    (v : Vma) (end addr : ℕ)
    → v.start ≤ end
    → end ≤ addr
    → addr < user_space_end
    → region (tail_of v end) addr ≡ region v addr
region-tail v end addr h h' top =
    let e : add64 (add64 v.offset (sub64 end v.start)) (addr - end)
        ≡ add64 v.offset (addr - v.start) =
      omega arith in
    ap (λ p. record { flags = v.flags; prot = v.prot; file = v.file; place = p }) e

without-none : (start end addr : ℕ) {r : Option Region} → r ≡ none → r ≡ without start end addr r
without-none start end addr h = ground (arith, h)

-- Nothing of the list is in the range.
Cleared-behind :
    (lo start end : ℕ) (v : Vma) (l : List Vma)
    → SortedFrom lo (v ∷ l)
    → end ≤ v.start
    → Cleared lo start end (v ∷ l) (v ∷ l)
Cleared-behind lo start end v l s h = record {
  sorted = s;
  views = λ addr. ground (arith, view_below v.start addr (v ∷ l) (omega arith, s.1, s.2, s.3));
}

module _ (lo start end : ℕ) (v : Vma) (l rest : List Vma) (s : SortedFrom lo (v ∷ l))
    (r : Cleared v.end start end l rest) where
  Cleared-before : v.end ≤ start → Cleared lo start end (v ∷ l) (v ∷ rest)
  Cleared-before h = record {
    sorted = (s.0, s.1, s.2, r.sorted);
    views = λ addr. ground (
      arith,
      view_cons lo addr v rest (s.0, s.1, s.2, r.sorted),
      view_cons lo addr v l s,
      r.views addr,
    );
  }

  Cleared-whole : start ≤ v.start → v.end ≤ end → Cleared lo start end (v ∷ l) rest
  Cleared-whole h h' = record {
    sorted = SortedFrom-le v.end lo rest (omega (arith, s)) r.sorted;
    views = λ addr. ground (arith, view_cons lo addr v l s, r.views addr);
  }

  Cleared-trim_end :
      v.start < start
      → v.end ≤ end
      → start < v.end
      → Cleared lo start end (v ∷ l) (head_of v start ∷ rest)
  Cleared-trim_end h h' h'' =
      let sorted : SortedFrom lo (head_of v start ∷ rest) =
        (s.0, h, omega (arith, s), SortedFrom-le v.end start rest (omega arith) r.sorted) in
      record {
        sorted = sorted;
        views = λ addr. ground (
          arith,
          view_cons lo addr (head_of v start) rest sorted,
          view_cons lo addr v l s,
          r.views addr,
        );
      }

  Cleared-trim_start :
      start ≤ v.start
      → v.start < end
      → end < v.end
      → Cleared lo start end (v ∷ l) (tail_of v end ∷ rest)
  Cleared-trim_start h h' h'' =
      let sorted : SortedFrom lo (tail_of v end ∷ rest) = (omega (arith, s), h'', s.2, r.sorted) in
      record {
        sorted = sorted;
        views = λ addr. ground (
          arith,
          view_cons lo addr (tail_of v end) rest sorted,
          view_cons lo addr v l s,
          region-tail v end addr,
          r.views addr,
        );
      }

  Cleared-split :
      v.start < start
      → start ≤ end
      → end < v.end
      → Cleared lo start end (v ∷ l) (head_of v start ∷ tail_of v end ∷ rest)
  Cleared-split h h' h'' =
      let sorted : SortedFrom start (tail_of v end ∷ rest) = (h', h'', s.2, r.sorted) in
      let sorted' : SortedFrom lo (head_of v start ∷ tail_of v end ∷ rest) =
        (s.0, h, omega (arith, s), sorted) in
      record {
        sorted = sorted';
        views = λ addr. ground (
          arith,
          view_cons lo addr (head_of v start) (tail_of v end ∷ rest) sorted',
          view_cons start addr (tail_of v end) rest sorted,
          view_cons lo addr v l s,
          region-tail v end addr,
          r.views addr,
        );
      }

-- The piece behind a split area finds its place.
place_tail-clear :
    (left new : Vma) (l : List Vma) (space : AddressSpace)
    → SortedFrom new.end l
    → left.end ≤ new.start
    → (place_tail left new l space).0 ≡ left ∷ new ∷ []
unfolding place_tail link_vma
place_tail-clear left new [] space s h = ground (arith, h)
place_tail-clear left new (c ∷ l) space s h = ground (arith, h, s)

module _ (lo start end : ℕ) (v : Vma) (l rest : List Vma) (s : SortedFrom lo (v ∷ l))
    (r : Cleared v.end start end l rest) (size : start ≤ end) (meets : v.start < end)
    (meets' : start < v.end) (space : AddressSpace) where
  Cleared-split_vma :
      v.start < start
      → end < v.end
      → Cleared lo start end (v ∷ l) ((split_vma true start end v l space).0 ++ rest)
  unfolding split_vma vmm_create_vma
  Cleared-split_vma h h' =
      rw (place_tail-clear (head_of v start) (tail_of v end) l space s.3 size)
        (Cleared-split lo start end v l rest s r h size h')

  Cleared-cut_vma : Cleared lo start end (v ∷ l) ((cut_vma true start end v l space).0 ++ rest)
  unfolding cut_vma
  Cleared-cut_vma = elim (Bool-cases (ltb v.start start)) [
    | inl a ↦ elim (Bool-cases (ltb end v.end)) [
      | inl b ↦
          let whole : leb start v.start ≡ false = ground (arith, a) in
          rw (whole, a, b) (Cleared-split_vma (ground (arith, a)) (ground (arith, b)))
      | inr b ↦
          let whole : leb start v.start ≡ false = ground (arith, a) in
          rw (whole, a, b)
            (Cleared-trim_end lo start end v l rest s r (ground (arith, a)) (ground (arith, b))
              meets')
    ]
    | inr a ↦ elim (Bool-cases (ltb end v.end)) [
      | inl b ↦
          let whole : leb start v.start ≡ true = ground (arith, a) in
          let whole' : leb v.end end ≡ false = ground (arith, b) in
          rw (whole, whole', a)
            (Cleared-trim_start lo start end v l rest s r (ground (arith, a)) meets
              (ground (arith, b)))
      | inr b ↦
          let whole : leb start v.start ≡ true = ground (arith, a) in
          let whole' : leb v.end end ≡ true = ground (arith, b) in
          rw (whole, whole')
            (Cleared-whole lo start end v l rest s r (ground (arith, a)) (ground (arith, b)))
    ]
  ]

module _ {M : Type 0} (mmu : Mmu M) where
  Cleared-unmap_vma :
      (lo start end : ℕ) (v : Vma) (l rest : List Vma) (space : AddressSpace) (m : M)
      → SortedFrom lo (v ∷ l)
      → Cleared v.end start end l rest
      → start ≤ end
      → v.start < end
      → Cleared lo start end (v ∷ l) ((unmap_vma mmu true start end v l (space, m)).0 ++ rest)
  unfolding unmap_vma
  Cleared-unmap_vma lo start end v l rest space m s r size meets =
      elim (Bool-cases (ltb start v.end)) [
        | inl a ↦
            rw a (Cleared-cut_vma lo start end v l rest s r size meets (ground (arith, a)) space)
        | inr a ↦ rw a (Cleared-before lo start end v l rest s r (ground (arith, a)))
      ]

  -- The loop over the areas clears the range.
  pub Cleared-unmap_from :
      (lo start end : ℕ) (l : List Vma) (space : AddressSpace) (m : M)
      → SortedFrom lo l
      → start ≤ end
      → Cleared lo start end l (unmap_from mmu true start end l (space, m)).0
  unfolding unmap_from
  Cleared-unmap_from lo start end [] space m s size = record {
    sorted = s;
    views = λ addr. without-none start end addr (view_below (suc addr) addr [] s (omega arith));
  }
  Cleared-unmap_from lo start end (v ∷ l) space m s size = elim (Bool-cases (leb end v.start)) [
    | inl a ↦ rw a (Cleared-behind lo start end v l s (ground (arith, a)))
    | inr a ↦
        let (pieces, space', m') = unmap_vma mmu true start end v l (space, m) in
        rw a (
          Cleared-unmap_vma lo start end v l _ space m s
            (Cleared-unmap_from v.end start end l space' m' s.3 size) size (ground (arith, a)))
  ]
