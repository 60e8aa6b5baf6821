-- ===== src/Vmm/Map/Install.antt =====
-- The second half of `vmm_mmap` of kernel/mm/vmm.c: an area goes to a place that is known.
use mathlib.Core.Path.{subst₂}
use obelisk_os.Prelude.{
  ℕ, ◌+◌, ◌%◌, ◌≤◌, ◌<◌, ◌≡◌, refl, arith, true, false, ◌&&◌, ltb, leb, List, [], ◌∷◌, Option, none,
  some, if◌then◌else◌, align_up, align_down, max, Result, ok, err, Bool-cases, inl, inr,
}
use obelisk_os.Vmm.Area.{
  Vma, AddressSpace, user_space_end, intersects, vmm_find_vma_intersection, insert_behind,
  vmm_insert_vma, vmm_create_vma, stored,
}
use obelisk_os.Vmm.Area.Laws.{SortedFrom, region, view, view_cons, insert-Inserted}
use obelisk_os.Vmm.Pages.{Mmu}
use obelisk_os.Vmm.Unmap.{vmm_munmap}
use obelisk_os.Vmm.Unmap.Laws.{Cleared}
use obelisk_os.Vmm.Unmap.Refine.{range_end-some, vmm_munmap_lem}
use obelisk_os.Vmm.Map.{
  Request, is_fixed, is_anonymous, vma_flags, inserted, add_area, map_at, install, emptied,
  fill_area,
}

-- Where no address is mapped, no area meets the range.
clear_free :
    (lo start end : ℕ) (l : List Vma)
    → SortedFrom lo l
    → start < end
    → ((addr : ℕ) → start ≤ addr → addr < end → view l addr ≡ none)
    → vmm_find_vma_intersection l start end ≡ none
unfolding vmm_find_vma_intersection
clear_free lo start end [] s size h = refl
clear_free lo start end (c ∷ l) s size h = elim (Bool-cases (intersects c start end)) [
  | inl hit ↦
      let a = max c.start start in absurd (ground (arith, h a, hit, view_cons lo a c l s, s, size))
  | inr miss ↦
      let rest : vmm_find_vma_intersection l start end ≡ none =
        clear_free c.end start end l s.3 size
          (λ addr low high. ground (arith, h addr low high, view_cons lo addr c l s, miss, s)) in
      ground (arith, rest, miss)
]

-- The area that a request makes.
abbrev pub area : Request → ℕ → ℕ → Vma
area q start end = record {
  start = start;
  end = end;
  flags = vma_flags q.prot q.flags;
  prot = q.prot;
  file = q.file;
  offset = q.offset;
}

-- The request is mapped at `[start, end)`, and other addresses say what they said in `l`.
pub record Mapped (q : Request) (start end : ℕ) (l : List Vma) (r : Option ℕ) (list : List Vma)
    : Type 0 where
  pub done : r ≡ some start
  pub sorted : SortedFrom 0 list
  pub views :
      (addr : ℕ)
      → view list addr ≡ (
          if leb start addr && ltb addr end
          then some (region (area q start end) addr)
          else view l addr)

stored-ok :
    (space : AddressSpace) (v : Vma) (list : List Vma) (r : Result (List Vma)) (start : ℕ)
    → r ≡ ok list
    → ((inserted start space (stored space v r)).0 ≡ some start)
      × ((inserted start space (stored space v r)).1.vma_list ≡ list)
stored-ok space v list r start e = rw e (refl, refl)

add_area-Mapped :
    (q : Request) (start end : ℕ) (space : AddressSpace)
    → SortedFrom 0 space.vma_list
    → start < end
    → end ≤ user_space_end
    → vmm_find_vma_intersection space.vma_list start end ≡ none
    → Mapped q start end space.vma_list
        (add_area true q start end space).0
        (add_area true q start end space).1.vma_list
unfolding add_area vmm_create_vma vmm_insert_vma
add_area-Mapped q start end space s size top free =
    let i =
      insert-Inserted 0 none space.vma_list (area q start end) s (omega arith) size top refl free in
    let e =
      stored-ok space (area q start end) i.list
        (insert_behind none space.vma_list (area q start end)) start i.done in
    record { done = e.0; sorted = rw e.1 i.sorted; views = rw e.1 i.views }

-- Over a cleared range the rest of the map is that of the old areas.
Mapped-over :
    (q : Request) (start end : ℕ) (l l' list : List Vma) (r : Option ℕ)
    → Cleared 0 start end l l'
    → Mapped q start end l' r list
    → Mapped q start end l r list
Mapped-over q start end l l' list r c d = record {
  done = d.done;
  sorted = d.sorted;
  views = λ addr. ground (arith, c.views addr, d.views addr);
}

module _ {M : Type 0} (mmu : Mmu M) where
  Mapped-fill_area :
      (q : Request) (start end len : ℕ) (l : List Vma) (r : Option ℕ × AddressSpace) (m : M)
      → is_anonymous q ≡ true
      → Mapped q start end l r.0 r.1.vma_list
      → Mapped q start end l
          (fill_area mmu true q len end r m).0
          (fill_area mmu true q len end r m).1.vma_list
  Mapped-fill_area q start end len l (none, space) m anon d = d
  Mapped-fill_area q start end len l (some start', space) m anon d = rw anon d

  Mapped-install :
      (q : Request) (start end len : ℕ) (l : List Vma) (u : Result ℕ × AddressSpace × M)
      → is_anonymous q ≡ true
      → u.0 ≡ ok 0
      → Cleared 0 start end l u.1.vma_list
      → start < end
      → end ≤ user_space_end
      → Mapped q start end l
          (install mmu true true q len start end (emptied mmu u)).0
          (install mmu true true q len start end (emptied mmu u)).1.vma_list
  unfolding install
  Mapped-install q start end len l (ok n, space, m) anon e c size top =
      let free =
        clear_free 0 start end space.vma_list c.sorted size
          (λ addr low high. ground (arith, low, high, c.views addr)) in
      Mapped-over q start end l space.vma_list _ _ c (
        Mapped-fill_area q start end len space.vma_list (add_area true q start end space) m anon
          (add_area-Mapped q start end space c.sorted size top free))
  Mapped-install q start end len l (err e, space, m) anon e' c size top = absurd (cc e')

  -- A place that is free.
  pub Mapped-free :
      (q : Request) (start len : ℕ) (space : AddressSpace) (m : M)
      → is_anonymous q ≡ true
      → is_fixed q ≡ false
      → SortedFrom 0 space.vma_list
      → 0 < len
      → start + len ≤ user_space_end
      → vmm_find_vma_intersection space.vma_list start (start + len) ≡ none
      → Mapped q start
          (start + len)
          space.vma_list
          (map_at mmu true true q len start (space, m)).0
          (map_at mmu true true q len start (space, m)).1.vma_list
  unfolding map_at
  Mapped-free q start len space m anon fixed s size top free =
      rw (range_end-some start len user_space_end top (omega arith), fixed, free, map_at)
        (Mapped-fill_area q start (start + len) len space.vma_list
          (add_area true q start (start + len) space) m anon
          (add_area-Mapped q start (start + len) space s (omega arith) top free))

  -- A fixed place, whatever is there.
  pub Mapped-fixed :
      (q : Request) (start len : ℕ) (space : AddressSpace) (m : M)
      → is_anonymous q ≡ true
      → is_fixed q ≡ true
      → SortedFrom 0 space.vma_list
      → 0 < len
      → start % 4096 ≡ 0
      → len % 4096 ≡ 0
      → start + len ≤ user_space_end
      → Mapped q start
          (start + len)
          space.vma_list
          (map_at mmu true true q len start (space, m)).0
          (map_at mmu true true q len start (space, m)).1.vma_list
  unfolding map_at
  Mapped-fixed q start len space m anon fixed s size aligned aligned' top =
      let (gone, cleared) = vmm_munmap_lem mmu start len space m s top in
      let low : align_down start ≡ start = omega arith in
      let high : align_up (start + len) ≡ start + len = omega (arith, top) in
      let list = (vmm_munmap mmu true start len (space, m)).1.vma_list in
      let cleared' : Cleared 0 start (start + len) space.vma_list list =
        subst₂ (λ a b. Cleared 0 a b space.vma_list list) low high cleared in
      rw (range_end-some start len user_space_end top (omega arith), fixed, map_at)
        (Mapped-install q start (start + len) len space.vma_list
          (vmm_munmap mmu true start len (space, m)) anon gone cleared' (omega arith) top)
