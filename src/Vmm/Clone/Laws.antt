-- ===== src/Vmm/Clone/Laws.antt =====
-- The clone of an address space in kernel/mm/vmm.c has the areas of the original.
use mathlib.Core.Option.{some-injective}
use obelisk_os.Prelude.{
  append_nil, ℕ, ◌≤◌, ◌≡◌, refl, ap, sym, ◌∙◌, arith, Bool, true, false, ltb, List, [], ◌∷◌, ◌++◌,
  Option, none, some, if◌then◌else◌, ok,
}
use obelisk_os.Vmm.Area.{
  Vma, AddressSpace, link_vma, put_front, insert_behind, stored, ends_above, vmm_insert_vma,
  vmm_create_vma,
}
use obelisk_os.Vmm.Area.Laws.{SortedFrom}
use obelisk_os.Vmm.Pages.{Mmu, rounds}
use obelisk_os.Vmm.Clone.{
  clone_pages, clone_areas, finish_clone, vmm_create_address_space, vmm_clone_address_space,
}

-- An area behind all others goes to the end of the list.
insert-last :
    (lo : ℕ) (prev : Option Vma) (before : List Vma) (v : Vma) (l : List Vma)
    → SortedFrom lo (before ++ v ∷ l)
    → ends_above prev v.start ≡ false
    → insert_behind prev before v ≡ ok (before ++ v ∷ [])
unfolding insert_behind link_vma
insert-last lo prev [] v l s h = rw h refl
insert-last lo prev (c ∷ before) v l s h =
    let far = starts_behind c.end before s.3 in
    let later : ltb c.start v.start ≡ true = ground (arith, far, s) in
    rw later (ap (put_front c) (insert-last c.end (some c) before v l s.3 (ground (arith, far))))
  where
    starts_behind : (lo : ℕ) (before : List Vma) → SortedFrom lo (before ++ v ∷ l) → lo ≤ v.start
    starts_behind lo [] s = s.0
    starts_behind lo (c ∷ before) s = let h = starts_behind c.end before s.3 in omega (arith, h, s)

insert_vma-last :
    (space : AddressSpace) (v : Vma) (l : List Vma)
    → SortedFrom 0 (space.vma_list ++ v ∷ l)
    → (vmm_insert_vma space v).1.vma_list ≡ space.vma_list ++ v ∷ []
unfolding vmm_insert_vma
insert_vma-last space v l s =
    ap (λ r. (stored space v r).1.vma_list) (insert-last 0 none space.vma_list v l s refl)

append_assoc : (l : List Vma) (v : Vma) (l' : List Vma) → (l ++ v ∷ []) ++ l' ≡ l ++ v ∷ l'
append_assoc [] v l' = refl
append_assoc (c ∷ l) v l' = ap (λ x. c ∷ x) (append_assoc l v l')

module _ {M : Type 0} (mmu child : Mmu M) where
  going_on :
      (b : Bool) (r : Bool × AddressSpace × M) (space : AddressSpace) (m : M)
      → (if b then r else (false, space, m)).0 ≡ true
      → (b ≡ true) × (r.0 ≡ true)
  going_on true r space m e = (refl, e)
  going_on false r space m e = absurd (cc e)

  clone_areas_lem :
      (l : List Vma) (space : AddressSpace) (m : M)
      → SortedFrom 0 (space.vma_list ++ l)
      → (clone_areas mmu child true l (space, m)).0 ≡ true
      → (clone_areas mmu child true l (space, m)).1.vma_list ≡ space.vma_list ++ l
  unfolding clone_areas vmm_create_vma
  clone_areas_lem [] space m s e = sym (append_nil space.vma_list)
  clone_areas_lem (v ∷ l) space m s e =
      let (good, e') =
        going_on (clone_pages mmu child (rounds v.start v.end) m v.start).0 _ _ _ e in
      let space' = (vmm_insert_vma space v).1 in
      let m' = (clone_pages mmu child (rounds v.start v.end) m v.start).1 in
      let list : space'.vma_list ++ l ≡ space.vma_list ++ v ∷ l =
        ap (λ x. x ++ l) (insert_vma-last space v l s) ∙ append_assoc space.vma_list v l in
      rw good (clone_areas_lem l space' m' (rw list s) e' ∙ list)

  -- When an address space with its areas in order is cloned, with memory for the areas, and the call
  -- gives a clone, this has the same areas in the same order, with their flags, protections, files and
  -- offsets, and the same heap.
  pub clone-like :
      (create : M → Bool × M) (destroy : M → M) (space new : AddressSpace) (m : M)
      → SortedFrom 0 space.vma_list
      → (vmm_clone_address_space mmu child true create destroy (space, m)).0 ≡ some new
      → (new.vma_list ≡ space.vma_list)
        × (new.brk_start ≡ space.brk_start)
        × (new.brk_end ≡ space.brk_end)
  unfolding vmm_clone_address_space
  clone-like create destroy space new m s e =
      let r = clone_areas mmu child true space.vma_list (vmm_create_address_space, (create m).1) in
      finished (create m).0 r _ e
        (clone_areas_lem space.vma_list vmm_create_address_space (create m).1 s)
    where
      finished :
          (b : Bool) (r : Bool × AddressSpace × M) (m : M)
          → (if b then finish_clone mmu child destroy space r else (none, m)).0 ≡ some new
          → (r.0 ≡ true → r.1.vma_list ≡ space.vma_list)
          → (new.vma_list ≡ space.vma_list)
            × (new.brk_start ≡ space.brk_start)
            × (new.brk_end ≡ space.brk_end)
      finished false r m e h = absurd (cc e)
      finished true (false, made, m') m e h = absurd (cc e)
      finished true (true, made, m') m e h =
          let same = some-injective _ _ e in
          (
            ap (λ s. s.vma_list) (sym same) ∙ h refl,
            ap (λ s. s.brk_start) (sym same),
            ap (λ s. s.brk_end) (sym same),
          )
