-- ===== src/Vmm/Area.antt =====
-- The list of areas of kernel/mm/vmm.c, which is sorted by address. Addresses are 64-bit words.
pub mod Laws
use obelisk_os.Prelude.{
  ℕ, ◌+◌, ◌-◌, ◌^◌, ◌≤◌, ◌<◌, Bool, true, false, not, ◌&&◌, ltb, leb, List, [], ◌∷◌, Option, none,
  some, if◌then◌else◌, add64, sub64, Result, ok, err, Errno,
}
use Errno.{eexist}

pub record Vma : Type 0 where
  pub start : ℕ
  pub end : ℕ
  pub flags : ℕ
  pub prot : ℕ
  pub file : Option ℕ
  pub offset : ℕ

-- Of struct address_space the list, its length and its size, and the heap; the page table is with the
-- pages in Vmm.Pages.
pub record AddressSpace : Type 0 where
  pub vma_list : List Vma
  pub vma_count : ℕ
  pub total_vm : ℕ
  pub brk_start : ℕ
  pub brk_end : ℕ

-- USER_SPACE_END
abbrev pub user_space_end : ℕ
user_space_end = 2 ^ 47

abbrev pub contains : Vma → ℕ → Bool
contains v addr = leb v.start addr && ltb addr v.end

unfoldable pub vmm_find_vma : List Vma → ℕ → Option Vma
vmm_find_vma [] addr = none
vmm_find_vma (v ∷ l) addr =
    if contains v addr then some v else if ltb addr v.start then none else vmm_find_vma l addr

abbrev pub intersects : Vma → ℕ → ℕ → Bool
intersects v start end = ltb v.start end && ltb start v.end

unfoldable pub vmm_find_vma_intersection : List Vma → ℕ → ℕ → Option Vma
vmm_find_vma_intersection [] start end = none
vmm_find_vma_intersection (v ∷ l) start end =
    if intersects v start end
    then some v
    else if leb end v.start
    then none
    else vmm_find_vma_intersection l start end

abbrev pub starts_below : List Vma → ℕ → Bool
starts_below [] end = false
starts_below (v ∷ l) end = ltb v.start end

abbrev pub ends_above : Option Vma → ℕ → Bool
ends_above none start = false
ends_above (some v) start = ltb start v.end

-- The area goes between `prev` and `curr`, if it overlaps neither.
unfoldable pub link_vma : Option Vma → List Vma → Vma → Result (List Vma)
link_vma prev curr v =
    if starts_below curr v.end
    then err eexist
    else if ends_above prev v.start
    then err eexist
    else ok (v ∷ curr)

abbrev pub put_front : Vma → Result (List Vma) → Result (List Vma)
put_front v (ok l) = ok (v ∷ l)
put_front v (err e) = err e

-- The search for the place, with the area before it.
unfoldable pub insert_behind : Option Vma → List Vma → Vma → Result (List Vma)
unfolding link_vma
insert_behind prev [] v = link_vma prev [] v
insert_behind prev (c ∷ l) v =
    if ltb c.start v.start
    then put_front c (insert_behind (some c) l v)
    else link_vma prev (c ∷ l) v

abbrev pub stored : AddressSpace → Vma → Result (List Vma) → Result ℕ × AddressSpace
stored space v (err e) = (err e, space)
stored space v (ok l) = (
  ok 0,
  record space {
    vma_list = l;
    vma_count = add64 space.vma_count 1;
    total_vm = add64 space.total_vm (sub64 v.end v.start);
  },
)

unfoldable pub vmm_insert_vma : AddressSpace → Vma → Result ℕ × AddressSpace
unfolding insert_behind
vmm_insert_vma space v = stored space v (insert_behind none space.vma_list v)

-- `vmm_create_vma`, where the allocator finds room.
unfoldable pub vmm_create_vma : Bool → ℕ → ℕ → ℕ → Option Vma
vmm_create_vma false start end flags = none
vmm_create_vma true start end flags =
    some record { start = start; end = end; flags = flags; prot = 0; file = none; offset = 0 }
