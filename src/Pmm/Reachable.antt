-- ===== src/Pmm/Reachable.antt =====
-- Every sequence of calls of kernel/mm/pmm.c after the bitmap was set up.
use Prim.Native.Nat.{bit_or}
use mathlib.Core.Path.{subst}
use mathlib.Core.Option.{some-injective}
use obelisk_os.Prelude.{
  arith, some, ◌≤◌, ℕ, zero, suc, ◌+◌, ◌*◌, ◌<◌, ◌≡◌, inl, inr, Bool-cases, ◌==◌, add64, page_size,
}
use obelisk_os.Pmm.State.{
  ZoneType, dma, normal, high, Page, Pmm, phys_to_pfn, update_page, flag_kernel, owner_kernel,
}
use obelisk_os.Pmm.Metadata.{
  meta_pages, pages_from, mark_metadata, place_metadata, pmm_init_page_metadata,
}
use obelisk_os.Pmm.Alloc.{
  pmm_alloc_page_zone, or_else, pmm_alloc_page, pmm_alloc_pages_zone, pmm_alloc_pages,
  pmm_free_page, free_from, pmm_free_pages,
}
use obelisk_os.Pmm.Region.{
  pmm_mark_region_free, pmm_mark_region_used, pmm_init_bitmap, boot_state, max_bitmap_pages,
}
use obelisk_os.Pmm.Invariant.{Inv}
use obelisk_os.Pmm.Single.{ZoneAlloc, pmm_alloc_page_zone_lem, take_page-Inv, update_page-Inv}
use obelisk_os.Pmm.Single.Free.{pmm_free_page-Inv}
use obelisk_os.Pmm.Marking.{pmm_mark_region_used-Inv}
use obelisk_os.Pmm.Marking.Free.{pmm_mark_region_free-Inv}
use obelisk_os.Pmm.Init.{pmm_init_bitmap_lem}
use obelisk_os.Pmm.Multi.Grant.{RegionAlloc, pmm_alloc_pages_zone_lem}

pub data Reachable : Pmm → Type 0 where
  start : (num_pages : ℕ) → Reachable (pmm_init_bitmap boot_state num_pages)
  mark_free :
      {p : Pmm} → Reachable p → (base size : ℕ) → Reachable (pmm_mark_region_free p base size)
  mark_used :
      {p : Pmm} → Reachable p → (base size : ℕ) → Reachable (pmm_mark_region_used p base size)
  alloc_zone : {p : Pmm} → Reachable p → (z : ZoneType) → Reachable (pmm_alloc_page_zone p z).1
  alloc : {p : Pmm} → Reachable p → Reachable (pmm_alloc_page p).1
  alloc_run_zone :
      {p : Pmm}
      → Reachable p
      → (count : ℕ) (z : ZoneType) → 0 < count
      → Reachable (pmm_alloc_pages_zone p count z).1
  alloc_run :
      {p : Pmm} → Reachable p → (count : ℕ) → 0 < count → Reachable (pmm_alloc_pages p count).1
  free : {p : Pmm} → Reachable p → (phys : ℕ) → Reachable (pmm_free_page p phys)
  free_run : {p : Pmm} → Reachable p → (phys count : ℕ) → Reachable (pmm_free_pages p phys count)
  -- No panic, on a machine of as many pages as `pmm_init_bitmap` admits.
  metadata :
      {p q : Pmm}
      → Reachable p
      → p.total_pages ≤ max_bitmap_pages
      → pmm_init_page_metadata p ≡ some q
      → Reachable q

alloc_zone-Inv : (p : Pmm) (z : ZoneType) → Inv p → Inv (pmm_alloc_page_zone p z).1
alloc_zone-Inv p z v = go (pmm_alloc_page_zone_lem p z v)
  where
    go : {r : ℕ × Pmm} → ZoneAlloc p z r → Inv r.1
    go (ZoneAlloc.exhausted e) = v
    go (ZoneAlloc.granted pfn i f least) = take_page-Inv p z pfn v i f

alloc_run_zone-Inv :
    (p : Pmm) (count : ℕ) (z : ZoneType)
    → Inv p
    → 0 < count
    → Inv (pmm_alloc_pages_zone p count z).1
alloc_run_zone-Inv p count z v positive = go (pmm_alloc_pages_zone_lem p count z v positive)
  where
    go : {r : ℕ × Pmm} → RegionAlloc p count z r → Inv r.1
    go (RegionAlloc.too_few e) = v
    go (RegionAlloc.scattered s) = v
    go (RegionAlloc.granted s q run w bits) = w

-- Trying one zone and then the next.
or_else-Inv :
    (r : ℕ × Pmm) (next : Pmm → ℕ × Pmm)
    → Inv r.1
    → ((q : Pmm) → Inv q → Inv (next q).1)
    → Inv (or_else r next).1
unfolding or_else
or_else-Inv (phys, p) next v later = elim (Bool-cases (phys == 0)) [
  | inl e ↦ rw e (later p v)
  | inr e ↦ rw e v
]

alloc-Inv : (p : Pmm) → Inv p → Inv (pmm_alloc_page p).1
unfolding pmm_alloc_page
alloc-Inv p v =
    or_else-Inv (pmm_alloc_page_zone p normal)
      (λ q. or_else (pmm_alloc_page_zone q high) (λ r. pmm_alloc_page_zone r dma))
      (alloc_zone-Inv p normal v)
      (λ q w.
        or_else-Inv (pmm_alloc_page_zone q high) (λ r. pmm_alloc_page_zone r dma)
          (alloc_zone-Inv q high w) (λ r. alloc_zone-Inv r dma))

alloc_run-Inv : (p : Pmm) (count : ℕ) → Inv p → 0 < count → Inv (pmm_alloc_pages p count).1
unfolding pmm_alloc_pages
alloc_run-Inv p count v positive =
    or_else-Inv (pmm_alloc_pages_zone p count normal)
      (λ q. or_else (pmm_alloc_pages_zone q count high) (λ r. pmm_alloc_pages_zone r count dma))
      (alloc_run_zone-Inv p count normal v positive)
      (λ q w.
        or_else-Inv (pmm_alloc_pages_zone q count high) (λ r. pmm_alloc_pages_zone r count dma)
          (alloc_run_zone-Inv q count high w positive)
          (λ r u. alloc_run_zone-Inv r count dma u positive))

free_from-Inv : (left : ℕ) (p : Pmm) (phys i : ℕ) → Inv p → Inv (free_from left p phys i)
unfolding free_from
free_from-Inv zero p phys i v = v
free_from-Inv (suc left) p phys i v =
    free_from-Inv left (pmm_free_page p (add64 phys (i * page_size))) phys (i + 1)
      (pmm_free_page-Inv p (add64 phys (i * page_size)) v)

free_run-Inv : (p : Pmm) (phys count : ℕ) → Inv p → Inv (pmm_free_pages p phys count)
unfolding pmm_free_pages
free_run-Inv p phys count v = free_from-Inv count p phys 0 v

mark_metadata-Inv : (left : ℕ) (p : Pmm) (phys i : ℕ) → Inv p → Inv (mark_metadata left p phys i)
unfolding mark_metadata
mark_metadata-Inv zero p phys i v = v
mark_metadata-Inv (suc left) p phys i v =
    let marked = λ (pg : Page). record pg {
      flags = bit_or pg.flags flag_kernel;
      owner = owner_kernel;
      refcount = 1;
    } in
    let frame = phys_to_pfn (add64 phys (i * page_size)) in
    mark_metadata-Inv left (update_page p frame marked) phys (i + 1)
      (update_page-Inv p frame marked v)

place_metadata-Inv :
    (r : ℕ × Pmm) (pages : ℕ) (q : Pmm) → Inv r.1 → place_metadata r pages ≡ some q → Inv q
unfolding place_metadata
place_metadata-Inv (phys, p) pages q v e = elim (Bool-cases (phys == 0)) [
  | inl failed ↦ absurd (ground (arith, rw failed at e))
  | inr placed ↦ subst Inv (some-injective _ _ (rw placed at e)) (
      mark_metadata-Inv pages
        (record p {
          page_array = some (pages_from p.total_pages p 0);
          page_array_backing_phys = phys;
        })
        phys 0 (omega arith))
]

metadata-Inv :
    (p q : Pmm)
    → Inv p
    → p.total_pages ≤ max_bitmap_pages
    → pmm_init_page_metadata p ≡ some q
    → Inv q
unfolding pmm_init_page_metadata
metadata-Inv p q v bounded e = elim (Bool-cases (p.total_pages == 0)) [
  | inl empty ↦ subst Inv (some-injective _ _ (rw empty at e)) v
  | inr pages ↦
      place_metadata-Inv (pmm_alloc_pages p (meta_pages p)) (meta_pages p) q
        (alloc_run-Inv p (meta_pages p) v (ground (arith, pages, bounded))) (rw pages at e)
]

-- In every state that calls reach after `pmm_init_bitmap` set up any number of pages, the accounts are
-- right: each zone counts exactly the free frames of its range, and the total is their sum. The calls
-- are marking regions, allocating one page or a positive number of pages, from one zone or any, and
-- freeing one page or several, with any arguments, wrong ones included, and placing the page metadata
-- of at most 2^20 pages.
pub Reachable-Inv : (p : Pmm) → Reachable p → Inv p
Reachable-Inv _ (Reachable.start num_pages) = (pmm_init_bitmap_lem num_pages).0
Reachable-Inv _ (Reachable.mark_free {p = p} r base size) =
    pmm_mark_region_free-Inv p base size (Reachable-Inv p r)
Reachable-Inv _ (Reachable.mark_used {p = p} r base size) =
    pmm_mark_region_used-Inv p base size (Reachable-Inv p r)
Reachable-Inv _ (Reachable.alloc_zone {p = p} r z) = alloc_zone-Inv p z (Reachable-Inv p r)
Reachable-Inv _ (Reachable.alloc {p = p} r) = alloc-Inv p (Reachable-Inv p r)
Reachable-Inv _ (Reachable.alloc_run_zone {p = p} r count z positive) =
    alloc_run_zone-Inv p count z (Reachable-Inv p r) positive
Reachable-Inv _ (Reachable.alloc_run {p = p} r count positive) =
    alloc_run-Inv p count (Reachable-Inv p r) positive
Reachable-Inv _ (Reachable.free {p = p} r phys) = pmm_free_page-Inv p phys (Reachable-Inv p r)
Reachable-Inv _ (Reachable.free_run {p = p} r phys count) =
    free_run-Inv p phys count (Reachable-Inv p r)
Reachable-Inv q (Reachable.metadata {p = p} r bounded e) =
    metadata-Inv p q (Reachable-Inv p r) bounded e
