-- ===== src/Pmm/Single.antt =====
-- One page at a time: `pmm_alloc_page_zone`, `pmm_alloc_page` and `pmm_free_page` of
-- kernel/mm/pmm.c keep the invariant, hand out free pages only, and undo one another.
pub mod Any
pub mod Free
use mathlib.Core.Path.{subst}
use obelisk_os.Prelude.{
  ℕ, zero, suc, ◌+◌, ◌-◌, ◌*◌, ◌/◌, ◌%◌, ◌≤◌, ◌<◌, ◌≡◌, ◌≢◌, ◌⊎◌, inl, inr, refl, ap, arith, Option,
  none, some, List, Bool, true, false, not, ◌==◌, if◌then◌else◌, Bool-cases, Option-cases, length,
  sub64, add64,
}
use obelisk_os.Tally.{tally_none, tally_some}
use obelisk_os.Pmm.State.{
  ZoneType, dma, normal, high, Zone, Page, Pmm, get_zone, put_zone, pfn_to_zone, pfn_to_phys,
  phys_to_pfn, update_page, page_allocated, page_freed, in_zone,
}
use obelisk_os.Pmm.Bits.{bitmap_set, bitmap_test, bitmap_find_free, test-set}
use obelisk_os.Pmm.Alloc.{
  put_counts, take_page, pmm_alloc_page_zone, pmm_alloc_page, or_else, give_back, free_in_zone,
  pmm_free_page,
}
use obelisk_os.Pmm.Region.{max_bitmap_pages}
use obelisk_os.Pmm.Invariant.{
  Inv, Layout, Inside, is_free, free_count, marked_used, marked_free, marked_used-Inv, counts_small,
}
use obelisk_os.Pmm.Find.{FoundFree, bitmap_find_free_lem}

-- Page metadata takes no part in the accounts.
pub update_page-Inv : (p : Pmm) (pfn : ℕ) (f : Page → Page) → Inv p → Inv (update_page p pfn f)
unfolding update_page
update_page-Inv p pfn f v = omega arith

pub take_page-Inv :
    (p : Pmm) (z : ZoneType) (pfn : ℕ)
    → Inv p
    → Inside (get_zone p z) pfn
    → is_free p.bitmap pfn ≡ true
    → Inv (take_page p z pfn)
unfolding take_page
take_page-Inv p z pfn v i f =
    update_page-Inv (marked_used p z pfn) pfn (page_allocated z) (marked_used-Inv p pfn v z i f)

-- The two ends of a call: nothing free, or the lowest free page taken.
pub data ZoneAlloc (p : Pmm) (z : ZoneType) : ℕ × Pmm → Type 0 where
  exhausted : free_count p.bitmap (get_zone p z) ≡ 0 → ZoneAlloc p z (0, p)
  granted :
      (pfn : ℕ)
      → Inside (get_zone p z) pfn
      → is_free p.bitmap pfn ≡ true
      → ((j : ℕ) → (get_zone p z).start_pfn ≤ j → j < pfn → is_free p.bitmap j ≡ false)
      → ZoneAlloc p z (pfn_to_phys pfn, take_page p z pfn)

zone_range : (p : Pmm) (z : ZoneType) → Inv p → (get_zone p z).start_pfn ≤ (get_zone p z).end_pfn
zone_range p dma v = v.layout.dma_range
zone_range p normal v = v.layout.normal_range
zone_range p high v = v.layout.high_range

zone_count :
    (p : Pmm) (z : ZoneType)
    → Inv p
    → (get_zone p z).free_pages ≡ free_count p.bitmap (get_zone p z)
zone_count p dma v = v.dma_count
zone_count p normal v = v.normal_count
zone_count p high v = v.high_count

-- From a state with right accounts, `pmm_alloc_page_zone` changes nothing and gives 0 if the zone has
-- no free page; otherwise it gives the address of the lowest free page of the zone and takes that page.
pub pmm_alloc_page_zone_lem :
    (p : Pmm) (z : ZoneType) → Inv p → ZoneAlloc p z (pmm_alloc_page_zone p z)
unfolding pmm_alloc_page_zone
pmm_alloc_page_zone_lem p z v = elim (Bool-cases ((get_zone p z).free_pages == 0)) [
  | inl e ↦ rw e (exhausted (ground (arith, zone_count p z v)))
  | inr ne ↦ rw ne (
      scan (bitmap_find_free p.bitmap (get_zone p z).start_pfn (get_zone p z).end_pfn) (
        bitmap_find_free_lem p.bitmap (get_zone p z).start_pfn (get_zone p z).end_pfn
          (zone_range p z v)))
]
  where
    scan :
        (r : Option ℕ)
        → FoundFree p.bitmap (get_zone p z).start_pfn (get_zone p z).end_pfn r
        → ZoneAlloc p z (elim r [ none ↦ (0, p) | some pfn ↦ (pfn_to_phys pfn, take_page p z pfn) ])
    scan none f = exhausted (
        tally_none (is_free p.bitmap) (get_zone p z).start_pfn
          ((get_zone p z).end_pfn - (get_zone p z).start_pfn)
          (λ m a b. f m a (omega (arith, zone_range p z v))))
    scan (some pfn) f = granted pfn (f.0, f.1) f.2 f.3

-- Frames are below 2^20, so their addresses fit, and only frame 0 has address 0.
pub Inside-small :
    (p : Pmm) (z : ZoneType) (pfn : ℕ) → Inv p → Inside (get_zone p z) pfn → pfn < max_bitmap_pages
Inside-small p dma pfn v i = omega arith
Inside-small p normal pfn v i = omega arith
Inside-small p high pfn v i = omega arith

pub Inside-fits :
    (p : Pmm) (z : ZoneType) (pfn : ℕ)
    → Inv p
    → Inside (get_zone p z) pfn
    → pfn < 32 * length p.bitmap
Inside-fits p dma pfn v i = omega arith
Inside-fits p normal pfn v i = omega arith
Inside-fits p high pfn v i = omega arith

-- A zone with a free page has a positive count, and so has the machine.
pub counts_positive :
    (p : Pmm) (z : ZoneType) (pfn : ℕ)
    → Inv p
    → Inside (get_zone p z) pfn
    → is_free p.bitmap pfn ≡ true
    → (0 < (get_zone p z).free_pages)
      × (0 < p.free_pages)
      × ((get_zone p z).free_pages ≤ max_bitmap_pages)
      × (p.free_pages ≤ 3 * max_bitmap_pages)
counts_positive p dma pfn v i f = omega (
  arith,
  tally_some (is_free p.bitmap) p.dma_zone.start_pfn (p.dma_zone.end_pfn - p.dma_zone.start_pfn) pfn
      (omega arith) (omega arith) f,
  counts_small p v,
)
counts_positive p normal pfn v i f = omega (
  arith,
  tally_some (is_free p.bitmap) p.normal_zone.start_pfn
      (p.normal_zone.end_pfn - p.normal_zone.start_pfn) pfn (omega arith) (omega arith) f,
  counts_small p v,
)
counts_positive p high pfn v i f = omega (
  arith,
  tally_some (is_free p.bitmap) p.high_zone.start_pfn (p.high_zone.end_pfn - p.high_zone.start_pfn)
      pfn (omega arith) (omega arith) f,
  counts_small p v,
)

pub bitmap-take_page :
    (p : Pmm) (z : ZoneType) (pfn : ℕ) → (take_page p z pfn).bitmap ≡ bitmap_set p.bitmap pfn
unfolding take_page update_page
bitmap-take_page p dma pfn = refl
bitmap-take_page p normal pfn = refl
bitmap-take_page p high pfn = refl

free_ne_zero :
    (bitmap : List ℕ) (pfn : ℕ) → is_free bitmap 0 ≡ false → is_free bitmap pfn ≡ true → pfn ≢ 0
free_ne_zero bitmap pfn z f = λ e. cc (ap (is_free bitmap) e)

module _ (p : Pmm) (v : Inv p) (zero_used : is_free p.bitmap 0 ≡ false) where
  -- `if (page) return page;` after a zone.
  pub after_zone {ℓ} :
      (P : ℕ × Pmm → Type ℓ) (z : ZoneType) (next : Pmm → ℕ × Pmm) {r : ℕ × Pmm}
      → ZoneAlloc p z r
      → (free_count p.bitmap (get_zone p z) ≡ 0 → P (next p))
      → ((pfn : ℕ)
          → Inside (get_zone p z) pfn
          → is_free p.bitmap pfn ≡ true
          → P (pfn_to_phys pfn, take_page p z pfn))
      → P (or_else r next)
  unfolding or_else
  after_zone P z next (exhausted e) n s = n e
  after_zone P z next (granted pfn i f low) n s = rw test (s pfn i f)
    where
      test : (pfn_to_phys pfn == 0) ≡ false
      test = ground (arith, Inside-small p z pfn v i, free_ne_zero p.bitmap pfn zero_used f)
