-- ===== src/Pmm/Single/Any.antt =====
-- `pmm_alloc_page` of kernel/mm/pmm.c: the zones in order.
use obelisk_os.Prelude.{ℕ, ◌+◌, ◌<◌, ◌≡◌, ◌≢◌, refl, arith, true, false, ◌==◌, if◌then◌else◌}
use obelisk_os.Pmm.State.{ZoneType, dma, normal, high, Pmm, get_zone, pfn_to_phys, update_page}
use obelisk_os.Pmm.Bits.{test-set}
use obelisk_os.Pmm.Alloc.{take_page, pmm_alloc_page_zone, pmm_alloc_page, or_else}
use obelisk_os.Pmm.Region.{max_bitmap_pages}
use obelisk_os.Pmm.Invariant.{Inv, Inside, is_free}
use obelisk_os.Pmm.Single.{
  ZoneAlloc, pmm_alloc_page_zone_lem, after_zone, take_page-Inv, Inside-small, Inside-fits,
  counts_positive, bitmap-take_page,
}

-- With no page free anywhere the call fails and changes nothing; otherwise it takes a free page of
-- the first zone that has one, in the order normal, high, DMA.
pub data PageAlloc (p : Pmm) : ℕ × Pmm → Type 0 where
  out_of_memory : p.free_pages ≡ 0 → PageAlloc p (0, p)
  from_normal :
      (pfn : ℕ)
      → Inside p.normal_zone pfn
      → is_free p.bitmap pfn ≡ true
      → PageAlloc p (pfn_to_phys pfn, take_page p normal pfn)
  from_high :
      (pfn : ℕ)
      → p.normal_zone.free_pages ≡ 0
      → Inside p.high_zone pfn
      → is_free p.bitmap pfn ≡ true
      → PageAlloc p (pfn_to_phys pfn, take_page p high pfn)
  from_dma :
      (pfn : ℕ)
      → p.normal_zone.free_pages ≡ 0
      → p.high_zone.free_pages ≡ 0
      → Inside p.dma_zone pfn
      → is_free p.bitmap pfn ≡ true
      → PageAlloc p (pfn_to_phys pfn, take_page p dma pfn)

last_zone :
    (p : Pmm) {r : ℕ × Pmm}
    → Inv p
    → p.normal_zone.free_pages ≡ 0
    → p.high_zone.free_pages ≡ 0
    → ZoneAlloc p dma r
    → PageAlloc p r
last_zone p v n h (ZoneAlloc.exhausted e) = out_of_memory (omega arith)
last_zone p v n h (ZoneAlloc.granted pfn i f low) = from_dma pfn n h i f

-- With right accounts and frame 0 in use, `pmm_alloc_page` gives 0 and changes nothing only if no page
-- is free at all; otherwise it takes a free page, of the high zone only if the normal zone has none
-- free, and of the DMA zone only if neither has.
pub pmm_alloc_page_lem :
    (p : Pmm) → Inv p → is_free p.bitmap 0 ≡ false → PageAlloc p (pmm_alloc_page p)
unfolding pmm_alloc_page
pmm_alloc_page_lem p v z =
    after_zone p v z (PageAlloc p) normal
      (λ q. or_else (pmm_alloc_page_zone q high) (λ r. pmm_alloc_page_zone r dma))
      (pmm_alloc_page_zone_lem p normal v)
      (λ n.
        after_zone p v z (PageAlloc p) high (λ r. pmm_alloc_page_zone r dma)
          (pmm_alloc_page_zone_lem p high v)
          (λ h. last_zone p v (omega arith) (omega arith) (pmm_alloc_page_zone_lem p dma v))
          (λ pfn i f. from_high pfn (omega arith) i f))
      from_normal

-- What every success has in common.
pub record Handed (p : Pmm) (r : ℕ × Pmm) : Type 0 where
  pub pfn : ℕ
  pub address : r.0 ≡ pfn_to_phys pfn
  pub managed : pfn < max_bitmap_pages
  pub was_free : is_free p.bitmap pfn ≡ true
  pub now_used : (m : ℕ) → is_free r.1.bitmap m ≡ (if pfn == m then false else is_free p.bitmap m)
  pub accounts : Inv r.1
  pub one_less : r.1.free_pages + 1 ≡ p.free_pages

handed :
    (p : Pmm) (z : ZoneType) (pfn : ℕ)
    → Inv p
    → Inside (get_zone p z) pfn
    → is_free p.bitmap pfn ≡ true
    → Handed p (pfn_to_phys pfn, take_page p z pfn)
unfolding take_page update_page
handed p z pfn v i f = record {
  pfn = pfn;
  address = refl;
  managed = Inside-small p z pfn v i;
  was_free = f;
  now_used = λ m.
      rw (bitmap-take_page p z pfn)
        (ground (arith, test-set p.bitmap pfn m (Inside-fits p z pfn v i)));
  accounts = take_page-Inv p z pfn v i f;
  one_less = omega (arith, counts_positive p z pfn v i f);
}

-- With right accounts and frame 0 in use, every address but 0 that `pmm_alloc_page` returns is the
-- address of a frame that was free, this frame alone changes its bit, and the accounts are right
-- again with one free page less.
pub pmm_alloc_page-Handed :
    (p : Pmm)
    → Inv p
    → is_free p.bitmap 0 ≡ false
    → (pmm_alloc_page p).0 ≢ 0
    → Handed p (pmm_alloc_page p)
pmm_alloc_page-Handed p v z ne = go (pmm_alloc_page_lem p v z) ne
  where
    go : {r : ℕ × Pmm} → PageAlloc p r → r.0 ≢ 0 → Handed p r
    go (out_of_memory e) ne = absurd (ne refl)
    go (from_normal pfn i f) ne = handed p normal pfn v i f
    go (from_high pfn n i f) ne = handed p high pfn v i f
    go (from_dma pfn n h i f) ne = handed p dma pfn v i f

-- With right accounts and frame 0 in use, no page is handed out twice: of two successful calls in a
-- row, the addresses differ.
pub pmm_alloc_page_distinct :
    (p : Pmm)
    → Inv p
    → is_free p.bitmap 0 ≡ false
    → (pmm_alloc_page p).0 ≢ 0
    → (pmm_alloc_page (pmm_alloc_page p).1).0 ≢ 0
    → (pmm_alloc_page p).0 ≢ (pmm_alloc_page (pmm_alloc_page p).1).0
pmm_alloc_page_distinct p v z first second = λ same.
    let h = pmm_alloc_page-Handed p v z first in
    let k =
      pmm_alloc_page-Handed (pmm_alloc_page p).1 h.accounts (ground (arith, h.now_used 0)) second in
    let frames : h.pfn ≡ k.pfn = omega (arith, h.address, k.address, h.managed, k.managed) in
    ground (arith, h.now_used k.pfn, k.was_free, frames)
