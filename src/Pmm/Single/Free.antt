-- ===== src/Pmm/Single/Free.antt =====
-- `pmm_free_page` of kernel/mm/pmm.c, alone and after an allocation.
use obelisk_os.Prelude.{
  ℕ, ◌≡◌, refl, ap, arith, true, false, Option, none, some, Bool-cases, inl, inr,
}
use obelisk_os.Pmm.State.{
  ZoneType, dma, normal, high, Pmm, get_zone, pfn_to_zone, pfn_to_phys, phys_to_pfn, page_freed,
  update_page,
}
use obelisk_os.Pmm.Bits.{bitmap_set, bitmap_clear, test-set, test-clear, length-bitmap_set}
use obelisk_os.Pmm.Alloc.{take_page, give_back, free_in_zone, pmm_free_page}
use obelisk_os.Pmm.Invariant.{Inv, Inside, is_free, marked_free, marked_free-Inv}
use obelisk_os.Pmm.Single.{
  update_page-Inv, Inside-small, Inside-fits, counts_positive, bitmap-take_page, take_page-Inv,
}

-- A frame has one zone at most, and `pfn_to_zone` finds it.
pub pfn_to_zone_lem :
    (p : Pmm) (z : ZoneType) (pfn : ℕ)
    → Inv p
    → Inside (get_zone p z) pfn
    → pfn_to_zone p pfn ≡ some z
unfolding pfn_to_zone
pfn_to_zone_lem p dma pfn v i = ground arith
pfn_to_zone_lem p normal pfn v i = ground arith
pfn_to_zone_lem p high pfn v i = ground arith

pub pfn_to_zone-Inside :
    (p : Pmm) (z : ZoneType) (pfn : ℕ) → pfn_to_zone p pfn ≡ some z → Inside (get_zone p z) pfn
unfolding pfn_to_zone
pfn_to_zone-Inside p dma pfn e = ground arith
pfn_to_zone-Inside p normal pfn e = ground arith
pfn_to_zone-Inside p high pfn e = ground arith

pub give_back-Inv :
    (p : Pmm) (z : ZoneType) (pfn : ℕ)
    → Inv p
    → Inside (get_zone p z) pfn
    → is_free p.bitmap pfn ≡ false
    → Inv (give_back p z pfn)
unfolding give_back
give_back-Inv p z pfn v i f =
    update_page-Inv (marked_free p z pfn) pfn (page_freed z) (marked_free-Inv p pfn v z i f)

free_in_zone-Inv :
    (p : Pmm) (z : Option ZoneType) (pfn : ℕ)
    → Inv p
    → pfn_to_zone p pfn ≡ z
    → Inv (free_in_zone p z pfn)
unfolding free_in_zone
free_in_zone-Inv p none pfn v e = v
free_in_zone-Inv p (some z) pfn v e = elim (Bool-cases (is_free p.bitmap pfn)) [
  | inl f ↦ rw f v
  | inr u ↦ rw u (give_back-Inv p z pfn v (pfn_to_zone-Inside p z pfn e) u)
]

-- Where the accounts are right they are right after `pmm_free_page`, for any address: also for one that
-- is free already or is in no zone.
pub pmm_free_page-Inv : (p : Pmm) (phys : ℕ) → Inv p → Inv (pmm_free_page p phys)
unfolding pmm_free_page
pmm_free_page-Inv p phys v = free_in_zone-Inv p _ (phys_to_pfn phys) v refl

Inside-take_page :
    (p : Pmm) (z : ZoneType) (pfn : ℕ)
    → Inside (get_zone p z) pfn
    → Inside (get_zone (take_page p z pfn) z) pfn
unfolding take_page update_page
Inside-take_page p dma pfn i = i
Inside-take_page p normal pfn i = i
Inside-take_page p high pfn i = i

pub bitmap-give_back :
    (p : Pmm) (z : ZoneType) (pfn : ℕ) → (give_back p z pfn).bitmap ≡ bitmap_clear p.bitmap pfn
unfolding give_back update_page
bitmap-give_back p dma pfn = refl
bitmap-give_back p normal pfn = refl
bitmap-give_back p high pfn = refl

module _ (p : Pmm) (z : ZoneType) (pfn : ℕ) (v : Inv p) (i : Inside (get_zone p z) pfn)
    (f : is_free p.bitmap pfn ≡ true) where
  taken_not_free : is_free (take_page p z pfn).bitmap pfn ≡ false
  taken_not_free =
      rw (bitmap-take_page p z pfn)
        (ground (arith, test-set p.bitmap pfn pfn (Inside-fits p z pfn v i)))

  freed : pmm_free_page (take_page p z pfn) (pfn_to_phys pfn) ≡ give_back (take_page p z pfn) z pfn
  unfolding pmm_free_page free_in_zone
  freed = rw (
    frame,
    pfn_to_zone_lem (take_page p z pfn) z pfn (take_page-Inv p z pfn v i f)
        (Inside-take_page p z pfn i),
    taken_not_free,
  )
    where
      frame : phys_to_pfn (pfn_to_phys pfn) ≡ pfn
      frame = omega (arith, Inside-small p z pfn v i)

  restored_bits :
      (m : ℕ) → is_free (give_back (take_page p z pfn) z pfn).bitmap m ≡ is_free p.bitmap m
  restored_bits m =
      rw (bitmap-give_back (take_page p z pfn) z pfn, bitmap-take_page p z pfn)
        (ground (
          arith,
          test-set p.bitmap pfn m (Inside-fits p z pfn v i),
          test-clear (bitmap_set p.bitmap pfn) pfn m
              (omega (arith, Inside-fits p z pfn v i, length-bitmap_set p.bitmap pfn)),
          (λ (e : pfn ≡ m). ap (is_free p.bitmap) e),
          f,
        ))

-- The counters after taking and giving back the page.
restored_counts :
    (p : Pmm) (z : ZoneType) (pfn : ℕ)
    → Inv p
    → Inside (get_zone p z) pfn
    → is_free p.bitmap pfn ≡ true
    → let q = give_back (take_page p z pfn) z pfn in
      (q.dma_zone ≡ p.dma_zone)
      × (q.normal_zone ≡ p.normal_zone)
      × (q.high_zone ≡ p.high_zone)
      × (q.free_pages ≡ p.free_pages)
unfolding give_back take_page update_page
restored_counts p dma pfn v i f = ground (arith, counts_positive p dma pfn v i f)
restored_counts p normal pfn v i f = ground (arith, counts_positive p normal pfn v i f)
restored_counts p high pfn v i f = ground (arith, counts_positive p high pfn v i f)

-- With right accounts, taking a free frame of a zone and freeing its address brings back every bit of
-- the bitmap, the three zones and the number of free pages.
pub pmm_free_page-take_page :
    (p : Pmm) (z : ZoneType) (pfn : ℕ)
    → Inv p
    → Inside (get_zone p z) pfn
    → is_free p.bitmap pfn ≡ true
    → let q = pmm_free_page (take_page p z pfn) (pfn_to_phys pfn) in
      ((m : ℕ) → is_free q.bitmap m ≡ is_free p.bitmap m)
      × (q.dma_zone ≡ p.dma_zone)
      × (q.normal_zone ≡ p.normal_zone)
      × (q.high_zone ≡ p.high_zone)
      × (q.free_pages ≡ p.free_pages)
pmm_free_page-take_page p z pfn v i f =
    let c = restored_counts p z pfn v i f in
    rw (freed p z pfn v i f) (restored_bits p z pfn v i f, c.0, c.1, c.2, c.3)

zone_kept :
    (p : Pmm) (z : ZoneType) (pfn m : ℕ) → pfn_to_zone (give_back p z pfn) m ≡ pfn_to_zone p m
unfolding give_back update_page pfn_to_zone
zone_kept p dma pfn m = refl
zone_kept p normal pfn m = refl
zone_kept p high pfn m = refl

free_in_zone_twice :
    (p : Pmm) (z : Option ZoneType) (pfn : ℕ)
    → Inv p
    → pfn_to_zone p pfn ≡ z
    → free_in_zone (free_in_zone p z pfn) (pfn_to_zone (free_in_zone p z pfn) pfn) pfn
      ≡ free_in_zone p z pfn
unfolding free_in_zone
free_in_zone_twice p none pfn v e = rw e
free_in_zone_twice p (some z) pfn v e = elim (Bool-cases (is_free p.bitmap pfn)) [
  | inl f ↦ rw (f, e, f)
  | inr u ↦ rw (u, zone_kept p z pfn pfn, e, now_free)
]
  where
    now_free : is_free (give_back p z pfn).bitmap pfn ≡ true
    now_free = rw (bitmap-give_back p z pfn) (
        ground (
          arith,
          test-clear p.bitmap pfn pfn (Inside-fits p z pfn v (pfn_to_zone-Inside p z pfn e)),
        ))

-- With right accounts, a second `pmm_free_page` of the same address changes nothing.
pub pmm_free_page_twice :
    (p : Pmm) (phys : ℕ) → Inv p → pmm_free_page (pmm_free_page p phys) phys ≡ pmm_free_page p phys
unfolding pmm_free_page
pmm_free_page_twice p phys v = free_in_zone_twice p _ (phys_to_pfn phys) v refl
