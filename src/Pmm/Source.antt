-- ===== src/Pmm/Source.antt =====
-- kernel/mm/pmm.c is a source of pages in the sense of PageSource.
use obelisk_os.Prelude.{
  ℕ, suc, ◌≡◌, ◌≢◌, refl, sym, ap, ◌∙◌, arith, true, false, ◌==◌, if◌then◌else◌,
}
use obelisk_os.PageSource.{PageSource}
use obelisk_os.Pmm.State.{
  ZoneType, dma, normal, high, Pmm, get_zone, pfn_to_phys, phys_to_pfn, update_page,
}
use obelisk_os.Pmm.Bits.{test-set, test-clear}
use obelisk_os.Pmm.Alloc.{take_page, pmm_alloc_page, give_back, free_in_zone, pmm_free_page}
use obelisk_os.Pmm.Invariant.{Inv, Inside, is_free, counts_small}
use obelisk_os.Pmm.Single.{
  Inside-small, Inside-fits, take_page-Inv, counts_positive, bitmap-take_page,
}
use obelisk_os.Pmm.Single.Any.{PageAlloc, pmm_alloc_page_lem}
use obelisk_os.Pmm.Single.Free.{pfn_to_zone_lem, bitmap-give_back, give_back-Inv}

-- The accounts are right, and frame 0 is in use.
pub record PmmOk (p : Pmm) : Type 0 where
  pub accounts : Inv p
  pub zero_used : is_free p.bitmap 0 ≡ false

-- A frame of a zone that is in use, and is not frame 0.
pub record PmmHeld (p : Pmm) (phys : ℕ) : Type 0 where
  pub pfn : ℕ
  pub zone : ZoneType
  pub address : phys ≡ pfn_to_phys pfn
  pub inside : Inside (get_zone p zone) pfn
  pub used : is_free p.bitmap pfn ≡ false
  pub nonzero : pfn ≢ 0

Inside-take :
    (p : Pmm) (z y : ZoneType) (pfn m : ℕ)
    → Inside (get_zone p y) m
    → Inside (get_zone (take_page p z pfn) y) m
unfolding take_page update_page
Inside-take p dma dma pfn m i = i
Inside-take p dma normal pfn m i = i
Inside-take p dma high pfn m i = i
Inside-take p normal dma pfn m i = i
Inside-take p normal normal pfn m i = i
Inside-take p normal high pfn m i = i
Inside-take p high dma pfn m i = i
Inside-take p high normal pfn m i = i
Inside-take p high high pfn m i = i

Inside-give :
    (p : Pmm) (z y : ZoneType) (pfn m : ℕ)
    → Inside (get_zone p y) m
    → Inside (get_zone (give_back p z pfn) y) m
unfolding give_back update_page
Inside-give p dma dma pfn m i = i
Inside-give p dma normal pfn m i = i
Inside-give p dma high pfn m i = i
Inside-give p normal dma pfn m i = i
Inside-give p normal normal pfn m i = i
Inside-give p normal high pfn m i = i
Inside-give p high dma pfn m i = i
Inside-give p high normal pfn m i = i
Inside-give p high high pfn m i = i

module _ (p : Pmm) (z : ZoneType) (pfn : ℕ) (v : PmmOk p) (i : Inside (get_zone p z) pfn) where
  module _ (f : is_free p.bitmap pfn ≡ true) where
    taken_bits :
        (m : ℕ)
        → is_free (take_page p z pfn).bitmap m ≡ (if pfn == m then false else is_free p.bitmap m)
    taken_bits m =
        rw (bitmap-take_page p z pfn)
          (ground (arith, test-set p.bitmap pfn m (Inside-fits p z pfn v.accounts i)))

    taken_Ok : PmmOk (take_page p z pfn)
    taken_Ok = record {
      accounts = take_page-Inv p z pfn v.accounts i f;
      zero_used = ground (arith, taken_bits 0, v.zero_used);
    }

    frame_nonzero : pfn ≢ 0
    frame_nonzero = λ e. cc (ap (is_free p.bitmap) e, f, v.zero_used)

    taken_held : PmmHeld (take_page p z pfn) (pfn_to_phys pfn)
    taken_held = record {
      pfn = pfn;
      zone = z;
      address = refl;
      inside = Inside-take p z z pfn pfn i;
      used = ground (arith, taken_bits pfn);
      nonzero = frame_nonzero;
    }

    taken_keeps : (phys : ℕ) → PmmHeld p phys → PmmHeld (take_page p z pfn) phys
    taken_keeps phys h = record {
      pfn = h.pfn;
      zone = h.zone;
      address = h.address;
      inside = Inside-take p z h.zone pfn h.pfn h.inside;
      used = ground (arith, taken_bits h.pfn, h.used);
      nonzero = h.nonzero;
    }

    taken_new : (phys : ℕ) → PmmHeld p phys → phys ≢ pfn_to_phys pfn
    taken_new phys h = λ same.
        let frames : h.pfn ≡ pfn = omega (
          arith,
          h.address,
          same,
          Inside-small p z pfn v.accounts i,
          Inside-small p h.zone h.pfn v.accounts h.inside,
        ) in
        cc (ap (is_free p.bitmap) frames, f, h.used)

  module _ (u : is_free p.bitmap pfn ≡ false) where
    freed_bits :
        (m : ℕ)
        → is_free (give_back p z pfn).bitmap m ≡ (if pfn == m then true else is_free p.bitmap m)
    freed_bits m =
        rw (bitmap-give_back p z pfn)
          (ground (arith, test-clear p.bitmap pfn m (Inside-fits p z pfn v.accounts i)))

    free_frame : pmm_free_page p (pfn_to_phys pfn) ≡ give_back p z pfn
    unfolding pmm_free_page free_in_zone
    free_frame = rw (frame, pfn_to_zone_lem p z pfn v.accounts i, u) refl
      where
        frame : phys_to_pfn (pfn_to_phys pfn) ≡ pfn
        frame = omega (arith, Inside-small p z pfn v.accounts i)

one_taken :
    (p : Pmm) (z : ZoneType) (pfn : ℕ)
    → Inv p
    → Inside (get_zone p z) pfn
    → is_free p.bitmap pfn ≡ true
    → suc (take_page p z pfn).free_pages ≡ p.free_pages
unfolding take_page update_page
one_taken p dma pfn v i f = omega (arith, counts_positive p dma pfn v i f)
one_taken p normal pfn v i f = omega (arith, counts_positive p normal pfn v i f)
one_taken p high pfn v i f = omega (arith, counts_positive p high pfn v i f)

one_given :
    (p : Pmm) (z : ZoneType) (pfn : ℕ) → Inv p → (give_back p z pfn).free_pages ≡ suc p.free_pages
unfolding give_back update_page
one_given p dma pfn v = omega (arith, counts_small p v)
one_given p normal pfn v = omega (arith, counts_small p v)
one_given p high pfn v = omega (arith, counts_small p v)

-- The two ends of `pmm_alloc_page`, whichever zone serves it.
data Served (p : Pmm) : ℕ × Pmm → Type 0 where
  nothing : Served p (0, p)
  page :
      (z : ZoneType) (pfn : ℕ)
      → Inside (get_zone p z) pfn
      → is_free p.bitmap pfn ≡ true
      → Served p (pfn_to_phys pfn, take_page p z pfn)

served : (p : Pmm) → PmmOk p → Served p (pmm_alloc_page p)
served p v = go (pmm_alloc_page_lem p v.accounts v.zero_used)
  where
    go : {r : ℕ × Pmm} → PageAlloc p r → Served p r
    go (PageAlloc.out_of_memory e) = Served.nothing
    go (PageAlloc.from_normal pfn i f) = Served.page normal pfn i f
    go (PageAlloc.from_high pfn n i f) = Served.page high pfn i f
    go (PageAlloc.from_dma pfn n h i f) = Served.page dma pfn i f

pub source_fails : (p : Pmm) → PmmOk p → (pmm_alloc_page p).0 ≡ 0 → (pmm_alloc_page p).1 ≡ p
source_fails p v e = go (served p v) e
  where
    go : {r : ℕ × Pmm} → Served p r → r.0 ≡ 0 → r.1 ≡ p
    go Served.nothing e = refl
    go (Served.page z pfn i f) e =
        absurd (frame_nonzero p z pfn v i f (omega (arith, e, Inside-small p z pfn v.accounts i)))

pub source_gives :
    (p : Pmm)
    → PmmOk p
    → (pmm_alloc_page p).0 ≢ 0
    → PmmOk (pmm_alloc_page p).1
      × PmmHeld (pmm_alloc_page p).1 (pmm_alloc_page p).0
      × (suc (pmm_alloc_page p).1.free_pages ≡ p.free_pages)
      × ((phys : ℕ) → PmmHeld p phys → phys ≢ (pmm_alloc_page p).0)
source_gives p v ne = go (served p v) ne
  where
    go :
        {r : ℕ × Pmm}
        → Served p r
        → r.0 ≢ 0
        → PmmOk r.1
          × PmmHeld r.1 r.0
          × (suc r.1.free_pages ≡ p.free_pages)
          × ((phys : ℕ) → PmmHeld p phys → phys ≢ r.0)
    go Served.nothing ne = absurd (ne refl)
    go (Served.page z pfn i f) ne = (
      taken_Ok p z pfn v i f,
      taken_held p z pfn v i f,
      one_taken p z pfn v.accounts i f,
      taken_new p z pfn v i f,
    )

pub source_keeps :
    (p : Pmm) (phys : ℕ) → PmmOk p → PmmHeld p phys → PmmHeld (pmm_alloc_page p).1 phys
source_keeps p phys v h = go (served p v)
  where
    go : {r : ℕ × Pmm} → Served p r → PmmHeld r.1 phys
    go Served.nothing = h
    go (Served.page z pfn i f) = taken_keeps p z pfn v i f phys h

free_held :
    (p : Pmm) (phys : ℕ)
    → PmmOk p
    → (h : PmmHeld p phys) → pmm_free_page p phys ≡ give_back p h.zone h.pfn
free_held p phys v h = ap (pmm_free_page p) h.address ∙ free_frame p h.zone h.pfn v h.inside h.used

pub source_free :
    (p : Pmm) (phys : ℕ)
    → PmmOk p
    → PmmHeld p phys
    → PmmOk (pmm_free_page p phys) × ((pmm_free_page p phys).free_pages ≡ suc p.free_pages)
source_free p phys v h = rw (free_held p phys v h) (
  record {
    accounts = give_back-Inv p h.zone h.pfn v.accounts h.inside h.used;
    zero_used =
        ground (arith, freed_bits p h.zone h.pfn v h.inside h.used 0, v.zero_used, h.nonzero);
  },
  one_given p h.zone h.pfn v.accounts,
)

pub source_free_keeps :
    (p : Pmm) (phys other : ℕ)
    → PmmOk p
    → PmmHeld p phys
    → PmmHeld p other
    → phys ≢ other
    → PmmHeld (pmm_free_page p phys) other
source_free_keeps p phys other v h k apart =
    let frames : h.pfn ≢ k.pfn = λ e. apart (h.address ∙ ap pfn_to_phys e ∙ sym k.address) in
    rw (free_held p phys v h) (record {
      pfn = k.pfn;
      zone = k.zone;
      address = k.address;
      inside = Inside-give p h.zone k.zone h.pfn k.pfn k.inside;
      used = ground (arith, freed_bits p h.zone h.pfn v h.inside h.used k.pfn, k.used, frames);
      nonzero = k.nonzero;
    })

-- The memory manager, with the number of free pages as what is available.
abbrev pub pmm_source : PageSource Pmm
pmm_source = record {
  alloc = pmm_alloc_page;
  free = pmm_free_page;
  Ok = PmmOk;
  Held = PmmHeld;
  available = λ p. p.free_pages;
  alloc_fails = source_fails;
  alloc_gives = source_gives;
  alloc_keeps = λ p phys v h. source_keeps p phys v h;
  free_gives = source_free;
  free_keeps = source_free_keeps;
}
