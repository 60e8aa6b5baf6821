-- ===== src/Pmm/Multi/Grant.antt =====
-- What `pmm_alloc_pages_zone` of kernel/mm/pmm.c promises.
use obelisk_os.Prelude.{
  ℕ, ◌+◌, ◌-◌, ◌*◌, ◌≤◌, ◌<◌, ◌≡◌, refl, ap, arith, Option, none, some, false, if◌then◌else◌, leb,
  ltb, ◌&&◌, Bool-cases, inl, inr, length, sub64, ltb→lt, ltb→le,
}
use obelisk_os.Pmm.State.{ZoneType, dma, normal, high, Zone, Pmm, get_zone, pfn_to_phys}
use obelisk_os.Pmm.Bits.{bitmap_find_free_region}
use obelisk_os.Pmm.Alloc.{put_counts, mark_pages, take_pages, pmm_alloc_pages_zone}
use obelisk_os.Pmm.Region.{max_bitmap_pages}
use obelisk_os.Pmm.Invariant.{Inv, is_free, counts_small}
use obelisk_os.Pmm.FindRegion.{AllFree, Blocked, FoundRegion, bitmap_find_free_region_lem}
use obelisk_os.Pmm.Multi.{mark_pages_zones, mark_pages_bits, mark_pages-Inv}

-- The frames `[s, s + count)` lie in the zone and are free.
pub record FreeRun (p : Pmm) (z : ZoneType) (count s : ℕ) : Type 0 where
  pub from_start : (get_zone p z).start_pfn ≤ s
  pub to_end : s + count ≤ (get_zone p z).end_pfn
  pub all_free : AllFree p.bitmap s count

run_fits :
    (p : Pmm) (z : ZoneType) (count s : ℕ)
    → Inv p
    → FreeRun p z count s
    → s + count ≤ 32 * length p.bitmap
run_fits p dma count s v r = omega arith
run_fits p normal count s v r = omega arith
run_fits p high count s v r = omega arith

same_counts :
    (p : Pmm) (z : ZoneType) → Inv p → Inv (put_counts p z (get_zone p z).free_pages p.free_pages)
same_counts p dma v = v
same_counts p normal v = v
same_counts p high v = v

counts_bounded :
    (p : Pmm) (z : ZoneType)
    → Inv p
    → ((get_zone p z).free_pages ≤ p.free_pages) × (p.free_pages ≤ 3 * max_bitmap_pages)
counts_bounded p dma v = omega (arith, counts_small p v)
counts_bounded p normal v = omega (arith, counts_small p v)
counts_bounded p high v = omega (arith, counts_small p v)

counts_kept :
    (p : Pmm) (z : ZoneType) (count s : ℕ)
    → (get_zone (mark_pages count p z s) z).free_pages ≡ (get_zone p z).free_pages
counts_kept p dma count s = ap (λ (x : Zone). x.free_pages) (mark_pages_zones count p dma s).0
counts_kept p normal count s = ap (λ (x : Zone). x.free_pages) (mark_pages_zones count p normal s).1
counts_kept p high count s = ap (λ (x : Zone). x.free_pages) (mark_pages_zones count p high s).2

take_pages-Inv :
    (p : Pmm) (z : ZoneType) (count s : ℕ)
    → Inv p
    → count ≤ (get_zone p z).free_pages
    → FreeRun p z count s
    → Inv (take_pages p z s count)
unfolding take_pages
take_pages-Inv p z count s v enough r =
    rw (counts_kept p z count s, (mark_pages_zones count p z s).3, zone_left, total_left)
      (mark_pages-Inv z count p s (get_zone p z).free_pages p.free_pages (same_counts p z v) enough
        (omega (arith, bounds)) (omega (arith, bounds)) (omega (arith, bounds))
        (run_fits p z count s v r) r.from_start r.to_end r.all_free)
  where
    bounds : ((get_zone p z).free_pages ≤ p.free_pages) × (p.free_pages ≤ 3 * max_bitmap_pages)
    bounds = counts_bounded p z v

    zone_left : sub64 (get_zone p z).free_pages count ≡ (get_zone p z).free_pages - count
    zone_left = omega (arith, bounds)

    total_left : sub64 p.free_pages count ≡ p.free_pages - count
    total_left = omega (arith, bounds)

-- The outcome `r` of asking zone `z` for `count` pages.
pub data RegionAlloc (p : Pmm) (count : ℕ) (z : ZoneType) : ℕ × Pmm → Type 0 where
  too_few : (get_zone p z).free_pages < count → RegionAlloc p count z (0, p)
  scattered :
      ((s : ℕ)
        → (get_zone p z).start_pfn ≤ s
        → s + count ≤ (get_zone p z).end_pfn
        → Blocked p.bitmap s count)
      → RegionAlloc p count z (0, p)
  granted :
      (s : ℕ) (q : Pmm)
      → FreeRun p z count s
      → Inv q
      → ((m : ℕ)
          → is_free q.bitmap m
            ≡ (if leb s m && ltb m (s + count) then false else is_free p.bitmap m))
      → RegionAlloc p count z (pfn_to_phys s, q)

bitmap-take_pages :
    (p : Pmm) (z : ZoneType) (s count : ℕ)
    → (take_pages p z s count).bitmap ≡ (mark_pages count p z s).bitmap
unfolding take_pages
bitmap-take_pages p dma s count = refl
bitmap-take_pages p normal s count = refl
bitmap-take_pages p high s count = refl

zone_range : (p : Pmm) (z : ZoneType) → Inv p → (get_zone p z).start_pfn ≤ (get_zone p z).end_pfn
zone_range p dma v = v.layout.dma_range
zone_range p normal v = v.layout.normal_range
zone_range p high v = v.layout.high_range

-- With right accounts and a positive count, `pmm_alloc_pages_zone` fails and changes nothing if the zone has too few free pages or no
-- `count` of them in a row; otherwise it hands out such a run, which is in use from then on while
-- every other frame is as before, and the accounts are right again.
pub pmm_alloc_pages_zone_lem :
    (p : Pmm) (count : ℕ) (z : ZoneType)
    → Inv p
    → 0 < count
    → RegionAlloc p count z (pmm_alloc_pages_zone p count z)
unfolding pmm_alloc_pages_zone
pmm_alloc_pages_zone_lem p count z v pos = elim (Bool-cases (ltb (get_zone p z).free_pages count)) [
  | inl few ↦ rw few (too_few (ltb→lt _ _ few))
  | inr enough ↦ rw enough (
      found (ltb→le _ _ enough)
        (bitmap_find_free_region p.bitmap (get_zone p z).start_pfn (get_zone p z).end_pfn count)
        (bitmap_find_free_region_lem p.bitmap (get_zone p z).start_pfn (get_zone p z).end_pfn count
          (zone_range p z v) pos))
]
  where
    found :
        count ≤ (get_zone p z).free_pages
        → (r : Option ℕ)
        → FoundRegion p.bitmap (get_zone p z).start_pfn (get_zone p z).end_pfn count r
        → RegionAlloc p count z
            (elim r [ none ↦ (0, p) | some pfn ↦ (pfn_to_phys pfn, take_pages p z pfn count) ])
    found enough none f = scattered f
    found enough (some s) f =
        let run : FreeRun p z count s = record { from_start = f.0; to_end = f.1; all_free = f.2 } in
        granted s (take_pages p z s count) run (take_pages-Inv p z count s v enough run) (λ m.
          rw (bitmap-take_pages p z s count)
            (mark_pages_bits count p z s m (run_fits p z count s v run)))
