-- ===== src/Pmm/Marking.antt =====
-- `pmm_mark_region_used` of kernel/mm/pmm.c: which frames it changes, and that the accounts stay right.
pub mod Free
use obelisk_os.Prelude.{
  ℕ, zero, suc, ◌+◌, ◌-◌, ◌≡◌, refl, ap, arith, Bool, true, false, Option, none, some, List,
  if◌then◌else◌, ◌==◌, leb, ltb, ◌&&◌, Bool-cases, inl, inr, sub64, add64, align_up, align_down,
}
use obelisk_os.Pmm.State.{
  ZoneType, dma, normal, high, Pmm, get_zone, pfn_to_zone, phys_to_pfn, page_used, page_freed,
  update_page,
}
use obelisk_os.Pmm.Bits.{bitmap_set, bitmap_clear, bitmap_test, test-set, test-clear}
use obelisk_os.Pmm.Region.{
  release_frame, free_frames, pmm_mark_region_free, claim_frame, use_frames, pmm_mark_region_used,
  count_down,
}
use obelisk_os.Pmm.Invariant.{
  Inv, is_free, marked_used, marked_free, marked_used-Inv, marked_free-Inv,
}
use obelisk_os.Pmm.Single.{update_page-Inv, Inside-fits, counts_positive}
use obelisk_os.Pmm.Single.Free.{pfn_to_zone-Inside}

-- The frames that have a zone.
abbrev pub has_zone : Pmm → ℕ → Bool
has_zone p pfn = elim (pfn_to_zone p pfn) [ none ↦ false | some z ↦ true ]

claim_frame-Inv :
    (p : Pmm) (pfn : ℕ) (z : Option ZoneType)
    → Inv p
    → pfn_to_zone p pfn ≡ z
    → Inv (claim_frame p pfn z)
unfolding claim_frame
claim_frame-Inv p pfn none v e = v
claim_frame-Inv p pfn (some z) v e = elim (Bool-cases (is_free p.bitmap pfn)) [
  | inr u ↦ rw u v
  | inl f ↦
      rw (f, zone_down f, total_down f)
        (update_page-Inv (marked_used p z pfn) pfn (page_used z)
          (marked_used-Inv p pfn v z (pfn_to_zone-Inside p z pfn e) f))
]
  where
    zone_down :
        is_free p.bitmap pfn ≡ true
        → count_down (get_zone p z).free_pages ≡ sub64 (get_zone p z).free_pages 1
    zone_down f = ground (arith, counts_positive p z pfn v (pfn_to_zone-Inside p z pfn e) f)

    total_down : is_free p.bitmap pfn ≡ true → count_down p.free_pages ≡ sub64 p.free_pages 1
    total_down f = ground (arith, counts_positive p z pfn v (pfn_to_zone-Inside p z pfn e) f)

-- What one step of the loop does to the bits, and that every frame keeps its zone.
claim_frame_written :
    (p : Pmm) (pfn : ℕ) (z : ZoneType)
    → is_free p.bitmap pfn ≡ true
    → (claim_frame p pfn (some z)).bitmap ≡ bitmap_set p.bitmap pfn
unfolding claim_frame update_page
claim_frame_written p pfn dma u = ground arith
claim_frame_written p pfn normal u = ground arith
claim_frame_written p pfn high u = ground arith

claim_frame_idle :
    (p : Pmm) (pfn : ℕ) (z : ZoneType)
    → is_free p.bitmap pfn ≡ false
    → claim_frame p pfn (some z) ≡ p
unfolding claim_frame
claim_frame_idle p pfn z u = ground arith

claim_frame_bits :
    (p : Pmm) (pfn m : ℕ) (z : Option ZoneType)
    → Inv p
    → pfn_to_zone p pfn ≡ z
    → is_free (claim_frame p pfn z).bitmap m
      ≡ (if (pfn == m) && has_zone p pfn then false else is_free p.bitmap m)
unfolding claim_frame
claim_frame_bits p pfn m none v e = ground arith
claim_frame_bits p pfn m (some z) v e = elim (Bool-cases (is_free p.bitmap pfn)) [
  | inl f ↦
      (ground (
        arith,
        ap (λ (b : List ℕ). is_free b m) (claim_frame_written p pfn z f),
        test-set p.bitmap pfn m (Inside-fits p z pfn v (pfn_to_zone-Inside p z pfn e)),
      ))
  | inr u ↦
      (ground (
        arith,
        ap (λ (q : Pmm). is_free q.bitmap m) (claim_frame_idle p pfn z u),
        (λ (same : pfn ≡ m). ap (is_free p.bitmap) same),
      ))
]

claim_frame_zones :
    (p : Pmm) (pfn m : ℕ) (z : Option ZoneType)
    → pfn_to_zone (claim_frame p pfn z) m ≡ pfn_to_zone p m
unfolding claim_frame update_page pfn_to_zone
claim_frame_zones p pfn m none = refl
claim_frame_zones p pfn m (some dma) = ground arith
claim_frame_zones p pfn m (some normal) = ground arith
claim_frame_zones p pfn m (some high) = ground arith

use_frames-Inv : (left : ℕ) (p : Pmm) (pfn : ℕ) → Inv p → Inv (use_frames left p pfn)
unfolding use_frames
use_frames-Inv zero p pfn v = v
use_frames-Inv (suc left) p pfn v =
    use_frames-Inv left (claim_frame p pfn (pfn_to_zone p pfn)) (pfn + 1)
      (claim_frame-Inv p pfn (pfn_to_zone p pfn) v refl)

use_frames_bits :
    (left : ℕ) (p : Pmm) (pfn m : ℕ)
    → Inv p
    → is_free (use_frames left p pfn).bitmap m
      ≡ (if (leb pfn m && ltb m (pfn + left)) && has_zone p m then false else is_free p.bitmap m)
unfolding use_frames
use_frames_bits zero p pfn m v = ground arith
use_frames_bits (suc left) p pfn m v =
    let q = claim_frame p pfn (pfn_to_zone p pfn) in
    ground (
      arith,
      use_frames_bits left q (pfn + 1) m (claim_frame-Inv p pfn (pfn_to_zone p pfn) v refl),
      claim_frame_bits p pfn m (pfn_to_zone p pfn) v refl,
      claim_frame_zones p pfn m (pfn_to_zone p pfn),
      (λ (same : pfn ≡ m). ap (has_zone p) same),
    )

-- Where the accounts are right they are right after `pmm_mark_region_used`, for any region.
pub pmm_mark_region_used-Inv :
    (p : Pmm) (base size : ℕ) → Inv p → Inv (pmm_mark_region_used p base size)
unfolding pmm_mark_region_used
pmm_mark_region_used-Inv p base size v =
    use_frames-Inv (phys_to_pfn (align_up (add64 base size)) - phys_to_pfn (align_down base)) p
      (phys_to_pfn (align_down base)) v

-- With right accounts, after `pmm_mark_region_used` the frames that have a zone and lie between the
-- region's start rounded down and its end rounded up are in use; all other frames are as before.
pub pmm_mark_region_used_lem :
    (p : Pmm) (base size m : ℕ)
    → Inv p
    → is_free (pmm_mark_region_used p base size).bitmap m ≡ (
        if (leb (phys_to_pfn (align_down base)) m
            && ltb m (phys_to_pfn (align_up (add64 base size))))
          && has_zone p m
        then false
        else is_free p.bitmap m)
unfolding pmm_mark_region_used
pmm_mark_region_used_lem p base size m v = ground (
  arith,
  use_frames_bits (phys_to_pfn (align_up (add64 base size)) - phys_to_pfn (align_down base)) p
      (phys_to_pfn (align_down base)) m v,
)
