-- ===== src/Pmm/Marking/Free.antt =====
-- `pmm_mark_region_free` of kernel/mm/pmm.c: which frames it changes, and that the accounts stay right.
use obelisk_os.Prelude.{
  ℕ, zero, suc, ◌+◌, ◌-◌, ◌≡◌, refl, ap, arith, true, false, Option, none, some, List,
  if◌then◌else◌, ◌==◌, leb, ltb, ◌&&◌, Bool-cases, inl, inr, add64, align_up, align_down,
}
use obelisk_os.Pmm.State.{
  ZoneType, dma, normal, high, Pmm, pfn_to_zone, phys_to_pfn, page_freed, update_page,
}
use obelisk_os.Pmm.Bits.{bitmap_clear, bitmap_test, test-clear}
use obelisk_os.Pmm.Region.{release_frame, free_frames, pmm_mark_region_free}
use obelisk_os.Pmm.Invariant.{Inv, is_free, marked_free, marked_free-Inv}
use obelisk_os.Pmm.Single.{update_page-Inv, Inside-fits}
use obelisk_os.Pmm.Single.Free.{pfn_to_zone-Inside}
use obelisk_os.Pmm.Marking.{has_zone}

usable-Inv : (p : Pmm) (n : ℕ) → Inv p → Inv (record p { usable_pages = n })
usable-Inv p n v = omega arith

release_frame-Inv :
    (p : Pmm) (pfn : ℕ) (z : Option ZoneType)
    → Inv p
    → pfn_to_zone p pfn ≡ z
    → Inv (release_frame p pfn z)
unfolding release_frame
release_frame-Inv p pfn none v e = v
release_frame-Inv p pfn (some z) v e = elim (Bool-cases (bitmap_test p.bitmap pfn)) [
  | inr u ↦ rw u v
  | inl f ↦ rw f (
      update_page-Inv (record (marked_free p z pfn) { usable_pages = add64 p.usable_pages 1 }) pfn
        (page_freed z)
        (usable-Inv (marked_free p z pfn) _
          (marked_free-Inv p pfn v z (pfn_to_zone-Inside p z pfn e) (ground arith))))
]

-- What one step of the loop does to the bits, and that every frame keeps its zone.
release_frame_written :
    (p : Pmm) (pfn : ℕ) (z : ZoneType)
    → is_free p.bitmap pfn ≡ false
    → (release_frame p pfn (some z)).bitmap ≡ bitmap_clear p.bitmap pfn
unfolding release_frame update_page
release_frame_written p pfn dma u = ground arith
release_frame_written p pfn normal u = ground arith
release_frame_written p pfn high u = ground arith

release_frame_idle :
    (p : Pmm) (pfn : ℕ) (z : ZoneType)
    → is_free p.bitmap pfn ≡ true
    → release_frame p pfn (some z) ≡ p
unfolding release_frame
release_frame_idle p pfn z u = ground arith

release_frame_bits :
    (p : Pmm) (pfn m : ℕ) (z : Option ZoneType)
    → Inv p
    → pfn_to_zone p pfn ≡ z
    → is_free (release_frame p pfn z).bitmap m
      ≡ (if (pfn == m) && has_zone p pfn then true else is_free p.bitmap m)
unfolding release_frame
release_frame_bits p pfn m none v e = ground arith
release_frame_bits p pfn m (some z) v e = elim (Bool-cases (is_free p.bitmap pfn)) [
  | inl f ↦
      (ground (
        arith,
        ap (λ (q : Pmm). is_free q.bitmap m) (release_frame_idle p pfn z f),
        (λ (same : pfn ≡ m). ap (is_free p.bitmap) same),
      ))
  | inr u ↦
      (ground (
        arith,
        ap (λ (b : List ℕ). is_free b m) (release_frame_written p pfn z u),
        test-clear p.bitmap pfn m (Inside-fits p z pfn v (pfn_to_zone-Inside p z pfn e)),
      ))
]

release_frame_zones :
    (p : Pmm) (pfn m : ℕ) (z : Option ZoneType)
    → pfn_to_zone (release_frame p pfn z) m ≡ pfn_to_zone p m
unfolding release_frame update_page pfn_to_zone
release_frame_zones p pfn m none = refl
release_frame_zones p pfn m (some dma) = ground arith
release_frame_zones p pfn m (some normal) = ground arith
release_frame_zones p pfn m (some high) = ground arith

free_frames-Inv : (left : ℕ) (p : Pmm) (pfn : ℕ) → Inv p → Inv (free_frames left p pfn)
unfolding free_frames
free_frames-Inv zero p pfn v = v
free_frames-Inv (suc left) p pfn v =
    free_frames-Inv left (release_frame p pfn (pfn_to_zone p pfn)) (pfn + 1)
      (release_frame-Inv p pfn (pfn_to_zone p pfn) v refl)

free_frames_bits :
    (left : ℕ) (p : Pmm) (pfn m : ℕ)
    → Inv p
    → is_free (free_frames left p pfn).bitmap m
      ≡ (if (leb pfn m && ltb m (pfn + left)) && has_zone p m then true else is_free p.bitmap m)
unfolding free_frames
free_frames_bits zero p pfn m v = ground arith
free_frames_bits (suc left) p pfn m v =
    let q = release_frame p pfn (pfn_to_zone p pfn) in
    ground (
      arith,
      free_frames_bits left q (pfn + 1) m (release_frame-Inv p pfn (pfn_to_zone p pfn) v refl),
      release_frame_bits p pfn m (pfn_to_zone p pfn) v refl,
      release_frame_zones p pfn m (pfn_to_zone p pfn),
      (λ (same : pfn ≡ m). ap (has_zone p) same),
    )

-- Where the accounts are right they are right after `pmm_mark_region_free`, for any region.
pub pmm_mark_region_free-Inv :
    (p : Pmm) (base size : ℕ) → Inv p → Inv (pmm_mark_region_free p base size)
unfolding pmm_mark_region_free
pmm_mark_region_free-Inv p base size v = ground (
  arith,
  free_frames-Inv (phys_to_pfn (align_down (add64 base size)) - phys_to_pfn (align_up base)) p
      (phys_to_pfn (align_up base)) v,
)

-- With right accounts, after `pmm_mark_region_free` the frames that have a zone and lie between the
-- region's start rounded up and its end rounded down are free; all other frames are as before.
pub pmm_mark_region_free_lem :
    (p : Pmm) (base size m : ℕ)
    → Inv p
    → is_free (pmm_mark_region_free p base size).bitmap m ≡ (
        if (leb (phys_to_pfn (align_up base)) m
            && ltb m (phys_to_pfn (align_down (add64 base size))))
          && has_zone p m
        then true
        else is_free p.bitmap m)
unfolding pmm_mark_region_free
pmm_mark_region_free_lem p base size m v = ground (
  arith,
  free_frames_bits (phys_to_pfn (align_down (add64 base size)) - phys_to_pfn (align_up base)) p
      (phys_to_pfn (align_up base)) m v,
)
