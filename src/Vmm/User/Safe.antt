-- ===== src/Vmm/User/Safe.antt =====
-- The kernel touches user memory of kernel/mm/vmm.c only where the page tables allow it.
use obelisk_os.Prelude.{
  ℕ, zero, suc, ◌+◌, ◌-◌, ◌*◌, ◌/◌, ◌≤◌, ◌<◌, ◌≡◌, refl, ap, sym, ◌∙◌, arith, Bool, true, false,
  not, leb, ◌==◌, none, some, if◌then◌else◌, max, align_down, Result, ok, err, Errno, Bool-cases,
  inl, inr,
}
use Errno.{efault}
use obelisk_os.Vmm.Area.{user_space_end}
use obelisk_os.Vmm.Pages.{Mmu, rounds}
use obelisk_os.Vmm.Unmap.{range_end}
use obelisk_os.Vmm.Unmap.Refine.{range_end-some}
use obelisk_os.Vmm.User.{
  user_copy_len_ok, page_allows, verify_pages, vmm_verify_user_range, vmm_copy_to_user, copy_if,
}

guarded :
    {n : ℕ} (b : Bool) (r : Result ℕ)
    → (if b then r else err efault) ≡ ok n
    → (b ≡ true) × (r ≡ ok n)
guarded true r e = (refl, e)
guarded false r e = absurd (cc e)

guarded_not :
    {n : ℕ} (b : Bool) (w : Errno) (r : Result ℕ)
    → (if b then err w else r) ≡ ok n
    → (b ≡ false) × (r ≡ ok n)
guarded_not true w r e = absurd (cc e)
guarded_not false w r e = (refl, e)

past : {n : ℕ} (b : Bool) (r : Result ℕ) → b ≡ false → (if b then ok 0 else r) ≡ ok n → r ≡ ok n
past true r h e = absurd (cc h)
past false r h e = e

ranged :
    {n : ℕ} (f : ℕ → Result ℕ) (addr size : ℕ)
    → (elim (range_end addr size user_space_end) [ none ↦ err efault | some end ↦ f end ]) ≡ ok n
    → (addr + size ≤ user_space_end) × (f (addr + size) ≡ ok n)
ranged f addr size e = elim (Bool-cases (leb (addr + size) user_space_end)) [
  | inl fits ↦
      let fits' : addr + size ≤ user_space_end = ground (arith, fits) in
      (
        fits',
        sym (
              ap (λ o. elim o [ none ↦ err efault | some end ↦ f end ])
                (range_end-some addr size user_space_end fits' (omega arith)))
            ∙ e,
      )
  | inr over ↦
      let none_left : range_end addr size user_space_end ≡ none = ground (arith, over) in
      absurd (cc (none_left, e))
]

module _ {M : Type 0} (mmu : Mmu M) where
  verified :
      {n : ℕ} (left : ℕ) (write : Bool) (m : M) (page k : ℕ)
      → verify_pages mmu left write m page ≡ ok n
      → k < left
      → page_allows mmu write m (page + k * 4096) ≡ true
  unfolding verify_pages
  verified zero write m page k e h = absurd (omega (arith, h))
  verified (suc left) write m page k e h =
      let (good, rest) = guarded (page_allows mmu write m page) _ e in
      at k h good (λ j h'. verified left write m (page + 4096) j rest h')
    where
      at :
          (k : ℕ)
          → k < suc left
          → page_allows mmu write m page ≡ true
          → ((j : ℕ) → j < left → page_allows mmu write m (page + 4096 + j * 4096) ≡ true)
          → page_allows mmu write m (page + k * 4096) ≡ true
      at zero h good next = let same : page + zero * 4096 ≡ page = omega arith in rw same good
      at (suc j) h good next =
          let same : page + suc j * 4096 ≡ page + 4096 + j * 4096 = omega arith in
          rw same (next j (omega (arith, h)))

  accepted :
      (left : ℕ) (write : Bool) (m : M) (page : ℕ)
      → ((k : ℕ) → k < left → page_allows mmu write m (page + k * 4096) ≡ true)
      → verify_pages mmu left write m page ≡ ok 0
  unfolding verify_pages
  accepted zero write m page h = refl
  accepted (suc left) write m page h =
      let same : page + 0 * 4096 ≡ page = omega arith in
      let good : page_allows mmu write m page ≡ true = rw (sym same) (h 0 (omega arith)) in
      rw good (accepted left write m (page + 4096) next)
    where
      next : (k : ℕ) → k < left → page_allows mmu write m (page + 4096 + k * 4096) ≡ true
      next k k< =
          let same : page + 4096 + k * 4096 ≡ page + suc k * 4096 = omega arith in
          rw same (h (suc k) (omega (arith, k<)))

  -- The checks before the loop.
  admits :
      {n : ℕ} (has_mm write : Bool) (m : M) (addr size : ℕ)
      → vmm_verify_user_range mmu has_mm m addr size write ≡ ok n
      → 0 < size
      → (addr + size ≤ user_space_end)
        × (verify_pages mmu (rounds (align_down addr) (addr + size)) write m (align_down addr)
            ≡ ok n)
  unfolding vmm_verify_user_range
  admits has_mm write m addr size e h =
      let sized : (size == 0) ≡ false = ground (arith, h) in
      let (a0, e0) = guarded_not (addr == 0) _ _ e in
      let (a1, e1) = guarded_not (not (user_copy_len_ok size)) _ _ (past (size == 0) _ sized e0) in
      let (a2, e2) = guarded_not (leb user_space_end addr) _ _ e1 in
      let (a3, e3) = guarded_not (not has_mm) _ _ e2 in
      ranged (λ end. verify_pages mmu (rounds (align_down addr) end) write m (align_down addr)) addr
        size e3

  -- When `vmm_verify_user_range` accepts a range, each of its bytes is an address of the user, and the
  -- page of that byte is mapped, present and open to the user, for writing too where that was asked.
  pub user_range-safe :
      (has_mm write : Bool) (m : M) (addr size byte n : ℕ)
      → vmm_verify_user_range mmu has_mm m addr size write ≡ ok n
      → addr ≤ byte
      → byte < addr + size
      → (byte < user_space_end) × (page_allows mmu write m (align_down byte) ≡ true)
  user_range-safe has_mm write m addr size byte n e low high =
      let (inside, pages) = admits has_mm write m addr size e (omega arith) in
      let k = byte / 4096 - addr / 4096 in
      let same : align_down byte ≡ align_down addr + k * 4096 = omega (arith, low) in
      (
        omega (arith, inside),
        rw same (
            verified (rounds (align_down addr) (addr + size)) write m (align_down addr) k pages
              (omega (arith, low, high))),
      )

  -- `vmm_verify_user_range` accepts every range of 1 to 2147479552 bytes that starts above 0 and lies
  -- inside the user's space, if each of its bytes is on a page that is mapped, present and open to the
  -- user, for writing too where that was asked.
  pub user_range-accepted :
      (write : Bool) (m : M) (addr size : ℕ)
      → 0 < addr
      → 0 < size
      → size ≤ 2147479552
      → addr + size ≤ user_space_end
      → ((byte : ℕ)
          → addr ≤ byte
          → byte < addr + size
          → page_allows mmu write m (align_down byte) ≡ true)
      → vmm_verify_user_range mmu true m addr size write ≡ ok 0
  unfolding vmm_verify_user_range
  user_range-accepted write m addr size some_addr some_size small top allowed =
      let a0 : (addr == 0) ≡ false = ground (arith, some_addr) in
      let a1 : (size == 0) ≡ false = ground (arith, some_size) in
      let a2 : user_copy_len_ok size ≡ true = ground (arith, small) in
      let a3 : leb user_space_end addr ≡ false = ground (arith, top, some_size) in
      rw
        (
          a0,
          a1,
          a2,
          a3,
          range_end-some addr size user_space_end top (omega arith),
          vmm_verify_user_range,
        )
        (accepted (rounds (align_down addr) (addr + size)) write m (align_down addr) page)
    where
      page :
          (k : ℕ)
          → k < rounds (align_down addr) (addr + size)
          → page_allows mmu write m (align_down addr + k * 4096) ≡ true
      page k k< =
          let byte = max addr (align_down addr + k * 4096) in
          let same : align_down addr + k * 4096 ≡ align_down byte = omega (arith, k<) in
          rw same (allowed byte (omega arith) (omega (arith, k<)))

  -- When a copy to the user succeeds, the bytes were moved, and every byte that was written is an
  -- address of the user whose page the user may write.
  pub copy_to_user-safe :
      (has_mm : Bool) (m : M) (dst src size byte : ℕ)
      → (vmm_copy_to_user mmu has_mm m dst src size).0 ≡ ok 0
      → dst ≤ byte
      → byte < dst + size
      → (byte < user_space_end)
        × (page_allows mmu true m (align_down byte) ≡ true)
        × ((vmm_copy_to_user mmu has_mm m dst src size).1 ≡ mmu.move_bytes m dst src size)
  unfolding vmm_copy_to_user
  copy_to_user-safe has_mm m dst src size byte e low high =
      let (n, verified_ok, moved) =
        copied (src == 0) (vmm_verify_user_range mmu has_mm m dst size true) m
          (mmu.move_bytes m dst src size) e in
      let (inside, allowed) = user_range-safe has_mm true m dst size byte n verified_ok low high in
      (inside, allowed, moved)
    where
      copied :
          (b : Bool) (r : Result ℕ) (m m' : M)
          → (if b then (err efault, m) else copy_if mmu r m m').0 ≡ ok 0
          → (n : ℕ) × (r ≡ ok n) × ((if b then (err efault, m) else copy_if mmu r m m').1 ≡ m')
      copied true r m m' e = absurd (cc e)
      copied false (ok n) m m' e = (n, refl, refl)
      copied false (err w) m m' e = absurd (cc e)
