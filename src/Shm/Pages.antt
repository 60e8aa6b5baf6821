-- ===== src/Shm/Pages.antt =====
-- No page is lost in kernel/ipc/shm.c: a call that fails has none, and a removed segment gives all back.
use Prim.Native.Nat.{bit_and}
use obelisk_os.Prelude.{
  ℕ, zero, suc, ◌+◌, ◌<◌, ◌≡◌, ◌≢◌, refl, sym, ap, ◌∙◌, arith, ℤ, List, [], ◌∷◌, ◌++◌, Option, none,
  some, Bool, true, false, not, ◌==◌, ◌%◌, ◌^◌, ltb, if◌then◌else◌, set, get_or, length,
  length-append, inl, inr, Bool-cases, Result, ok, err, Errno,
}
use Errno.{eexist, enoent, enospc, enomem}
use obelisk_os.PageSource.{PageSource}
use obelisk_os.Shm.Segment.{
  Segment, Shm, Context, give_all, take_all, page_count, store_segment, create_segment, free_slot,
  shmget, segment_at, shmctl, existing, slot, new_segment, o_excl, o_creat,
}

module _ {A : Type 0} (pages : PageSource A) where
  -- `page` is none of the list.
  pub data NotIn (page : ℕ) : List ℕ → Type 0 where
    at_end : NotIn page []
    later : {p : ℕ} {ps : List ℕ} → page ≢ p → NotIn page ps → NotIn page (p ∷ ps)

  -- All pages of the list are held, and no two are the same.
  pub data AllHeld (a : A) : List ℕ → Type 0 where
    at_end : AllHeld a []
    held : {p : ℕ} {ps : List ℕ} → pages.Held a p → NotIn p ps → AllHeld a ps → AllHeld a (p ∷ ps)

  NotIn-append : {page p : ℕ} (ps : List ℕ) → NotIn page ps → page ≢ p → NotIn page (ps ++ (p ∷ []))
  NotIn-append [] n e = NotIn.later e NotIn.at_end
  NotIn-append (q ∷ ps) (NotIn.later d n) e = NotIn.later d (NotIn-append ps n e)

  AllHeld-append :
      {a b : A} {p : ℕ} (ps : List ℕ)
      → AllHeld a ps
      → ((page : ℕ) → pages.Held a page → pages.Held b page)
      → ((page : ℕ) → pages.Held a page → page ≢ p)
      → pages.Held b p
      → AllHeld b (ps ++ (p ∷ []))
  AllHeld-append [] h keep apart new = AllHeld.held new NotIn.at_end AllHeld.at_end
  AllHeld-append (q ∷ ps) (AllHeld.held h n hs) keep apart new =
      AllHeld.held (keep q h) (NotIn-append ps n (apart q h)) (AllHeld-append ps hs keep apart new)

  AllHeld-free :
      {a : A} (p : ℕ) (ps : List ℕ)
      → pages.Ok a
      → pages.Held a p
      → NotIn p ps
      → AllHeld a ps
      → AllHeld (pages.free a p) ps
  AllHeld-free p [] v h n hs = AllHeld.at_end
  AllHeld-free {a = a} p (q ∷ ps) v h (NotIn.later d n) (AllHeld.held k m hs) =
      AllHeld.held (pages.free_keeps a p q v h k d) m (AllHeld-free p ps v h n hs)

  give_all_lem :
      (a : A) (ps : List ℕ)
      → pages.Ok a
      → AllHeld a ps
      → pages.Ok (give_all pages a ps)
        × (pages.available (give_all pages a ps) ≡ length ps + pages.available a)
  unfolding give_all
  give_all_lem a [] v hs = (v, omega arith)
  give_all_lem a (p ∷ ps) v (AllHeld.held h n hs) =
      let one = pages.free_gives a p v h in
      let rest = give_all_lem (pages.free a p) ps one.0 (AllHeld-free p ps v h n hs) in
      (rest.0, omega (arith, rest.1, one.1))

  -- What filling an array of `left` more pages comes to, of a source that had `before` pages available.
  pub data Taken (before left : ℕ) (got : List ℕ) : Option (List ℕ) × A → Type 0 where
    failed : (a : A) → pages.Ok a → pages.available a ≡ before → Taken before left got (none, a)
    filled :
        (a : A) (ps : List ℕ)
        → pages.Ok a
        → AllHeld a ps
        → length ps ≡ length got + left
        → length ps + pages.available a ≡ before
        → Taken before left got (some ps, a)

  take_all_lem :
      (left : ℕ) (a : A) (got : List ℕ) (before : ℕ)
      → pages.Ok a
      → AllHeld a got
      → length got + pages.available a ≡ before
      → Taken before left got (take_all pages left a got)
  unfolding take_all
  take_all_lem zero a got before v hs e = Taken.filled a got v hs (omega arith) e
  take_all_lem (suc left) a got before v hs e = elim (Bool-cases ((pages.alloc a).0 == 0)) [
    | inl none_left ↦ rw none_left (out (pages.alloc_fails a v (ground (arith, none_left))))
    | inr page ↦
        let g = pages.alloc_gives a v (ground (arith, page)) in
        rw page (
          widen (take_all pages left (pages.alloc a).1 (got ++ ((pages.alloc a).0 ∷ []))) (
            take_all_lem left (pages.alloc a).1 (got ++ ((pages.alloc a).0 ∷ [])) before g.0
              (AllHeld-append got hs (λ p h. pages.alloc_keeps a p v h) g.3 g.1)
              (omega (arith, e, g.2, length-append got ((pages.alloc a).0 ∷ [])))))
  ]
    where
      out :
          (pages.alloc a).1 ≡ a
          → Taken before (suc left) got (none, give_all pages (pages.alloc a).1 got)
      out same =
          let back = give_all_lem a got v hs in
          rw same (Taken.failed (give_all pages a got) back.0 (omega (arith, back.1, e)))

      widen :
          (r : Option (List ℕ) × A)
          → Taken before left (got ++ ((pages.alloc a).0 ∷ [])) r
          → Taken before (suc left) got r
      widen _ (Taken.failed b w f) = Taken.failed b w f
      widen _ (Taken.filled b ps w hs size total) =
          Taken.filled b ps w hs (omega (arith, size, length-append got ((pages.alloc a).0 ∷ [])))
            total

  -- What `shmget` does to the source of pages.
  pub data Got (s : Shm A) (size : ℕ) : Result ℕ × Shm A → Type 0 where
    unchanged :
        (r : Result ℕ) (t : Shm A)
        → t.source ≡ s.source
        → t.shm_table ≡ s.shm_table
        → Got s size (r, t)
    gave_up :
        (t : Shm A)
        → pages.Ok t.source
        → pages.available t.source ≡ pages.available s.source
        → t.shm_table ≡ s.shm_table
        → Got s size (err enomem, t)
    created :
        (i : ℕ) (seg : Segment) (t : Shm A)
        → i < length s.shm_table
        → get_or s.shm_table i none ≡ none
        → t.shm_table ≡ set s.shm_table i (some seg)
        → seg.nattach ≡ 0
        → pages.Ok t.source
        → AllHeld t.source seg.pages
        → length seg.pages ≡ page_count pages size
        → length seg.pages + pages.available t.source ≡ pages.available s.source
        → Got s size (ok i, t)

  free_slot_lem :
      (table : List (Option Segment)) (k i : ℕ)
      → free_slot table k ≡ some i
      → (j : ℕ) × (i ≡ k + j) × (j < length table) × (get_or table j none ≡ none)
  unfolding free_slot
  free_slot_lem [] k i e = absurd (ground (arith, e))
  free_slot_lem (none ∷ os) k i e = (0, ground (arith, e), omega arith, refl)
  free_slot_lem (some seg ∷ os) k i e =
      let r = free_slot_lem os (k + 1) i e in (suc r.0, omega (arith, r.1), omega (arith, r.2), r.3)

  -- Where the source of pages is in order, `shmget` loses no page: it leaves the source alone, or gives up
  -- with as many pages available as before, or puts a segment that nobody uses into a free slot, whose
  -- pages are held, are all different, are as many as the rounded size needs, and are what is
  -- available less.
  pub shmget_lem :
      (ctx : Context) (key size flags : ℕ) (s : Shm A)
      → pages.Ok s.source
      → Got s size (shmget pages ctx key size flags s)
  unfolding shmget create_segment store_segment
  shmget_lem ctx key size flags s v = found (existing pages s.shm_table key)
    where
      stored :
          (i : ℕ)
          → i < length s.shm_table
          → get_or s.shm_table i none ≡ none
          → (r : Option (List ℕ) × A)
          → Taken (pages.available s.source) (page_count pages size) [] r
          → Got s size (store_segment pages ctx s i key size flags r)
      stored i inside free _ (Taken.failed a w e) =
          Got.gave_up (store_segment pages ctx s i key size flags (none, a)).1 w e refl
      stored i inside free _ (Taken.filled a ps w hs n total) =
          Got.created i (new_segment pages ctx s.next_shm_id key size flags ps)
            (store_segment pages ctx s i key size flags (some ps, a)).1 inside free refl refl w hs
            (omega (arith, n)) total

      memory :
          (i : ℕ) (first second : Bool)
          → i < length s.shm_table
          → get_or s.shm_table i none ≡ none
          → Got s size (
              if not first
              then (err enomem, s)
              else if not second
              then (err enomem, record s { next_shm_id = (s.next_shm_id + 1) % 2 ^ 32 })
              else store_segment pages ctx s i key size flags
                  (take_all pages (page_count pages size) s.source []))
      memory i false second inside free = Got.unchanged (err enomem) s refl refl
      memory i true false inside free =
          Got.unchanged (err enomem) (record s { next_shm_id = (s.next_shm_id + 1) % 2 ^ 32 }) refl
            refl
      memory i true true inside free =
          stored i inside free (take_all pages (page_count pages size) s.source []) (
            take_all_lem (page_count pages size) s.source [] (pages.available s.source) v
              AllHeld.at_end (omega arith))

      create :
          (o : Option ℕ)
          → free_slot s.shm_table 0 ≡ o
          → Got s size (create_segment pages ctx s key size flags)
      create none e = rw (e, create_segment) (Got.unchanged (err enospc) s refl refl)
      create (some i) e =
          let f = free_slot_lem s.shm_table 0 i e in
          let same : f.0 ≡ i = omega (arith, f.1) in
          rw (e, create_segment)
            (memory i ctx.segment_memory ctx.array_memory (omega (arith, same, f.2))
              (ap (λ k. get_or s.shm_table k none) (sym same) ∙ f.3))

      found :
          (o : Option ℕ)
          → Got s size (elim o [
            | some i ↦ if not (bit_and flags o_excl == 0) then (err eexist, s) else (ok i, s)
            | none ↦
                if bit_and flags o_creat == 0
                then (err enoent, s)
                else create_segment pages ctx s key size flags
          ])
      found (some i) = elim (Bool-cases (not (bit_and flags o_excl == 0))) [
        | inl e ↦ rw e (Got.unchanged (err eexist) s refl refl)
        | inr e ↦ rw e (Got.unchanged (ok i) s refl refl)
      ]
      found none = elim (Bool-cases (bit_and flags o_creat == 0)) [
        | inl e ↦ rw e (Got.unchanged (err enoent) s refl refl)
        | inr e ↦ rw e (create (free_slot s.shm_table 0) refl)
      ]

  -- Removing a segment that nobody uses, whose pages are held, empties its slot and makes all of its
  -- pages available again.
  pub shmctl_remove :
      (shmid : ℤ) (s : Shm A) (seg : Segment)
      → pages.Ok s.source
      → segment_at pages shmid s ≡ some seg
      → seg.nattach ≡ 0
      → AllHeld s.source seg.pages
      → let t = (shmctl pages shmid 0 s).1 in
        ((shmctl pages shmid 0 s).0 ≡ ok 0)
        × (t.shm_table ≡ set s.shm_table (slot pages shmid) none)
        × (pages.available t.source ≡ length seg.pages + pages.available s.source)
        × pages.Ok t.source
  unfolding shmctl
  shmctl_remove shmid s seg v e unused hs =
      let back = give_all_lem s.source seg.pages v hs in
      let idle : ltb 0 seg.nattach ≡ false = ground (arith, unused) in
      rw (e, shmctl, idle) (refl, refl, back.1, back.0)
