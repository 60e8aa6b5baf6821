-- ===== src/Sched/Pick/Best.antt =====
-- `rr_pick_next` of kernel/proc/scheduler.c against a search of the queues that needs no bitmap.
use obelisk_os.Prelude.{
  ℕ, zero, suc, ◌+◌, ◌≤◌, ◌<◌, ◌≡◌, refl, ap, sym, ◌∙◌, arith, List, [], ◌∷◌, Option, none, some,
  Bool-cases, inl, inr, ◌==◌,
}
use obelisk_os.Sched.State.{Sched, max_prio}
use obelisk_os.Sched.Invariant.{Covers, Inv}
use obelisk_os.Sched.Pick.{scan_words, with_bitmap, or_idle, rr_pick_next}
use obelisk_os.Sched.Pick.Laws.{Scanned, scan_words_lem}

-- The head of the first of the `n` queues from `lo` on that is not empty.
unfoldable pub best : (ℕ → List ℕ) → ℕ → ℕ → Option ℕ
best queues lo zero = none
best queues lo (suc n) = elim (queues lo) [ [] ↦ best queues (lo + 1) n | p ∷ l ↦ some p ]

abbrev pub value_or : Option ℕ → ℕ → ℕ
value_or none d = d
value_or (some p) d = p

pub best-none :
    (queues : ℕ → List ℕ) (n lo : ℕ)
    → ((i : ℕ) → lo ≤ i → i < lo + n → queues i ≡ [])
    → best queues lo n ≡ none
unfolding best
best-none queues zero lo h = refl
best-none queues (suc n) lo h =
    rw (h lo (omega arith) (omega arith), best)
      (best-none queues n (lo + 1) (λ i a b. h i (omega arith) (omega arith)))

pub best-some :
    (queues : ℕ → List ℕ) (n lo i p : ℕ) (l : List ℕ)
    → lo ≤ i
    → i < lo + n
    → queues i ≡ p ∷ l
    → ((j : ℕ) → lo ≤ j → j < i → queues j ≡ [])
    → best queues lo n ≡ some p
unfolding best
best-some queues zero lo i p l a b e before = absurd (omega arith)
best-some queues (suc n) lo i p l a b e before = elim (Bool-cases (lo == i)) [
  | inl s ↦ let here : lo ≡ i = ground arith in rw (ap queues here ∙ e, best)
  | inr s ↦
      rw (before lo (omega arith) (ground arith), best)
        (best-some queues n (lo + 1) i p l (ground arith) (omega arith) e
          (λ j c d. before j (omega arith) d))
]

-- With a right run queue, `rr_pick_next` gives the process that waits longest in the first queue that
-- is not empty, or the idle process where all are empty. It changes nothing but the bitmap, where
-- every queue that is not empty stays marked.
pub rr_pick_next_lem :
    (s : Sched)
    → Inv s
    → (map : List ℕ) × Covers s.rq.queues map
      × (rr_pick_next s ≡ (value_or (best s.rq.queues 0 max_prio) s.idle, with_bitmap s map))
unfolding rr_pick_next or_idle
rr_pick_next_lem s v =
    go (scan_words 3 s.rq.queues 0 s.rq.bitmap)
      (scan_words_lem 3 0 s.rq.queues s.rq.bitmap refl v.covers)
  where
    go :
        (r : Option ℕ × List ℕ)
        → Scanned s.rq.queues 0 192 r
        → (map : List ℕ) × Covers s.rq.queues map
          × (or_idle s r ≡ (value_or (best s.rq.queues 0 max_prio) s.idle, with_bitmap s map))
    go _ (Scanned.nothing map c empty) = (
      map,
      c,
      ap (λ o. (value_or o s.idle, with_bitmap s map))
          (sym (best-none s.rq.queues max_prio 0 (λ i a b. empty i a (omega arith) (omega arith)))),
    )
    go _ (Scanned.found map i p l c at lt e before) = (
      map,
      c,
      ap (λ o. (value_or o s.idle, with_bitmap s map))
          (sym (best-some s.rq.queues max_prio 0 i p l at (omega arith) e before)),
    )
