-- ===== src/Sched/Invariant.antt =====
-- What right run queues are, for kernel/proc/scheduler.c.
use obelisk_os.Prelude.{
  ℕ, zero, suc, ◌+◌, ◌^◌, ◌≤◌, ◌<◌, ◌≡◌, ◌≢◌, refl, ap, sym, ◌∙◌, arith, ℤ, pos, negsuc, List, [],
  ◌∷◌, ◌++◌, Option, none, some, ◌==◌, if◌then◌else◌, get_or, length, Bool-cases, inl, inr,
}
use obelisk_os.Word.Array.{bit_at}
use obelisk_os.Sched.State.{Process, Sched, update, put_process, clamp_prio, max_prio, remove}

abbrev pub count : ℕ → List ℕ → ℕ
count p [] = 0
count p (q ∷ l) = (if p == q then 1 else 0) + count p l

-- How many processes wait in the `n` queues from `lo` on.
unfoldable pub total : (ℕ → List ℕ) → ℕ → ℕ → ℕ
total queues lo zero = 0
total queues lo (suc n) = length (queues lo) + total queues (lo + 1) n

-- How often a process whose node hangs in `o` stands in queue `i`.
abbrev pub hangs : Option ℕ → ℕ → ℕ
hangs none i = 0
hangs (some j) i = if j == i then 1 else 0

-- The bitmap marks every queue that is not empty, and may mark others.
pub record Covers (queues : ℕ → List ℕ) (map : List ℕ) : Type 0 where
  pub words : length map ≡ 3
  pub small : (w : ℕ) → get_or map w 0 < 2 ^ 64
  pub cover : (i : ℕ) → i < max_prio → queues i ≢ [] → bit_at 64 map i ≡ 1

-- Every priority is one of the queues'; a process hangs in one of the 140 queues at most, and stands
-- there once; `nr_running` counts the processes in the queues.
pub record Inv (s : Sched) : Type 0 where
  pub covers : Covers s.rq.queues s.rq.bitmap
  pub ranged : (p : ℕ) → pos (clamp_prio (s.process p).priority) ≡ (s.process p).priority
  pub placed : (p i : ℕ) → (s.process p).on_queue ≡ some i → i < max_prio
  pub hung : (p i : ℕ) → count p (s.rq.queues i) ≡ hangs (s.process p).on_queue i
  pub counted : s.rq.nr_running ≡ total s.rq.queues 0 max_prio

pub clamp_prio_lt : (prio : ℤ) → clamp_prio prio < max_prio
clamp_prio_lt (pos n) = ground arith
clamp_prio_lt (negsuc n) = omega arith

-- Only the queues, and of each process its node and its priority, matter.
pub same-Inv :
    (s t : Sched)
    → t.rq ≡ s.rq
    → ((p : ℕ) → (t.process p).on_queue ≡ (s.process p).on_queue)
    → ((p : ℕ) → (t.process p).priority ≡ (s.process p).priority)
    → Inv s
    → Inv t
same-Inv s t queue node prio v = record {
  covers = rw queue v.covers;
  ranged = λ p. rw (prio p) (v.ranged p);
  placed = λ p i e. v.placed p i (sym (node p) ∙ e);
  hung = λ p i. rw (queue, node p) (v.hung p i);
  counted = rw queue v.counted;
}

pub put_process-Inv :
    (s : Sched) (p : ℕ) (t : Process)
    → t.on_queue ≡ (s.process p).on_queue
    → t.priority ≡ (s.process p).priority
    → Inv s
    → Inv (put_process s p t)
put_process-Inv s p t node prio = same-Inv s (put_process s p t) refl (λ q. at q) (λ q. prio_at q)
  where
    at : (q : ℕ) → (update s.process p t q).on_queue ≡ (s.process q).on_queue
    at q = elim (Bool-cases (p == q)) [
      | inl e ↦
          let same : p ≡ q = ground arith in rw e (node ∙ ap (λ r. (s.process r).on_queue) same)
      | inr e ↦ rw e
    ]

    prio_at : (q : ℕ) → (update s.process p t q).priority ≡ (s.process q).priority
    prio_at q = elim (Bool-cases (p == q)) [
      | inl e ↦
          let same : p ≡ q = ground arith in rw e (prio ∙ ap (λ r. (s.process r).priority) same)
      | inr e ↦ rw e
    ]

total_congr :
    (f g : ℕ → List ℕ) (lo n : ℕ) → ((i : ℕ) → lo ≤ i → f i ≡ g i) → total f lo n ≡ total g lo n
unfolding total
total_congr f g lo zero h = refl
total_congr f g lo (suc n) h =
    omega (
      arith,
      ap length (h lo (omega arith)),
      total_congr f g (lo + 1) n (λ i le. h i (omega arith)),
    )

pub total-update :
    (f : ℕ → List ℕ) (lo n i : ℕ) (l : List ℕ)
    → lo ≤ i
    → i < lo + n
    → total (update f i l) lo n + length (f i) ≡ total f lo n + length l
unfolding total
total-update f lo zero i l p q = absurd (omega arith)
total-update f lo (suc n) i l p q = elim (Bool-cases (i == lo)) [
  | inl e ↦
      let same : i ≡ lo = ground arith in
      rw e (
        omega (
          arith,
          total_congr (update f i l) f (lo + 1) n (λ j le. above j same le),
          ap (λ j. length (f j)) same,
        ))
  | inr e ↦ rw e (omega (arith, total-update f (lo + 1) n i l (ground arith) (omega arith)))
]
  where
    above : (j : ℕ) → i ≡ lo → lo + 1 ≤ j → update f i l j ≡ f j
    above j same le = ground arith

pub count-append :
    (p q : ℕ) (l : List ℕ) → count p (l ++ (q ∷ [])) ≡ count p l + (if p == q then 1 else 0)
count-append p q [] = omega arith
count-append p q (x ∷ l) = omega (arith, count-append p q l)

pub count-remove : (p q : ℕ) (l : List ℕ) → count q (remove p l) ≡ (if p == q then 0 else count q l)
unfolding remove
count-remove p q [] = ground arith
count-remove p q (x ∷ l) = ground (arith, count-remove p q l)

pub length-remove : (p : ℕ) (l : List ℕ) → length (remove p l) + count p l ≡ length l
unfolding remove
length-remove p [] = refl
length-remove p (x ∷ l) = ground (arith, length-remove p l)
