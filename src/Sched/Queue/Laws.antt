-- ===== src/Sched/Queue/Laws.antt =====
-- Entering and leaving the run queue of kernel/proc/scheduler.c keeps it right.
use obelisk_os.Prelude.{
  ℕ, zero, suc, ◌/◌, ◌%◌, ◌^◌, ◌<◌, ◌≡◌, refl, ap, sym, ◌∙◌, arith, ℤ, pos, negsuc, ◌==◌, List, [],
  ◌∷◌, ◌++◌, Option, none, some, if◌then◌else◌, set, get_or, length-append, length-set, Bool-cases,
  Option-cases, inl, inr,
}
use obelisk_os.Word.Laws.{complement, bit_and_le, two-pow-lt, bit_or_lt}
use obelisk_os.Word.Array.{bit_at, or_bit}
use obelisk_os.Word.Array
use obelisk_os.Sched.State.{Sched, update, run_list_linked, remove, clamp_prio, max_prio}
use obelisk_os.Sched.Queue.{
  mark, unmark, list_add_tail, rr_enqueue, is_empty, unmark_empty, unlink, rr_dequeue,
}
use obelisk_os.Sched.Invariant.{
  count, hangs, Covers, Inv, clamp_prio_lt, total-update, count-append, count-remove, length-remove,
}

small_set :
    (map : List ℕ) (i v : ℕ)
    → v < 2 ^ 64
    → ((w : ℕ) → get_or map w 0 < 2 ^ 64)
    → (w : ℕ) → get_or (set map i v) w 0 < 2 ^ 64
small_set [] i v h small w = omega arith
small_set (x ∷ map) zero v h small zero = h
small_set (x ∷ map) zero v h small (suc w) = small (suc w)
small_set (x ∷ map) (suc i) v h small zero = small 0
small_set (x ∷ map) (suc i) v h small (suc w) = small_set map i v h (λ j. small (suc j)) w

-- A queue that may be not empty is marked.
mark-Covers :
    (queues : ℕ → List ℕ) (map : List ℕ) (i : ℕ) (l : List ℕ)
    → i < max_prio
    → Covers queues map
    → Covers (update queues i l) (mark i map)
unfolding mark
mark-Covers queues map i l h v = record {
  words = length-set map (i / 64) _ ∙ v.words;
  small =
      small_set map (i / 64) _
        (bit_or_lt 64 _ _ (v.small (i / 64)) (two-pow-lt (i % 64) 64 (omega arith))) v.small;
  cover = λ j lt ne.
      ground (arith, or_bit 64 (omega arith) map i j (omega (arith, v.words)), v.cover j lt, ne);
}

-- An empty queue may be marked or not.
pub unmark-Covers :
    (queues : ℕ → List ℕ) (map : List ℕ) (i : ℕ)
    → i < max_prio
    → queues i ≡ []
    → Covers queues map
    → Covers queues (unmark i map)
unfolding unmark
unmark-Covers queues map i h e v = record {
  words = length-set map (i / 64) _ ∙ v.words;
  small =
      small_set map (i / 64) _
        (omega (
          arith,
          v.small (i / 64),
          bit_and_le (get_or map (i / 64) 0) (complement 64 (2 ^ (i % 64))),
        ))
        v.small;
  cover = λ j lt ne. elim (Bool-cases (i == j)) [
    | inl s ↦ let same : i ≡ j = ground arith in absurd (ne (ap queues (sym same) ∙ e))
    | inr s ↦
        ground (
          arith,
          Array.clear_bit 64 (omega arith) map i j (omega (arith, v.words)),
          v.cover j lt ne,
        )
  ];
}

hangs-none : (o : Option ℕ) (i j : ℕ) → o ≡ none → hangs o i ≡ 0
hangs-none none i j e = refl
hangs-none (some k) i j e = absurd (ground arith)

list_add_tail-Inv :
    (s : Sched) (p : ℕ)
    → (s.process p).on_queue ≡ none
    → Inv s
    → Inv (list_add_tail s p (clamp_prio (s.process p).priority))
unfolding list_add_tail
list_add_tail-Inv s p off v = record {
  covers =
      mark-Covers s.rq.queues s.rq.bitmap prio _ (clamp_prio_lt (s.process p).priority) v.covers;
  ranged = λ q. ground (arith, v.ranged q, v.ranged p);
  placed = λ q i e. ground (arith, e, v.placed q i, clamp_prio_lt (s.process p).priority);
  hung = λ q i. ground (
    arith,
    v.hung q i,
    count-append q p (s.rq.queues prio),
    (λ (e : prio ≡ i). ap (λ j. count q (s.rq.queues j)) e),
    (λ (e : p ≡ q). ap (λ j. hangs (s.process j).on_queue i) e),
    ap (λ o. hangs o i) off,
  );
  counted = omega (
    arith,
    v.counted,
    total-update s.rq.queues 0 max_prio prio (s.rq.queues prio ++ (p ∷ [])) (omega arith)
        (omega (arith, clamp_prio_lt (s.process p).priority)),
    length-append (s.rq.queues prio) (p ∷ []),
  );
}
  where
    prio : ℕ
    prio = clamp_prio (s.process p).priority

pub rr_enqueue-Inv : (s : Sched) (p : ℕ) → Inv s → Inv (rr_enqueue s p)
unfolding rr_enqueue run_list_linked
rr_enqueue-Inv s p v = elim (Option-cases (s.process p).on_queue) [
  | inl off ↦ rw (off, rr_enqueue) (list_add_tail-Inv s p off v)
  | inr on ↦ rw (on.1, rr_enqueue) v
]

remove-nil : (p : ℕ) → remove p [] ≡ []
unfolding remove
remove-nil p = refl

shrunk-Covers :
    (queues : ℕ → List ℕ) (map : List ℕ) (p i : ℕ)
    → Covers queues map
    → Covers (update queues i (remove p (queues i))) map
shrunk-Covers queues map p i v = record {
  words = v.words;
  small = v.small;
  cover = λ j lt ne. v.cover j lt (λ e. ne (gone j e));
}
  where
    gone : (j : ℕ) → queues j ≡ [] → update queues i (remove p (queues i)) j ≡ []
    gone j e = elim (Bool-cases (i == j)) [
      | inl s ↦
          let same : i ≡ j = ground arith in
          rw s (ap (λ k. remove p (queues k)) same ∙ ap (remove p) e ∙ remove-nil p)
      | inr s ↦ rw s e
    ]

unmark_empty-Covers :
    (queues : ℕ → List ℕ) (map : List ℕ) (prio : ℤ)
    → clamp_prio prio < max_prio
    → pos (clamp_prio prio) ≡ prio
    → Covers queues map
    → Covers queues (unmark_empty prio queues map)
unfolding unmark_empty
unmark_empty-Covers queues map (negsuc n) h e v = v
unmark_empty-Covers queues map (pos n) h e v = go (queues n) refl
  where
    go : (l : List ℕ) → queues n ≡ l → Covers queues (if is_empty l then unmark n map else map)
    go [] empty = unmark-Covers queues map n (ground (arith, e)) empty v
    go (q ∷ l) some_there = v

unlink-Inv : (s : Sched) (p i : ℕ) → (s.process p).on_queue ≡ some i → Inv s → Inv (unlink s p i)
unfolding unlink
unlink-Inv s p i on v = record {
  covers =
      unmark_empty-Covers left s.rq.bitmap (s.process p).priority
        (clamp_prio_lt (s.process p).priority) (v.ranged p)
        (shrunk-Covers s.rq.queues s.rq.bitmap p i v.covers);
  ranged = λ q. ground (arith, v.ranged q, v.ranged p);
  placed = λ q j e. ground (arith, e, v.placed q j);
  hung = λ q j. ground (
    arith,
    v.hung q j,
    count-remove p q (s.rq.queues i),
    (λ (e : i ≡ j). ap (λ k. count q (s.rq.queues k)) e),
    (λ (e : p ≡ q). ap (λ k. hangs (s.process k).on_queue j) e),
    ap (λ o. hangs o j) on,
  );
  counted = ground (
    arith,
    v.counted,
    total-update s.rq.queues 0 max_prio i (remove p (s.rq.queues i)) (omega arith)
        (omega (arith, v.placed p i on)),
    length-remove p (s.rq.queues i),
    v.hung p i,
    ap (λ o. hangs o i) on,
  );
}
  where
    left : ℕ → List ℕ
    left = update s.rq.queues i (remove p (s.rq.queues i))

pub rr_dequeue-Inv : (s : Sched) (p : ℕ) → Inv s → Inv (rr_dequeue s p)
unfolding rr_dequeue
rr_dequeue-Inv s p v = elim (Option-cases (s.process p).on_queue) [
  | inl off ↦ rw (off, rr_dequeue) v
  | inr on ↦ rw (on.1, rr_dequeue) (unlink-Inv s p on.0 on.1 v)
]
