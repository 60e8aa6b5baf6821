-- ===== src/Sched/Queue.antt =====
-- The round-robin policy of kernel/proc/scheduler.c: putting a process into the run queue and taking it
-- out. A priority outside the queues, which the C code does not check in `rr_dequeue`, leaves the
-- bitmap as it is here; the theorems have every priority in its range.
pub mod Laws
use Prim.Native.Nat.{bit_and, bit_or}
use obelisk_os.Prelude.{
  ℕ, ◌+◌, ◌-◌, ◌/◌, ◌%◌, ◌^◌, ℤ, pos, negsuc, Bool, true, false, not, ◌&&◌, ◌==◌, ltb, List, [],
  ◌∷◌, ◌++◌, Option, none, some, if◌then◌else◌, set, get_or,
}
use obelisk_os.Word.Laws.{complement}
use obelisk_os.Sched.State.{
  Process, RunQueue, Sched, update, put_process, run_list_linked, remove, clamp_prio,
}

-- `bitmap[prio / 64] |= 1UL << (prio % 64)`, and the same with `&= ~`.
unfoldable pub mark : ℕ → List ℕ → List ℕ
mark prio map = set map (prio / 64) (bit_or (get_or map (prio / 64) 0) (2 ^ (prio % 64)))

unfoldable pub unmark : ℕ → List ℕ → List ℕ
unmark prio map =
    set map (prio / 64) (bit_and (get_or map (prio / 64) 0) (complement 64 (2 ^ (prio % 64))))

unfoldable pub list_add_tail : Sched → ℕ → ℕ → Sched
list_add_tail s p prio = record (put_process s p (record (s.process p) { on_queue = some prio })) {
  rq = record s.rq {
    queues = update s.rq.queues prio (s.rq.queues prio ++ (p ∷ []));
    bitmap = mark prio s.rq.bitmap;
    nr_running = s.rq.nr_running + 1;
  };
}

unfoldable pub rr_enqueue : Sched → ℕ → Sched
unfolding list_add_tail
rr_enqueue s p =
    if run_list_linked (s.process p)
    then s
    else list_add_tail s p (clamp_prio (s.process p).priority)

abbrev pub is_empty : List ℕ → Bool
is_empty [] = true
is_empty (p ∷ l) = false

unfoldable pub unmark_empty : ℤ → (ℕ → List ℕ) → List ℕ → List ℕ
unmark_empty (negsuc n) queues map = map
unmark_empty (pos prio) queues map = if is_empty (queues prio) then unmark prio map else map

-- The node leaves the queue that it hangs in, `prio`.
unfoldable pub unlink : Sched → ℕ → ℕ → Sched
unfolding unmark_empty
unlink s p prio =
    let queues = update s.rq.queues prio (remove p (s.rq.queues prio)) in
    record (put_process s p (record (s.process p) { on_queue = none })) {
      rq = record s.rq {
        queues = queues;
        bitmap = unmark_empty (s.process p).priority queues s.rq.bitmap;
        nr_running = if ltb 0 s.rq.nr_running then s.rq.nr_running - 1 else s.rq.nr_running;
      };
    }

unfoldable pub rr_dequeue : Sched → ℕ → Sched
unfolding unlink
rr_dequeue s p = elim (s.process p).on_queue [ none ↦ s | some prio ↦ unlink s p prio ]
