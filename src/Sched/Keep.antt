-- ===== src/Sched/Keep.antt =====
-- Every call of kernel/proc/scheduler.c keeps the run queue right: the policy and `schedule`; the other
-- calls, and the states that they reach, are in the child modules.
pub mod Calls
pub mod Reachable
use obelisk_os.Prelude.{
  ℕ, ◌≡◌, refl, ap, sym, ◌∙◌, arith, ℤ, pos, negsuc, Bool, true, false, not, ◌==◌, ◌&&◌, ◌⊎◌, inl,
  inr, Option, none, some, if◌then◌else◌, ltb, leb, Bool-cases, Option-cases,
}
use obelisk_os.Sched.State.{
  Process, Sched, update, put_process, run_list_linked, process_schedulable, not_positive,
  clamp_prio,
}
use obelisk_os.Sched.Queue.{rr_enqueue, rr_dequeue, unlink}
use obelisk_os.Sched.Queue.Laws.{rr_enqueue-Inv, rr_dequeue-Inv}
use obelisk_os.Sched.Pick.{rr_pick_next, with_bitmap}
use obelisk_os.Sched.Pick.Best.{rr_pick_next_lem}
use obelisk_os.Sched.Policy.{
  rr_yield, slice_over, rr_tick, is_active, with_priority, rr_set_priority,
}
use obelisk_os.Sched.Core.{
  is_ready, is_running, park, settle, take_out, refill, same_process, run_next, schedule,
}
use obelisk_os.Sched.Invariant.{Covers, Inv, same-Inv, put_process-Inv, clamp_prio_lt, hangs, count}

pub if-Inv : (b : Bool) (s t : Sched) → Inv s → Inv t → Inv (if b then s else t)
if-Inv true s t v w = v
if-Inv false s t v w = w

pub rr_yield-Inv : (s : Sched) (p : ℕ) → Inv s → Inv (rr_yield s p)
unfolding rr_yield
rr_yield-Inv s p v =
    if-Inv (p == s.idle) _ _ v
      (rr_enqueue-Inv _ p (put_process-Inv (rr_dequeue s p) p _ refl refl (rr_dequeue-Inv s p v)))

pub rr_tick-Inv : (s : Sched) (p : ℕ) → Inv s → Inv (rr_tick s p)
unfolding rr_tick slice_over
rr_tick-Inv s p v = if-Inv (p == s.idle) _ _ v (
    if-Inv _ _ _
      (if-Inv (ltb 0 s.rq.nr_running) _ _
        (same-Inv (put_process s p _) _ refl (λ q. refl) (λ q. refl)
          (put_process-Inv s p _ refl refl v))
        (put_process-Inv s p _ refl refl v))
      (put_process-Inv s p _ refl refl v))

clamped : (prio : ℤ) → pos (clamp_prio (pos (clamp_prio prio))) ≡ pos (clamp_prio prio)
clamped prio = ground (arith, clamp_prio_lt prio)

-- The priority of a process may change, also where it waits in a queue.
with_priority-Inv :
    (s : Sched) (p : ℕ) (prio : ℤ) → Inv s → Inv (with_priority s p (clamp_prio prio))
with_priority-Inv s p prio v = record {
  covers = v.covers;
  ranged = λ q. ground (arith, v.ranged q, clamped prio);
  placed = λ q i e. ground (arith, e, v.placed q i);
  hung = λ q i.
      ground (arith, v.hung q i, (λ (e : p ≡ q). ap (λ j. hangs (s.process j).on_queue i) e));
  counted = v.counted;
}

pub rr_set_priority-Inv : (s : Sched) (p : ℕ) (prio : ℤ) → Inv s → Inv (rr_set_priority s p prio)
unfolding rr_set_priority
rr_set_priority-Inv s p prio v =
    if-Inv (is_active (s.process p).state) _ _
      (rr_enqueue-Inv _ p (with_priority-Inv (rr_dequeue s p) p prio (rr_dequeue-Inv s p v)))
      (with_priority-Inv s p prio v)

pub park-Inv : (s : Sched) (o : Option ℕ) → Inv s → Inv (park s o)
unfolding park
park-Inv s none v = v
park-Inv s (some p) v = if-Inv _ _ _ (rr_enqueue-Inv _ p (put_process-Inv s p _ refl refl v)) v

pub rr_pick_next-Inv : (s : Sched) → Inv s → Inv (rr_pick_next s).1
rr_pick_next-Inv s v =
    let (map, covers, e) = rr_pick_next_lem s v in
    rw e (record {
      covers = covers;
      ranged = v.ranged;
      placed = v.placed;
      hung = v.hung;
      counted = v.counted;
    })

pub settle-Inv : (r : ℕ × Sched) → Inv r.1 → Inv (settle r).1
unfolding settle
settle-Inv (next, s) v =
    elim (Bool-cases (not (next == s.idle) && not (process_schedulable (s.process next)))) [
      | inl e ↦ rw e v
      | inr e ↦ rw e v
    ]

take_out-Inv : (r : ℕ × Sched) → Inv r.1 → Inv (take_out r).1
unfolding take_out
take_out-Inv (next, s) v =
    elim (Bool-cases (not (next == s.idle) && is_ready (s.process next).state)) [
      | inl e ↦ rw e (rr_dequeue-Inv s next v)
      | inr e ↦ rw e v
    ]

pub refill_node : (t : Process) → (refill t).on_queue ≡ t.on_queue
unfolding refill
refill_node t = ground arith

pub refill_priority : (t : Process) → (refill t).priority ≡ t.priority
unfolding refill
refill_priority t = ground arith

pub run_next-Inv : (now : ℕ) (prev : Option ℕ) (r : ℕ × Sched) → Inv r.1 → Inv (run_next now prev r)
unfolding run_next
run_next-Inv now prev (next, s) v =
    let chosen =
      put_process-Inv s next _ (refill_node (s.process next)) (refill_priority (s.process next))
        v in
    if-Inv (same_process prev next) _ _ (same-Inv _ _ refl (λ q. refl) (λ q. refl) chosen)
      (same-Inv _ _ refl (λ q. refl) (λ q. refl) chosen)

pub schedule-Inv : (now : ℕ) (s : Sched) → Inv s → Inv (schedule now s)
unfolding schedule
schedule-Inv now s v =
    run_next-Inv now s.curr _
      (take_out-Inv _ (settle-Inv _ (rr_pick_next-Inv _ (park-Inv s s.curr v))))
