-- ===== src/Sched/Keep/Calls.antt =====
-- The calls of kernel/proc/scheduler.c on sleeping, waking, time and priorities keep the run queue
-- right.
use obelisk_os.Prelude.{
  ℕ, zero, suc, ◌≡◌, refl, ap, sym, arith, ℤ, pos, negsuc, Bool, true, false, ◌==◌, inl, inr,
  Option, none, some, List, [], ◌∷◌, leb, Bool-cases, Option-cases, get_or-replicate, ◌+◌, add64,
}
use obelisk_os.Sched.State.{ProcState, Process, Sched, max_prio, clamp_prio}
use obelisk_os.Sched.Queue.Laws.{rr_enqueue-Inv, rr_dequeue-Inv}
use obelisk_os.Sched.Core.{
  leave_sleep_queue, make_ready, scheduler_enqueue, scheduler_dequeue, wake_elapsed, wake_all,
  account, scheduler_tick, timer_handler, scheduler_exit, unlink_sleep, stop, scheduler_sleep,
  scheduler_sleep_timeout, scheduler_wake, scheduler_set_priority, clamp_nice, scheduler_set_nice,
  scheduler_set_policy, scheduler_register_policy, scheduler_init,
}
use obelisk_os.Sched.Invariant.{Inv, same-Inv, put_process-Inv, total}
use obelisk_os.Sched.Keep.{if-Inv, rr_tick-Inv, rr_set_priority-Inv, schedule-Inv}

-- Fields beside the run queue and the processes do not matter.
aside-Inv : (s t : Sched) → t.rq ≡ s.rq → t.process ≡ s.process → Inv s → Inv t
aside-Inv s t queue procs =
    same-Inv s t queue (λ p. ap (λ f. (f p).on_queue) procs) (λ p. ap (λ f. (f p).priority) procs)

leave_sleep_queue-Inv : (s : Sched) (p : ℕ) → Inv s → Inv (leave_sleep_queue s p)
unfolding leave_sleep_queue
leave_sleep_queue-Inv s p v =
    if-Inv _ _ _ (aside-Inv _ _ refl refl (put_process-Inv s p _ refl refl v)) v

make_ready-Inv : (s : Sched) (p : ℕ) → Inv s → Inv (make_ready s p)
unfolding make_ready
make_ready-Inv s p v =
    put_process-Inv (leave_sleep_queue s p) p _ refl refl (leave_sleep_queue-Inv s p v)

pub scheduler_enqueue-Inv : (s : Sched) (o : Option ℕ) → Inv s → Inv (scheduler_enqueue s o)
unfolding scheduler_enqueue
scheduler_enqueue-Inv s none v = v
scheduler_enqueue-Inv s (some p) v =
    if-Inv (p == s.idle) _ _ v (if-Inv _ _ _ (rr_enqueue-Inv _ p (make_ready-Inv s p v)) v)

pub scheduler_dequeue-Inv : (s : Sched) (o : Option ℕ) → Inv s → Inv (scheduler_dequeue s o)
unfolding scheduler_dequeue
scheduler_dequeue-Inv s none v = v
scheduler_dequeue-Inv s (some p) v = if-Inv (p == s.idle) _ _ v (rr_dequeue-Inv s p v)

wake_elapsed-Inv : (s : Sched) (p : ℕ) → Inv s → Inv (wake_elapsed s p)
unfolding wake_elapsed
wake_elapsed-Inv s p v =
    if-Inv _ _ _
      (scheduler_enqueue-Inv _ (some p)
        (aside-Inv _ _ refl refl (put_process-Inv s p _ refl refl v)))
      v

wake_all-Inv : (s : Sched) (l : List ℕ) → Inv s → Inv (wake_all s l)
unfolding wake_all
wake_all-Inv s [] v = v
wake_all-Inv s (p ∷ l) v = wake_all-Inv (wake_elapsed s p) l (wake_elapsed-Inv s p v)

account-Inv : (s : Sched) (o : Option ℕ) → Inv s → Inv (account s o)
unfolding account
account-Inv s none v = v
account-Inv s (some p) v = elim (Bool-cases (s.process p).kernel) [
  | inl e ↦ rw e (rr_tick-Inv _ p (put_process-Inv s p _ refl refl v))
  | inr e ↦ rw e (rr_tick-Inv _ p (put_process-Inv s p _ refl refl v))
]

scheduler_tick-Inv : (s : Sched) → Inv s → Inv (scheduler_tick s)
unfolding scheduler_tick
scheduler_tick-Inv s v =
    let used = account s s.curr in
    wake_all-Inv (record used { clock = add64 used.clock 4 }) used.sleep_queue
      (aside-Inv used _ refl refl (account-Inv s s.curr v))

pub timer_handler-Inv : (now : ℕ) (s : Sched) → Inv s → Inv (timer_handler now s)
unfolding timer_handler
timer_handler-Inv now s v =
    if-Inv _ _ _ (schedule-Inv now (scheduler_tick s) (scheduler_tick-Inv s v))
      (scheduler_tick-Inv s v)

pub scheduler_exit-Inv : (now : ℕ) (s : Sched) → Inv s → Inv (scheduler_exit now s)
unfolding scheduler_exit
scheduler_exit-Inv now s v = elim (Option-cases s.curr) [
  | inl e ↦ rw (e, scheduler_exit) v
  | inr e ↦ rw (e.1, scheduler_exit) (schedule-Inv now _ (put_process-Inv s e.0 _ refl refl v))
]

unlink_sleep-Inv : (s : Sched) (p : ℕ) → Inv s → Inv (unlink_sleep s p)
unfolding unlink_sleep
unlink_sleep-Inv s p v =
    if-Inv _ _ _ (aside-Inv _ _ refl refl (put_process-Inv s p _ refl refl v)) v

stop-Inv : (s : Sched) (p : ℕ) (state : ProcState) → Inv s → Inv (stop s p state)
unfolding stop
stop-Inv s p state v =
    let stopped = put_process-Inv s p (record (s.process p) { state = state }) refl refl v in
    unlink_sleep-Inv _ p (if-Inv _ _ _ (scheduler_dequeue-Inv _ (some p) stopped) stopped)

pub scheduler_sleep-Inv :
    (now : ℕ) (s : Sched) (o : Option ℕ) → Inv s → Inv (scheduler_sleep now s o)
unfolding scheduler_sleep
scheduler_sleep-Inv now s none v = v
scheduler_sleep-Inv now s (some p) v =
    schedule-Inv now _ (
      put_process-Inv (stop s p ProcState.blocked) p _ refl refl (stop-Inv s p ProcState.blocked v))

pub scheduler_sleep_timeout-Inv :
    (now : ℕ) (s : Sched) (o : Option ℕ) (timeout : ℕ)
    → Inv s
    → Inv (scheduler_sleep_timeout now s o timeout)
unfolding scheduler_sleep_timeout
scheduler_sleep_timeout-Inv now s none timeout v = v
scheduler_sleep_timeout-Inv now s (some p) timeout v = schedule-Inv now _ (
    aside-Inv _ _ refl refl (
      put_process-Inv (stop s p ProcState.sleeping) p _ refl refl
        (stop-Inv s p ProcState.sleeping v)))

pub scheduler_wake-Inv : (s : Sched) (o : Option ℕ) → Inv s → Inv (scheduler_wake s o)
unfolding scheduler_wake
scheduler_wake-Inv s none v = v
scheduler_wake-Inv s (some p) v =
    let woken = scheduler_enqueue-Inv _ (some p) (leave_sleep_queue-Inv s p v) in
    if-Inv _ _ _ (if-Inv _ _ _ (aside-Inv _ _ refl refl woken) woken) v

pub set_nice-Inv : (s : Sched) (p : ℕ) (nice : ℤ) → Inv s → Inv (scheduler_set_nice s p nice)
unfolding scheduler_set_nice scheduler_set_priority
set_nice-Inv s p nice v =
    rr_set_priority-Inv _ p _
      (put_process-Inv s p (record (s.process p) { nice = clamp_nice nice }) refl refl v)

pub set_policy-Inv :
    (s : Sched) (p : ℕ) (policy : ℤ) → Inv s → Inv (scheduler_set_policy s p policy).1
unfolding scheduler_set_policy
set_policy-Inv s p (negsuc n) v = v
set_policy-Inv s p (pos n) v = elim (Bool-cases (leb s.num_policies n)) [
  | inl e ↦ rw e v
  | inr e ↦ rw e (put_process-Inv s p _ refl refl v)
]

pub register-Inv :
    (complete : Bool) (s : Sched) → Inv s → Inv (scheduler_register_policy complete s).1
unfolding scheduler_register_policy
register-Inv false s v = v
register-Inv true s v = elim (Bool-cases (leb 8 s.num_policies)) [
  | inl e ↦ rw e v
  | inr e ↦ rw e (aside-Inv s _ refl refl v)
]

empty_total : (n lo : ℕ) → total (λ i. []) lo n ≡ 0
unfolding total
empty_total zero lo = refl
empty_total (suc n) lo = omega (arith, empty_total n (lo + 1))

-- At boot no process hangs in a queue, and all have a priority in range.
pub init-Inv :
    (process : ℕ → Process) (idle : ℕ)
    → ((p : ℕ) → (process p).on_queue ≡ none)
    → ((p : ℕ) → pos (clamp_prio (process p).priority) ≡ (process p).priority)
    → Inv (scheduler_init process idle)
unfolding scheduler_init
init-Inv process idle off range = record {
  covers = record {
    words = refl;
    small = λ w. omega (arith, get_or-replicate {A = ℕ} 3 w 0);
    cover = λ i lt ne. absurd (ne refl);
  };
  ranged = range;
  placed = λ p i e. absurd (ground (arith, off p, e));
  hung = λ p i. ground (arith, off p);
  counted = sym (empty_total max_prio 0);
}
