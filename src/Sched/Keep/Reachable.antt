-- ===== src/Sched/Keep/Reachable.antt =====
-- The states that the calls of kernel/proc/scheduler.c reach.
use obelisk_os.Prelude.{ℕ, ◌≡◌, ℤ, pos, Bool, Option, none}
use obelisk_os.Sched.State.{Process, Sched, put_process, clamp_prio}
use obelisk_os.Sched.Core.{
  scheduler_enqueue, scheduler_dequeue, schedule, timer_handler, scheduler_exit, scheduler_sleep,
  scheduler_sleep_timeout, scheduler_wake, scheduler_set_priority, scheduler_set_nice,
  scheduler_set_policy, scheduler_register_policy, scheduler_init, scheduler_start,
}
use obelisk_os.Sched.Invariant.{Inv, put_process-Inv}
use obelisk_os.Sched.Keep.{rr_set_priority-Inv, schedule-Inv}
use obelisk_os.Sched.Keep.Calls.{
  scheduler_enqueue-Inv, timer_handler-Inv, scheduler_dequeue-Inv, scheduler_exit-Inv,
  scheduler_sleep-Inv, scheduler_sleep_timeout-Inv, scheduler_wake-Inv, set_nice-Inv,
  set_policy-Inv, register-Inv, init-Inv,
}

-- The states that the calls reach. Between them the rest of the kernel may set any field of a process
-- but its node and its priority, which it sets when it makes the process.
pub data Scheduled : Sched → Type 0 where
  init :
      (process : ℕ → Process) (idle : ℕ)
      → ((p : ℕ) → (process p).on_queue ≡ none)
      → ((p : ℕ) → pos (clamp_prio (process p).priority) ≡ (process p).priority)
      → Scheduled (scheduler_init process idle)
  other :
      (s : Sched) (p : ℕ) (t : Process)
      → t.on_queue ≡ (s.process p).on_queue
      → t.priority ≡ (s.process p).priority
      → Scheduled s
      → Scheduled (put_process s p t)
  start :
      (s : Sched) (now : ℕ) (first : Option ℕ)
      → Scheduled s
      → Scheduled (scheduler_start now first s)
  enqueue : (s : Sched) (o : Option ℕ) → Scheduled s → Scheduled (scheduler_enqueue s o)
  dequeue : (s : Sched) (o : Option ℕ) → Scheduled s → Scheduled (scheduler_dequeue s o)
  reschedule : (s : Sched) (now : ℕ) → Scheduled s → Scheduled (schedule now s)
  timer : (s : Sched) (now : ℕ) → Scheduled s → Scheduled (timer_handler now s)
  exit : (s : Sched) (now : ℕ) → Scheduled s → Scheduled (scheduler_exit now s)
  sleep : (s : Sched) (now : ℕ) (o : Option ℕ) → Scheduled s → Scheduled (scheduler_sleep now s o)
  sleep_timeout :
      (s : Sched) (now timeout : ℕ) (o : Option ℕ)
      → Scheduled s
      → Scheduled (scheduler_sleep_timeout now s o timeout)
  wake : (s : Sched) (o : Option ℕ) → Scheduled s → Scheduled (scheduler_wake s o)
  set_priority :
      (s : Sched) (p : ℕ) (prio : ℤ) → Scheduled s → Scheduled (scheduler_set_priority s p prio)
  set_nice : (s : Sched) (p : ℕ) (nice : ℤ) → Scheduled s → Scheduled (scheduler_set_nice s p nice)
  set_policy :
      (s : Sched) (p : ℕ) (policy : ℤ) → Scheduled s → Scheduled (scheduler_set_policy s p policy).1
  register :
      (s : Sched) (complete : Bool)
      → Scheduled s
      → Scheduled (scheduler_register_policy complete s).1

-- In every state that the scheduler's calls reach from `scheduler_init` on: the bitmap marks every
-- queue that is not empty, a process stands at most once in the queues, every priority is one of the
-- 140, and `nr_running` counts the processes in the queues.
pub Scheduled-Inv : (s : Sched) → Scheduled s → Inv s
unfolding scheduler_start scheduler_set_priority
Scheduled-Inv _ (init process idle off range) = init-Inv process idle off range
Scheduled-Inv _ (other s p t node prio r) = put_process-Inv s p t node prio (Scheduled-Inv s r)
Scheduled-Inv _ (start s now first r) =
    schedule-Inv now _ (scheduler_enqueue-Inv s first (Scheduled-Inv s r))
Scheduled-Inv _ (enqueue s o r) = scheduler_enqueue-Inv s o (Scheduled-Inv s r)
Scheduled-Inv _ (dequeue s o r) = scheduler_dequeue-Inv s o (Scheduled-Inv s r)
Scheduled-Inv _ (reschedule s now r) = schedule-Inv now s (Scheduled-Inv s r)
Scheduled-Inv _ (timer s now r) = timer_handler-Inv now s (Scheduled-Inv s r)
Scheduled-Inv _ (exit s now r) = scheduler_exit-Inv now s (Scheduled-Inv s r)
Scheduled-Inv _ (sleep s now o r) = scheduler_sleep-Inv now s o (Scheduled-Inv s r)
Scheduled-Inv _ (sleep_timeout s now timeout o r) =
    scheduler_sleep_timeout-Inv now s o timeout (Scheduled-Inv s r)
Scheduled-Inv _ (wake s o r) = scheduler_wake-Inv s o (Scheduled-Inv s r)
Scheduled-Inv _ (set_priority s p prio r) = rr_set_priority-Inv s p prio (Scheduled-Inv s r)
Scheduled-Inv _ (set_nice s p nice r) = set_nice-Inv s p nice (Scheduled-Inv s r)
Scheduled-Inv _ (set_policy s p policy r) = set_policy-Inv s p policy (Scheduled-Inv s r)
Scheduled-Inv _ (register s complete r) = register-Inv complete s (Scheduled-Inv s r)
