-- ===== src/Sched/Core.antt =====
-- The core of kernel/proc/scheduler.c over the round-robin policy, the only one that the kernel sets:
-- with it `policy_ready` holds, and the panics are not reached. The idle process exists before
-- `scheduler_init`. `now` is what `get_ticks` gives. Switching address spaces, registers and the
-- interrupt flag is left out: a call ends where the C code switches to the next process.
use obelisk_os.Prelude.{
  ℕ, ◌+◌, ◌-◌, ℤ, pos, negsuc, Bool, true, false, not, ◌==◌, ◌&&◌, ◌||◌, leb, ltb, List, [], ◌∷◌,
  ◌++◌, Option, none, some, replicate, if◌then◌else◌, add64, Result, ok, err, Errno,
}
use Errno.{einval, enomem}
use obelisk_os.Sched.State.{
  ProcState, Process, Sched, put_process, run_list_linked, sleep_list_linked, process_schedulable,
  remove, not_positive,
}
use obelisk_os.Sched.Queue.{rr_enqueue, rr_dequeue}
use obelisk_os.Sched.Pick.{rr_pick_next}
use obelisk_os.Sched.Policy.{rr_time_slice, rr_tick, rr_set_priority}

-- `list_del` and `INIT_LIST_HEAD` on `sleep_list`, where it is linked, and the deadline reset.
unfoldable pub leave_sleep_queue : Sched → ℕ → Sched
leave_sleep_queue s p =
    if sleep_list_linked (s.process p)
    then record (put_process s p (record (s.process p) { on_sleep = false; wakeup_tick = 0 })) {
      sleep_queue = remove p s.sleep_queue;
    }
    else s

unfoldable pub make_ready : Sched → ℕ → Sched
unfolding leave_sleep_queue
make_ready s p =
    let awake = leave_sleep_queue s p in
    put_process awake p (record (awake.process p) {
      state = ProcState.ready;
      time_slice = pos (rr_time_slice (awake.process p));
    })

unfoldable pub scheduler_enqueue : Sched → Option ℕ → Sched
unfolding make_ready
scheduler_enqueue s none = s
scheduler_enqueue s (some p) =
    if p == s.idle
    then s
    else if process_schedulable (s.process p)
    then rr_enqueue (make_ready s p) p
    else s

unfoldable pub scheduler_dequeue : Sched → Option ℕ → Sched
scheduler_dequeue s none = s
scheduler_dequeue s (some p) = if p == s.idle then s else rr_dequeue s p

abbrev pub is_running : ProcState → Bool
is_running ProcState.running = true
is_running _ = false

abbrev pub is_ready : ProcState → Bool
is_ready ProcState.ready = true
is_ready _ = false

abbrev pub with_state : Sched → ℕ → ProcState → Sched
with_state s p state = put_process s p (record (s.process p) { state = state })

-- The current process, where it remains runnable, goes back into the run queue.
unfoldable pub park : Sched → Option ℕ → Sched
park s none = s
park s (some prev) =
    if not (prev == s.idle)
      && (is_running (s.process prev).state && process_schedulable (s.process prev))
    then rr_enqueue (with_state s prev ProcState.ready) prev
    else s

-- A pick that may not run gives way to the idle process.
unfoldable pub settle : ℕ × Sched → ℕ × Sched
settle (next, s) =
    if not (next == s.idle) && not (process_schedulable (s.process next))
    then (s.idle, s)
    else (next, s)

unfoldable pub take_out : ℕ × Sched → ℕ × Sched
take_out (next, s) =
    if not (next == s.idle) && is_ready (s.process next).state
    then (next, rr_dequeue s next)
    else (next, s)

unfoldable pub refill : Process → Process
refill t = if not_positive t.time_slice then record t { time_slice = pos (rr_time_slice t) } else t

abbrev pub same_process : Option ℕ → ℕ → Bool
same_process none next = false
same_process (some prev) next = prev == next

unfoldable pub run_next : ℕ → Option ℕ → ℕ × Sched → Sched
unfolding refill
run_next now prev (next, s) =
    let chosen =
      record (put_process s next
        (record (refill (s.process next)) { state = ProcState.running; last_run = now })) {
          curr = some next;
          need_resched = false;
        } in
    if same_process prev next then chosen else record chosen {
      nr_switches = add64 chosen.nr_switches 1;
      total_switches = add64 chosen.total_switches 1;
    }

unfoldable pub schedule : ℕ → Sched → Sched
unfolding park settle take_out run_next
schedule now s = run_next now s.curr (take_out (settle (rr_pick_next (park s s.curr))))

unfoldable pub scheduler_yield : ℕ → Sched → Sched
scheduler_yield now s = schedule now s

abbrev pub is_sleeping : ProcState → Bool
is_sleeping ProcState.sleeping = true
is_sleeping _ = false

-- One process of the sleep queue.
unfoldable pub wake_elapsed : Sched → ℕ → Sched
wake_elapsed s p =
    if is_sleeping (s.process p).state && leb (s.process p).wakeup_tick s.clock
    then scheduler_enqueue
        (record (put_process s p (record (s.process p) { on_sleep = false; wakeup_tick = 0 })) {
          sleep_queue = remove p s.sleep_queue;
        })
        (some p)
    else s

-- The loop over the processes that were in the sleep queue.
unfoldable pub wake_all : Sched → List ℕ → Sched
unfolding wake_elapsed
wake_all s [] = s
wake_all s (p ∷ l) = wake_all (wake_elapsed s p) l

-- The time of the current process, and the policy's tick; TICK_MS is 1000 / 250.
unfoldable pub account : Sched → Option ℕ → Sched
account s none = s
account s (some p) =
    let t = s.process p in
    let used = record t { runtime = add64 t.runtime 4 } in
    rr_tick
      (put_process s p (
        if t.kernel
        then record used { stime = add64 t.stime 1 }
        else record used { utime = add64 t.utime 1 }))
      p

unfoldable pub scheduler_tick : Sched → Sched
unfolding account wake_all
scheduler_tick s =
    let used = account s s.curr in
    wake_all (record used { clock = add64 used.clock 4 }) used.sleep_queue

-- The timer interrupt.
unfoldable pub timer_handler : ℕ → Sched → Sched
timer_handler now s =
    let ticked = scheduler_tick s in if ticked.need_resched then schedule now ticked else ticked

-- The call does not return; with no current process it panics, which changes nothing here.
unfoldable pub scheduler_exit : ℕ → Sched → Sched
scheduler_exit now s = elim s.curr [
  | none ↦ s
  | some p ↦
      schedule now
        (put_process s p (record (s.process p) { exiting = true; state = ProcState.zombie }))
]

-- `list_del` on `sleep_list` where it is linked, with no reset of the deadline.
unfoldable pub unlink_sleep : Sched → ℕ → Sched
unlink_sleep s p =
    if sleep_list_linked (s.process p)
    then record (put_process s p (record (s.process p) { on_sleep = false })) {
      sleep_queue = remove p s.sleep_queue;
    }
    else s

-- The process goes to `state` and leaves both queues.
unfoldable pub stop : Sched → ℕ → ProcState → Sched
unfolding unlink_sleep
stop s p state =
    let stopped = with_state s p state in
    unlink_sleep
      (if run_list_linked (stopped.process p) then scheduler_dequeue stopped (some p) else stopped)
      p

unfoldable pub scheduler_sleep : ℕ → Sched → Option ℕ → Sched
unfolding stop
scheduler_sleep now s none = s
scheduler_sleep now s (some p) =
    let out = stop s p ProcState.blocked in
    schedule now (put_process out p (record (out.process p) { wakeup_tick = 0 }))

unfoldable pub scheduler_sleep_timeout : ℕ → Sched → Option ℕ → ℕ → Sched
unfolding stop
scheduler_sleep_timeout now s none timeout = s
scheduler_sleep_timeout now s (some p) timeout =
    let out = stop s p ProcState.sleeping in
    schedule now
      (record (put_process out p
        (record (out.process p) { wakeup_tick = add64 out.clock timeout; on_sleep = true })) {
          sleep_queue = out.sleep_queue ++ (p ∷ []);
        })

abbrev pub is_waiting : ProcState → Bool
is_waiting ProcState.blocked = true
is_waiting ProcState.sleeping = true
is_waiting _ = false

-- `a < b` on `int`
abbrev pub ltb_int : ℤ → ℤ → Bool
ltb_int (pos m) (pos n) = ltb m n
ltb_int (pos m) (negsuc n) = false
ltb_int (negsuc m) (pos n) = true
ltb_int (negsuc m) (negsuc n) = ltb n m

unfoldable pub preempts : Sched → ℕ → Option ℕ → Bool
preempts s p none = false
preempts s p (some curr) =
    curr == s.idle || ltb_int (s.process p).priority (s.process curr).priority

unfoldable pub scheduler_wake : Sched → Option ℕ → Sched
unfolding preempts
scheduler_wake s none = s
scheduler_wake s (some p) =
    let woken = scheduler_enqueue (leave_sleep_queue s p) (some p) in
    if is_waiting (s.process p).state
    then (if preempts woken p woken.curr then record woken { need_resched = true } else woken)
    else s

unfoldable pub scheduler_set_priority : Sched → ℕ → ℤ → Sched
scheduler_set_priority s p prio = rr_set_priority s p prio

-- MIN_NICE is -20, MAX_NICE 19.
unfoldable pub clamp_nice : ℤ → ℤ
clamp_nice (negsuc n) = if ltb 19 n then negsuc 19 else negsuc n
clamp_nice (pos n) = if ltb 19 n then pos 19 else pos n

-- DEFAULT_PRIO + nice, with DEFAULT_PRIO = 120
unfoldable pub nice_prio : ℤ → ℤ
nice_prio (negsuc n) = if ltb n 120 then pos (119 - n) else negsuc (n - 120)
nice_prio (pos n) = pos (120 + n)

unfoldable pub scheduler_set_nice : Sched → ℕ → ℤ → Sched
unfolding clamp_nice nice_prio
scheduler_set_nice s p nice =
    let t = record (s.process p) { nice = clamp_nice nice } in
    scheduler_set_priority (put_process s p t) p (nice_prio (clamp_nice nice))

unfoldable pub scheduler_get_priority : Sched → Option ℕ → ℤ
scheduler_get_priority s none = pos 0
scheduler_get_priority s (some p) = (s.process p).priority

unfoldable pub scheduler_set_policy : Sched → ℕ → ℤ → Result ℕ × Sched
scheduler_set_policy s p (negsuc n) = (err einval, s)
scheduler_set_policy s p (pos n) =
    if leb s.num_policies n
    then (err einval, s)
    else (ok 0, put_process s p (record (s.process p) { policy = pos n }))

unfoldable pub scheduler_get_policy : Sched → Option ℕ → ℤ
scheduler_get_policy s none = pos 0
scheduler_get_policy s (some p) = (s.process p).policy

-- `complete` says whether the policy has its name and its four functions.
unfoldable pub scheduler_register_policy : Bool → Sched → Result ℕ × Sched
scheduler_register_policy complete s =
    if not complete
    then (err einval, s)
    else if leb 8 s.num_policies
    then (err enomem, s)
    else (ok 0, record s { num_policies = s.num_policies + 1 })

-- `scheduler_init` on the cleared state: empty queues, and the default policy registered.
unfoldable pub scheduler_init : (ℕ → Process) → ℕ → Sched
scheduler_init process idle = record {
  process = process;
  rq = record { nr_running = 0; queues = λ i. []; bitmap = replicate 3 0 };
  curr = none;
  idle = idle;
  clock = 0;
  nr_switches = 0;
  total_switches = 0;
  sleep_queue = [];
  need_resched = false;
  num_policies = 1;
}

unfoldable pub scheduler_start : ℕ → Option ℕ → Sched → Sched
scheduler_start now init_process s = schedule now (scheduler_enqueue s init_process)
