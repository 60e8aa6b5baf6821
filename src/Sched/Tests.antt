-- ===== src/Sched/Tests.antt =====
-- A machine of four processes, runs of kernel/proc/scheduler.c on it, and the theorems at it.
use obelisk_os.Prelude.{
  not, ℕ, ◌^◌, ◌≡◌, refl, pos, false, ◌==◌, ◌&&◌, leb, ltb, List, [], ◌∷◌, none, some,
  if◌then◌else◌,
}
use obelisk_os.Word.First.{builtin_ffs}
use obelisk_os.Sched.State.{
  ProcState, Process, Sched, update, not_positive, max_prio, run_list_linked, sleep_list_linked,
  remove,
}
use obelisk_os.Sched.Queue.{mark, unmark, rr_enqueue, rr_dequeue}
use obelisk_os.Sched.Pick.{builtin_ctz, rr_pick_next, with_bitmap}
use obelisk_os.Sched.Pick.Best.{best, value_or, rr_pick_next_lem}
use obelisk_os.Sched.Policy.{rr_set_priority, rr_time_slice}
use obelisk_os.Sched.Core.{
  scheduler_enqueue, schedule, scheduler_exit, scheduler_init, scheduler_set_priority,
  scheduler_tick,
}
use obelisk_os.Sched.Invariant.{Covers, Inv}
use obelisk_os.Sched.Keep.Reachable.{Scheduled, Scheduled-Inv}
use obelisk_os.Sched.Turns.Rounds.{schedules}
use obelisk_os.Sched.Choice.{picked, is_waiting, back_in, schedule_lem}
use obelisk_os.Sched.Dead.{DeadHead, dead_head}
use obelisk_os.Sched.Wakeup.{sleeper, woken}
use obelisk_os.Sched.Wakeup.Tick.{ticked, scheduler_tick_lem}

abbrev fresh : Process
fresh = record {
  state = ProcState.created;
  exiting = false;
  kernel = false;
  priority = pos 120;
  nice = pos 0;
  time_slice = pos 10;
  policy = pos 0;
  runtime = 0;
  last_run = 0;
  utime = 0;
  stime = 0;
  wakeup_tick = 0;
  on_queue = none;
  on_sleep = false;
}

abbrev booted : Sched
booted = scheduler_init (λ p. fresh) 0

-- Processes 1 to 3 are made ready, and process 1 runs.
abbrev started : Sched
started =
    schedule 5
      (scheduler_enqueue (scheduler_enqueue (scheduler_enqueue booted (some 1)) (some 2)) (some 3))

started-Scheduled : Scheduled started
started-Scheduled = Scheduled.reschedule _ 5 (
    Scheduled.enqueue _ (some 3) (
      Scheduled.enqueue _ (some 2)
        (Scheduled.enqueue _ (some 1) (Scheduled.init (λ p. fresh) 0 (λ p. refl) (λ p. refl)))))

Scheduled-Inv_example : Inv started
Scheduled-Inv_example = Scheduled-Inv started started-Scheduled

first_runs : started.curr ≡ some 1
unfolding schedule rr_pick_next scheduler_enqueue rr_enqueue rr_dequeue scheduler_init mark unmark
    builtin_ctz run_list_linked sleep_list_linked rr_time_slice remove builtin_ffs
first_runs = refl

-- A process runs at priority 110 after its priority was changed, and so also stands in the queues;
-- then it exits.
abbrev ended : Sched
ended = scheduler_exit 7 (scheduler_set_priority started 1 (pos 110))

ended_idles : (ended.curr ≡ some 0) × (best ended.rq.queues 0 max_prio ≡ some 1)
unfolding schedule rr_pick_next scheduler_enqueue rr_enqueue rr_dequeue scheduler_init mark unmark
    builtin_ctz run_list_linked sleep_list_linked rr_time_slice remove builtin_ffs scheduler_exit
    scheduler_set_priority rr_set_priority best
ended_idles = (refl, refl)

ended-Scheduled : Scheduled ended
unfolding schedule rr_pick_next scheduler_enqueue rr_enqueue rr_dequeue scheduler_init mark unmark
    builtin_ctz run_list_linked sleep_list_linked rr_time_slice remove builtin_ffs
ended-Scheduled = Scheduled.exit _ 7 (Scheduled.set_priority started 1 (pos 110) started-Scheduled)

ended-DeadHead : DeadHead ended 1
unfolding schedule rr_pick_next scheduler_enqueue rr_enqueue rr_dequeue scheduler_init mark unmark
    builtin_ctz run_list_linked sleep_list_linked rr_time_slice remove builtin_ffs scheduler_exit
    scheduler_set_priority rr_set_priority
ended-DeadHead = record {
  inv = Scheduled-Inv ended ended-Scheduled;
  idles = ended_idles.0;
  head = ended_idles.1;
  working = λ e. cc;
  dead = refl;
}

-- Process 2 is ready, and never runs.
dead_head_example :
    ((schedules (8 ∷ 9 ∷ []) ended).curr ≡ some ended.idle)
    × (best (schedules (8 ∷ 9 ∷ []) ended).rq.queues 0 max_prio ≡ some 1)
dead_head_example = dead_head (8 ∷ 9 ∷ []) ended 1 ended-DeadHead

rr_pick_next_lem_example :
    (map : List ℕ) × Covers started.rq.queues map
    × (rr_pick_next started
        ≡ (value_or (best started.rq.queues 0 max_prio) started.idle, with_bitmap started map))
rr_pick_next_lem_example = rr_pick_next_lem started Scheduled-Inv_example

schedule_lem_example :
    ((schedule 9 started).curr ≡ some (picked started))
    × (((schedule 9 started).process (picked started)).state ≡ ProcState.running)
    × (not_positive ((schedule 9 started).process (picked started)).time_slice ≡ false)
    × ((schedule 9 started).rq.queues 120 ≡ (
        if not (picked started == started.idle) && is_waiting started started.curr (picked started)
        then remove (picked started) (back_in started started.curr 120)
        else back_in started started.curr 120))
schedule_lem_example = schedule_lem 9 120 started Scheduled-Inv_example

scheduler_tick_lem_example : sleeper (scheduler_tick started) 2 ≡ (
    if ltb 0 (sleeper started 2).waits
    then woken 2 (ticked (sleeper started 2))
    else ticked (sleeper started 2))
scheduler_tick_lem_example = scheduler_tick_lem started 2

-- Process 1 runs, and 2 and 3 wait behind it.
abbrev ring_process : ℕ → Process
ring_process p =
    if p == 1
    then record fresh { state = ProcState.running }
    else if leb 2 p && leb p 3
    then record fresh { state = ProcState.ready; on_queue = some 120 }
    else fresh

abbrev ring : Sched
ring = record booted {
  process = ring_process;
  rq = record {
    nr_running = 2;
    queues = update (λ i. []) 120 (2 ∷ 3 ∷ []);
    bitmap = 0 ∷ (2 ^ 56) ∷ 0 ∷ [];
  };
  curr = some 1;
}
