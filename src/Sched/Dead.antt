-- ===== src/Sched/Dead.antt =====
-- A process that ended while it stood in the run queue of kernel/proc/scheduler.c, which happens if its
-- priority was changed while it ran: `rr_set_priority` puts a RUNNING process into the queues too.
use obelisk_os.Prelude.{ℕ, ◌≡◌, ◌≢◌, refl, ap, sym, ◌∙◌, false, List, [], ◌∷◌, some, ==_refl, ==_ne}
use obelisk_os.Sched.State.{Sched, process_schedulable, max_prio}
use obelisk_os.Sched.Pick.{rr_pick_next, with_bitmap}
use obelisk_os.Sched.Pick.Best.{best, value_or, rr_pick_next_lem}
use obelisk_os.Sched.Core.{park, settle, take_out, run_next, schedule}
use obelisk_os.Sched.Invariant.{Inv}
use obelisk_os.Sched.Keep.{schedule-Inv}
use obelisk_os.Sched.Turns.Rounds.{run_next_lem, schedule_from, schedules}

-- The idle process runs, and `z`, which may not run, heads the first queue that is not empty.
pub record DeadHead (s : Sched) (z : ℕ) : Type 0 where
  pub inv : Inv s
  pub idles : s.curr ≡ some s.idle
  pub head : best s.rq.queues 0 max_prio ≡ some z
  pub working : z ≢ s.idle
  pub dead : process_schedulable (s.process z) ≡ false

park_idle : (s : Sched) → park s (some s.idle) ≡ s
unfolding park
park_idle s = rw (==_refl s.idle) refl

settle_dead :
    (s : Sched) (z : ℕ)
    → z ≢ s.idle
    → process_schedulable (s.process z) ≡ false
    → take_out (settle (z, s)) ≡ (s.idle, s)
unfolding settle take_out
settle_dead s z working dead = rw (==_ne z s.idle working, dead, ==_refl s.idle) refl

schedule-DeadHead :
    (now : ℕ) (s : Sched) (z : ℕ)
    → DeadHead s z
    → DeadHead (schedule now s) z × ((schedule now s).idle ≡ s.idle)
schedule-DeadHead now s z d =
    let (map, covers, found) = rr_pick_next_lem s d.inv in
    let picked : rr_pick_next s ≡ (z, with_bitmap s map) =
      found ∙ ap (λ o. (value_or o s.idle, with_bitmap s map)) d.head in
    let chosen =
      ap (λ t. take_out (settle (rr_pick_next t))) (park_idle s)
      ∙ ap (λ x. take_out (settle x)) picked
      ∙ settle_dead (with_bitmap s map) z d.working d.dead in
    let ran = schedule_from now s (some s.idle) d.idles ∙ ap (run_next now (some s.idle)) chosen in
    let (queue, idle, curr, procs) = run_next_lem now (some s.idle) s.idle (with_bitmap s map) in
    let idle_kept : (schedule now s).idle ≡ s.idle = ap (λ (t : Sched). t.idle) ran ∙ idle in
    (
      record {
        inv = schedule-Inv now s d.inv;
        idles = ap (λ (t : Sched). t.curr) ran ∙ curr ∙ ap some (sym idle_kept);
        head =
            ap (λ (t : Sched). best t.rq.queues 0 max_prio) ran
            ∙ ap (λ q. best q.queues 0 max_prio) queue
            ∙ d.head;
        working = λ e. d.working (e ∙ idle_kept);
        dead =
            ap (λ (t : Sched). process_schedulable (t.process z)) ran
            ∙ ap (λ f. process_schedulable (f z)) procs
            ∙ rw (==_ne s.idle z (λ e. d.working (sym e))) d.dead;
      },
      idle_kept,
    )

-- A dead process at the head stops all others: while the idle process runs and the head of the first
-- queue that is not empty may not run, every number of calls of `schedule` leaves the idle process
-- running and the queues' head in its place, whoever waits behind it.
pub dead_head :
    (times : List ℕ) (s : Sched) (z : ℕ)
    → DeadHead s z
    → ((schedules times s).curr ≡ some s.idle)
      × (best (schedules times s).rq.queues 0 max_prio ≡ some z)
unfolding schedules
dead_head [] s z d = (d.idles, d.head)
dead_head (now ∷ times) s z d =
    let (next, idle) = schedule-DeadHead now s z d in
    let rest = dead_head times (schedule now s) z next in (rest.0 ∙ ap some idle, rest.1)
