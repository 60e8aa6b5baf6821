-- ===== src/Sched/Wakeup.antt =====
-- Which sleepers `scheduler_tick` of kernel/proc/scheduler.c wakes.
pub mod Tick
use obelisk_os.Prelude.{
  ℕ, zero, suc, ◌+◌, ◌≤◌, ◌<◌, ◌≡◌, ◌≢◌, refl, ap, sym, ◌∙◌, arith, ℤ, pos, negsuc, Bool, true,
  false, not, ◌==◌, ◌&&◌, ltb, leb, List, [], ◌∷◌, Option, none, some, if◌then◌else◌, Bool-cases,
  Option-cases, inl, inr, add64, ==_refl,
}
use obelisk_os.Sched.State.{
  ProcState, Process, Sched, update, put_process, run_list_linked, sleep_list_linked,
  process_schedulable, alive, remove, clamp_prio,
}
use obelisk_os.Sched.Queue.{list_add_tail, rr_enqueue}
use obelisk_os.Sched.Policy.{rr_time_slice, rr_tick, slice_over}
use obelisk_os.Sched.Core.{
  leave_sleep_queue, make_ready, scheduler_enqueue, is_sleeping, wake_elapsed, wake_all, account,
  scheduler_tick,
}
use obelisk_os.Sched.Invariant.{count, count-remove}

-- What of a state bears on waking process `p`.
pub record Sleeper : Type 0 where
  pub state : ProcState
  pub exiting : Bool
  pub wakeup_tick : ℕ
  pub waits : ℕ
  pub clock : ℕ
  pub idle : ℕ

abbrev pub sleeper : Sched → ℕ → Sleeper
sleeper s p = record {
  state = (s.process p).state;
  exiting = (s.process p).exiting;
  wakeup_tick = (s.process p).wakeup_tick;
  waits = count p s.sleep_queue;
  clock = s.clock;
  idle = s.idle;
}

-- A write to a process that leaves these fields alone.
pub same_sleeper :
    (s : Sched) (q p : ℕ) (t : Process)
    → t.state ≡ (s.process q).state
    → t.exiting ≡ (s.process q).exiting
    → t.wakeup_tick ≡ (s.process q).wakeup_tick
    → sleeper (put_process s q t) p ≡ sleeper s p
same_sleeper s q p t state exiting wakeup = elim (Bool-cases (q == p)) [
  | inl same ↦ rw same (
      ground (
        arith,
        state,
        exiting,
        wakeup,
        (λ (e : q ≡ p). ap (λ j. (s.process j).state) e),
        (λ (e : q ≡ p). ap (λ j. (s.process j).exiting) e),
        (λ (e : q ≡ p). ap (λ j. (s.process j).wakeup_tick) e),
      ))
  | inr apart ↦ rw apart refl
]

sleeper-rr_enqueue : (s : Sched) (q p : ℕ) → sleeper (rr_enqueue s q) p ≡ sleeper s p
unfolding rr_enqueue list_add_tail run_list_linked
sleeper-rr_enqueue s q p = elim (Option-cases (s.process q).on_queue) [
  | inr on ↦ rw (on.1, rr_enqueue) refl
  | inl off ↦ rw (off, rr_enqueue) (same_sleeper s q p _ refl refl refl)
]

-- The idle process, and one that ends, are not made READY.
abbrev pub may_run : ℕ → Sleeper → Bool
may_run p x = not (p == x.idle) && (alive x.state && not x.exiting)

abbrev pub is_overdue : Sleeper → Bool
is_overdue x = is_sleeping x.state && leb x.wakeup_tick x.clock

awake_stays : (s : Sched) (q : ℕ) → (s.process q).on_sleep ≡ false → leave_sleep_queue s q ≡ s
unfolding leave_sleep_queue sleep_list_linked
awake_stays s q off =
    ap
      (λ b.
        if b
        then record (put_process s q (record (s.process q) { on_sleep = false; wakeup_tick = 0 })) {
          sleep_queue = remove q s.sleep_queue;
        }
        else s)
      off

make_ready_awake :
    (s : Sched) (q : ℕ)
    → (s.process q).on_sleep ≡ false
    → make_ready s q
      ≡ put_process s q (record (s.process q) {
        state = ProcState.ready;
        time_slice = pos (rr_time_slice (s.process q));
      })
unfolding make_ready
make_ready_awake s q off =
    ap
      (λ (t : Sched). put_process t q (record (t.process q) {
        state = ProcState.ready;
        time_slice = pos (rr_time_slice (t.process q));
      }))
      (awake_stays s q off)

enqueue_self :
    (s : Sched) (p : ℕ)
    → (s.process p).on_sleep ≡ false
    → sleeper (scheduler_enqueue s (some p)) p ≡ record (sleeper s p) {
      state = if may_run p (sleeper s p) then ProcState.ready else (s.process p).state;
    }
unfolding scheduler_enqueue
enqueue_self s p off = elim (Bool-cases (p == s.idle)) [
  | inl e ↦ rw e refl
  | inr e ↦ elim (Bool-cases (process_schedulable (s.process p))) [
    | inl fit ↦
        rw (e, fit)
          (sleeper-rr_enqueue (make_ready s p) p p
            ∙ ap (λ t. sleeper t p) (make_ready_awake s p off)
            ∙ rw (==_refl p) refl)
    | inr unfit ↦ rw (e, unfit) refl
  ]
]

enqueue_other :
    (s : Sched) (q p : ℕ)
    → (s.process q).on_sleep ≡ false
    → (q == p) ≡ false
    → sleeper (scheduler_enqueue s (some q)) p ≡ sleeper s p
unfolding scheduler_enqueue
enqueue_other s q p off apart = elim (Bool-cases (q == s.idle)) [
  | inl e ↦ rw e refl
  | inr e ↦ elim (Bool-cases (process_schedulable (s.process q))) [
    | inl fit ↦
        rw (e, fit)
          (sleeper-rr_enqueue (make_ready s q) q p
            ∙ ap (λ t. sleeper t p) (make_ready_awake s q off)
            ∙ rw apart refl)
    | inr unfit ↦ rw (e, unfit) refl
  ]
]

-- A sleeper whose time has come leaves the sleep queue, and becomes READY if it may run.
abbrev pub woken : ℕ → Sleeper → Sleeper
woken p x =
    if is_overdue x
    then record x {
      state = if may_run p x then ProcState.ready else x.state;
      wakeup_tick = 0;
      waits = 0;
    }
    else x

pub wake_self : (s : Sched) (p : ℕ) → sleeper (wake_elapsed s p) p ≡ woken p (sleeper s p)
unfolding wake_elapsed
wake_self s p = elim (Bool-cases (is_overdue (sleeper s p))) [
  | inl e ↦ rw e (
      enqueue_self _ p (rw (==_refl p) refl)
      ∙ ground (arith, count-remove p p s.sleep_queue, ==_refl p))
  | inr e ↦ rw e refl
]

pub wake_other :
    (s : Sched) (q p : ℕ) → (q == p) ≡ false → sleeper (wake_elapsed s q) p ≡ sleeper s p
unfolding wake_elapsed
wake_other s q p apart = elim (Bool-cases (is_overdue (sleeper s q))) [
  | inl e ↦ rw e (
      enqueue_other _ q p (rw (==_refl q) refl) apart
      ∙ ground (arith, apart, count-remove q p s.sleep_queue))
  | inr e ↦ rw e refl
]
