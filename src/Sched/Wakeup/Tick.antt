-- ===== src/Sched/Wakeup/Tick.antt =====
-- `scheduler_tick` of kernel/proc/scheduler.c, seen from each process.
use obelisk_os.Prelude.{
  ℕ, ◌≡◌, refl, ap, sym, ◌∙◌, arith, Bool, true, false, ◌==◌, ltb, List, [], ◌∷◌, Option, none,
  some, if◌then◌else◌, Bool-cases, inl, inr, add64,
}
use obelisk_os.Sched.State.{Sched, not_positive, decrement}
use obelisk_os.Sched.Policy.{rr_tick, slice_over}
use obelisk_os.Sched.Core.{wake_elapsed, wake_all, account, scheduler_tick}
use obelisk_os.Sched.Invariant.{count}
use obelisk_os.Sched.Wakeup.{Sleeper, sleeper, same_sleeper, woken, wake_self, wake_other}

woken_twice : (p : ℕ) (x : Sleeper) → woken p (woken p x) ≡ woken p x
woken_twice p x = ground arith

-- Waking twice is waking once.
settled :
    (b : Bool) (p : ℕ) (x : Sleeper) → (if b then woken p (woken p x) else woken p x) ≡ woken p x
settled true p x = woken_twice p x
settled false p x = refl

-- The loop wakes each process of the list whose time has come, and no other.
wake_all_lem :
    (l : List ℕ) (s : Sched) (p : ℕ)
    → sleeper (wake_all s l) p ≡ (if ltb 0 (count p l) then woken p (sleeper s p) else sleeper s p)
unfolding wake_all
wake_all_lem [] s p = refl
wake_all_lem (q ∷ l) s p = elim (Bool-cases (q == p)) [
  | inl e ↦
      wake_all_lem l (wake_elapsed s q) p
      ∙ ap (λ y. if ltb 0 (count p l) then woken p y else y) (here e)
      ∙ settled (ltb 0 (count p l)) p (sleeper s p)
      ∙ ap (λ b. if b then woken p (sleeper s p) else sleeper s p) (sym (listed e))
  | inr e ↦
      wake_all_lem l (wake_elapsed s q) p
      ∙ ap (λ y. if ltb 0 (count p l) then woken p y else y) (wake_other s q p e)
      ∙ ap (λ b. if b then woken p (sleeper s p) else sleeper s p) (sym (skipped e))
]
  where
    here : (q == p) ≡ true → sleeper (wake_elapsed s q) p ≡ woken p (sleeper s p)
    here e =
        let same : q ≡ p = ground arith in
        ap (λ j. sleeper (wake_elapsed s j) p) same ∙ wake_self s p

    listed : (q == p) ≡ true → ltb 0 (count p (q ∷ l)) ≡ true
    listed e = ground arith

    skipped : (q == p) ≡ false → ltb 0 (count p (q ∷ l)) ≡ ltb 0 (count p l)
    skipped e = let none_here : (p == q) ≡ false = ground arith in rw none_here (ground arith)

sleeper-rr_tick : (s : Sched) (q p : ℕ) → sleeper (rr_tick s q) p ≡ sleeper s p
unfolding rr_tick slice_over
sleeper-rr_tick s q p = elim (Bool-cases (q == s.idle)) [
  | inl e ↦ rw e refl
  | inr e ↦ elim (Bool-cases (not_positive (decrement (s.process q).time_slice))) [
    | inr more ↦ rw (e, more) (same_sleeper s q p _ refl refl refl)
    | inl over ↦ elim (Bool-cases (ltb 0 s.rq.nr_running)) [
      | inl others ↦ rw (e, over, others) (same_sleeper s q p _ refl refl refl)
      | inr alone ↦ rw (e, over, alone) (same_sleeper s q p _ refl refl refl)
    ]
  ]
]

sleeper-account : (s : Sched) (o : Option ℕ) (p : ℕ) → sleeper (account s o) p ≡ sleeper s p
unfolding account
sleeper-account s none p = refl
sleeper-account s (some q) p = elim (Bool-cases (s.process q).kernel) [
  | inl e ↦ rw e (sleeper-rr_tick _ q p ∙ same_sleeper s q p _ refl refl refl)
  | inr e ↦ rw e (sleeper-rr_tick _ q p ∙ same_sleeper s q p _ refl refl refl)
]

-- The time moves on by one tick.
abbrev pub ticked : Sleeper → Sleeper
ticked x = record x { clock = add64 x.clock 4 }

-- A tick wakes exactly the sleepers whose time has come: a process of the sleep queue that is SLEEPING
-- and whose deadline is not after the new clock leaves the sleep queue, and is READY then unless it is
-- ending or the idle process. Of every other process the state, the deadline and the place in the sleep
-- queue stay as they were.
pub scheduler_tick_lem :
    (s : Sched) (p : ℕ)
    → sleeper (scheduler_tick s) p
      ≡ (if ltb 0 (sleeper s p).waits then woken p (ticked (sleeper s p)) else ticked (sleeper s p))
unfolding scheduler_tick
scheduler_tick_lem s p =
    let used = account s s.curr in
    wake_all_lem used.sleep_queue (record used { clock = add64 used.clock 4 }) p
    ∙ ap (λ x. if ltb 0 x.waits then woken p (ticked x) else ticked x) (sleeper-account s s.curr p)
