-- ===== src/Sched/Turns/Rounds.antt =====
-- The processes of the best priority take turns: `schedule` of kernel/proc/scheduler.c, call after call.
use mathlib.Core.Path.{subst}
use obelisk_os.Prelude.{
  ℕ, ◌≡◌, refl, ap, sym, ◌∙◌, arith, true, false, ◌==◌, List, [], ◌∷◌, ◌++◌, Option, some,
  Bool-cases, inl, inr, ==_refl, ==_ne,
}
use obelisk_os.Sched.State.{ProcState, Process, Sched, update, clamp_prio, max_prio}
use obelisk_os.Sched.Queue.{rr_dequeue}
use obelisk_os.Sched.Pick.{rr_pick_next, with_bitmap}
use obelisk_os.Sched.Pick.Best.{value_or, best-some, rr_pick_next_lem}
use obelisk_os.Sched.Core.{park, settle, take_out, refill, same_process, run_next, schedule}
use obelisk_os.Sched.Invariant.{Inv}
use obelisk_os.Sched.Keep.{rr_pick_next-Inv, refill_node, refill_priority, run_next-Inv}
use obelisk_os.Sched.Turns.{IsReady, Lined, Turn, Picked, head_waits, park-Lined, dequeue-Picked}

-- The search finds the head of the queue, and changes only the bitmap.
pick-Lined :
    (s : Sched) (k p : ℕ) (r : List ℕ)
    → Lined s k (p ∷ r)
    → (map : List ℕ) × Lined (with_bitmap s map) k (p ∷ r)
      × (rr_pick_next s ≡ (p, with_bitmap s map))
pick-Lined s k p r v =
    let (map, covers, e) = rr_pick_next_lem s v.inv in
    let first =
      best-some s.rq.queues max_prio 0 k p r (omega arith) (omega (arith, v.inside)) v.line
        (λ j a lt. v.above j lt) in
    let found : rr_pick_next s ≡ (p, with_bitmap s map) =
      e ∙ ap (λ o. (value_or o s.idle, with_bitmap s map)) first in
    (
      map,
      record {
        inv = subst (λ (t : ℕ × Sched). Inv t.1) found (rr_pick_next-Inv s v.inv);
        inside = v.inside;
        line = v.line;
        above = v.above;
        ready = λ q w. again q (v.ready q w);
        home = v.home;
      },
      found,
    )
  where
    again : {map : List ℕ} (q : ℕ) → IsReady s q → IsReady (with_bitmap s map) q
    again q w = record { state = w.state; stays = w.stays; working = w.working }

-- A process that may be picked is not passed over, and leaves its queue.
ready_runs : (s : Sched) (p : ℕ) → IsReady s p → take_out (settle (p, s)) ≡ (p, rr_dequeue s p)
unfolding settle take_out
ready_runs s p w =
    rw (==_ne p s.idle w.working, w.state, w.stays, ==_ne p s.idle w.working, w.state) refl

refill_stays : (t : Process) → (refill t).exiting ≡ t.exiting
unfolding refill
refill_stays t = ground arith

-- The state in which `p` runs, whatever the counters say.
runs-Turn :
    (s t : Sched) (k p now : ℕ) (r : List ℕ)
    → Picked s k p r
    → Inv t
    → t.rq ≡ s.rq
    → t.idle ≡ s.idle
    → t.curr ≡ some p
    → t.process
      ≡ update s.process p
          (record (refill (s.process p)) { state = ProcState.running; last_run = now })
    → Turn t k p r
runs-Turn s t k p now r v inv queue idle curr procs = record {
  lined = record {
    inv = inv;
    inside = v.lined.inside;
    line = rw queue v.lined.line;
    above = λ i lt. rw queue (v.lined.above i lt);
    ready = λ q e. others q e;
    home = λ q e. others_home q e;
  };
  current = curr;
  runs = at_p (λ x. x.state);
  stays = at_p (λ x. x.exiting) ∙ refill_stays (s.process p) ∙ v.ready.stays;
  working = λ e. v.ready.working (e ∙ idle);
  off = at_p (λ x. x.on_queue) ∙ refill_node (s.process p) ∙ v.off;
  prio = ap clamp_prio (at_p (λ x. x.priority) ∙ refill_priority (s.process p)) ∙ v.prio;
}
  where
    at_p :
        {A : Type 0} (f : Process → A)
        → f (t.process p)
          ≡ f (record (refill (s.process p)) { state = ProcState.running; last_run = now })
    at_p f = rw (procs, ==_refl p) refl

    at_q :
        {A : Type 0} (f : Process → A) (q : ℕ)
        → (p == q) ≡ false
        → f (t.process q) ≡ f (s.process q)
    at_q f q apart = rw (procs, apart) refl

    p_not : (q : ℕ) → (t.process q).on_queue ≡ some k → (p == q) ≡ true → ⊥
    p_not q e same =
        let here : p ≡ q = ground arith in
        absurd (
          ground (
            arith,
            at_p (λ x. x.on_queue) ∙ refill_node (s.process p) ∙ v.off,
            ap (λ j. (t.process j).on_queue) here ∙ e,
          ))

    others_home : (q : ℕ) → (t.process q).on_queue ≡ some k → clamp_prio (t.process q).priority ≡ k
    others_home q e = elim (Bool-cases (p == q)) [
      | inl same ↦ absurd (p_not q e same)
      | inr apart ↦
          ap clamp_prio (at_q (λ x. x.priority) q apart)
          ∙ v.lined.home q (sym (at_q (λ x. x.on_queue) q apart) ∙ e)
    ]

    others : (q : ℕ) → (t.process q).on_queue ≡ some k → IsReady t q
    others q e = elim (Bool-cases (p == q)) [
      | inl same ↦ absurd (p_not q e same)
      | inr apart ↦
          let w = v.lined.ready q (sym (at_q (λ x. x.on_queue) q apart) ∙ e) in
          record {
            state = at_q (λ x. x.state) q apart ∙ w.state;
            stays = at_q (λ x. x.exiting) q apart ∙ w.stays;
            working = λ o. w.working (o ∙ idle);
          }
    ]

pub run_next_lem :
    (now : ℕ) (prev : Option ℕ) (p : ℕ) (s : Sched)
    → ((run_next now prev (p, s)).rq ≡ s.rq)
      × ((run_next now prev (p, s)).idle ≡ s.idle)
      × ((run_next now prev (p, s)).curr ≡ some p)
      × ((run_next now prev (p, s)).process
          ≡ update s.process p
              (record (refill (s.process p)) { state = ProcState.running; last_run = now }))
unfolding run_next
run_next_lem now prev p s = elim (Bool-cases (same_process prev p)) [
  | inl e ↦ rw e (refl, refl, refl, refl)
  | inr e ↦ rw e (refl, refl, refl, refl)
]

run_next-Turn :
    (now : ℕ) (prev : Option ℕ) (s : Sched) (k p : ℕ) (r : List ℕ)
    → Picked s k p r
    → Turn (run_next now prev (p, s)) k p r
run_next-Turn now prev s k p r v =
    let (queue, idle, curr, procs) = run_next_lem now prev p s in
    runs-Turn s (run_next now prev (p, s)) k p now r v (run_next-Inv now prev (p, s) v.lined.inv)
      queue idle curr procs

pub schedule_from :
    (now : ℕ) (s : Sched) (o : Option ℕ)
    → s.curr ≡ o
    → schedule now s ≡ run_next now o (take_out (settle (rr_pick_next (park s o))))
unfolding schedule
schedule_from now s o e = ap (λ x. run_next now x (take_out (settle (rr_pick_next (park s x))))) e

-- One call: the running process goes to the end of its queue, and the head of the queue runs.
pub schedule-Turn :
    (now : ℕ) (s : Sched) (k c p : ℕ) (l r : List ℕ)
    → Turn s k c l
    → l ++ (c ∷ []) ≡ p ∷ r
    → Turn (schedule now s) k p r
schedule-Turn now s k c p l r t e =
    let parked = subst (Lined (park s (some c)) k) e (park-Lined s k c l t) in
    let (map, lined, found) = pick-Lined (park s (some c)) k p r parked in
    let out = with_bitmap (park s (some c)) map in
    let chosen =
      ap (λ x. take_out (settle x)) found
      ∙ ready_runs out p (lined.ready p (head_waits out k p r lined)) in
    subst (λ x. Turn x k p r)
      (sym (schedule_from now s (some c) t.current ∙ ap (run_next now (some c)) chosen))
      (run_next-Turn now (some c) (rr_dequeue out p) k p r (dequeue-Picked out k p r lined))

-- Calls of `schedule` at the given times.
unfoldable pub schedules : List ℕ → Sched → Sched
schedules [] s = s
schedules (now ∷ times) s = schedules times (schedule now s)
