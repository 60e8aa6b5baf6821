-- ===== src/Sched/Turns.antt =====
-- Round robin: what `schedule` of kernel/proc/scheduler.c does with the processes of the best priority.
pub mod Rounds
use mathlib.Core.Path.{subst}
use obelisk_os.Prelude.{
  ℕ, zero, suc, ◌+◌, ◌≤◌, ◌<◌, ◌≡◌, ◌≢◌, refl, ap, sym, ◌∙◌, arith, ℤ, pos, negsuc, Bool, true,
  false, not, ◌==◌, ◌&&◌, List, [], ◌∷◌, ◌++◌, Option, none, some, if◌then◌else◌, get_or, length,
  Bool-cases, Option-cases, inl, inr, ==_refl, ==_ne,
}
use obelisk_os.Sched.State.{
  ProcState, Process, Sched, update, put_process, run_list_linked, process_schedulable, remove,
  clamp_prio, max_prio,
}
use obelisk_os.Sched.Queue.{list_add_tail, rr_enqueue, unlink, rr_dequeue}
use obelisk_os.Sched.Queue.Laws.{rr_dequeue-Inv}
use obelisk_os.Sched.Pick.{rr_pick_next, with_bitmap}
use obelisk_os.Sched.Pick.Best.{best, value_or, best-some, rr_pick_next_lem}
use obelisk_os.Sched.Core.{is_ready, park, settle, take_out, refill, run_next, schedule, with_state}
use obelisk_os.Sched.Invariant.{count, hangs, Inv, clamp_prio_lt, put_process-Inv}
use obelisk_os.Sched.Keep.{park-Inv, rr_pick_next-Inv, schedule-Inv}

-- A process that may be picked.
pub record IsReady (s : Sched) (p : ℕ) : Type 0 where
  pub state : (s.process p).state ≡ ProcState.ready
  pub stays : (s.process p).exiting ≡ false
  pub working : p ≢ s.idle

-- Queue `k` is the first that is not empty at most, it holds `l`, and all of it may be picked and has
-- that priority.
pub record Lined (s : Sched) (k : ℕ) (l : List ℕ) : Type 0 where
  pub inv : Inv s
  pub inside : k < max_prio
  pub line : s.rq.queues k ≡ l
  pub above : (i : ℕ) → i < k → s.rq.queues i ≡ []
  pub ready : (p : ℕ) → (s.process p).on_queue ≡ some k → IsReady s p
  pub home : (p : ℕ) → (s.process p).on_queue ≡ some k → clamp_prio (s.process p).priority ≡ k

-- Process `c` of priority `k` runs, and waits in no queue.
pub record Turn (s : Sched) (k c : ℕ) (l : List ℕ) : Type 0 where
  pub lined : Lined s k l
  pub current : s.curr ≡ some c
  pub runs : (s.process c).state ≡ ProcState.running
  pub stays : (s.process c).exiting ≡ false
  pub working : c ≢ s.idle
  pub off : (s.process c).on_queue ≡ none
  pub prio : clamp_prio (s.process c).priority ≡ k

hangs-some : (o : Option ℕ) (i : ℕ) → 0 < hangs o i → o ≡ some i
hangs-some none i h = absurd (omega arith)
hangs-some (some j) i h = ground (arith, h)

-- The run queue with the running process at the end of its queue.
abbrev joined : Sched → ℕ → Sched
joined s c = list_add_tail (with_state s c ProcState.ready) c (clamp_prio (s.process c).priority)

park_running : (s : Sched) (k c : ℕ) (l : List ℕ) → Turn s k c l → park s (some c) ≡ joined s c
unfolding park rr_enqueue run_list_linked
park_running s k c l t = rw (==_ne c s.idle t.working, t.runs, t.stays, ==_refl c, t.off) refl

joined-IsReady :
    (s : Sched) (k c p : ℕ) (l : List ℕ)
    → Turn s k c l
    → ((joined s c).process p).on_queue ≡ some k
    → IsReady (joined s c) p
unfolding list_add_tail
joined-IsReady s k c p l t e = elim (Bool-cases (c == p)) [
  | inl same ↦
      let here : c ≡ p = ground arith in
      record {
        state = rw (same, ==_refl c) refl;
        stays = rw (same, ==_refl c) t.stays;
        working = λ w. t.working (here ∙ w);
      }
  | inr apart ↦
      let r = t.lined.ready p (ground (arith, apart, e)) in
      record { state = rw apart r.state; stays = rw apart r.stays; working = r.working }
]

joined-Lined :
    (s : Sched) (k c : ℕ) (l : List ℕ)
    → Turn s k c l
    → Inv (joined s c)
    → Lined (joined s c) k (l ++ (c ∷ []))
unfolding list_add_tail
joined-Lined s k c l t v = record {
  inv = v;
  inside = t.lined.inside;
  line = ground (
    arith,
    t.prio,
    ap (λ i. s.rq.queues i ++ (c ∷ [])) t.prio,
    ap (λ q. q ++ (c ∷ [])) t.lined.line,
  );
  above = λ i lt. ground (arith, t.lined.above i lt, t.prio);
  ready = λ p e. joined-IsReady s k c p l t e;
  home = λ p e. ground (arith, e, t.prio, t.lined.home p);
}

pub park-Lined :
    (s : Sched) (k c : ℕ) (l : List ℕ) → Turn s k c l → Lined (park s (some c)) k (l ++ (c ∷ []))
park-Lined s k c l t =
    rw (park_running s k c l t) (
      joined-Lined s k c l t (subst Inv (park_running s k c l t) (park-Inv s (some c) t.lined.inv)))

-- The head of the queue may be picked.
pub head_waits :
    (s : Sched) (k p : ℕ) (r : List ℕ) → Lined s k (p ∷ r) → (s.process p).on_queue ≡ some k
head_waits s k p r v =
    hangs-some (s.process p).on_queue k (ground (arith, v.inv.hung p k, ap (count p) v.line))

remove_absent : (p : ℕ) (l : List ℕ) → count p l ≡ 0 → remove p l ≡ l
unfolding remove
remove_absent p [] e = refl
remove_absent p (q ∷ l) e = ground (arith, remove_absent p l)

-- The head leaves the queue, and all behind it stay.
head_leaves : (s : Sched) (k p : ℕ) (r : List ℕ) → Lined s k (p ∷ r) → remove p (s.rq.queues k) ≡ r
unfolding remove
head_leaves s k p r v =
    ap (remove p) v.line
    ∙ rw (==_refl p) (
        remove_absent p r (
          ground (
            arith,
            v.inv.hung p k,
            ap (count p) v.line,
            ap (λ o. hangs o k) (head_waits s k p r v),
          )))

-- The picked process has left its queue.
pub record Picked (s : Sched) (k p : ℕ) (r : List ℕ) : Type 0 where
  pub lined : Lined s k r
  pub ready : IsReady s p
  pub off : (s.process p).on_queue ≡ none
  pub prio : clamp_prio (s.process p).priority ≡ k

pub dequeue-Picked :
    (s : Sched) (k p : ℕ) (r : List ℕ) → Lined s k (p ∷ r) → Picked (rr_dequeue s p) k p r
unfolding rr_dequeue unlink
dequeue-Picked s k p r v =
    rw (head_waits s k p r v, rr_dequeue)
      (record {
        lined = record {
          inv = subst Inv left (rr_dequeue-Inv s p v.inv);
          inside = v.inside;
          line = rw (==_refl k) (head_leaves s k p r v);
          above = λ i lt. ground (arith, v.above i lt);
          ready = λ q e. others q e;
          home = λ q e. ground (arith, e, v.home q);
        };
        ready = record {
          state = rw (==_refl p) picked.state;
          stays = rw (==_refl p) picked.stays;
          working = picked.working;
        };
        off = rw (==_refl p) refl;
        prio = rw (==_refl p) (v.home p (head_waits s k p r v));
      })
  where
    picked : IsReady s p
    picked = v.ready p (head_waits s k p r v)

    left : rr_dequeue s p ≡ unlink s p k
    left = rw (head_waits s k p r v, rr_dequeue) refl

    others : (q : ℕ) → ((unlink s p k).process q).on_queue ≡ some k → IsReady (unlink s p k) q
    others q e = elim (Bool-cases (p == q)) [
      | inl same ↦ absurd (ground (arith, e, same))
      | inr apart ↦
          let w = v.ready q (ground (arith, e, apart)) in
          record { state = rw apart w.state; stays = rw apart w.stays; working = w.working }
    ]
