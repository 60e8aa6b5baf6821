-- ===== src/Sched/Choice.antt =====
-- Which process `schedule` of kernel/proc/scheduler.c runs, and for how long.
use mathlib.Core.Option.{some-injective}
use obelisk_os.Prelude.{
  Bool, Option, none, ◌++◌, [], ◌∷◌, ◌||◌, ℕ, ◌≤◌, ◌≡◌, refl, ap, sym, ◌∙◌, arith, true, false, not,
  ◌==◌, ◌&&◌, List, some, if◌then◌else◌, ==_refl, Bool-cases, Option-cases, inl, inr,
}
use obelisk_os.Sched.State.{
  ProcState, Process, Sched, update, process_schedulable, not_positive, max_prio, clamp_prio,
  is_some, alive, remove, run_list_linked,
}
use obelisk_os.Sched.Pick.{rr_pick_next, with_bitmap}
use obelisk_os.Sched.Pick.Best.{best, value_or, rr_pick_next_lem}
use obelisk_os.Sched.Policy.{rr_time_slice}
use obelisk_os.Sched.Core.{
  park, settle, take_out, refill, schedule, is_ready, is_running, with_state,
}
use obelisk_os.Sched.Queue.{rr_enqueue, rr_dequeue, unlink, list_add_tail}
use obelisk_os.Sched.Invariant.{Inv, count, hangs}
use obelisk_os.Sched.Keep.{park-Inv, rr_pick_next-Inv, settle-Inv}
use mathlib.Core.Path.{subst, fun_ext}
use obelisk_os.Sched.Turns.Rounds.{run_next_lem, schedule_from}

-- The head of the first queue that is not empty, if it may run, and the idle process otherwise.
abbrev pub choice : Sched → ℕ
choice s =
    let next = value_or (best s.rq.queues 0 max_prio) s.idle in
    if not (next == s.idle) && not (process_schedulable (s.process next)) then s.idle else next

settle_first : (s : Sched) → Inv s → (settle (rr_pick_next s)).0 ≡ choice s
unfolding settle
settle_first s v =
    let (map, covers, e) = rr_pick_next_lem s v in
    ap (λ x. (settle x).0) e ∙ at_choice (value_or (best s.rq.queues 0 max_prio) s.idle) map
  where
    at_choice :
        (next : ℕ) (map : List ℕ)
        → (settle (next, with_bitmap s map)).0 ≡ (
            if not (next == s.idle) && not (process_schedulable (s.process next))
            then s.idle
            else next)
    at_choice next map =
        elim (Bool-cases (not (next == s.idle) && not (process_schedulable (s.process next)))) [
          | inl e ↦ rw e refl
          | inr e ↦ rw e refl
        ]

take_out_first : (r : ℕ × Sched) → (take_out r).0 ≡ r.0
unfolding take_out
take_out_first (next, s) =
    elim (Bool-cases (not (next == s.idle) && is_ready (s.process next).state)) [
      | inl e ↦ rw e refl
      | inr e ↦ rw e refl
    ]

curr-schedule :
    (now : ℕ) (s : Sched) → Inv s → (schedule now s).curr ≡ some (choice (park s s.curr))
curr-schedule now s v =
    let parked = park s s.curr in
    let chosen = take_out (settle (rr_pick_next parked)) in
    ap (λ (t : Sched). t.curr) (schedule_from now s s.curr refl)
    ∙ (run_next_lem now s.curr chosen.0 chosen.1).2
    ∙ ap some (take_out_first (settle (rr_pick_next parked)))
    ∙ ap some (settle_first parked (park-Inv s s.curr v))

rr_time_slice_lem : (t : Process) → (1 ≤ rr_time_slice t) × (rr_time_slice t ≤ 100)
unfolding rr_time_slice
rr_time_slice_lem t = ground arith

refill_time : (t : Process) → not_positive (refill t).time_slice ≡ false
unfolding refill
refill_time t = elim (Bool-cases (not_positive t.time_slice)) [
  | inl e ↦ rw e (ground (arith, rr_time_slice_lem t))
  | inr e ↦ rw e e
]

schedule_time :
    (now : ℕ) (s : Sched) (p : ℕ)
    → (schedule now s).curr ≡ some p
    → (((schedule now s).process p).state ≡ ProcState.running)
      × (not_positive ((schedule now s).process p).time_slice ≡ false)
schedule_time now s p e =
    let parked = park s s.curr in
    let chosen = take_out (settle (rr_pick_next parked)) in
    let after = run_next_lem now s.curr chosen.0 chosen.1 in
    let run = schedule_from now s s.curr refl in
    let same : chosen.0 ≡ p =
      some-injective _ _ (sym after.2 ∙ sym (ap (λ (t : Sched). t.curr) run) ∙ e) in
    let procs =
      ap (λ (t : Sched). t.process p) run
      ∙ ap (λ (f : ℕ → Process). f p) after.3
      ∙ at_self chosen.0 (chosen.1).process (running_at now) same in
    (
      ap (λ (t : Process). t.state) procs,
      ap (λ (t : Process). not_positive t.time_slice) procs
          ∙ refill_time ((chosen.1).process chosen.0),
    )
  where
    running_at : ℕ → Process → Process
    running_at at t = record (refill t) { state = ProcState.running; last_run = at }

    at_self :
        (q : ℕ) (f : ℕ → Process) (g : Process → Process) → q ≡ p → update f q (g (f q)) p ≡ g (f q)
    at_self q f g h = let here : (q == p) ≡ true = ground (arith, h) in rw here refl

-- What the call does with the current process: where it is RUNNING, not ending and not the idle process,
-- it waits again, behind the others of its priority unless it waits already.
abbrev pub returns : Sched → ℕ → Bool
returns s c = not (c == s.idle) && (is_running (s.process c).state && not (s.process c).exiting)

abbrev pub back_in : Sched → Option ℕ → ℕ → List ℕ
back_in s none i = s.rq.queues i
back_in s (some c) i =
    if returns s c
      && not (is_some (s.process c).on_queue)
      && (clamp_prio (s.process c).priority == i)
    then s.rq.queues i ++ (c ∷ [])
    else s.rq.queues i

-- Whether a process is READY then.
abbrev pub is_waiting : Sched → Option ℕ → ℕ → Bool
is_waiting s none p = is_ready (s.process p).state
is_waiting s (some c) p = (returns s c && (c == p)) || is_ready (s.process p).state

-- The head of the first queue that is not empty then, if it may run, and the idle process otherwise.
abbrev pub picked : Sched → ℕ
picked s =
    let next = value_or (best (back_in s s.curr) 0 max_prio) s.idle in
    if not (next == s.idle) && not (process_schedulable (s.process next)) then s.idle else next

-- What `park` makes of a process and of the queues.
record Parked (s : Sched) (o : Option ℕ) (t : Sched) : Type 0 where
  queues : (i : ℕ) → t.rq.queues i ≡ back_in s o i
  idle : t.idle ≡ s.idle
  waiting : (p : ℕ) → is_ready (t.process p).state ≡ is_waiting s o p
  may : (p : ℕ) → process_schedulable (t.process p) ≡ process_schedulable (s.process p)

running_alive :
    (st : ProcState) (b e : Bool)
    → (b && (is_running st && (alive st && not e))) ≡ (b && (is_running st && not e))
running_alive ProcState.created b e = refl
running_alive ProcState.ready b e = refl
running_alive ProcState.running b e = refl
running_alive ProcState.blocked b e = refl
running_alive ProcState.sleeping b e = refl
running_alive ProcState.zombie b e = refl
running_alive ProcState.dead b e = refl

running-alive : (st : ProcState) → is_running st ≡ true → alive st ≡ true
running-alive ProcState.created e = absurd (cc e)
running-alive ProcState.ready e = refl
running-alive ProcState.running e = refl
running-alive ProcState.blocked e = refl
running-alive ProcState.sleeping e = refl
running-alive ProcState.zombie e = absurd (cc e)
running-alive ProcState.dead e = absurd (cc e)

-- The current process is READY, and in its queue.
ready-Parked :
    (s : Sched) (c : ℕ) (q : Option ℕ) (t : Sched)
    → returns s c ≡ true
    → ((p : ℕ)
        → t.process p
          ≡ update s.process c (record (s.process c) { state = ProcState.ready; on_queue = q }) p)
    → ((i : ℕ) → t.rq.queues i ≡ back_in s (some c) i)
    → t.idle ≡ s.idle
    → Parked s (some c) t
ready-Parked s c q t back procs queues idle = record {
  queues = queues;
  idle = idle;
  waiting = λ p. ap (λ (x : Process). is_ready x.state) (procs p) ∙ ready_at p;
  may = λ p. ap (λ (x : Process). process_schedulable x) (procs p) ∙ may_at p;
}
  where
    made : Process
    made = record (s.process c) { state = ProcState.ready; on_queue = q }

    ready_at : (p : ℕ) → is_ready (update s.process c made p).state ≡ is_waiting s (some c) p
    ready_at p = elim (Bool-cases (c == p)) [
      | inl here ↦ rw (back, here) refl
      | inr apart ↦ rw (back, apart) refl
    ]

    may_at :
        (p : ℕ)
        → process_schedulable (update s.process c made p) ≡ process_schedulable (s.process p)
    may_at p = elim (Bool-cases (c == p)) [
      | inl here ↦
          let same : c ≡ p = ground (arith, here) in
          let runs : is_running (s.process c).state ≡ true = ground (arith, back) in
          let lives : not (s.process c).exiting ≡ process_schedulable (s.process c) =
            rw (running-alive (s.process c).state runs) refl in
          rw here (lives ∙ ap (λ j. process_schedulable (s.process j)) same)
      | inr apart ↦ rw apart refl
    ]

enqueue-Parked :
    (s : Sched) (c : ℕ)
    → returns s c ≡ true
    → Parked s (some c) (rr_enqueue (with_state s c ProcState.ready) c)
unfolding rr_enqueue list_add_tail run_list_linked
enqueue-Parked s c back = elim (Bool-cases (is_some (s.process c).on_queue)) [
  | inl on ↦
      rw (==_refl c, on, rr_enqueue)
        (ready-Parked s c (s.process c).on_queue (with_state s c ProcState.ready) back (λ p. refl)
          (λ i. rw (back, on) refl) refl)
  | inr off ↦
      rw (==_refl c, off, rr_enqueue)
        (ready-Parked s c (some (clamp_prio (s.process c).priority)) _ back (λ p. ground arith)
          (λ i. rw (back, off) (joins i)) refl)
]
  where
    joins :
        (i : ℕ)
        → update s.rq.queues
            (clamp_prio (s.process c).priority)
            (s.rq.queues (clamp_prio (s.process c).priority) ++ (c ∷ []))
            i
          ≡ (if clamp_prio (s.process c).priority == i
              then s.rq.queues i ++ (c ∷ [])
              else s.rq.queues i)
    joins i = ground (
      arith,
      (λ (e : clamp_prio (s.process c).priority ≡ i). ap (λ j. s.rq.queues j ++ (c ∷ [])) e),
    )

park-Parked : (s : Sched) (o : Option ℕ) → Parked s o (park s o)
unfolding park
park-Parked s none = record {
  queues = λ i. refl;
  idle = refl;
  waiting = λ p. refl;
  may = λ p. refl;
}
park-Parked s (some c) =
    let same = running_alive (s.process c).state (not (c == s.idle)) (s.process c).exiting in
    elim (Bool-cases (returns s c)) [
      | inl back ↦ rw (same, back) (enqueue-Parked s c back)
      | inr stays ↦
          rw (same, stays)
            (record {
              queues = λ i. rw stays refl;
              idle = refl;
              waiting = λ p. rw stays refl;
              may = λ p. refl;
            })
    ]

-- Leaving the run queue is leaving every queue.
remove_absent : (p : ℕ) (l : List ℕ) → count p l ≡ 0 → remove p l ≡ l
unfolding remove
remove_absent p [] e = refl
remove_absent p (q ∷ l) e = ground (arith, remove_absent p l)

rr_dequeue-queues :
    (s : Sched) (p i : ℕ) → Inv s → (rr_dequeue s p).rq.queues i ≡ remove p (s.rq.queues i)
unfolding rr_dequeue unlink
rr_dequeue-queues s p i v = elim (Option-cases (s.process p).on_queue) [
  | inl off ↦
      rw (off, rr_dequeue)
        (sym (remove_absent p (s.rq.queues i) (v.hung p i ∙ ap (λ o. hangs o i) off)))
  | inr on ↦ rw (on.1, rr_dequeue) (elsewhere on.0 on.1)
]
  where
    elsewhere :
        (k : ℕ)
        → (s.process p).on_queue ≡ some k
        → update s.rq.queues k (remove p (s.rq.queues k)) i ≡ remove p (s.rq.queues i)
    elsewhere k on = elim (Bool-cases (k == i)) [
      | inl here ↦
          let same : k ≡ i = ground (arith, here) in
          rw here (ap (λ j. remove p (s.rq.queues j)) same)
      | inr apart ↦ rw apart (
          sym
            (remove_absent p (s.rq.queues i) (v.hung p i ∙ ap (λ o. hangs o i) on ∙ rw apart refl)))
    ]

take_out-queues :
    (s : Sched) (p i : ℕ)
    → Inv s
    → (take_out (p, s)).1.rq.queues i ≡ (
        if not (p == s.idle) && is_ready (s.process p).state
        then remove p (s.rq.queues i)
        else s.rq.queues i)
unfolding take_out
take_out-queues s p i v = elim (Bool-cases (not (p == s.idle) && is_ready (s.process p).state)) [
  | inl out ↦ rw out (rr_dequeue-queues s p i v)
  | inr stays ↦ rw stays refl
]

-- The choice among the queues that the current process is back in.
decide : ℕ → ℕ → Bool → ℕ
decide next idle may = if not (next == idle) && not may then idle else next

choice-picked : (s t : Sched) → Parked s s.curr t → choice t ≡ picked s
unfolding decide
choice-picked s t v =
    let next = value_or (best (back_in s s.curr) 0 max_prio) s.idle in
    let first : value_or (best t.rq.queues 0 max_prio) t.idle ≡ next =
      ap (λ f. value_or (best f 0 max_prio) t.idle) (fun_ext v.queues)
      ∙ ap (λ d. value_or (best (back_in s s.curr) 0 max_prio) d) v.idle in
    ap (λ n. decide n t.idle (process_schedulable (t.process n))) first
    ∙ ap (λ b. decide next t.idle b) (v.may next)
    ∙ ap (λ d. decide next d (process_schedulable (s.process next))) v.idle

-- The queues without the process that runs.
abbrev left : Sched → ℕ → ℕ → List ℕ
left s n i =
    if not (n == s.idle) && is_waiting s s.curr n
    then remove n (back_in s s.curr i)
    else back_in s s.curr i

settle_next :
    (s : Sched) (next : ℕ) (map : List ℕ) → (settle (next, with_bitmap s map)).1 ≡ with_bitmap s map
unfolding settle
settle_next s next map =
    elim (Bool-cases (not (next == s.idle) && not (process_schedulable (s.process next)))) [
      | inl e ↦ rw e refl
      | inr e ↦ rw e refl
    ]

settle_whole :
    (t : Sched) → Inv t → (map : List ℕ) × (settle (rr_pick_next t) ≡ (choice t, with_bitmap t map))
settle_whole t v =
    let (map, covers, e) = rr_pick_next_lem t v in
    let one = settle_first t v in
    let two =
      ap (λ r. (settle r).1) e
      ∙ settle_next t (value_or (best t.rq.queues 0 max_prio) t.idle) map in
    (map, ap (λ n. (n, (settle (rr_pick_next t)).1)) one ∙ ap (λ u. (choice t, u)) two)

schedule-queues :
    (now i : ℕ) (s : Sched)
    → Inv s
    → (schedule now s).rq.queues i ≡ left s (choice (park s s.curr)) i
schedule-queues now i s v =
    let t = park s s.curr in
    let inv = park-Inv s s.curr v in
    let p = park-Parked s s.curr in
    let (map, e) = settle_whole t inv in
    let n = choice t in
    let chosen = take_out (settle (rr_pick_next t)) in
    let covered =
      subst (λ (r : ℕ × Sched). Inv r.1) e (settle-Inv (rr_pick_next t) (rr_pick_next-Inv t inv)) in
    ap (λ (u : Sched). u.rq.queues i) (schedule_from now s s.curr refl)
    ∙ ap (λ q. q.queues i) (run_next_lem now s.curr chosen.0 chosen.1).0
    ∙ ap (λ r. (take_out r).1.rq.queues i) e
    ∙ take_out-queues (with_bitmap t map) n i covered
    ∙ ap
        (λ d.
          if not (n == d) && is_ready (t.process n).state
          then remove n (t.rq.queues i)
          else t.rq.queues i)
        p.idle
    ∙ ap (λ b. if not (n == s.idle) && b then remove n (t.rq.queues i) else t.rq.queues i)
        (p.waiting n)
    ∙ ap (λ q. if not (n == s.idle) && is_waiting s s.curr n then remove n q else q) (p.queues i)

-- With a right run queue, `schedule` first lets the current process wait again: where it is RUNNING,
-- not ending and not the idle process, it goes to the end of its priority's queue, unless it was in a
-- queue already. Then the process that waits longest in the first queue that is not empty runs, or the
-- idle process if all are empty or if that process may not run. The one that runs is RUNNING and its
-- slice is above 0. If it was READY or the current process that waits again, and is not the idle
-- process, it leaves its queue; apart from this no queue changes.
pub schedule_lem :
    (now i : ℕ) (s : Sched)
    → Inv s
    → ((schedule now s).curr ≡ some (picked s))
      × (((schedule now s).process (picked s)).state ≡ ProcState.running)
      × (not_positive ((schedule now s).process (picked s)).time_slice ≡ false)
      × ((schedule now s).rq.queues i ≡ (
          if not (picked s == s.idle) && is_waiting s s.curr (picked s)
          then remove (picked s) (back_in s s.curr i)
          else back_in s s.curr i))
schedule_lem now i s v =
    let same = choice-picked s (park s s.curr) (park-Parked s s.curr) in
    let e = curr-schedule now s v ∙ ap some same in
    let t = schedule_time now s (picked s) e in
    (e, t.0, t.1, schedule-queues now i s v ∙ ap (λ n. left s n i) same)
