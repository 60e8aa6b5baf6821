-- ===== src/Sched/Policy.antt =====
-- The round-robin policy of kernel/proc/scheduler.c: time slices, ticks and changes of priority.
use obelisk_os.Prelude.{
  ℕ, ◌+◌, ◌-◌, ◌*◌, ◌/◌, ℤ, pos, negsuc, Bool, true, false, ◌==◌, ltb, if◌then◌else◌,
}
use obelisk_os.Sched.State.{
  ProcState, Process, Sched, put_process, decrement, not_positive, clamp_prio,
}
use obelisk_os.Sched.Queue.{rr_enqueue, rr_dequeue}

-- The slice before it is put into its range; where the C code goes below 0, this is 0.
unfoldable pub nice_slice : ℤ → ℕ
nice_slice (negsuc n) = 10 + (n + 1) * 2
nice_slice (pos n) = 10 - n / 2

unfoldable pub rr_time_slice : Process → ℕ
unfolding nice_slice
rr_time_slice t =
    let slice = nice_slice t.nice in if ltb slice 1 then 1 else if ltb 100 slice then 100 else slice

unfoldable pub rr_yield : Sched → ℕ → Sched
rr_yield s p =
    if p == s.idle
    then s
    else (let out = rr_dequeue s p in
        rr_enqueue (put_process out p (record (out.process p) { time_slice = pos 10 })) p)

-- The end of a slice.
unfoldable pub slice_over : Sched → ℕ → Process → Sched
slice_over s p t =
    if ltb 0 s.rq.nr_running
    then record (put_process s p t) { need_resched = true }
    else put_process s p (record t { time_slice = pos (rr_time_slice t) })

unfoldable pub rr_tick : Sched → ℕ → Sched
unfolding slice_over
rr_tick s p =
    let t = record (s.process p) { time_slice = decrement (s.process p).time_slice } in
    if p == s.idle
    then s
    else if not_positive t.time_slice
    then slice_over s p t
    else put_process s p t

-- READY or RUNNING
abbrev pub is_active : ProcState → Bool
is_active ProcState.ready = true
is_active ProcState.running = true
is_active _ = false

abbrev pub with_priority : Sched → ℕ → ℕ → Sched
with_priority s p prio = put_process s p (record (s.process p) { priority = pos prio })

unfoldable pub rr_set_priority : Sched → ℕ → ℤ → Sched
rr_set_priority s p prio =
    if is_active (s.process p).state
    then rr_enqueue (with_priority (rr_dequeue s p) p (clamp_prio prio)) p
    else with_priority s p (clamp_prio prio)
