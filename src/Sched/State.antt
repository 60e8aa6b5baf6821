-- ===== src/Sched/State.antt =====
-- The state of kernel/proc/scheduler.c: of struct process the fields that it uses, its run queue and
-- its static variables. Processes are numbered, and the array of queues is a function of the priority.
-- `nr_running` counts processes, of which there are never 2^64, so its wrap-around is left out; so is
-- that of the signed fields.
use obelisk_os.Prelude.{
  ℕ, zero, suc, ◌-◌, ℤ, pos, negsuc, Bool, true, false, not, ◌&&◌, ◌==◌, leb, List, [], ◌∷◌, Option,
  none, some, if◌then◌else◌,
}

pub data ProcState : Type 0 where
  created ready running blocked sleeping zombie dead : ProcState

-- `on_queue` is the queue that the list node `run_list` hangs in, `none` where it points at itself;
-- `on_sleep` says whether `sleep_list` hangs in the sleep queue. The two flags are PROC_FLAG_EXITING
-- and PROC_FLAG_KERNEL.
pub record Process : Type 0 where
  pub state : ProcState
  pub exiting : Bool
  pub kernel : Bool
  pub priority : ℤ
  pub nice : ℤ
  pub time_slice : ℤ
  pub policy : ℤ
  pub runtime : ℕ
  pub last_run : ℕ
  pub utime : ℕ
  pub stime : ℕ
  pub wakeup_tick : ℕ
  pub on_queue : Option ℕ
  pub on_sleep : Bool

pub record RunQueue : Type 0 where
  pub nr_running : ℕ
  pub queues : ℕ → List ℕ
  pub bitmap : List ℕ

-- The run queue's other fields, the sleep queue, the flag TIF_NEED_RESCHED and the statistics stand
-- beside it. `total_switches` is the static variable of that name.
pub record Sched : Type 0 where
  pub process : ℕ → Process
  pub rq : RunQueue
  pub curr : Option ℕ
  pub idle : ℕ
  pub clock : ℕ
  pub nr_switches : ℕ
  pub total_switches : ℕ
  pub sleep_queue : List ℕ
  pub need_resched : Bool
  pub num_policies : ℕ

abbrev pub max_prio : ℕ
max_prio = 140

abbrev pub update {ℓ} : {A : Type ℓ} → (ℕ → A) → ℕ → A → ℕ → A
update f i a j = if i == j then a else f j

-- A write through the pointer `p`.
abbrev pub put_process : Sched → ℕ → Process → Sched
put_process s p t = record s { process = update s.process p t }

abbrev pub is_some {ℓ} : {A : Type ℓ} → Option A → Bool
is_some none = false
is_some (some a) = true

unfoldable pub run_list_linked : Process → Bool
run_list_linked t = is_some t.on_queue

unfoldable pub sleep_list_linked : Process → Bool
sleep_list_linked t = t.on_sleep

abbrev pub alive : ProcState → Bool
alive ProcState.zombie = false
alive ProcState.dead = false
alive _ = true

abbrev pub process_schedulable : Process → Bool
process_schedulable t = alive t.state && not t.exiting

-- `list_del` on a list that holds `p` once.
unfoldable pub remove : ℕ → List ℕ → List ℕ
remove p [] = []
remove p (q ∷ l) = if p == q then remove p l else q ∷ remove p l

-- Arithmetic on `int`.
abbrev pub decrement : ℤ → ℤ
decrement (pos zero) = negsuc 0
decrement (pos (suc n)) = pos n
decrement (negsuc n) = negsuc (suc n)

abbrev pub not_positive : ℤ → Bool
not_positive (pos n) = n == 0
not_positive (negsuc n) = true

-- A priority put into the range of the queues.
abbrev pub clamp_prio : ℤ → ℕ
clamp_prio (negsuc n) = 0
clamp_prio (pos n) = if leb max_prio n then max_prio - 1 else n
