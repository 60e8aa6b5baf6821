-- ===== src/Sched/Pick.antt =====
-- `rr_pick_next` of kernel/proc/scheduler.c: the search of the bitmap for the first queue that is not
-- empty. The loop over the bits of a word carries fuel: each round that goes on clears the lowest bit
-- of the word, so that 65 rounds end by the loop's test.
pub mod Laws
pub mod Best
use Prim.Native.Nat.{bit_and}
use obelisk_os.Prelude.{
  ℕ, zero, suc, ◌+◌, ◌-◌, ◌*◌, ◌^◌, ◌==◌, leb, List, [], ◌∷◌, Option, none, some, if◌then◌else◌,
  get_or, set,
}
use obelisk_os.Word.Laws.{complement}
use obelisk_os.Word.First.{builtin_ffs}
use obelisk_os.Sched.State.{RunQueue, Sched, max_prio}

-- `__builtin_ctzll` on a word that is not 0.
unfoldable pub builtin_ctz : ℕ → ℕ
builtin_ctz bits = builtin_ffs 64 bits - 1

-- `x & ~(1UL << b)`
abbrev pub drop_bit : ℕ → ℕ → ℕ
drop_bit x b = bit_and x (complement 64 (2 ^ b))

-- The loop over the bits of word `w`.
pub scan_word : ℕ → (ℕ → List ℕ) → ℕ → ℕ → List ℕ → Option ℕ × List ℕ
scan_word zero queues w bits map = (none, map)
scan_word (suc fuel) queues w bits map =
    let b = builtin_ctz bits in
    let rest =
      scan_word fuel queues w (drop_bit bits b) (set map w (drop_bit (get_or map w 0) b)) in
    let found : Option ℕ × List ℕ = elim (queues (w * 64 + b)) [
      | [] ↦ rest
      | p ∷ l ↦ (some p, map)
    ] in
    if bits == 0 then (none, map) else if leb max_prio (w * 64 + b) then (none, map) else found

-- The search ends with the first process found.
unfoldable pub unless_found : (List ℕ → Option ℕ × List ℕ) → Option ℕ × List ℕ → Option ℕ × List ℕ
unless_found rest (some p, map) = (some p, map)
unless_found rest (none, map) = rest map

-- The loop over the words from `w` on.
pub scan_words : ℕ → (ℕ → List ℕ) → ℕ → List ℕ → Option ℕ × List ℕ
unfolding scan_word unless_found
scan_words zero queues w map = (none, map)
scan_words (suc left) queues w map =
    unless_found (λ m. scan_words left queues (w + 1) m)
      (scan_word 65 queues w (get_or map w 0) map)

abbrev pub with_bitmap : Sched → List ℕ → Sched
with_bitmap s map = record s { rq = record s.rq { bitmap = map } }

unfoldable pub or_idle : Sched → Option ℕ × List ℕ → ℕ × Sched
or_idle s (some p, map) = (p, with_bitmap s map)
or_idle s (none, map) = (s.idle, with_bitmap s map)

unfoldable pub rr_pick_next : Sched → ℕ × Sched
unfolding scan_words or_idle
rr_pick_next s = or_idle s (scan_words 3 s.rq.queues 0 s.rq.bitmap)
