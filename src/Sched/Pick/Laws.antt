-- ===== src/Sched/Pick/Laws.antt =====
-- `rr_pick_next` of kernel/proc/scheduler.c finds the first queue that is not empty.
use mathlib.Core.Path.{subst}
use obelisk_os.Prelude.{
  ℕ, zero, suc, ◌+◌, ◌-◌, ◌*◌, ◌/◌, ◌%◌, ◌^◌, ◌≤◌, ◌<◌, ◌≡◌, ◌≢◌, refl, ap, sym, ◌∙◌, arith, ◌==◌,
  leb, ltb, List, [], ◌∷◌, Option, none, some, if◌then◌else◌, set, get_or, get_or-set_self,
  Bool-cases, inl, inr,
}
use obelisk_os.Word.{bit}
use obelisk_os.Word.Laws.{and_complement_mask, bit-zero}
use obelisk_os.Word.First.{builtin_ffs, builtin_ffs-IsLowest, IsLowest}
use obelisk_os.Word.Array.{bit_at}
use obelisk_os.Sched.State.{max_prio}
use obelisk_os.Sched.Queue.{unmark}
use obelisk_os.Sched.Queue.Laws.{unmark-Covers}
use obelisk_os.Sched.Invariant.{Covers}
use obelisk_os.Sched.Pick.{builtin_ctz, drop_bit, scan_word, unless_found, scan_words}

-- What the search of queues `[lo, hi)` gives: the head of the first that is not empty, or nothing.
pub data Scanned (queues : ℕ → List ℕ) (lo hi : ℕ) : Option ℕ × List ℕ → Type 0 where
  nothing :
      (map : List ℕ)
      → Covers queues map
      → ((i : ℕ) → lo ≤ i → i < hi → i < max_prio → queues i ≡ [])
      → Scanned queues lo hi (none, map)
  found :
      (map : List ℕ) (i p : ℕ) (l : List ℕ)
      → Covers queues map
      → lo ≤ i
      → i < max_prio
      → queues i ≡ p ∷ l
      → ((j : ℕ) → lo ≤ j → j < i → queues j ≡ [])
      → Scanned queues lo hi (some p, map)

empty_or : (l : List ℕ) → ¬ (l ≢ []) → l ≡ []
empty_or [] h = refl
empty_or (x ∷ l) h = absurd (h (λ e. ground (arith, e)))

-- A bit of word `w` that is clear stands for an empty queue.
clear_empty :
    (queues : ℕ → List ℕ) (map : List ℕ) (w i : ℕ)
    → Covers queues map
    → w * 64 ≤ i
    → i < w * 64 + 64
    → i < max_prio
    → bit (get_or map w 0) (i - w * 64) ≡ 0
    → queues i ≡ []
clear_empty queues map w i v lo hi lt clear = empty_or (queues i) (λ ne. no (v.cover i lt ne))
  where
    word : i / 64 ≡ w
    word = omega arith

    digit : i % 64 ≡ i - w * 64
    digit = omega arith

    no : bit_at 64 map i ≢ 1
    no e = absurd (
        omega (
          arith,
          e,
          clear,
          ap (λ k. bit (get_or map k 0) (i % 64)) word,
          ap (λ k. bit (get_or map w 0) k) digit,
        ))

-- Clearing a bit in its word is `unmark`.
unmark_word :
    (map : List ℕ) (w b : ℕ)
    → b < 64
    → set map w (drop_bit (get_or map w 0) b) ≡ unmark (w * 64 + b) map
unfolding unmark
unmark_word map w b h = sym (
    ap (λ k. set map k (drop_bit (get_or map k 0) ((w * 64 + b) % 64))) word
    ∙ ap (λ k. set map w (drop_bit (get_or map w 0) k)) digit)
  where
    word : (w * 64 + b) / 64 ≡ w
    word = omega arith

    digit : (w * 64 + b) % 64 ≡ b
    digit = omega arith

IsLowest-ctz : (bits : ℕ) → bits < 2 ^ 64 → bits ≢ 0 → IsLowest 64 bits (builtin_ctz bits + 1)
unfolding builtin_ctz
IsLowest-ctz bits h ne =
    let r = builtin_ffs-IsLowest 64 bits h ne in
    let e : builtin_ffs 64 bits - 1 + 1 ≡ builtin_ffs 64 bits = omega (arith, r.pos) in rw e r

-- The bits below a round's bit are clear in the next round, and its bit too.
cleared_below :
    (bits b j : ℕ)
    → b < 64
    → ((k : ℕ) → k < b → bit bits k ≡ 0)
    → j < b + 1
    → bit (drop_bit bits b) j ≡ 0
cleared_below bits b j h below lt =
    ground (arith, and_complement_mask 64 bits b j h (omega arith), (λ (k : j < b). below j k))

module _ (queues : ℕ → List ℕ) (w : ℕ) (inside : w < 3) where
  abbrev Here : Option ℕ × List ℕ → Type 0
  Here r = Scanned queues (w * 64) (w * 64 + 64) r

  -- All queues of the word up to bit `b` are empty where all bits are clear.
  below_empty :
      (map : List ℕ) (b : ℕ)
      → Covers queues map
      → ((k : ℕ) → k < b → bit (get_or map w 0) k ≡ 0)
      → (i : ℕ) → w * 64 ≤ i
      → i < w * 64 + b
      → i < w * 64 + 64
      → i < max_prio
      → queues i ≡ []
  below_empty map b v below i lo hi end lt =
      clear_empty queues map w i v lo end lt (below (i - w * 64) (omega arith))

  -- A round at the lowest bit of the word, `b`: the search ends there, or goes on past an empty queue.
  round_lem :
      (map : List ℕ) (b : ℕ) (rest : Option ℕ × List ℕ)
      → Covers queues map
      → IsLowest 64 (get_or map w 0) (b + 1)
      → (w * 64 + b < max_prio → queues (w * 64 + b) ≡ [] → Here rest)
      → Here (
          let found : Option ℕ × List ℕ = elim (queues (w * 64 + b)) [
            | [] ↦ rest
            | p ∷ l ↦ (some p, map)
          ] in
          if leb max_prio (w * 64 + b) then (none, map) else found)
  round_lem map b rest v lowest later = elim (Bool-cases (leb max_prio (w * 64 + b))) [
    | inl past ↦
        rw past (Scanned.nothing map v (λ i lo hi lt. empty_below i lo (ground (arith, past)) lt))
    | inr inner ↦ rw inner (go (queues (w * 64 + b)) refl (ground (arith, inner)))
  ]
    where
      empty_below : (i : ℕ) → w * 64 ≤ i → i < w * 64 + b → i < max_prio → queues i ≡ []
      empty_below i lo hi lt =
          below_empty map b v (λ k h. lowest.below k (omega arith)) i lo hi
            (omega (arith, lowest.within)) lt

      go :
          (l : List ℕ)
          → queues (w * 64 + b) ≡ l
          → w * 64 + b < max_prio
          → Here (elim l [ [] ↦ rest | p ∷ r ↦ (some p, map) ])
      go [] e lt = later lt e
      go (p ∷ l) e lt =
          Scanned.found map (w * 64 + b) p l v (omega arith) lt e
            (λ j lo hi. empty_below j lo hi (omega arith))

  scan_word_lem :
      (fuel c : ℕ) (map : List ℕ)
      → Covers queues map
      → ((j : ℕ) → j < c → bit (get_or map w 0) j ≡ 0)
      → 65 ≤ fuel + c
      → c ≤ 64
      → Here (scan_word fuel queues w (get_or map w 0) map)
  unfolding scan_word
  scan_word_lem zero c map v low enough top = absurd (omega arith)
  scan_word_lem (suc fuel) c map v low enough top = elim (Bool-cases (get_or map w 0 == 0)) [
    | inl none_set ↦ rw none_set (
        Scanned.nothing map v
          (λ i lo hi lt. below_empty map 64 v (λ k _. all_clear k (ground arith)) i lo hi hi lt))
    | inr some_set ↦
        let lowest = IsLowest-ctz (get_or map w 0) (v.small w) (ground arith) in
        rw some_set (
          round_lem map b (scan_word fuel queues w (drop_bit (get_or map w 0) b) next) v lowest
            (λ lt empty.
              subst (λ x. Here (scan_word fuel queues w x next)) (word lowest)
                (scan_word_lem fuel (b + 1) next (next-Covers lowest lt empty) (next_low lowest)
                  (omega (arith, at_least lowest)) (omega (arith, lowest.within)))))
  ]
    where
      b : ℕ
      b = builtin_ctz (get_or map w 0)

      next : List ℕ
      next = set map w (drop_bit (get_or map w 0) b)

      all_clear : (k : ℕ) → get_or map w 0 ≡ 0 → bit (get_or map w 0) k ≡ 0
      all_clear k e = ap (λ x. bit x k) e ∙ bit-zero k

      word : IsLowest 64 (get_or map w 0) (b + 1) → get_or next w 0 ≡ drop_bit (get_or map w 0) b
      word lowest = get_or-set_self map w _ 0 (omega (arith, v.words))

      -- The bits below `c` are clear, so the lowest set one is not below it.
      at_least : IsLowest 64 (get_or map w 0) (b + 1) → c ≤ b
      at_least lowest = ground (arith, low b, lowest.hit)

      next-Covers :
          IsLowest 64 (get_or map w 0) (b + 1)
          → w * 64 + b < max_prio
          → queues (w * 64 + b) ≡ []
          → Covers queues next
      next-Covers lowest lt empty =
          rw (unmark_word map w b (omega (arith, lowest.within)))
            (unmark-Covers queues map (w * 64 + b) lt empty v)

      next_low :
          IsLowest 64 (get_or map w 0) (b + 1) → (j : ℕ) → j < b + 1 → bit (get_or next w 0) j ≡ 0
      next_low lowest j lt =
          ap (λ x. bit x j) (word lowest)
          ∙ cleared_below (get_or map w 0) b j (omega (arith, lowest.within))
              (λ k h. lowest.below k (omega arith)) lt

-- The first search that finds something ends the whole.
unless_found-Scanned :
    (queues : ℕ → List ℕ) (lo mid hi : ℕ) (rest : List ℕ → Option ℕ × List ℕ)
    (r : Option ℕ × List ℕ)
    → lo ≤ mid
    → mid ≤ hi
    → Scanned queues lo mid r
    → ((map : List ℕ) → Covers queues map → Scanned queues mid hi (rest map))
    → Scanned queues lo hi (unless_found rest r)
unfolding unless_found
unless_found-Scanned queues lo mid hi rest _ ge le (Scanned.found map i p l v at lt e before)
      later =
    Scanned.found map i p l v at lt e before
unless_found-Scanned queues lo mid hi rest _ ge le (Scanned.nothing map v none_here) later =
    join (rest map) (later map v)
  where
    both :
        (i top : ℕ)
        → ((j : ℕ) → mid ≤ j → j < top → j < max_prio → queues j ≡ [])
        → lo ≤ i
        → i < top
        → i < max_prio
        → queues i ≡ []
    both i top after at below lt = elim (Bool-cases (ltb i mid)) [
      | inl e ↦ none_here i at (ground arith) lt
      | inr e ↦ after i (ground arith) below lt
    ]

    join : (r : Option ℕ × List ℕ) → Scanned queues mid hi r → Scanned queues lo hi r
    join _ (Scanned.nothing m c after) =
        Scanned.nothing m c (λ i at below lt. both i hi after at below lt)
    join _ (Scanned.found m i p l c at lt e after) =
        Scanned.found m i p l c (omega arith) lt e
          (λ j lo_j lt_j. both j i (λ k mid_k k_i _. after k mid_k k_i) lo_j lt_j (omega arith))

pub scan_words_lem :
    (left w : ℕ) (queues : ℕ → List ℕ) (map : List ℕ)
    → w + left ≡ 3
    → Covers queues map
    → Scanned queues (w * 64) 192 (scan_words left queues w map)
unfolding scan_words
scan_words_lem zero w queues map e v = Scanned.nothing map v (λ i lo hi lt. absurd (omega arith))
scan_words_lem (suc left) w queues map e v =
    unless_found-Scanned queues (w * 64) (w * 64 + 64) 192 _ _ (omega arith) (omega arith)
      (scan_word_lem queues w (omega arith) 65 0 map v (λ j lt. absurd (omega arith)) (omega arith)
        (omega arith))
      (λ m c. shifted (scan_words_lem left (w + 1) queues m (omega arith) c))
  where
    shifted :
        {r : Option ℕ × List ℕ}
        → Scanned queues ((w + 1) * 64) 192 r
        → Scanned queues (w * 64 + 64) 192 r
    shifted {r} h =
        let e : (w + 1) * 64 ≡ w * 64 + 64 = omega arith in
        subst (λ lo. Scanned queues lo 192 r) e h
