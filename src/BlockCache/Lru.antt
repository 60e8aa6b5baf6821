-- ===== src/BlockCache/Lru.antt =====
-- Which entries `block_cache_put` of kernel/fs/axiomfs/cache.c keeps: those that were used last.
use mathlib.Core.Option.{some-injective}
use obelisk_os.Prelude.{
  ℕ, zero, suc, ◌-◌, ◌≤◌, ◌<◌, ◌≡◌, ◌≢◌, refl, ap, sym, ◌∙◌, arith, Bool, true, false, ltb, ◌==◌,
  List, [], ◌∷◌, length, take, none, some, Result, ok, Bool-cases, Option-cases, inl, inr,
}
use obelisk_os.BlockCache.Tree.{search}
use obelisk_os.BlockCache.Search.{insert-IsTree, search-insert}
use obelisk_os.BlockCache.State.{
  Entry, Cache, by_id, last_entry, block_cache_get, drop_entry, evict, new_entry, block_cache_put,
}
use obelisk_os.BlockCache.Entries.{entry_of, entry_of-by_id, remove_entry-last_entry}
use obelisk_os.BlockCache.Invariant.{id_of, bytes_of, Inv, drop_entry-Inv, block_cache_get_lem}

take_all : (n : ℕ) (l : List Entry) → length l ≤ n → l ≡ take n l
take_all n [] h = nothing n
  where
    nothing : (n : ℕ) → [] ≡ take {A = Entry} n []
    nothing zero = refl
    nothing (suc n) = refl
take_all zero (e ∷ l) h = absurd (omega (arith, h))
take_all (suc n) (e ∷ l) h = ap (λ x. e ∷ x) (take_all n l (omega (arith, h)))

entry_of-take-none : (k n : ℕ) (l : List Entry) → entry_of k l ≡ none → entry_of k (take n l) ≡ none
entry_of-take-none k zero l h = refl
entry_of-take-none k (suc n) [] h = refl
entry_of-take-none k (suc n) (e ∷ l) h = ground (arith, h, entry_of-take-none k n l)

by_id-take-none : (k n : ℕ) (l : List Entry) → by_id k l ≡ none → by_id k (take n l) ≡ none
by_id-take-none k zero l h = refl
by_id-take-none k (suc n) [] h = refl
by_id-take-none k (suc n) (e ∷ l) h = ground (arith, h, by_id-take-none k n l)

last-some : (l : List Entry) → 0 < length l → (e : Entry) × (last_entry l ≡ some e)
last-some [] h = absurd (omega (arith, h))
last-some (e ∷ []) h = (e, refl)
last-some (e ∷ d ∷ l) h = last-some (d ∷ l) (omega arith)

-- What eviction leaves.
pub record Evicted (c r : Cache) : Type 0 where
  pub kept : Inv r
  pub below : r.count < r.max_entries
  pub newest : r.lru ≡ take (c.max_entries - 1) c.lru
  pub size : r.block_size ≡ c.block_size

evict_stops : (n : ℕ) (c : Cache) → c.count < c.max_entries → evict n c ≡ c
unfolding evict
evict_stops zero c h = refl
evict_stops (suc n) c h =
    let stop : ltb c.count c.max_entries ≡ true = ground (arith, h) in rw stop refl

evict_round :
    (n : ℕ) (c : Cache) (e : Entry)
    → c.max_entries ≤ c.count
    → last_entry c.lru ≡ some e
    → evict (suc n) c ≡ evict n (drop_entry c e.id)
unfolding evict
evict_round n c e h last =
    let full : ltb c.count c.max_entries ≡ false = ground (arith, h) in rw (full, last) refl

evict_lem : (c : Cache) → Inv c → Evicted c (evict (suc c.count) c)
evict_lem c v = elim (Bool-cases (ltb c.count c.max_entries)) [
  | inl free ↦
      let lt : c.count < c.max_entries = ground (arith, free) in
      rw (evict_stops (suc c.count) c lt) (record {
        kept = v;
        below = lt;
        newest = take_all (c.max_entries - 1) c.lru (omega (arith, lt, v.counted));
        size = refl;
      })
  | inr full ↦
      let le : c.max_entries ≤ c.count = ground (arith, full) in
      let (e, last) = last-some c.lru (omega (arith, le, v.counted, v.some_room)) in
      let (here, rest) = remove_entry-last_entry c.lru e v.distinct last in
      let c' = drop_entry c e.id in
      let lt : c'.count < c'.max_entries = omega (arith, le, v.room, v.some_room, v.word) in
      let one : length c.lru ≡ c.max_entries = omega (arith, le, v.room, v.counted) in
      rw (evict_round c.count c e le last ∙ evict_stops c.count c' lt) (record {
        kept = drop_entry-Inv c e v here;
        below = lt;
        newest = rest ∙ ap (λ n. take (n - 1) c.lru) one;
        size = refl;
      })
]

-- An address that is not in the list is not in the tree.
unknown : (c : Cache) (id : ℕ) → Inv c → by_id id c.lru ≡ none → (j : ℕ) → search j c.tree ≢ some id
unknown c id v fresh j e = elim (Option-cases (entry_of j c.lru)) [
  | inl absent ↦ cc (e, v.found j, ap id_of absent)
  | inr present ↦
      let (d, owner) = present in
      let here = (entry_of-by_id j c.lru d v.distinct owner).0 in
      let same : d.id ≡ id = some-injective _ _ (sym (v.found j ∙ ap id_of owner) ∙ e) in
      cc (ap (λ i. by_id i c.lru) same, here, fresh)
]

-- What storing a block leaves.
pub record Stored (c : Cache) (e : Entry) (r : Result ℕ × Cache) : Type 0 where
  pub done : r.0 ≡ ok 0
  pub kept : Inv r.1
  pub newest : r.1.lru ≡ e ∷ take (c.max_entries - 1) c.lru

-- In a cache in order, storing a block that is not cached, at an address that is new, succeeds; the
-- cache is in order after it, its tree balanced and with the entries of the list, and its entries are the
-- new one and behind it those that were used last, as many as its size leaves room for.
pub block_cache_put_lem :
    (c : Cache) (id k ticks : ℕ) (bytes : List ℕ) (dirty : Bool)
    → Inv c
    → entry_of k c.lru ≡ none
    → by_id id c.lru ≡ none
    → Stored c
        (new_entry c id k bytes dirty ticks)
        (block_cache_put c (some id) k bytes dirty ticks)
unfolding block_cache_put
block_cache_put_lem c id k ticks bytes dirty v absent fresh =
    let room = evict (suc c.count) c in
    let r = evict_lem c v in
    let absent' : entry_of k room.lru ≡ none =
      rw r.newest (entry_of-take-none k (c.max_entries - 1) c.lru absent) in
    let fresh' : by_id id room.lru ≡ none =
      rw r.newest (by_id-take-none id (c.max_entries - 1) c.lru fresh) in
    let not_there : search k room.tree ≡ none = r.kept.found k ∙ ap id_of absent' in
    record {
      done = refl;
      kept = record {
        tree = insert-IsTree room.tree k id r.kept.tree not_there (unknown room id r.kept fresh');
        found = λ j.
            search-insert room.tree k id j r.kept.tree not_there (unknown room id r.kept fresh')
            ∙ ground (arith, r.kept.found j);
        distinct = (absent', fresh', r.kept.distinct);
        counted = omega (arith, r.kept.counted, r.below, r.kept.word);
        room = omega (arith, r.below, r.kept.word);
        some_room = r.kept.some_room;
        word = r.kept.word;
      };
      newest =
          ap
            (λ n.
              record {
                id = id;
                block_num = k;
                bytes = take n bytes;
                dirty = dirty;
                last_access = ticks;
              }
              ∷ room.lru)
            r.size
          ∙ ap (λ l. new_entry c id k bytes dirty ticks ∷ l) r.newest;
    }

-- In a cache in order, a block that was not cached and is stored, at an address that is new, is read
-- back: `block_cache_get` gives the first `block_size` bytes of what was stored.
pub get-put :
    (c : Cache) (id k ticks ticks' : ℕ) (bytes : List ℕ) (dirty : Bool)
    → Inv c
    → entry_of k c.lru ≡ none
    → by_id id c.lru ≡ none
    → (block_cache_get (block_cache_put c (some id) k bytes dirty ticks).1 k ticks').0
      ≡ some (take c.block_size bytes)
get-put c id k ticks ticks' bytes dirty v absent fresh =
    let p = block_cache_put_lem c id k ticks bytes dirty v absent fresh in
    let r = block_cache_put c (some id) k bytes dirty ticks in
    let first : (k == k) ≡ true = ground arith in
    (block_cache_get_lem r.1 k ticks' p.kept).answer
    ∙ ap (λ l. bytes_of (entry_of k l)) p.newest
    ∙ rw first refl
