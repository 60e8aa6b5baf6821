-- ===== src/BlockCache/Invariant.antt =====
-- The tree and the list of kernel/fs/axiomfs/cache.c agree, and every call keeps it so.
use obelisk_os.Prelude.{
  ℕ, ◌^◌, ◌≤◌, ◌<◌, ◌≡◌, refl, ap, sym, ◌∙◌, arith, List, length, Option, none, some, Option-cases,
  inl, inr,
}
use obelisk_os.BlockCache.Tree.{search}
use obelisk_os.BlockCache.Search.{IsTree, leaf-IsTree, erase-IsTree, search-erase}
use obelisk_os.BlockCache.State.{
  Entry, Cache, by_id, use_entry, block_cache_create, block_cache_get, drop_entry,
  block_cache_invalidate,
}
use obelisk_os.BlockCache.Entries.{
  entry_of, Distinct, entry_of-by_id, by_id-entry_of, entry_of-remove_entry, by_id-remove_entry,
  remove_entry-Distinct, length-remove_entry,
}

abbrev pub id_of : Option Entry → Option ℕ
id_of none = none
id_of (some e) = some e.id

abbrev pub bytes_of : Option Entry → Option (List ℕ)
bytes_of none = none
bytes_of (some e) = some e.bytes

-- The blocks of a cache as a function: what is cached of a block.
abbrev pub cached : Cache → ℕ → Option (List ℕ)
cached c k = bytes_of (entry_of k c.lru)

pub record Inv (c : Cache) : Type 0 where
  pub tree : IsTree c.tree
  pub found : (k : ℕ) → search k c.tree ≡ id_of (entry_of k c.lru)
  pub distinct : Distinct c.lru
  pub counted : c.count ≡ length c.lru
  pub room : c.count ≤ c.max_entries
  pub some_room : 0 < c.max_entries
  pub word : c.max_entries < 2 ^ 64

pub create-Inv :
    (max_entries block_size : ℕ)
    → 0 < max_entries
    → max_entries < 2 ^ 64
    → Inv (block_cache_create max_entries block_size)
create-Inv max_entries block_size h h' = record {
  tree = leaf-IsTree;
  found = λ k. refl;
  distinct = tt;
  counted = refl;
  room = omega arith;
  some_room = h;
  word = h';
}

-- An entry of the list leaves.
pub drop_entry-Inv :
    (c : Cache) (e : Entry) → Inv c → by_id e.id c.lru ≡ some e → Inv (drop_entry c e.id)
drop_entry-Inv c e v h =
    let (owner, same) = by_id-entry_of e.id c.lru e v.distinct h in
    let in_tree : search e.block_num c.tree ≡ some e.id = v.found e.block_num ∙ ap id_of owner in
    let len = length-remove_entry e.id c.lru e h in
    record {
      tree = erase-IsTree c.tree e.block_num e.id v.tree in_tree;
      found = λ k.
          search-erase c.tree e.block_num e.id k v.tree in_tree
          ∙ ground (arith, v.found k, entry_of-remove_entry k c.lru e v.distinct h);
      distinct = remove_entry-Distinct e.id c.lru v.distinct;
      counted = omega (arith, len, v.counted, v.room, v.word);
      room = omega (arith, len, v.counted, v.room, v.word);
      some_room = v.some_room;
      word = v.word;
    }

pub invalidate-Inv : (c : Cache) (k : ℕ) → Inv c → Inv (block_cache_invalidate c k)
unfolding block_cache_invalidate
invalidate-Inv c k v = elim (Option-cases (entry_of k c.lru)) [
  | inl absent ↦
      let not_there : search k c.tree ≡ none = v.found k ∙ ap id_of absent in
      rw (not_there, block_cache_invalidate) v
  | inr present ↦
      let (e, owner) = present in
      let there : search k c.tree ≡ some e.id = v.found k ∙ ap id_of owner in
      rw (there, block_cache_invalidate)
        (drop_entry-Inv c e v (entry_of-by_id k c.lru e v.distinct owner).0)
]

-- What a lookup leaves.
pub record Looked (k : ℕ) (c : Cache) (r : Option (List ℕ) × Cache) : Type 0 where
  pub answer : r.0 ≡ cached c k
  pub kept : Inv r.1
  pub same : (j : ℕ) → cached r.1 j ≡ cached c j

used :
    (c : Cache) (k ticks : ℕ) (e : Entry)
    → Inv c
    → entry_of k c.lru ≡ some e
    → Looked k c (use_entry ticks c (some e))
used c k ticks e v owner =
    let (here, block) = entry_of-by_id k c.lru e v.distinct owner in
    let owner' = (by_id-entry_of e.id c.lru e v.distinct here).0 in
    let gone = λ (j : ℕ). entry_of-remove_entry j c.lru e v.distinct here in
    let gone' = by_id-remove_entry e.id e.id c.lru v.distinct in
    let len = length-remove_entry e.id c.lru e here in
    record {
      answer = sym (ap bytes_of owner);
      kept = record {
        tree = v.tree;
        found = λ j.
            v.found j
            ∙ ground
                (arith, gone j, owner', (λ (i : e.block_num ≡ j). ap (λ x. entry_of x c.lru) i));
        distinct = (
          ground (arith, gone e.block_num),
          ground (arith, gone'),
          remove_entry-Distinct e.id c.lru v.distinct,
        );
        counted = v.counted ∙ sym len;
        room = v.room;
        some_room = v.some_room;
        word = v.word;
      };
      same = λ j.
          ground (arith, gone j, owner', (λ (i : e.block_num ≡ j). ap (λ x. entry_of x c.lru) i));
    }

-- In a cache in order, `block_cache_get` answers what is cached of the block, keeps the cache in
-- order, and of every block the same is cached as before.
pub block_cache_get_lem : (c : Cache) (k ticks : ℕ) → Inv c → Looked k c (block_cache_get c k ticks)
unfolding block_cache_get
block_cache_get_lem c k ticks v = elim (Option-cases (entry_of k c.lru)) [
  | inl absent ↦
      let not_there : search k c.tree ≡ none = v.found k ∙ ap id_of absent in
      rw (not_there, block_cache_get)
        (record {
          answer = sym (ap bytes_of absent);
          kept = record {
            tree = v.tree;
            found = v.found;
            distinct = v.distinct;
            counted = v.counted;
            room = v.room;
            some_room = v.some_room;
            word = v.word;
          };
          same = λ j. refl;
        })
  | inr present ↦
      let (e, owner) = present in
      let there : search k c.tree ≡ some e.id = v.found k ∙ ap id_of owner in
      let here = (entry_of-by_id k c.lru e v.distinct owner).0 in
      rw (there, here, block_cache_get) (used c k ticks e v owner)
]
