-- ===== src/BlockCache/State.antt =====
-- The cache of kernel/fs/axiomfs/cache.c and its calls.
use obelisk_os.Prelude.{
  ℕ, zero, suc, Bool, false, ltb, ◌==◌, List, [], ◌∷◌, take, Option, none, some, if◌then◌else◌,
  add64, sub64, Result, ok, err, Errno,
}
use Errno.{enomem}
use obelisk_os.RbTree.Tree.{Tree}
use obelisk_os.BlockCache.Tree.{Slot, search, insert, erase}

-- `id` is the address of the entry.
pub record Entry : Type 0 where
  pub id : ℕ
  pub block_num : ℕ
  pub bytes : List ℕ
  pub dirty : Bool
  pub last_access : ℕ

-- The front of `lru` is the entry that was used last.
pub record Cache : Type 0 where
  pub tree : Tree Slot
  pub lru : List Entry
  pub count : ℕ
  pub max_entries : ℕ
  pub block_size : ℕ
  pub hits : ℕ
  pub misses : ℕ

-- The entry at an address.
abbrev pub by_id : ℕ → List Entry → Option Entry
by_id id [] = none
by_id id (e ∷ l) = if e.id == id then some e else by_id id l

-- list_del of the entry at an address
abbrev pub remove_entry : ℕ → List Entry → List Entry
remove_entry id [] = []
remove_entry id (e ∷ l) = if e.id == id then l else e ∷ remove_entry id l

-- list_last_entry
abbrev pub last_entry : List Entry → Option Entry
last_entry [] = none
last_entry (e ∷ []) = some e
last_entry (e ∷ d ∷ l) = last_entry (d ∷ l)

abbrev pub block_cache_create : ℕ → ℕ → Cache
block_cache_create max_entries block_size = record {
  tree = Tree.leaf;
  lru = [];
  count = 0;
  max_entries = max_entries;
  block_size = block_size;
  hits = 0;
  misses = 0;
}

abbrev pub use_entry : ℕ → Cache → Option Entry → Option (List ℕ) × Cache
use_entry ticks cache none = (none, cache)
use_entry ticks cache (some e) = (
  some e.bytes,
  record cache {
    lru = record e { last_access = ticks } ∷ remove_entry e.id cache.lru;
    hits = add64 cache.hits 1;
  },
)

unfoldable pub block_cache_get : Cache → ℕ → ℕ → Option (List ℕ) × Cache
block_cache_get cache block_num ticks = elim (search block_num cache.tree) [
  | none ↦ (none, record cache { misses = add64 cache.misses 1 })
  | some id ↦ use_entry ticks cache (by_id id cache.lru)
]

-- The entry leaves the tree and the list.
abbrev pub drop_entry : Cache → ℕ → Cache
drop_entry cache id = record cache {
  tree = erase cache.tree id;
  lru = remove_entry id cache.lru;
  count = sub64 cache.count 1;
}

abbrev pub drop_last : Cache → Option Entry → Cache
drop_last cache none = cache
drop_last cache (some e) = drop_entry cache e.id

-- `while (cache->count >= cache->max_entries)`; the C code has no last entry of an empty list.
unfoldable pub evict : ℕ → Cache → Cache
evict zero cache = cache
evict (suc fuel) cache =
    let rest = evict fuel (drop_last cache (last_entry cache.lru)) in
    if ltb cache.count cache.max_entries then cache else rest

abbrev pub new_entry : Cache → ℕ → ℕ → List ℕ → Bool → ℕ → Entry
new_entry cache id block_num bytes dirty ticks = record {
  id = id;
  block_num = block_num;
  bytes = take cache.block_size bytes;
  dirty = dirty;
  last_access = ticks;
}

abbrev pub add_entry : Cache → Entry → Cache
add_entry cache e = record cache {
  tree = insert cache.tree e.block_num e.id;
  lru = e ∷ cache.lru;
  count = add64 cache.count 1;
}

-- `memory` is the address of the new entry, where the allocator finds room for it and its data.
unfoldable pub block_cache_put : Cache → Option ℕ → ℕ → List ℕ → Bool → ℕ → Result ℕ × Cache
unfolding evict
block_cache_put cache memory block_num bytes dirty ticks =
    let room = evict (suc cache.count) cache in
    elim memory [
      | none ↦ (err enomem, room)
      | some id ↦ (ok 0, add_entry room (new_entry room id block_num bytes dirty ticks))
    ]

unfoldable pub block_cache_invalidate : Cache → ℕ → Cache
block_cache_invalidate cache block_num = elim (search block_num cache.tree) [
  | none ↦ cache
  | some id ↦ drop_entry cache id
]

abbrev pub clean_all : List Entry → List Entry
clean_all [] = []
clean_all (e ∷ l) = (if e.dirty then record e { dirty = false } else e) ∷ clean_all l

unfoldable pub block_cache_sync : Cache → Cache
block_cache_sync cache = record cache { lru = clean_all cache.lru }

-- The free blocks that the superblock counts, and the static next_free_block.
pub record BlockSpace : Type 0 where
  pub s_free_blocks : ℕ
  pub next_free_block : ℕ

unfoldable pub axiomfs_alloc_block : BlockSpace → ℕ × BlockSpace
axiomfs_alloc_block space = if space.s_free_blocks == 0 then (0, space) else (
  space.next_free_block,
  record space {
    s_free_blocks = sub64 space.s_free_blocks 1;
    next_free_block = add64 space.next_free_block 1;
  },
)

unfoldable pub axiomfs_free_block : BlockSpace → ℕ → BlockSpace
axiomfs_free_block space block = record space { s_free_blocks = add64 space.s_free_blocks 1 }
