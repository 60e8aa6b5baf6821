-- ===== src/BlockCache/Tests.antt =====
-- A cache of two blocks, and the theorems about kernel/fs/axiomfs/cache.c at it.
use obelisk_os.Prelude.{ℕ, ◌≡◌, refl, arith, true, false, [], ◌∷◌, take, none, some, Result}
use obelisk_os.BlockCache.State.{
  Cache, new_entry, block_cache_create, block_cache_get, block_cache_put, evict, by_id,
}
use obelisk_os.BlockCache.Entries.{entry_of}
use obelisk_os.BlockCache.Invariant.{Inv, Looked, create-Inv, block_cache_get_lem}
use obelisk_os.BlockCache.Lru.{Stored, block_cache_put_lem, get-put}

-- Two blocks are stored, and there is room for two.
abbrev empty_cache : Cache
empty_cache = block_cache_create 2 4

empty_cache-Inv : Inv empty_cache
empty_cache-Inv = create-Inv 2 4 (omega arith) (omega arith)

abbrev one_block : Result ℕ × Cache
one_block = block_cache_put empty_cache (some 11) 7 (1 ∷ 2 ∷ 3 ∷ 4 ∷ []) false 1

one_block-Stored :
    Stored empty_cache (new_entry empty_cache 11 7 (1 ∷ 2 ∷ 3 ∷ 4 ∷ []) false 1) one_block
one_block-Stored =
    block_cache_put_lem empty_cache 11 7 1 (1 ∷ 2 ∷ 3 ∷ 4 ∷ []) false empty_cache-Inv refl refl

abbrev two_blocks : Result ℕ × Cache
two_blocks = block_cache_put one_block.1 (some 12) 8 (5 ∷ 6 ∷ 7 ∷ 8 ∷ []) true 2

absent_8 : entry_of 8 one_block.1.lru ≡ none
absent_8 = rw one_block-Stored.newest refl

fresh_12 : by_id 12 one_block.1.lru ≡ none
fresh_12 = rw one_block-Stored.newest refl

two_blocks-Stored :
    Stored one_block.1 (new_entry one_block.1 12 8 (5 ∷ 6 ∷ 7 ∷ 8 ∷ []) true 2) two_blocks
two_blocks-Stored =
    block_cache_put_lem one_block.1 12 8 2 (5 ∷ 6 ∷ 7 ∷ 8 ∷ []) true one_block-Stored.kept absent_8
      fresh_12

absent_9 : entry_of 9 two_blocks.1.lru ≡ none
unfolding block_cache_put evict
absent_9 = refl

fresh_13 : by_id 13 two_blocks.1.lru ≡ none
unfolding block_cache_put evict
fresh_13 = refl

-- A third block evicts the first.
block_cache_put_lem_example :
    Stored two_blocks.1
      (new_entry two_blocks.1 13 9 (0 ∷ 0 ∷ 0 ∷ 1 ∷ []) false 3)
      (block_cache_put two_blocks.1 (some 13) 9 (0 ∷ 0 ∷ 0 ∷ 1 ∷ []) false 3)
block_cache_put_lem_example =
    block_cache_put_lem two_blocks.1 13 9 3 (0 ∷ 0 ∷ 0 ∷ 1 ∷ []) false two_blocks-Stored.kept
      absent_9 fresh_13

get-put_example :
    (block_cache_get
      (block_cache_put two_blocks.1 (some 13) 9 (0 ∷ 0 ∷ 0 ∷ 1 ∷ []) false 3).1
      9
      4).0
    ≡ some (take two_blocks.1.block_size (0 ∷ 0 ∷ 0 ∷ 1 ∷ []))
get-put_example =
    get-put two_blocks.1 13 9 3 4 (0 ∷ 0 ∷ 0 ∷ 1 ∷ []) false two_blocks-Stored.kept absent_9
      fresh_13

block_cache_get_lem_example : Looked 7 two_blocks.1 (block_cache_get two_blocks.1 7 5)
block_cache_get_lem_example = block_cache_get_lem two_blocks.1 7 5 two_blocks-Stored.kept
