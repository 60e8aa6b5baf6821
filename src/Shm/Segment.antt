-- ===== src/Shm/Segment.antt =====
-- `shmget` and `shmctl` of kernel/ipc/shm.c. Zeroing a page does not change what is modelled.
use Prim.Native.Nat.{bit_and}
use obelisk_os.Prelude.{
  ℕ, zero, suc, ◌+◌, ◌/◌, ◌%◌, ◌^◌, ℤ, pos, negsuc, List, [], ◌∷◌, ◌++◌, Option, none, some, Bool,
  false, not, ◌==◌, leb, ltb, if◌then◌else◌, set, get_or, align_up, page_size, Result, ok, err,
  Errno,
}
use Errno.{eexist, enoent, enospc, enomem, einval, ebusy}
use obelisk_os.PageSource.{PageSource}

pub record Segment : Type 0 where
  pub id : ℕ
  pub key : ℕ
  pub uid : ℕ
  pub gid : ℕ
  pub mode : ℕ
  pub size : ℕ
  pub nattach : ℕ
  pub pages : List ℕ
  pub num_pages : ℕ
  pub ctime : ℕ

-- The globals of the file, and the allocator.
pub record Shm (A : Type 0) : Type 0 where
  pub shm_table : List (Option Segment)
  pub next_shm_id : ℕ
  pub source : A

-- What the call finds: the ids of `current`, 0 for none, the clock, and whether each of the two calls of
-- `kzalloc` has room.
pub record Context : Type 0 where
  pub uid : ℕ
  pub gid : ℕ
  pub ticks : ℕ
  pub segment_memory : Bool
  pub array_memory : Bool

abbrev pub o_creat : ℕ
o_creat = 0x40

abbrev pub o_excl : ℕ
o_excl = 0x80

abbrev pub max_shm_segments : ℕ
max_shm_segments = 256

unfoldable pub segment_key : ℕ → Option Segment → Bool
segment_key key none = false
segment_key key (some seg) = seg.key == key

unfoldable pub find_segment : List (Option Segment) → ℕ → ℕ → Option ℕ
unfolding segment_key
find_segment [] key i = none
find_segment (o ∷ os) key i =
    let rest = find_segment os key (i + 1) in if segment_key key o then some i else rest

unfoldable pub free_slot : List (Option Segment) → ℕ → Option ℕ
free_slot [] i = none
free_slot (none ∷ os) i = some i
free_slot (some seg ∷ os) i = free_slot os (i + 1)

module _ {A : Type 0} (pages : PageSource A) where
  -- The loops that free the pages of an array, in order.
  unfoldable pub give_all : A → List ℕ → A
  give_all a [] = a
  give_all a (page ∷ ps) = give_all (pages.free a page) ps

  -- The loop that fills the array, with the pages that it has got; on failure it frees them.
  unfoldable pub take_all : ℕ → A → List ℕ → Option (List ℕ) × A
  unfolding give_all
  take_all zero a got = (some got, a)
  take_all (suc left) a got =
      let r = pages.alloc a in
      let rest = take_all left r.1 (got ++ (r.0 ∷ [])) in
      if r.0 == 0 then (none, give_all r.1 got) else rest

  abbrev pub page_count : ℕ → ℕ
  page_count size = align_up size / page_size

  unfoldable pub new_segment : Context → ℕ → ℕ → ℕ → ℕ → List ℕ → Segment
  new_segment ctx id key size flags ps = record {
    id = id;
    key = key;
    uid = ctx.uid;
    gid = ctx.gid;
    mode = bit_and flags 0x1ff;
    size = align_up size;
    nattach = 0;
    pages = ps;
    num_pages = page_count size;
    ctime = ctx.ticks;
  }

  -- The number of a segment is used up once its memory is there, also where the rest fails.
  unfoldable pub store_segment :
      Context → Shm A → ℕ → ℕ → ℕ → ℕ → Option (List ℕ) × A → Result ℕ × Shm A
  unfolding new_segment
  store_segment ctx s i key size flags (none, a) =
      (err enomem, record s { next_shm_id = (s.next_shm_id + 1) % 2 ^ 32; source = a })
  store_segment ctx s i key size flags (some ps, a) = (
    ok i,
    record {
      shm_table = set s.shm_table i (some (new_segment ctx s.next_shm_id key size flags ps));
      next_shm_id = (s.next_shm_id + 1) % 2 ^ 32;
      source = a;
    },
  )

  -- The part of `shmget` from the search for a free slot on.
  unfoldable pub create_segment : Context → Shm A → ℕ → ℕ → ℕ → Result ℕ × Shm A
  unfolding take_all store_segment free_slot
  create_segment ctx s key size flags = elim (free_slot s.shm_table 0) [
    | none ↦ (err enospc, s)
    | some i ↦
        if not ctx.segment_memory
        then (err enomem, s)
        else if not ctx.array_memory
        then (err enomem, record s { next_shm_id = (s.next_shm_id + 1) % 2 ^ 32 })
        else store_segment ctx s i key size flags (take_all (page_count size) s.source [])
  ]

  abbrev pub existing : List (Option Segment) → ℕ → Option ℕ
  existing table key = if key == 0 then none else find_segment table key 0

  unfoldable pub shmget : Context → ℕ → ℕ → ℕ → Shm A → Result ℕ × Shm A
  unfolding create_segment find_segment
  shmget ctx key size flags s = elim (existing s.shm_table key) [
    | some i ↦ if not (bit_and flags o_excl == 0) then (err eexist, s) else (ok i, s)
    | none ↦
        if bit_and flags o_creat == 0 then (err enoent, s) else create_segment ctx s key size flags
  ]

  abbrev pub segment_at : ℤ → Shm A → Option Segment
  segment_at (negsuc n) s = none
  segment_at (pos i) s = if leb max_shm_segments i then none else get_or s.shm_table i none

  abbrev pub slot : ℤ → ℕ
  slot (pos i) = i
  slot (negsuc n) = 0

  -- Command 0 is IPC_RMID.
  unfoldable pub shmctl : ℤ → ℕ → Shm A → Result ℕ × Shm A
  unfolding give_all
  shmctl shmid cmd s = elim (segment_at shmid s) [
    | none ↦ (err einval, s)
    | some seg ↦
        if not (cmd == 0) then (err einval, s) else if ltb 0 seg.nattach then (err ebusy, s) else (
          ok 0,
          record s {
            shm_table = set s.shm_table (slot shmid) none;
            source = give_all s.source seg.pages;
          },
        )
  ]
