-- ===== src/Shm/Tests.antt =====
-- Shared memory on the memory manager: a machine of eight frames, and the theorems at it.
use obelisk_os.Prelude.{refl, arith, [], ◌∷◌, none, some, true}
use obelisk_os.Tally.{tally}
use obelisk_os.Pmm.State.{Pmm}
use obelisk_os.Pmm.Bits.{bitmap_test}
use obelisk_os.Pmm.State.{dma}
use obelisk_os.Pmm.Source.{PmmOk, PmmHeld, pmm_source}
use obelisk_os.Shm.Segment.{Segment, Shm, Context, shmget}
use obelisk_os.Shm.Pages.{Got, AllHeld, NotIn, shmget_lem}

-- Frames 0, 1 and 2 are in use, 3 is free in the DMA zone and 4 to 7 in the normal zone.
abbrev machine : Pmm
machine = record {
  dma_zone = record { start_pfn = 0; end_pfn = 4; total_pages = 4; free_pages = 1 };
  normal_zone = record { start_pfn = 4; end_pfn = 8; total_pages = 4; free_pages = 4 };
  high_zone = record { start_pfn = 8; end_pfn = 8; total_pages = 0; free_pages = 0 };
  total_pages = 8;
  free_pages = 5;
  usable_pages = 5;
  bitmap = 0x7 ∷ [];
  page_array = none;
  page_array_backing_phys = 0;
}

machine-Ok : PmmOk machine
unfolding tally bitmap_test
machine-Ok = record {
  accounts = record {
    layout = omega arith;
    dma_count = refl;
    normal_count = refl;
    high_count = refl;
    total_count = refl;
  };
  zero_used = refl;
}

-- One segment of one page, frame 2.
abbrev segment : Segment
segment = record {
  id = 1;
  key = 7;
  uid = 0;
  gid = 0;
  mode = 0x1b6;
  size = 4096;
  nattach = 0;
  pages = 0x2000 ∷ [];
  num_pages = 1;
  ctime = 0;
}

abbrev system : Shm Pmm
system = record { shm_table = some segment ∷ none ∷ none ∷ []; next_shm_id = 2; source = machine }

abbrev context : Context
context = record { uid = 0; gid = 0; ticks = 9; segment_memory = true; array_memory = true }

segment_held : AllHeld pmm_source machine segment.pages
unfolding bitmap_test
segment_held = AllHeld.held frame_2 NotIn.at_end AllHeld.at_end
  where
    frame_2 : PmmHeld machine 0x2000
    frame_2 = record {
      pfn = 2;
      zone = dma;
      address = refl;
      inside = omega arith;
      used = refl;
      nonzero = omega arith;
    }

shmget_lem_example : Got pmm_source system 8192 (shmget pmm_source context 9 8192 0x40 system)
shmget_lem_example = shmget_lem pmm_source context 9 8192 0x40 system machine-Ok
