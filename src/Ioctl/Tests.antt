-- ===== src/Ioctl/Tests.antt =====
-- The theorems about src/flashcache_ioctl.c at a queue of the flows 0, 1 and 2.
use flashcache_ubuntu_xenial.Prelude.{◌*◌, ◌+◌, ◌-◌, [], ◌∷◌, true, arith, ◌==◌, if◌then◌else◌}
use flashcache_ubuntu_xenial.Ioctl.Sequential.{SeqState, nil, skip_sequential_io}
use flashcache_ubuntu_xenial.Ioctl.Skip.{Fronted, skip_sequential_io-Fronted}
use flashcache_ubuntu_xenial.Ioctl.Flows.{IsFlows}

abbrev flows : SeqState
flows = record {
  seq_recent_ios = λ i. record {
    most_recent_sector = 100 * i;
    sequential_count = 1;
    prev = if i == 0 then nil else i - 1;
    next = if i == 2 then nil else i + 1;
  };
  seq_io_head = 0;
  seq_io_tail = 2;
  block_size = 8;
  sysctl_skip_seq_thresh_kb = 64;
  uncached_sequential_reads = 0;
  uncached_sequential_writes = 0;
}

flows-IsFlows : IsFlows flows (0 ∷ 1 ∷ 2 ∷ [])
flows-IsFlows = ground arith

-- The request continues the flow 2.
skip_sequential_io-Fronted_example : Fronted (0 ∷ 1 ∷ 2 ∷ []) (skip_sequential_io flows 208 true)
skip_sequential_io-Fronted_example =
    skip_sequential_io-Fronted flows 208 0 (1 ∷ 2 ∷ []) true flows-IsFlows (omega arith)
      (omega arith)
