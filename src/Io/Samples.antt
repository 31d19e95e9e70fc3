-- ===== src/Io/Samples.antt =====
-- Test data for the life of an I/O: a driver around the sample cache.
use flashcache_ubuntu_xenial.Prelude.{ℕ, ◌+◌, true, false, none, []}
use flashcache_ubuntu_xenial.Samples.{device, state}
use flashcache_ubuntu_xenial.Ioctl.Sequential.{SeqState}
use flashcache_ubuntu_xenial.Ioctl.Pids.{PidState}
use flashcache_ubuntu_xenial.Io.Jobs.{Driver, Bio, Direction, Action, set_state, enq_pending}

abbrev pub sum_hash : ℕ → ℕ → ℕ
sum_hash a b = a + b

abbrev pub flows : SeqState
flows = record {
  seq_recent_ios = λ i. record { most_recent_sector = 0; sequential_count = 0; prev = i; next = i };
  seq_io_head = 0;
  seq_io_tail = 0;
  block_size = 8;
  sysctl_skip_seq_thresh_kb = 0;
  uncached_sequential_reads = 0;
  uncached_sequential_writes = 0;
}

abbrev pub no_pids : PidState
no_pids = record {
  nodes = λ k. record { pid = k; next = none; prev = none };
  list = λ w. record { head = none; tail = none; num_pids = 0 };
  sysctl_max_pids = 100;
  pid_dels = 0;
  pid_drops = 0;
  bypass_cache = false;
  sysctl_cache_all = true;
}

abbrev pub driver : Driver
driver = record {
  dmc = device;
  seq = flows;
  pids = no_pids;
  pending_job_hashbuckets = λ h. [];
  md_blocks_buf = λ b. record { nr_in_prog = false; queued_updates = []; md_io_inprog = [] };
  pending_jobs = [];
  io_jobs = [];
  md_io_jobs = [];
  md_complete_jobs = [];
  uncached_io_complete_jobs = [];
  allocs = λ k. true;
  nr_allocs = 0;
  log = [];
}

abbrev pub request : ℕ → ℕ → Direction → Bio
request id sector dir = record { id = id; sector = sector; sectors = 8; dir = dir; barrier = false }

-- Block 6 is being read from the disk, and a read waits for it.
abbrev pub busy : Driver
busy =
    enq_pending (set_state driver 6 (record (state true) { disk_read_in_prog = true }))
      (request 1 520 Direction.read) 6 Action.read_cache
