-- ===== src/Pfd/Tests.antt =====
-- The theorems about src/pfd_stat.c and src/pfd_cache.c at concrete entries, queues and runs.
use flashcache_ubuntu_xenial.Prelude.{
  Option, ℕ, ◌<◌, ◌≡◌, refl, some, none, List, [], ◌∷◌, ◌++◌, inl, arith, pos, ◌==◌, if◌then◌else◌,
}
use flashcache_ubuntu_xenial.Samples.{device}
use flashcache_ubuntu_xenial.Pfd.Stat.{
  PfdStat, PfdStatQueue, nil, curr_of, observe, info_of, pfd_stat_update, reset_pfd_stat_queue,
  pfd_stat_count,
}
use flashcache_ubuntu_xenial.Pfd.Runs.{IsPattern}
use flashcache_ubuntu_xenial.Pfd.Pattern.{observe-IsPattern}
use flashcache_ubuntu_xenial.Pfd.Search.{Owned, IsFirst, IsTaken}
use flashcache_ubuntu_xenial.Pfd.Update.{IsQueue, IsBut, pfd_stat_update-IsQueue}
use flashcache_ubuntu_xenial.Pfd.Init.{from, reset_pfd_stat_queue-IsQueue}
use flashcache_ubuntu_xenial.Pfd.Dbns.{pfd_stat_get_prefetch_dbns}
use flashcache_ubuntu_xenial.Pfd.Fits.{Fits, pfd_stat_get_prefetch_dbns-Fits}
use flashcache_ubuntu_xenial.Pfd.Cache.{PfdCacheMeta, MetaStatus, hold, claim, io_callback}
use flashcache_ubuntu_xenial.Pfd.World.{World, Step, Steps, IsSafe}
use flashcache_ubuntu_xenial.Pfd.Readers.{copying-loaded}

-- Four blocks from 100 on were read, then one at 200.
abbrev entry : PfdStat
entry = record {
  tgt = some 7;
  pid = pos 42;
  stride = pos 100;
  stride_count = 1;
  seq_stats =
      λ i. if i == 0 then record { start = 100; count = 4 } else record { start = 200; count = 1 };
  curr_seq_stat = 1;
  prev_seq_stat = 0;
}

entry-IsPattern : IsPattern device entry
entry-IsPattern = record {
  runs = ground arith;
  fresh = λ e. absurd (omega (arith, e));
  no_previous = λ e. absurd (omega (arith, e));
  previous = λ p. (omega arith, refl, omega arith, omega arith);
}

observe-IsPattern_example :
    IsPattern device (observe device entry 208) × (0 < (curr_of (observe device entry 208)).count)
observe-IsPattern_example = observe-IsPattern device entry 208 entry-IsPattern

pfd_stat_get_prefetch_dbns-Fits_example :
    Fits device (pfd_stat_get_prefetch_dbns device (info_of entry 200))
pfd_stat_get_prefetch_dbns-Fits_example =
    pfd_stat_get_prefetch_dbns-Fits device entry 200 entry-IsPattern

abbrev stray : PfdStatQueue
stray = record {
  stat_elms = λ i. record { stat = entry; next = nil; prev = nil };
  head = nil;
  tail = nil;
}

abbrev queue : PfdStatQueue
queue = reset_pfd_stat_queue stray

queue-IsQueue : IsQueue device queue (from 0 pfd_stat_count)
queue-IsQueue = reset_pfd_stat_queue-IsQueue device stray

pfd_stat_update-IsQueue_example :
    (q' : PfdStatQueue) × (i : ℕ) × (l : List ℕ) × (r : List ℕ) × (from 0 64 ≡ l ++ i ∷ r)
    × (pfd_stat_update device (pos 42) 500 queue ≡ some (q', info_of (q'.stat_elms i).stat 500))
    × IsQueue device q' (i ∷ (l ++ r))
    × Owned device (pos 42) (q'.stat_elms i).stat
    × (0 < (info_of (q'.stat_elms i).stat 500).seq_count)
    × IsBut queue q' i
    × ((found : Option ℕ) × (old : PfdStat) × IsFirst device (pos 42) queue (from 0 64) found
        × IsTaken device (pos 42) queue found i old
        × ((q'.stat_elms i).stat ≡ observe device old 500))
pfd_stat_update-IsQueue_example =
    pfd_stat_update-IsQueue device (pos 42) 500 queue 0 (from 1 63) queue-IsQueue

-- A block is prefetched, and a reader comes for it.
abbrev unused : PfdCacheMeta
unused = record {
  prepare_lock = 0;
  dbn = 0;
  status = MetaStatus.empty;
  hold_count = 0;
  ssd_index = none;
}

abbrev start : World
start = record {
  entry = unused;
  waiting = [];
  copying = [];
  dispatching = 0;
  in_flight = [];
  loaded = none;
}

abbrev claimed : World
claimed = record start {
  entry = record unused { dbn = 8; status = MetaStatus.prepare };
  dispatching = 1;
}

abbrev dispatched : World
dispatched = record claimed { dispatching = 0; in_flight = 8 ∷ [] }

abbrev ready : World
ready = record start {
  entry = record unused { dbn = 8; status = MetaStatus.valid; prepare_lock = 1 };
  loaded = some 8;
}

abbrev entered : World
entered = record ready { entry = record ready.entry { hold_count = 1 }; waiting = 8 ∷ [] }

abbrev reading : World
reading = record entered { waiting = []; copying = 8 ∷ [] }

start-claimed : Step start claimed
unfolding claim
start-claimed = Step.claims start 8 claimed.entry refl

claimed-dispatched : Step claimed dispatched
claimed-dispatched = Step.dispatches claimed 0 refl

dispatched-ready : Step dispatched ready
unfolding io_callback
dispatched-ready = Step.completes dispatched 0 8 [] [] refl

ready-entered : Step ready entered
unfolding hold
ready-entered = Step.enters ready 8 entered.entry refl

entered-reading : Step entered reading
entered-reading = Step.passes entered 8 [] [] refl refl

start-reading : Steps start reading
start-reading = Steps.goes start claimed reading start-claimed (
    Steps.goes claimed dispatched reading claimed-dispatched (
      Steps.goes dispatched ready reading dispatched-ready (
        Steps.goes ready entered reading ready-entered
          (Steps.goes entered reading reading entered-reading (Steps.stays reading)))))

copying-loaded_example :
    (reading.loaded ≡ some 8) × (reading.in_flight ≡ []) × (reading.entry.status ≡ MetaStatus.valid)
copying-loaded_example =
    copying-loaded start reading 8 (refl, refl, refl, refl, refl, refl) start-reading (inl refl)

entered-IsSafe : IsSafe entered
entered-IsSafe = record {
  held = refl;
  wanted = (refl, tt);
  copied = tt;
  alone = refl;
  flown = tt;
  filled = λ t. refl;
  stable = λ p. refl;
}
