-- ===== src/Io/Failing.antt =====
-- flashcache_free_pending_jobs (src/flashcache_main.c): every request that waits for a block is ended.
use flashcache_ubuntu_xenial.Prelude.{
  ℕ, suc, ◌-◌, ◌^◌, ◌<◌, ◌≡◌, ◌≢◌, refl, sym, ap, ◌∙◌, Bool, arith, some, ◌==◌, if-eq, if-ne, List,
  [], ◌∷◌, length, guard-true, bind-some,
}
use flashcache_ubuntu_xenial.Device.{CacheBlock}
use flashcache_ubuntu_xenial.Io.Jobs.{
  Driver, PendingJob, Effect, emit, block, put_nr_queued, count_out, fail_jobs, free_pending_jobs,
  has_queued,
}
use flashcache_ubuntu_xenial.Io.Waiting.{
  AtLeast, waiting, take_all, dequeued, deq_pending-dequeued, dequeued-take_all,
}

-- `nr_queued` of a block is the length of its queue, and the counters hold it.
pub record IsCounted (x : Driver) (i : ℕ) : Type 0 where
  pub nr_is : (block x i).nr_queued ≡ length (waiting x i)
  pub is_small : length (waiting x i) < 2 ^ 15
  pub is_within : AtLeast x.dmc.pending_jobs_count (length (waiting x i))

-- The ends of requests, in order, on top of a log.
abbrev pub ends : Bool → List PendingJob → List Effect → List Effect
ends error [] log = log
ends error (job ∷ jobs) log = ends error jobs (Effect.end_io job.bio error ∷ log)

-- A block but for its count.
abbrev pub uncounted : CacheBlock → CacheBlock
uncounted b = record b { nr_queued = 0 }

-- Two states that differ in the count of a block and in the log alone.
pub record SameButCount (i : ℕ) (x y : Driver) : Type 0 where
  pub block_same : uncounted (block y i) ≡ uncounted (block x i)
  pub others_same : (k : ℕ) → k ≢ i → block y k ≡ block x k
  pub rest_same : record y { dmc = record y.dmc { cache = x.dmc.cache }; log = x.log } ≡ x

pub put_nr_queued-here :
    (x : Driver) (i v : ℕ) → block (put_nr_queued x i v) i ≡ record (block x i) { nr_queued = v }
put_nr_queued-here x i v = if-eq i i _ _ refl

-- The turns of a loop that counts out one job each.
pub count_out-some :
    (x : Driver) (i n : ℕ)
    → (block x i).nr_queued ≡ suc n
    → suc n < 2 ^ 15
    → count_out x i ≡ some (put_nr_queued x i n)
count_out-some x i n e l =
    let v : (block x i).nr_queued - 1 ≡ n = omega (arith, e) in
    guard-true (has_queued x i) _ _ (rw e (ground (arith, l)))
      (ap (λ t. some (put_nr_queued x i t)) v)

fail_jobs-ends :
    (error : Bool) (jobs : List PendingJob) (x : Driver) (i : ℕ)
    → (block x i).nr_queued ≡ length jobs
    → length jobs < 2 ^ 15
    → (y : Driver) × (fail_jobs x i error jobs ≡ some y)
      × ((block y i).nr_queued ≡ 0)
      × (y.log ≡ ends error jobs x.log)
      × SameButCount i x y
unfolding fail_jobs
fail_jobs-ends error [] x i e l =
    (x, refl, e, refl, record { block_same = refl; others_same = λ k ne. refl; rest_same = refl })
fail_jobs-ends error (job ∷ jobs) x i e l =
    let n = length jobs in
    let x1 : Driver = emit (put_nr_queued x i n) (Effect.end_io job.bio error) in
    let (y, ey, z, g, s) =
      fail_jobs-ends error jobs x1 i
        (ap (λ (b : CacheBlock). b.nr_queued) (put_nr_queued-here x i n)) (omega (arith, l)) in
    (
      y,
      bind-some _ _ _ _ (count_out-some x i n e l) ey,
      z,
      g,
      record {
        block_same = s.block_same ∙ ap uncounted (put_nr_queued-here x i n);
        others_same = λ k ne. s.others_same k ne ∙ if-ne i k _ (block x k) (λ h. ne (sym h));
        rest_same =
            ap
              (λ (d : Driver). record d { dmc = record d.dmc { cache = x.dmc.cache }; log = x.log })
              s.rest_same;
      },
    )

-- The state after every request that waits for a block is ended.
pub record IsDrained (error : Bool) (i : ℕ) (x y : Driver) : Type 0 where
  pub log_is : y.log ≡ ends error (waiting x i) x.log
  pub none_left : (block y i).nr_queued ≡ 0
  pub waiting_is : (k : ℕ) → waiting y k ≡ take_all (waiting x) i k
  pub block_same : uncounted (block y i) ≡ uncounted (block x i)
  pub others_same : (k : ℕ) → k ≢ i → block y k ≡ block x k
  pub count_is : y.dmc.pending_jobs_count ≡ x.dmc.pending_jobs_count - length (waiting x i)

-- If the count of the block is the length of its queue, which fits an int16_t and the device's count of
-- pending jobs, an int, flashcache_free_pending_jobs succeeds: each waiting request is ended once with
-- the given error, the oldest first, none is left, the device's count falls by as many, and no other
-- queue and no other block changes.
pub free_pending_jobs-IsDrained :
    (x : Driver) (i : ℕ) (error : Bool)
    → IsCounted x i
    → (y : Driver) × (free_pending_jobs x i error ≡ some y) × IsDrained error i x y
unfolding free_pending_jobs
free_pending_jobs-IsDrained x i error c =
    let x1 : Driver = dequeued x i in
    let (y, ey, z, g, s) = fail_jobs-ends error (waiting x i) x1 i c.nr_is c.is_small in
    (
      y,
      bind-some _ _ _ _ (deq_pending-dequeued x i c.is_within)
          (bind-some _ _ _ _ ey (guard-true ((block y i).nr_queued == 0) _ _ (rw z refl) refl)),
      record {
        log_is = g;
        none_left = z;
        waiting_is = λ k. ap (λ (d : Driver). waiting d k) s.rest_same ∙ dequeued-take_all x i k;
        block_same = s.block_same;
        others_same = s.others_same;
        count_is = ap (λ (d : Driver). d.dmc.pending_jobs_count) s.rest_same;
      },
    )
