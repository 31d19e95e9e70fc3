-- ===== src/Io/Relaunching.antt =====
-- flashcache_do_pending_error outside write back mode (src/flashcache_main.c): the failed request and
-- those that wait for its block go to the disk.
use flashcache_ubuntu_xenial.Prelude.{
  ℕ, ◌+◌, ◌^◌, ◌<◌, ◌≡◌, ◌≢◌, refl, sym, ap, subst, ◌∙◌, inl, inr, Bool, true, false, not, arith,
  some, if◌then◌else◌, if-ne, if-true, if-false, Bool-cases, guard-true, bind-some, List, [], ◌∷◌,
  length,
}
use flashcache_ubuntu_xenial.Device.{CacheBlock, is_invalid}
use flashcache_ubuntu_xenial.Main.Lookup.{is_write_back}
use flashcache_ubuntu_xenial.Subr.Frame.{without_links}
use flashcache_ubuntu_xenial.Io.Jobs.{
  Driver, Bio, Action, PendingJob, Effect, block, state_of, with_dmc, put_nr_queued,
  start_uncached_io, can_alloc,
}
use flashcache_ubuntu_xenial.Io.Finish.{do_pending_error, answer_pending, count_jobs, relaunch}
use flashcache_ubuntu_xenial.Io.Waiting.{
  AtLeast, waiting, take_all, dequeued, deq_pending-dequeued, dequeued-take_all,
}
use flashcache_ubuntu_xenial.Io.Failing.{
  IsCounted, SameButCount, uncounted, count_out-some, put_nr_queued-here,
}
use flashcache_ubuntu_xenial.Io.Giving.{IsClean, give_up-IsGivenUp}

-- Requests that are sent to the disk in order, on top of a log: from the allocation `n` on, each takes
-- one, and one that gets none is ended with an error.
abbrev pub sent : (ℕ → Bool) → ℕ → List Bio → List Effect → List Effect
sent allocs n [] log = log
sent allocs n (bio ∷ bios) log =
    sent allocs (n + 1) bios
      ((if allocs n then Effect.start_uncached bio else Effect.end_io bio true) ∷ log)

abbrev pub bios_of : List PendingJob → List Bio
bios_of [] = []
bios_of (job ∷ jobs) = job.bio ∷ bios_of jobs

-- What sending a request does.
record IsSent (bio : Bio) (x y : Driver) : Type 0 where
  log_is :
      y.log
      ≡ (if x.allocs x.nr_allocs then Effect.start_uncached bio else Effect.end_io bio true) ∷ x.log
  allocs_is : y.allocs ≡ x.allocs
  nr_is : y.nr_allocs ≡ x.nr_allocs + 1
  cache_is : y.dmc.cache ≡ x.dmc.cache
  jobs_is : y.pending_job_hashbuckets ≡ x.pending_job_hashbuckets

start_uncached_io-IsSent : (x : Driver) (bio : Bio) → IsSent bio x (start_uncached_io x bio)
unfolding start_uncached_io
start_uncached_io-IsSent x bio = elim (Bool-cases (can_alloc x)) [
  | inl t ↦ subst (IsSent bio x) (sym (if-true _ _ _ t)) (record {
    log_is = ap (λ e. e ∷ x.log) (sym (if-true _ _ _ t));
    allocs_is = refl;
    nr_is = refl;
    cache_is = refl;
    jobs_is = refl;
  })
  | inr f ↦ subst (IsSent bio x) (sym (if-false _ _ _ f)) (record {
    log_is = ap (λ e. e ∷ x.log) (sym (if-false _ _ _ f));
    allocs_is = refl;
    nr_is = refl;
    cache_is = refl;
    jobs_is = refl;
  })
]

-- What sending the requests of a list does.
record IsAllSent (bios : List Bio) (x y : Driver) : Type 0 where
  log_is : y.log ≡ sent x.allocs x.nr_allocs bios x.log
  cache_is : y.dmc.cache ≡ x.dmc.cache
  jobs_is : y.pending_job_hashbuckets ≡ x.pending_job_hashbuckets

AllSent-first :
    (bio : Bio) (bios : List Bio) (x y z : Driver)
    → IsSent bio x y
    → IsAllSent bios y z
    → IsAllSent (bio ∷ bios) x z
AllSent-first bio bios x y z s a = record {
  log_is =
      a.log_is
      ∙ ap (λ k. sent k y.nr_allocs bios y.log) s.allocs_is
      ∙ ap (λ k. sent x.allocs k bios y.log) s.nr_is
      ∙ ap (λ k. sent x.allocs (x.nr_allocs + 1) bios k) s.log_is;
  cache_is = a.cache_is ∙ s.cache_is;
  jobs_is = a.jobs_is ∙ s.jobs_is;
}

relaunch-IsAllSent :
    (jobs : List PendingJob) (x : Driver) → IsAllSent (bios_of jobs) x (relaunch x jobs)
unfolding relaunch
relaunch-IsAllSent [] x = record { log_is = refl; cache_is = refl; jobs_is = refl }
relaunch-IsAllSent (job ∷ jobs) x =
    AllSent-first job.bio (bios_of jobs) x (start_uncached_io x job.bio) _
      (start_uncached_io-IsSent x job.bio) (relaunch-IsAllSent jobs (start_uncached_io x job.bio))

count_jobs-SameButCount :
    (jobs : List PendingJob) (x : Driver) (i : ℕ)
    → (block x i).nr_queued ≡ length jobs
    → length jobs < 2 ^ 15
    → (y : Driver) × (count_jobs x i jobs ≡ some y)
      × ((block y i).nr_queued ≡ 0)
      × (y.log ≡ x.log)
      × SameButCount i x y
unfolding count_jobs
count_jobs-SameButCount [] x i e l =
    (x, refl, e, refl, record { block_same = refl; others_same = λ k ne. refl; rest_same = refl })
count_jobs-SameButCount (job ∷ jobs) x i e l =
    let n = length jobs in
    let x1 : Driver = put_nr_queued x i n in
    let here = put_nr_queued-here x i n in
    let (y, ey, z, g, s) =
      count_jobs-SameButCount jobs x1 i (ap (λ (b : CacheBlock). b.nr_queued) here)
        (omega (arith, l)) in
    (
      y,
      bind-some _ _ _ _ (count_out-some x i n e l) ey,
      z,
      g,
      record {
        block_same = s.block_same ∙ ap uncounted here;
        others_same = λ k ne. s.others_same k ne ∙ if-ne i k _ (block x k) (λ h. ne (sym h));
        rest_same =
            ap
              (λ (d : Driver). record d { dmc = record d.dmc { cache = x.dmc.cache }; log = x.log })
              s.rest_same;
      },
    )

-- The state after an error of the cache device on a clean block.
pub record IsRelaunched (bio : Bio) (i : ℕ) (x y : Driver) : Type 0 where
  pub log_is : y.log ≡ sent x.allocs x.nr_allocs (bio ∷ bios_of (waiting x i)) x.log
  pub gone : is_invalid (state_of y i) ≡ true
  pub none_left : (block y i).nr_queued ≡ 0
  pub waiting_is : (k : ℕ) → waiting y k ≡ take_all (waiting x) i k
  pub others_same : (k : ℕ) → k ≢ i → without_links (block y k) ≡ without_links (block x k)

-- Outside write back mode, an error of the cache device on a clean block of the cache whose queue is
-- counted is dealt with: no assertion fails, the block becomes invalid, the failed request and then
-- each request that waits for the block, the oldest first, is sent to the disk, or ended with an
-- error for want of memory, and none is left waiting; no other queue changes, nor any other block
-- but for its hash links.
pub do_pending_error-IsRelaunched :
    (jhash_1word : ℕ → ℕ → ℕ) (x : Driver) (bio : Bio) (i : ℕ) (action : Action)
    → is_write_back x.dmc.cache_mode ≡ false
    → i < x.dmc.size
    → IsClean (state_of x i)
    → IsCounted x i
    → (y : Driver) × (do_pending_error jhash_1word x
          (record { bio = some bio; index = i; action = action; error = true })
        ≡ some y)
      × IsRelaunched bio i x y
unfolding do_pending_error answer_pending
do_pending_error-IsRelaunched jhash x bio i action wb l clean c =
    let (d, ed, g) = give_up-IsGivenUp jhash x.dmc i l clean in
    let x1 : Driver = with_dmc x d in
    let mode : not (is_write_back d.cache_mode) ≡ true =
      ap (λ m. not (is_write_back m)) g.mode_same ∙ ap not wb in
    let within : AtLeast d.pending_jobs_count (length (waiting x i)) =
      omega (arith, g.count_same, c.is_within) in
    let x2 : Driver = dequeued x1 i in
    let (z, ez, none_left, zl, s) =
      count_jobs-SameButCount (waiting x i) x2 i (g.queued_same ∙ c.nr_is) c.is_small in
    let r = start_uncached_io z bio in
    let y : Driver = relaunch r (waiting x i) in
    let a =
      AllSent-first bio (bios_of (waiting x i)) z r y (start_uncached_io-IsSent z bio)
        (relaunch-IsAllSent (waiting x i) r) in
    let alike = s.rest_same in
    (
      _,
      bind-some _ _ d _ ed (
          bind-some _ _ y _
            (guard-true _ _ _ mode (
              bind-some _ _ _ _ (deq_pending-dequeued x1 i within)
                (bind-some _ _ z _ ez (guard-true _ _ _ (rw none_left refl) refl))))
            refl),
      record {
        log_is =
            a.log_is
            ∙ ap (λ k. sent k z.nr_allocs (bio ∷ bios_of (waiting x i)) z.log)
                (ap (λ (w : Driver). w.allocs) alike)
            ∙ ap (λ k. sent x.allocs k (bio ∷ bios_of (waiting x i)) z.log)
                (ap (λ (w : Driver). w.nr_allocs) alike)
            ∙ ap (sent x.allocs x.nr_allocs (bio ∷ bios_of (waiting x i))) zl;
        gone =
            ap (λ k. is_invalid (k i).cache_state) a.cache_is
            ∙ ap (λ (b : CacheBlock). is_invalid b.cache_state) s.block_same
            ∙ g.gone;
        none_left = ap (λ k. (k i).nr_queued) a.cache_is ∙ none_left;
        waiting_is = λ k.
            ap (λ (t : ℕ → List PendingJob). waiting (record x { pending_job_hashbuckets = t }) k)
              (a.jobs_is ∙ ap (λ (w : Driver). w.pending_job_hashbuckets) alike)
            ∙ dequeued-take_all x i k;
        others_same = λ k ne.
            ap (λ t. without_links (t k)) a.cache_is
            ∙ ap without_links (s.others_same k ne)
            ∙ g.others_same k ne;
      },
    )
