-- ===== src/Wt/Ends.antt =====
-- The end of an I/O in the write-through module: flashcache_wt_io_callback
-- (flashcache-wt/src/flashcache_wt.c).
use flashcache_ubuntu_xenial.Prelude.{
  ℕ, ◌+◌, ◌%◌, ◌≡◌, ◌≢◌, refl, ap, ◌∙◌, ◌⊎◌, inl, inr, Bool, true, false, not, ◌&&◌, ◌||◌, some,
  if◌then◌else◌, if-true, if-false, if-eq, if-ne, guard-true, arith, Bool-cases, [], ◌∷◌, ◌++◌,
  sub_word,
}
use flashcache_ubuntu_xenial.Device.{u32, u64}
use flashcache_ubuntu_xenial.Wt.Cache.{
  State, is_in_prog, is_cache_read, is_in_prog_invalid, WtCache, WtBio, set_state,
}
use flashcache_ubuntu_xenial.Wt.Io.{
  Rw, WtJob, WtDriver, put_dmc, bio_endio, free_job, source_callback, read_callback, write_callback,
  io_callback,
}

-- The block of a job is in the state that the job left it in, or has been invalidated since.
abbrev pub owns : Rw → State → Bool
owns Rw.read_source s = is_in_prog s || is_in_prog_invalid s
owns Rw.write_source s = is_in_prog s || is_in_prog_invalid s
owns Rw.write_cache s = is_in_prog s || is_in_prog_invalid s
owns Rw.read_cache s = is_in_prog_invalid s || is_cache_read s
owns Rw.read_cache_done s = false
owns Rw.uncached s = false

-- The I/O has failed, or its block has been invalidated since it was started.
abbrev pub is_lost : WtDriver → Bool → WtJob → Bool
is_lost x error job = error || is_in_prog_invalid (x.dmc.cache_state job.index)

-- The request is answered once, with an error or not, the job is freed, and its block is in a state;
-- nothing else changes but the count of cached blocks.
pub record IsAnswered (x : WtDriver) (job : WtJob) (error : Bool) (s : State) (count : ℕ)
    (y : WtDriver) : Type 0 where
  pub ended : y.ended ≡ (job.bio, error) ∷ x.ended
  pub jobs : y.nr_jobs ≡ sub_word u32 x.nr_jobs 1
  pub state : y.dmc.cache_state job.index ≡ s
  pub others : (k : ℕ) → job.index ≢ k → y.dmc.cache_state k ≡ x.dmc.cache_state k
  pub sectors : y.dmc.dbn ≡ x.dmc.dbn
  pub cached : y.dmc.cached_blocks ≡ count
  pub io_jobs : y.io_jobs ≡ x.io_jobs
  pub complete_jobs : y.complete_jobs ≡ x.complete_jobs
  pub in_flight : y.in_flight ≡ x.in_flight

-- What the end of an I/O with the source does: a lost fill is given up, and its request gets the
-- error of the I/O; else the fill waits for its write to the cache and is not answered yet.
abbrev pub IsFillEnd : WtDriver → Bool → WtJob → WtDriver → Type 0
IsFillEnd x error job y =
    ((is_lost x error job ≡ true) × IsAnswered x job error State.invalid x.dmc.cached_blocks y)
    ⊎ ((is_lost x error job ≡ false)
        × (y ≡ record x { io_jobs = x.io_jobs ++ record job { rw = Rw.write_cache } ∷ [] }))

-- And of a read of the cache: its request is answered without an error, and the block is VALID again;
-- a lost read waits for its turn at the source and is not answered yet.
abbrev pub IsReadEnd : WtDriver → Bool → WtJob → WtDriver → Type 0
IsReadEnd x error job y =
    ((is_lost x error job ≡ false) × IsAnswered x job false State.valid x.dmc.cached_blocks y)
    ⊎ ((is_lost x error job ≡ true)
        × (y ≡ record x {
          complete_jobs = x.complete_jobs ++ record job { rw = Rw.read_cache_done } ∷ [];
        }))

-- And of a write of the cache: the source has the data, so that the request is answered without an
-- error in any case; a block that is not lost is VALID and counted.
abbrev pub IsWriteEnd : WtDriver → Bool → WtJob → WtDriver → Type 0
IsWriteEnd x error job y =
    ((is_lost x error job ≡ true) × IsAnswered x job false State.invalid x.dmc.cached_blocks y)
    ⊎ ((is_lost x error job ≡ false)
        × IsAnswered x job false State.valid ((x.dmc.cached_blocks + 1) % u64) y)

abbrev pub IsEnd : Rw → WtDriver → Bool → WtJob → WtDriver → Type 0
IsEnd Rw.read_source x error job y = IsFillEnd x error job y
IsEnd Rw.write_source x error job y = IsFillEnd x error job y
IsEnd Rw.read_cache x error job y = IsReadEnd x error job y
IsEnd Rw.write_cache x error job y = IsWriteEnd x error job y
IsEnd Rw.read_cache_done x error job y = ⊥
IsEnd Rw.uncached x error job y = ⊥

module _ (x : WtDriver) (error : Bool) (job : WtJob) where
  -- The block of a job that is answered.
  answered :
      (e : Bool) (s : State) (count : ℕ)
      → IsAnswered x job e s count (
          free_job (
            bio_endio
              (put_dmc x (record (set_state x.dmc job.index s) { cached_blocks = count }))
              job.bio
              e))
  answered e s count = record {
    ended = refl;
    jobs = refl;
    state = if-eq job.index job.index s (x.dmc.cache_state job.index) refl;
    others = λ k n. if-ne job.index k s (x.dmc.cache_state k) n;
    sectors = refl;
    cached = refl;
    io_jobs = refl;
    complete_jobs = refl;
    in_flight = refl;
  }

  source_callback-IsFillEnd :
      owns Rw.read_source (x.dmc.cache_state job.index) ≡ true
      → (y : WtDriver) × (source_callback x error job ≡ some y) × IsFillEnd x error job y
  source_callback-IsFillEnd o =
      let s = x.dmc.cache_state job.index in
      let bad = is_lost x error job in
      let given_up : WtDriver =
        free_job (bio_endio (put_dmc x (set_state x.dmc job.index State.invalid)) job.bio error) in
      let queued : WtDriver = record x {
        io_jobs = x.io_jobs ++ record job { rw = Rw.write_cache } ∷ [];
      } in
      let out = some (if bad then given_up else queued) in
      let run = guard-true (is_in_prog s || is_in_prog_invalid s) out out o refl in
      elim (Bool-cases bad) [
        | inl t ↦ (
          given_up,
          run ∙ ap some (if-true bad given_up queued t),
          inl (t, answered error State.invalid x.dmc.cached_blocks),
        )
        | inr t ↦ (queued, run ∙ ap some (if-false bad given_up queued t), inr (t, refl))
      ]

  read_callback-IsReadEnd :
      owns Rw.read_cache (x.dmc.cache_state job.index) ≡ true
      → (y : WtDriver) × (read_callback x error job ≡ some y) × IsReadEnd x error job y
  read_callback-IsReadEnd o =
      let s = x.dmc.cache_state job.index in
      let bad = is_lost x error job in
      let good = not (is_in_prog_invalid s) && not error in
      let done : WtDriver =
        free_job (bio_endio (put_dmc x (set_state x.dmc job.index State.valid)) job.bio false) in
      let queued : WtDriver = record x {
        complete_jobs = x.complete_jobs ++ record job { rw = Rw.read_cache_done } ∷ [];
      } in
      let out = some (if good then done else queued) in
      let run = guard-true (is_in_prog_invalid s || is_cache_read s) out out o refl in
      elim (Bool-cases bad) [
        | inl t ↦
            (queued, run ∙ ap some (if-false good done queued (ground (arith, t))), inr (t, refl))
        | inr t ↦ (
          done,
          run ∙ ap some (if-true good done queued (ground (arith, t))),
          inl (t, answered false State.valid x.dmc.cached_blocks),
        )
      ]

  write_callback-IsWriteEnd :
      owns Rw.write_cache (x.dmc.cache_state job.index) ≡ true
      → (y : WtDriver) × (write_callback x error job ≡ some y) × IsWriteEnd x error job y
  write_callback-IsWriteEnd o =
      let s = x.dmc.cache_state job.index in
      let bad = is_lost x error job in
      let lost : WtCache = set_state x.dmc job.index State.invalid in
      let kept : WtCache = record (set_state x.dmc job.index State.valid) {
        cached_blocks = (x.dmc.cached_blocks + 1) % u64;
      } in
      let end : WtCache → WtDriver = λ d. free_job (put_dmc (bio_endio x job.bio false) d) in
      let out = some (end (if bad then lost else kept)) in
      let run = guard-true (is_in_prog s || is_in_prog_invalid s) out out o refl in
      elim (Bool-cases bad) [
        | inl t ↦ (
          end lost,
          run ∙ ap (λ d. some (end d)) (if-true bad lost kept t),
          inl (t, answered false State.invalid x.dmc.cached_blocks),
        )
        | inr t ↦ (
          end kept,
          run ∙ ap (λ d. some (end d)) (if-false bad lost kept t),
          inr (t, answered false State.valid ((x.dmc.cached_blocks + 1) % u64)),
        )
      ]

-- The end of an I/O passes its assertions, if the block is in the state that the job left it in or has
-- been invalidated since. With the source, a fill that failed or was invalidated is answered with
-- the error of the I/O and its block is INVALID, and else it goes on to the write of the cache. A
-- read of the cache is answered without an error and its block is VALID, unless it failed or was
-- invalidated, when it goes back to the source unanswered. A write of the cache is answered without
-- an error, and its block is VALID and counted, or INVALID after a failure or an invalidation. No
-- other block changes.
pub io_callback-IsEnd :
    (x : WtDriver) (error : Bool) (bio : WtBio) (i : ℕ) (rw : Rw)
    → owns rw (x.dmc.cache_state i) ≡ true
    → (y : WtDriver) × (io_callback x error (record { bio = bio; index = i; rw = rw }) ≡ some y)
      × IsEnd rw x error (record { bio = bio; index = i; rw = rw }) y
unfolding io_callback
io_callback-IsEnd x error bio i Rw.read_source o =
    source_callback-IsFillEnd x error (record { bio = bio; index = i; rw = Rw.read_source }) o
io_callback-IsEnd x error bio i Rw.write_source o =
    source_callback-IsFillEnd x error (record { bio = bio; index = i; rw = Rw.write_source }) o
io_callback-IsEnd x error bio i Rw.read_cache o =
    read_callback-IsReadEnd x error (record { bio = bio; index = i; rw = Rw.read_cache }) o
io_callback-IsEnd x error bio i Rw.write_cache o =
    write_callback-IsWriteEnd x error (record { bio = bio; index = i; rw = Rw.write_cache }) o
io_callback-IsEnd x error bio i Rw.read_cache_done o = absurd (cc o)
io_callback-IsEnd x error bio i Rw.uncached o = absurd (cc o)
