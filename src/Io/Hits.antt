-- ===== src/Io/Hits.antt =====
-- Hits (src/flashcache_main.c): flashcache_read_hit and flashcache_write_hit answer the request, now or
-- by an I/O that is in progress.
use flashcache_ubuntu_xenial.Prelude.{
  ℕ, ◌/◌, ◌≡◌, refl, sym, ap, subst, ◌∙◌, inl, inr, true, ◌||◌, arith, Option, some, if◌then◌else◌,
  if-true, if-false, if-eq, Bool-cases, ◌>>=◌, guard-true, bind-some, List, [], ◌∷◌, ◌++◌,
}
use flashcache_ubuntu_xenial.Device.{CacheBlock, CacheState}
use flashcache_ubuntu_xenial.Main.Lookup.{is_write_back}
use flashcache_ubuntu_xenial.Io.Jobs.{
  Driver, Bio, Action, Effect, emit, block, state_of, set_state, can_alloc, after_alloc, inc_jobs,
}
use flashcache_ubuntu_xenial.Io.Finish.{is_write_through}
use flashcache_ubuntu_xenial.Io.Request.{is_quiet, read_hit, write_hit, start_write}
use flashcache_ubuntu_xenial.Io.Waiting.{waiting}
use flashcache_ubuntu_xenial.Io.Held.{
  IsHeld, io_for, HasRoom, Answered, quiet-empty, wait_or_fail-Answered, fail_hit-Answered,
  started-Answered, both_tests,
}

-- If requests wait only for blocks with I/O in progress and are counted, and the counters have room
-- for one more, a read hit returns and that is still so: on a block without I/O its read of the
-- cache is started, on a busy one the request joins the end of the block's queue, or, if memory is
-- short, the request is ended with an error and the queue is as before.
pub read_hit-Answered :
    (x : Driver) (bio : Bio) (i : ℕ)
    → IsHeld x i
    → HasRoom x i
    → Answered [] x (read_hit x bio i) bio i Action.read_cache
unfolding read_hit
read_hit-Answered x bio i h room =
    let s : CacheState = record (state_of x i) { cache_read_in_prog = true } in
    let y : Driver = set_state (after_alloc x) i s in
    let here : block y i ≡ record (block x i) { cache_state = s } = if-eq i i _ _ refl in
    let n = λ (e : is_quiet x i ≡ true).
      ap (λ (c : CacheBlock). c.nr_queued) here ∙ (quiet-empty x i h e).1 in
    both_tests good (is_quiet x i) (can_alloc x)
      (λ q. wait_or_fail-Answered [] x bio i Action.read_cache h room q)
      (λ q t.
        started-Answered x _ bio i [] Action.read_cache s h q here (ground arith) refl refl refl)
      (λ q f. fail_hit-Answered x y bio i [] Action.read_cache h q f (n q) refl refl refl)
  where
    good : Option Driver → Type 0
    good r = Answered [] x r bio i Action.read_cache

-- What a write hit asks for besides its I/O: in write back mode, more cleaning of the set.
abbrev pub cleaning : Driver → ℕ → List Effect
cleaning x i =
    if is_write_back x.dmc.cache_mode then Effect.clean_set (i / x.dmc.assoc) 0 ∷ [] else []

-- The same for a write hit, in write back and in write through mode: its write of the cache, and in
-- write through mode of the disk too, is started, and in write back mode a cleaning of the set is
-- asked for, or the request joins the block's queue, or it is ended with an error.
pub write_hit-Answered :
    (x : Driver) (bio : Bio) (i : ℕ)
    → IsHeld x i
    → HasRoom x i
    → (is_write_back x.dmc.cache_mode || is_write_through x.dmc.cache_mode) ≡ true
    → Answered (cleaning x i) x (write_hit x bio i) bio i Action.write_cache
unfolding write_hit start_write
write_hit-Answered x bio i h room m =
    let s : CacheState = record (state_of x i) { cache_write_in_prog = true } in
    let y : Driver = set_state (after_alloc x) i s in
    let here : block y i ≡ record (block x i) { cache_state = s } = if-eq i i _ _ refl in
    let n = λ (e : is_quiet x i ≡ true).
      ap (λ (c : CacheBlock). c.nr_queued) here ∙ (quiet-empty x i h e).1 in
    both_tests good (is_quiet x i) (can_alloc x)
      (λ q. wait_or_fail-Answered (cleaning x i) x bio i Action.write_cache h room q)
      (λ q t. started q)
      (λ q f.
        fail_hit-Answered x y bio i (cleaning x i) Action.write_cache h q f (n q) refl refl refl)
  where
    good : Option Driver → Type 0
    good r = Answered (cleaning x i) x r bio i Action.write_cache

    s : CacheState
    s = record (state_of x i) { cache_write_in_prog = true }

    z : Driver
    z = emit (inc_jobs (set_state (after_alloc x) i s)) (io_for x bio i Action.write_cache)

    -- The state with the cleaning asked for, or without.
    answer :
        (y : Driver)
        → is_quiet x i ≡ true
        → block y i ≡ block z i
        → waiting y i ≡ waiting z i
        → y.log ≡ cleaning x i ++ z.log
        → y.dmc.pending_jobs_count ≡ x.dmc.pending_jobs_count
        → Answered (cleaning x i) x (some y) bio i Action.write_cache
    answer y q b w l c =
        started-Answered x y bio i (cleaning x i) Action.write_cache s h q (b ∙ if-eq i i _ _ refl)
          (ground arith) w l c

    started :
        is_quiet x i ≡ true
        → good (
            start_write (set_state (after_alloc x) i s) bio i >>= λ y. some (
              if is_write_back y.dmc.cache_mode
              then emit y (Effect.clean_set (i / y.dmc.assoc) 0)
              else y))
    started q =
        subst good (sym (bind-some _ _ z _ (guard-true _ _ _ m refl) refl))
          (elim (Bool-cases (is_write_back x.dmc.cache_mode)) [
            | inl t ↦ subst good (sym (ap some (if-true _ _ _ t))) (
                answer (emit z (Effect.clean_set (i / x.dmc.assoc) 0)) q refl refl
                  (ap (λ (k : List Effect). k ++ z.log) (sym (if-true _ _ _ t))) refl)
            | inr f ↦ subst good (sym (ap some (if-false _ _ _ f))) (
                answer z q refl refl (ap (λ (k : List Effect). k ++ z.log) (sym (if-false _ _ _ f)))
                  refl)
          ])
