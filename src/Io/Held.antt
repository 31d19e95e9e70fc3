-- ===== src/Io/Held.antt =====
-- Requests that wait for a busy block (src/flashcache_main.c): what a hit does on each of its branches.
use flashcache_ubuntu_xenial.Prelude.{
  ℕ, ◌+◌, ◌%◌, ◌^◌, ◌<◌, ◌≡◌, ◌⊎◌, refl, sym, ap, subst, ◌∙◌, inl, inr, Bool, true, false, arith,
  Option, some, if◌then◌else◌, if-true, if-false, if-eq, Bool-cases, bind-some, List, [], ◌∷◌, ◌++◌,
  length, length-append,
}
use flashcache_ubuntu_xenial.Device.{CacheBlock, CacheMode, CacheState, u16, block_io_in_prog}
use flashcache_ubuntu_xenial.Main.Lookup.{is_write_back}
use flashcache_ubuntu_xenial.Io.Jobs.{
  Driver, Bio, Direction, Region, Action, PendingJob, Effect, emit, block, state_of, set_state,
  idle, can_alloc, after_alloc, enq_pending,
}
use flashcache_ubuntu_xenial.Io.Request.{is_quiet, job_for, wait_or_fail, fail_hit}
use flashcache_ubuntu_xenial.Io.Waiting.{waiting, enq_pending-push_last}
use flashcache_ubuntu_xenial.Io.Failing.{IsCounted, ends, free_pending_jobs-IsDrained}

-- Requests wait for a block only while an I/O of the block is in progress, whose end will see them;
-- and they are counted.
pub record IsHeld (x : Driver) (i : ℕ) : Type 0 where
  pub counted : IsCounted x i
  pub held : ((block x i).nr_queued ≡ 0) ⊎ (block_io_in_prog (state_of x i) ≡ true)

-- One more request can be counted.
abbrev pub HasRoom : Driver → ℕ → Type 0
HasRoom x i = (length (waiting x i) + 1 < 2 ^ 15) × (x.dmc.pending_jobs_count + 1 < 2 ^ 31)

-- Where the I/O of an action goes: a write to the cache goes to the disk too, unless in write back mode.
abbrev pub region_of : CacheMode → Action → Region
region_of mode Action.read_cache = Region.cache
region_of mode Action.read_fill = Region.cache
region_of mode Action.write_cache = if is_write_back mode then Region.cache else Region.both
region_of mode Action.read_disk = Region.disk
region_of mode Action.write_disk = Region.disk
region_of mode Action.invalidate = Region.disk
region_of mode Action.write_disk_sync = Region.disk

abbrev pub direction_of : Action → Direction
direction_of Action.read_cache = Direction.read
direction_of Action.read_disk = Direction.read
direction_of Action.read_fill = Direction.write
direction_of Action.write_cache = Direction.write
direction_of Action.write_disk = Direction.write
direction_of Action.invalidate = Direction.write
direction_of Action.write_disk_sync = Direction.write

-- The I/O that is started for a request.
abbrev pub io_for : Driver → Bio → ℕ → Action → Effect
io_for x bio i action =
    Effect.start_io (region_of x.dmc.cache_mode action) (direction_of action) (job_for bio i action)

-- The three ways in which a hit is answered: its I/O is started, it waits for the I/O of the block, or
-- it is ended with an error for want of memory.
abbrev pub Started : List Effect → Driver → Driver → Bio → ℕ → Action → Type 0
Started more x y bio i action =
    (y.log ≡ more ++ io_for x bio i action ∷ x.log)
    × (block_io_in_prog (state_of x i) ≡ false)
    × (block_io_in_prog (state_of y i) ≡ true)

abbrev pub Waits : Driver → Driver → Bio → ℕ → Action → Type 0
Waits x y bio i action =
    (y.log ≡ x.log)
    × (block_io_in_prog (state_of x i) ≡ true)
    × (waiting y i ≡ waiting x i ++ record { bio = bio; action = action; index = i } ∷ [])

abbrev pub Failed : Driver → Driver → Bio → ℕ → Type 0
Failed x y bio i =
    (y.log ≡ Effect.end_io bio true ∷ x.log)
    × (can_alloc x ≡ false)
    × (waiting y i ≡ waiting x i)
    × (block_io_in_prog (state_of y i) ≡ block_io_in_prog (state_of x i))

abbrev pub Answered : List Effect → Driver → Option Driver → Bio → ℕ → Action → Type 0
Answered more x r bio i action =
    (y : Driver) × (r ≡ some y)
    × IsHeld y i
    × (Started more x y bio i action ⊎ (Waits x y bio i action ⊎ Failed x y bio i))

-- A state with the same block, queue and counter.
like-IsHeld :
    (x y : Driver) (i : ℕ)
    → block y i ≡ block x i
    → waiting y i ≡ waiting x i
    → y.dmc.pending_jobs_count ≡ x.dmc.pending_jobs_count
    → IsHeld x i
    → IsHeld y i
like-IsHeld x y i b w c h = record {
  counted = record {
    nr_is = ap (λ (k : CacheBlock). k.nr_queued) b ∙ h.counted.nr_is ∙ ap length (sym w);
    is_small = rw w h.counted.is_small;
    is_within = rw (w, c) h.counted.is_within;
  };
  held =
      subst (λ (k : CacheBlock). (k.nr_queued ≡ 0) ⊎ (block_io_in_prog k.cache_state ≡ true))
        (sym b) h.held;
}

-- A block without requests that wait.
empty-IsHeld :
    (x : Driver) (i : ℕ)
    → (block x i).nr_queued ≡ 0
    → waiting x i ≡ []
    → x.dmc.pending_jobs_count < 2 ^ 31
    → IsHeld x i
empty-IsHeld x i n w c = record {
  counted = record {
    nr_is = n ∙ ap length (sym w);
    is_small = rw w (omega arith);
    is_within = rw w (omega (arith, c));
  };
  held = inl n;
}

empty_of_length : (js : List PendingJob) → length js ≡ 0 → js ≡ []
empty_of_length [] e = refl
empty_of_length (j ∷ js) e = absurd (omega (arith, e))

-- A busy block is one with an I/O in progress.
busy-in_prog :
    (x : Driver) (i : ℕ)
    → IsHeld x i
    → is_quiet x i ≡ false
    → block_io_in_prog (state_of x i) ≡ true
busy-in_prog x i h q = elim h.held [ inl z ↦ ground (arith, q, z) | inr b ↦ b ]

-- A request that is enqueued on a busy block.
enqueued-IsHeld :
    (x : Driver) (bio : Bio) (i : ℕ) (action : Action)
    → IsHeld x i
    → HasRoom x i
    → block_io_in_prog (state_of x i) ≡ true
    → IsHeld (enq_pending x bio i action) i
      × (waiting (enq_pending x bio i action) i
          ≡ waiting x i ++ record { bio = bio; action = action; index = i } ∷ [])
unfolding enq_pending
enqueued-IsHeld x bio i action h (small, room) b =
    let job : PendingJob = record { bio = bio; action = action; index = i } in
    let y : Driver = enq_pending x bio i action in
    let n : ℕ = length (waiting x i) in
    let w : waiting y i ≡ waiting x i ++ job ∷ [] =
      enq_pending-push_last x bio i action i ∙ if-eq i i _ _ refl in
    let longer : length (waiting y i) ≡ n + 1 =
      ap length w ∙ length-append (waiting x i) (job ∷ []) in
    let here : block y i ≡ record (block x i) { nr_queued = ((block x i).nr_queued + 1) % u16 } =
      if-eq i i _ _ refl in
    let nr : (block y i).nr_queued ≡ n + 1 =
      ap (λ (c : CacheBlock). c.nr_queued) here ∙ omega (arith, h.counted.nr_is, small) in
    (
      record {
        counted = record {
          nr_is = nr ∙ sym longer;
          is_small = omega (arith, longer, small);
          is_within = omega (arith, longer, room, h.counted.is_within);
        };
        held = inr (ap (λ (c : CacheBlock). block_io_in_prog c.cache_state) here ∙ b);
      },
      w,
    )

pub wait_or_fail-Answered :
    (more : List Effect) (x : Driver) (bio : Bio) (i : ℕ) (action : Action)
    → IsHeld x i
    → HasRoom x i
    → is_quiet x i ≡ false
    → Answered more x (some (wait_or_fail x bio i action)) bio i action
unfolding wait_or_fail enq_pending
wait_or_fail-Answered more x bio i action h room q =
    let b = busy-in_prog x i h q in
    elim (Bool-cases (can_alloc x)) [
      | inl t ↦
          let (held, w) =
            enqueued-IsHeld (after_alloc x) bio i action
              (like-IsHeld x (after_alloc x) i refl refl refl h) room b in
          (
            enq_pending (after_alloc x) bio i action,
            ap some (if-true _ _ _ t),
            held,
            inr (inl (refl, b, w)),
          )
      | inr f ↦ (
        emit (after_alloc x) (Effect.end_io bio true),
        ap some (if-false _ _ _ f),
        like-IsHeld x (emit (after_alloc x) (Effect.end_io bio true)) i refl refl refl h,
        inr (inr (refl, f, refl, refl)),
      )
    ]

-- A quiet block has no request that waits.
pub quiet-empty :
    (x : Driver) (i : ℕ)
    → IsHeld x i
    → is_quiet x i ≡ true
    → (waiting x i ≡ []) × ((block x i).nr_queued ≡ 0) × (block_io_in_prog (state_of x i) ≡ false)
quiet-empty x i h q =
    let z : (block x i).nr_queued ≡ 0 = ground (arith, q) in
    (empty_of_length (waiting x i) (sym h.counted.nr_is ∙ z), z, ground (arith, q))

-- A state with the same queue and an empty count, whose block an I/O marks.
module _ (x y : Driver) (bio : Bio) (i : ℕ) (more : List Effect) (action : Action) where
  pub fail_hit-Answered :
      IsHeld x i
      → is_quiet x i ≡ true
      → can_alloc x ≡ false
      → (block y i).nr_queued ≡ 0
      → waiting y i ≡ waiting x i
      → y.log ≡ x.log
      → y.dmc.pending_jobs_count ≡ x.dmc.pending_jobs_count
      → Answered more x (fail_hit y bio i) bio i action
  unfolding fail_hit
  fail_hit-Answered h q f n w l c =
      let (w0, z0, b0) = quiet-empty x i h q in
      let y1 : Driver = emit y (Effect.end_io bio true) in
      let e1 : waiting y1 i ≡ [] = w ∙ w0 in
      let few : y.dmc.pending_jobs_count < 2 ^ 31 = omega (arith, c, h.counted.is_within) in
      let (z, ez, d) = free_pending_jobs-IsDrained y1 i true (empty-IsHeld y1 i n e1 few).counted in
      let r : Driver = set_state z i (idle (state_of z i)) in
      let here : block r i ≡ record (block z i) { cache_state = idle (state_of z i) } =
        if-eq i i _ _ refl in
      let wz : waiting r i ≡ [] = d.waiting_is i ∙ if-eq i i [] (waiting y1 i) refl in
      let idle_now : block_io_in_prog (state_of r i) ≡ false =
        ap (λ (c : CacheBlock). block_io_in_prog c.cache_state) here in
      (
        r,
        bind-some _ _ _ _ ez refl,
        empty-IsHeld r i (ap (λ (c : CacheBlock). c.nr_queued) here ∙ d.none_left) wz
            (omega (arith, few, d.count_is)),
        inr (
            inr (
              d.log_is
                  ∙ ap (λ js. ends true js (Effect.end_io bio true ∷ y.log)) e1
                  ∙ ap (λ k. Effect.end_io bio true ∷ k) l,
              f,
              wz ∙ sym w0,
              idle_now ∙ sym b0,
            )),
      )

  -- The same with the I/O started.
  pub started-Answered :
      (s : CacheState)
      → IsHeld x i
      → is_quiet x i ≡ true
      → block y i ≡ record (block x i) { cache_state = s }
      → block_io_in_prog s ≡ true
      → waiting y i ≡ waiting x i
      → y.log ≡ more ++ io_for x bio i action ∷ x.log
      → y.dmc.pending_jobs_count ≡ x.dmc.pending_jobs_count
      → Answered more x (some y) bio i action
  started-Answered s h q here b w l c =
      let (w0, z0, b0) = quiet-empty x i h q in
      (
        y,
        refl,
        empty-IsHeld y i (ap (λ (c : CacheBlock). c.nr_queued) here ∙ z0) (w ∙ w0)
            (omega (arith, c, h.counted.is_within)),
        inl (l, b0, ap (λ (c : CacheBlock). block_io_in_prog c.cache_state) here ∙ b),
      )

pub both_tests {ℓ κ} :
    {A : Type ℓ} (P : A → Type κ) (b c : Bool) {a1 a2 a3 : A}
    → (b ≡ false → P a3)
    → (b ≡ true → c ≡ true → P a1)
    → (b ≡ true → c ≡ false → P a2)
    → P (if b then (if c then a1 else a2) else a3)
both_tests P true true p q r = q refl refl
both_tests P true false p q r = r refl refl
both_tests P false c p q r = p refl
