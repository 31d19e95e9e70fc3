-- ===== src/Io/Waiting.antt =====
-- The requests that wait for a block (src/flashcache_subr.c): the hash buckets of pending jobs are a
-- queue for each block, whatever blocks share a bucket.
use flashcache_ubuntu_xenial.Prelude.{
  ℕ, ◌+◌, ◌-◌, ◌≤◌, ◌<◌, ◌^◌, ◌≡◌, ◌≢◌, refl, sym, ap, ◌∙◌, inl, inr, arith, some, ◌==◌,
  if◌then◌else◌, if-eq, if-ne, Bool-cases, eq-cases, List, [], ◌∷◌, ◌++◌, length, update,
  guard-true,
}
use flashcache_ubuntu_xenial.Io.Jobs.{
  Driver, Bio, Action, PendingJob, enq_pending, deq_pending, pending_job_hash,
}
use flashcache_ubuntu_xenial.Io.Queue.{jobs_of, others_of, oldest_first, split_jobs-oldest_first}

abbrev pub bucket : Driver → ℕ → List PendingJob
bucket x index = x.pending_job_hashbuckets (pending_job_hash index)

-- The abstract view: for each block its pending jobs, the oldest first.
abbrev pub waiting : Driver → ℕ → List PendingJob
waiting x index = oldest_first (jobs_of index (bucket x index)) []

-- The abstract operations.
abbrev pub push_last : (ℕ → List PendingJob) → PendingJob → ℕ → List PendingJob
push_last q job = update q job.index (q job.index ++ job ∷ [])

abbrev pub take_all : (ℕ → List PendingJob) → ℕ → ℕ → List PendingJob
take_all q index = update q index []

oldest_first-append : (xs ys : List PendingJob) → oldest_first xs ys ≡ oldest_first xs [] ++ ys
oldest_first-append [] ys = refl
oldest_first-append (x ∷ xs) ys =
    oldest_first-append xs (x ∷ ys)
    ∙ sym (append-one (oldest_first xs []) x ys)
    ∙ ap (λ (l : List PendingJob). l ++ ys) (sym (oldest_first-append xs (x ∷ [])))
  where
    append-one :
        (l : List PendingJob) (a : PendingJob) (r : List PendingJob)
        → (l ++ a ∷ []) ++ r ≡ l ++ a ∷ r
    append-one [] a r = refl
    append-one (b ∷ l) a r = ap (λ (t : List PendingJob). b ∷ t) (append-one l a r)

oldest_first-length :
    (xs ys : List PendingJob) → length (oldest_first xs ys) ≡ length xs + length ys
oldest_first-length [] ys = omega arith
oldest_first-length (x ∷ xs) ys = omega (arith, oldest_first-length xs (x ∷ ys))

jobs_of-others_of : (i : ℕ) (js : List PendingJob) → jobs_of i (others_of i js) ≡ []
jobs_of-others_of i [] = refl
jobs_of-others_of i (j ∷ js) = elim (Bool-cases (j.index == i)) [
  | inl t ↦ rw (t, jobs_of-others_of i js) refl
  | inr f ↦ rw (f, f, jobs_of-others_of i js) refl
]

jobs_of-others :
    (i k : ℕ) (js : List PendingJob) → k ≢ i → jobs_of k (others_of i js) ≡ jobs_of k js
jobs_of-others i k [] ne = refl
jobs_of-others i k (j ∷ js) ne = elim (eq-cases j.index i) [
  | inl e ↦
      ap (jobs_of k) (if-eq j.index i _ _ e)
      ∙ jobs_of-others i k js ne
      ∙ sym (if-ne j.index k (j ∷ jobs_of k js) (jobs_of k js) (λ h. ne (sym h ∙ e)))
  | inr n ↦
      ap (jobs_of k) (if-ne j.index i _ _ n)
      ∙ ap (λ (l : List PendingJob). if j.index == k then j ∷ l else l) (jobs_of-others i k js ne)
]

-- A job that is enqueued joins the end of its block's queue, and no other queue changes, also not one
-- that shares its bucket.
pub enq_pending-push_last :
    (x : Driver) (bio : Bio) (i : ℕ) (a : Action) (k : ℕ)
    → waiting (enq_pending x bio i a) k
      ≡ push_last (waiting x) (record { bio = bio; action = a; index = i }) k
unfolding enq_pending
enq_pending-push_last x bio i a k =
    let job : PendingJob = record { bio = bio; action = a; index = i } in
    let view = λ (l : List PendingJob). oldest_first (jobs_of k l) [] in
    elim (eq-cases i k) [
      | inl e ↦
          ap view (if-eq (pending_job_hash i) (pending_job_hash k) _ _ (ap pending_job_hash e))
          ∙ ap (λ (l : List PendingJob). oldest_first l []) (if-eq i k _ _ e)
          ∙ oldest_first-append (jobs_of k (bucket x i)) (job ∷ [])
          ∙ ap (λ t. oldest_first (jobs_of t (bucket x i)) [] ++ job ∷ []) (sym e)
          ∙ sym (if-eq i k _ (waiting x k) e)
      | inr n ↦
          elim (eq-cases (pending_job_hash i) (pending_job_hash k)) [
            | inl h ↦
                ap view (if-eq (pending_job_hash i) (pending_job_hash k) _ _ h)
                ∙ ap (λ (l : List PendingJob). oldest_first l []) (if-ne i k _ _ n)
                ∙ ap (λ t. view (x.pending_job_hashbuckets t)) h
            | inr h ↦ ap view (if-ne (pending_job_hash i) (pending_job_hash k) _ _ h)
          ]
          ∙ sym (if-ne i k _ (waiting x k) n)
    ]

-- The state after a block's queue is taken.
abbrev pub dequeued : Driver → ℕ → Driver
dequeued x i = record x {
  pending_job_hashbuckets =
      update x.pending_job_hashbuckets (pending_job_hash i) (others_of i (bucket x i));
  dmc = record x.dmc { pending_jobs_count = x.dmc.pending_jobs_count - length (waiting x i) };
}

-- A count that is no negative int is at least n.
abbrev pub AtLeast : ℕ → ℕ → Type 0
AtLeast count n = (n ≤ count) × (count < 2 ^ 31)

pub deq_pending-dequeued :
    (x : Driver) (i : ℕ)
    → AtLeast x.dmc.pending_jobs_count (length (waiting x i))
    → deq_pending x i ≡ some (dequeued x i, waiting x i)
unfolding deq_pending
deq_pending-dequeued x i le =
    rw (split_jobs-oldest_first i (bucket x i) []) (guard-true _ _ _ (ground (arith, le)) refl)

-- A queue that is taken is empty, and no other queue changes.
pub dequeued-take_all : (x : Driver) (i k : ℕ) → waiting (dequeued x i) k ≡ take_all (waiting x) i k
dequeued-take_all x i k =
    let view = λ (l : List PendingJob). oldest_first (jobs_of k l) [] in
    elim (eq-cases i k) [
      | inl e ↦
          ap view (if-eq (pending_job_hash i) (pending_job_hash k) _ _ (ap pending_job_hash e))
          ∙ ap (λ t. oldest_first (jobs_of t (others_of i (bucket x i))) []) (sym e)
          ∙ ap (λ (l : List PendingJob). oldest_first l []) (jobs_of-others_of i (bucket x i))
          ∙ sym (if-eq i k [] (waiting x k) e)
      | inr n ↦
          elim (eq-cases (pending_job_hash i) (pending_job_hash k)) [
            | inl h ↦
                ap view (if-eq (pending_job_hash i) (pending_job_hash k) _ _ h)
                ∙ ap (λ (l : List PendingJob). oldest_first l [])
                    (jobs_of-others i k (bucket x i) (λ e. n (sym e)))
                ∙ ap (λ t. view (x.pending_job_hashbuckets t)) h
            | inr h ↦ ap view (if-ne (pending_job_hash i) (pending_job_hash k) _ _ h)
          ]
          ∙ sym (if-ne i k [] (waiting x k) n)
    ]

-- If the count of pending jobs, an int, is at least the number of those of the block, a dequeue
-- succeeds: it returns the block's queue, the oldest job first, empties it, and changes no other queue.
pub deq_pending-take_all :
    (x : Driver) (i : ℕ)
    → AtLeast x.dmc.pending_jobs_count (length (waiting x i))
    → (y : Driver) × (deq_pending x i ≡ some (y, waiting x i))
      × ((k : ℕ) → waiting y k ≡ take_all (waiting x) i k)
deq_pending-take_all x i le = (dequeued x i, deq_pending-dequeued x i le, dequeued-take_all x i)
