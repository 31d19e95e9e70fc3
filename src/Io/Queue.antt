-- ===== src/Io/Queue.antt =====
-- The pending jobs of a block (src/flashcache_subr.c): the order in which they come back.
use flashcache_ubuntu_xenial.Prelude.{
  ℕ, ◌≡◌, refl, inl, inr, ◌==◌, if◌then◌else◌, Bool-cases, List, [], ◌∷◌,
}
use flashcache_ubuntu_xenial.Io.Jobs.{PendingJob, split_jobs}

-- The jobs of a block in a bucket, and the others.
abbrev pub jobs_of : ℕ → List PendingJob → List PendingJob
jobs_of index [] = []
jobs_of index (j ∷ js) = if j.index == index then j ∷ jobs_of index js else jobs_of index js

abbrev pub others_of : ℕ → List PendingJob → List PendingJob
others_of index [] = []
others_of index (j ∷ js) = if j.index == index then others_of index js else j ∷ others_of index js

-- The dequeued jobs, the oldest first.
abbrev pub oldest_first : List PendingJob → List PendingJob → List PendingJob
oldest_first [] ys = ys
oldest_first (x ∷ xs) ys = oldest_first xs (x ∷ ys)

pub split_jobs-oldest_first :
    (index : ℕ) (jobs acc : List PendingJob)
    → split_jobs index jobs acc ≡ (oldest_first (jobs_of index jobs) acc, others_of index jobs)
unfolding split_jobs
split_jobs-oldest_first index [] acc = refl
split_jobs-oldest_first index (j ∷ js) acc = elim (Bool-cases (j.index == index)) [
  | inl t ↦ rw (t, split_jobs-oldest_first index js (j ∷ acc)) refl
  | inr f ↦ rw (f, split_jobs-oldest_first index js acc) refl
]
