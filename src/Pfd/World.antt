-- ===== src/Pfd/World.antt =====
-- Readers, prefetches, dispatches, completions and resets of one entry of src/pfd_cache.c in any order.
-- What a read brings is what its block holds on the disk or on the cache device while it runs: a later
-- write of the block (flashcache_write) does not change the entry.
use flashcache_ubuntu_xenial.Prelude.{
  ℕ, ◌+◌, ◌<◌, ◌≡◌, true, false, Option, some, none, ◌==◌, if◌then◌else◌, List, ◌∷◌, ◌++◌, All,
  length,
}
use flashcache_ubuntu_xenial.Pfd.Cache.{
  PfdCacheMeta, MetaStatus, is_ready, hold, release, claim, io_callback, refuse, reset_meta,
}

-- The entry with what runs on it: the readers in pfd_cache_handle_bio by the block they want, before
-- their second test of the status and after it passed; the calls of pfd_cache_prefetch that have set
-- up the entry and not yet dispatched the read; the reads in flight, by the block that they were
-- dispatched for; and the block that the entry's buffer was last filled with by a whole read, if no
-- read may have written to it since.
pub record World : Type 0 where
  pub entry : PfdCacheMeta
  pub waiting : List ℕ
  pub copying : List ℕ
  pub dispatching : ℕ
  pub in_flight : List ℕ
  pub loaded : Option ℕ

-- A read of a block ends.
abbrev pub loaded_by : ℕ → ℕ → Option ℕ
loaded_by dbn error = if error == 0 then some dbn else none

-- One critical section, or one step between them. A wait on the semaphore may be interrupted, after
-- which the reader raises it all the same.
pub data Step : World → World → Type 0 where
  enters :
      (x : World) (dbn : ℕ) (m : PfdCacheMeta)
      → hold x.entry dbn ≡ some m
      → Step x (record x { entry = m; waiting = dbn ∷ x.waiting })
  interrupted :
      (x : World)
      → Step x (record x { entry = record x.entry { prepare_lock = x.entry.prepare_lock + 1 } })
  passes :
      (x : World) (dbn : ℕ) (l r : List ℕ)
      → x.waiting ≡ l ++ dbn ∷ r
      → is_ready x.entry.status ≡ true
      → Step x (record x { waiting = l ++ r; copying = dbn ∷ x.copying })
  misses :
      (x : World) (dbn : ℕ) (l r : List ℕ)
      → x.waiting ≡ l ++ dbn ∷ r
      → is_ready x.entry.status ≡ false
      → Step x (record x { entry = release x.entry; waiting = l ++ r })
  copies :
      (x : World) (dbn : ℕ) (l r : List ℕ)
      → x.copying ≡ l ++ dbn ∷ r
      → Step x (record x { entry = release x.entry; copying = l ++ r })
  claims :
      (x : World) (dbn : ℕ) (m : PfdCacheMeta)
      → claim x.entry dbn ≡ some m
      → Step x (record x { entry = m; dispatching = x.dispatching + 1 })
  dispatches :
      (x : World) (n : ℕ)
      → x.dispatching ≡ n + 1
      → Step x (record x { dispatching = n; in_flight = x.entry.dbn ∷ x.in_flight; loaded = none })
  refused :
      (x : World) (n : ℕ)
      → x.dispatching ≡ n + 1
      → Step x (record x { entry = refuse x.entry; dispatching = n })
  completes :
      (x : World) (error dbn : ℕ) (l r : List ℕ)
      → x.in_flight ≡ l ++ dbn ∷ r
      → Step x (record x {
        entry = io_callback x.entry error;
        in_flight = l ++ r;
        loaded = loaded_by dbn error;
      })
  resets :
      (x : World) (m : PfdCacheMeta) → reset_meta x.entry ≡ some m → Step x (record x { entry = m })

pub data Steps : World → World → Type 0 where
  stays : (x : World) → Steps x x
  goes : (x y z : World) → Step x y → Steps y z → Steps x z

-- The prefetches that the status of an entry stands for.
abbrev pub preparing : MetaStatus → ℕ
preparing MetaStatus.empty = 0
preparing MetaStatus.prepare = 1
preparing MetaStatus.valid = 0

-- Every reader holds the entry and wants its block; one prefetch is on its way while the entry is
-- being prepared, and else none, and it reads the entry's block; the buffer of a valid entry was
-- filled with its block; and while a reader copies the entry is valid.
pub record IsSafe (x : World) : Type 0 where
  pub held : x.entry.hold_count ≡ length x.waiting + length x.copying
  pub wanted : All (λ k. k ≡ x.entry.dbn) x.waiting
  pub copied : All (λ k. k ≡ x.entry.dbn) x.copying
  pub alone : x.dispatching + length x.in_flight ≡ preparing x.entry.status
  pub flown : All (λ k. k ≡ x.entry.dbn) x.in_flight
  pub filled : is_ready x.entry.status ≡ true → x.loaded ≡ some x.entry.dbn
  pub stable : 0 < length x.copying → is_ready x.entry.status ≡ true
