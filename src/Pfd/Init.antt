-- ===== src/Pfd/Init.antt =====
-- reset_pfd_stat_queue (src/pfd_stat.c): the queue that the module starts with.
use flashcache_ubuntu_xenial.Prelude.{
  ℕ, zero, suc, ◌+◌, ◌-◌, ◌≤◌, ◌<◌, ◌≡◌, refl, sym, subst, List, [], ◌∷◌, All, NotIn, Distinct,
  arith, none, negsuc, ◌==◌, if◌then◌else◌,
}
use flashcache_ubuntu_xenial.Device.{CacheC}
use flashcache_ubuntu_xenial.Links.Segments.{Seg}
use flashcache_ubuntu_xenial.Pfd.Stat.{PfdStatQueue, nil, reset_pfd_stat_queue, pfd_stat_count}
use flashcache_ubuntu_xenial.Pfd.Pattern.{reset_pfd_stat-IsPattern}
use flashcache_ubuntu_xenial.Pfd.Queue.{next_of, prev_of}
use flashcache_ubuntu_xenial.Pfd.Update.{IsQueue}

-- The numbers from `k` on.
abbrev pub from : ℕ → ℕ → List ℕ
from k zero = []
from k (suc m) = k ∷ from (k + 1) m

from-NotIn : (j k m : ℕ) → j < k → NotIn j (from k m)
from-NotIn j k zero h = tt
from-NotIn j k (suc m) h =
    (λ e. absurd (omega (arith, e, h)), from-NotIn j (k + 1) m (omega (arith, h)))

from-Distinct : (k m : ℕ) → Distinct (from k m)
from-Distinct k zero = tt
from-Distinct k (suc m) = (from-NotIn k (k + 1) m (omega arith), from-Distinct (k + 1) m)

from-below : (k m b : ℕ) → k + m ≤ b → All (λ j. j < b) (from k m)
from-below k zero b h = tt
from-below k (suc m) b h = (omega (arith, h), from-below (k + 1) m b (omega (arith, h)))

links_from :
    (q : PfdStatQueue) (k m p : ℕ)
    → k + suc m ≡ nil
    → p ≡ (if k == 0 then nil else k - 1)
    → Seg nil
        (next_of (reset_pfd_stat_queue q))
        (prev_of (reset_pfd_stat_queue q))
        p
        k
        (from k (suc m))
        (nil - 1)
        nil
unfolding reset_pfd_stat_queue
links_from q k zero p e h = (refl, omega (arith, e), sym h, (ground (arith, e), omega (arith, e)))
links_from q k (suc m) p e h =
    let link : next_of (reset_pfd_stat_queue q) k ≡ k + 1 = ground (arith, e) in
    (
      refl,
      omega (arith, e),
      sym h,
      subst
          (λ t.
            Seg nil (next_of (reset_pfd_stat_queue q)) (prev_of (reset_pfd_stat_queue q)) k t
              (from (k + 1) (suc m)) (nil - 1) nil)
          (sym link) (links_from q (k + 1) m k (omega (arith, e)) (ground arith)),
    )

-- At the start the queue holds all its elements in the order of the array, and every entry is well
-- formed.
pub reset_pfd_stat_queue-IsQueue :
    (d : CacheC) (q : PfdStatQueue) → IsQueue d (reset_pfd_stat_queue q) (from 0 pfd_stat_count)
unfolding reset_pfd_stat_queue
reset_pfd_stat_queue-IsQueue d q = record {
  chain = (links_from q 0 63 nil refl refl, from-Distinct 0 pfd_stat_count);
  below = from-below 0 pfd_stat_count nil (omega arith);
  patterns = λ j u. reset_pfd_stat-IsPattern d (q.stat_elms j).stat (negsuc 0) none;
}
