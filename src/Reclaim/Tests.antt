-- ===== src/Reclaim/Tests.antt =====
-- The theorems about src/flashcache_reclaim.c at the sample cache: in set 1 the warm list is 0, 2 and
-- the hot list is 3, and block 1 is on no list.
use flashcache_ubuntu_xenial.Prelude.{◌≡◌, refl, true, [], ◌∷◌, some, arith}
use flashcache_ubuntu_xenial.Device.{CacheC}
use flashcache_ubuntu_xenial.Samples.{device}
use flashcache_ubuntu_xenial.Reclaim.Policy.{
  promote_block, demote_block, lru_get_old_block, lru_accessed,
}
use flashcache_ubuntu_xenial.Reclaim.Shape.{OnList, IsLru, SameOutside}
use flashcache_ubuntu_xenial.Reclaim.Balance.{shift_blocks}
use flashcache_ubuntu_xenial.Reclaim.Shift.{shift_blocks-IsLru}
use flashcache_ubuntu_xenial.Reclaim.Promote.{promote_block-IsLru, demote_block-IsLru}
use flashcache_ubuntu_xenial.Reclaim.Accessed.{Reaches, lru_accessed-warm}
use flashcache_ubuntu_xenial.Reclaim.Oldest.{Takes, lru_get_old_block-victim}

device-IsLru : IsLru 4 device 1 true (0 ∷ 2 ∷ []) (3 ∷ [])
device-IsLru = record {
  mine = record { links = ground arith; members = ground arith; counted = refl };
  other = record { links = ground arith; members = ground arith; counted = refl };
  distinct = ground arith;
  assoc_is = refl;
  small = omega arith;
}

lru_get_old_block-victim_example : Takes 4 device 1 (lru_get_old_block device 4) (some 6)
lru_get_old_block-victim_example =
    lru_get_old_block-victim 4 1 device (0 ∷ 2 ∷ []) (3 ∷ []) (omega arith) device-IsLru

-- Block 2 reaches the threshold, and block 3 makes room for it.
lru_accessed-warm_example : Reaches 4 device 1 (lru_accessed device 6) (0 ∷ 3 ∷ []) (2 ∷ [])
lru_accessed-warm_example = lru_accessed-warm 4 1 2 device (0 ∷ []) [] (3 ∷ []) device-IsLru

promote_block-IsLru_example :
    (d' : CacheC) × (promote_block device 4 ≡ some (d', true))
    × IsLru 4 d' 1 true (2 ∷ 3 ∷ []) (0 ∷ [])
    × SameOutside 4 1 device d'
promote_block-IsLru_example = promote_block-IsLru 4 1 0 3 device [] (2 ∷ []) [] device-IsLru

demote_block-IsLru_example :
    (d' : CacheC) × (demote_block device 7 ≡ some (d', true))
    × IsLru 4 d' 1 true (0 ∷ 3 ∷ []) (2 ∷ [])
    × SameOutside 4 1 device d'
demote_block-IsLru_example = demote_block-IsLru 4 1 3 2 device [] [] (0 ∷ []) device-IsLru

block_1-OnList : OnList 4 device 1 true 1
block_1-OnList = ground arith

shift_blocks-IsLru_example :
    (d' : CacheC) × (shift_blocks true 1 2 device ≡ some d')
    × IsLru 4 d' 1 true [] (2 ∷ 0 ∷ 3 ∷ [])
    × SameOutside 4 1 device d'
shift_blocks-IsLru_example = shift_blocks-IsLru 4 1 2 device true (0 ∷ 2 ∷ []) (3 ∷ []) device-IsLru
