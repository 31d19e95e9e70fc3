-- ===== src/Main/Tests.antt =====
-- The theorems about src/flashcache_main.c at the sample cache.
use flashcache_ubuntu_xenial.Prelude.{◌≡◌, refl, some, arith}
use flashcache_ubuntu_xenial.Device.{CacheC}
use flashcache_ubuntu_xenial.Samples.{device}
use flashcache_ubuntu_xenial.Main.Lookup.{detect_fallow, clear_fallow}
use flashcache_ubuntu_xenial.Main.Fallow.{
  IsCounted, detect_fallow-IsCounted, clear_fallow-IsCounted,
}

device-IsCounted : IsCounted 4 device 1
device-IsCounted = (refl, omega arith, refl)

marked_twice : ((detect_fallow device 5).cache_sets 1).dirty_fallow ≡ 1
unfolding detect_fallow
marked_twice = refl

old-IsCounted : IsCounted 4 (detect_fallow device 5) 1
old-IsCounted = detect_fallow-IsCounted 4 1 1 device (omega arith) device-IsCounted

clear_fallow-IsCounted_example :
    (d' : CacheC) × (clear_fallow (detect_fallow device 5) 5 ≡ some d') × IsCounted 4 d' 1
clear_fallow-IsCounted_example =
    clear_fallow-IsCounted 4 1 1 (detect_fallow device 5) (omega arith) old-IsCounted
