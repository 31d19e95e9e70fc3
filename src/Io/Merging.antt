-- ===== src/Io/Merging.antt =====
-- The blocks next to the chosen ones, and the writes (src/flashcache_subr.c, src/flashcache_main.c):
-- flashcache_merge_writes and flashcache_clean_set. `sort` is the kernel's, with cmp_dbn. The two buffers
-- of flashcache_diskclean_alloc are one allocation. `none` is a failed VERIFY, or a walk out of fuel.
use flashcache_ubuntu_xenial.Prelude.{
  ℕ, zero, suc, ◌+◌, ◌%◌, not, ◌||◌, Option, some, none, ltb, if◌then◌else◌, guard, ◌>>=◌, ◌>>◌,
  List, [], ◌∷◌, sub_word,
}
use flashcache_ubuntu_xenial.Device.{CacheC, u64}
use flashcache_ubuntu_xenial.Subr.Blocks.{hash_lookup}
use flashcache_ubuntu_xenial.Main.Lookup.{is_write_back}
use flashcache_ubuntu_xenial.Io.Jobs.{Driver, with_dmc, can_alloc, after_alloc}
use flashcache_ubuntu_xenial.Io.Inval.{needs_clean, dirty_writeback}
use flashcache_ubuntu_xenial.Io.Cleaning.{
  DbnIndexPair, Fallow, Chosen, nr_writes, choose, choose_blocks,
}

-- The sector of the block before and after one.
abbrev pub look_behind : CacheC → ℕ → ℕ
look_behind d dbn = sub_word u64 dbn d.block_size

abbrev pub look_forward : CacheC → ℕ → ℕ
look_forward d dbn = (dbn + d.block_size) % u64

module _ (jhash_1word : ℕ → ℕ → ℕ) where
  -- One of the two inner loops of flashcache_merge_writes: neighbours are chosen as long as there are any.
  unfoldable pub merge_run : ℕ → (ℕ → ℕ) → ℕ → Chosen → ℕ → Option Chosen
  merge_run zero step set c dbn = none
  merge_run (suc fuel) step set c dbn = hash_lookup jhash_1word c.dmc set (step dbn) >>= λ r.
      elim r [
        | none ↦ some c
        | some neighbor ↦
            let b = c.dmc.cache neighbor in
            guard b.cache_state.valid
            >> (if needs_clean b.cache_state
                then (guard (ltb (nr_writes c) c.dmc.assoc)
                    >> (choose c neighbor >>= λ c'. merge_run fuel step set c' b.dbn))
                else some c)
      ]

  -- The outer loop, over the blocks chosen before; each inner loop has a turn for each block of the set
  -- and one more.
  unfoldable pub merge_all : ℕ → List DbnIndexPair → Chosen → Option Chosen
  merge_all set [] c = some c
  merge_all set (p ∷ ps) c = do
    c1 ← merge_run (suc c.dmc.assoc) (look_behind c.dmc) set c p.dbn
    c2 ← merge_run (suc c1.dmc.assoc) (look_forward c1.dmc) set c1 p.dbn
    merge_all set ps c2

  module _ (sort : List DbnIndexPair → List DbnIndexPair) where
    -- flashcache_merge_writes
    unfoldable pub merge_writes : ℕ → Chosen → Option Chosen
    merge_writes set c = merge_all set c.writes_list c >>= λ c'.
        some (record c' { writes_list = sort c'.writes_list })

    -- The writes of the chosen blocks.
    unfoldable pub write_all : List DbnIndexPair → Driver → Option Driver
    write_all [] x = some x
    write_all (p ∷ ps) x = dirty_writeback x p.index >>= write_all ps

    -- flashcache_clean_set
    unfoldable pub clean_set : Fallow → Driver → ℕ → ℕ → Option Driver
    clean_set f x set force =
        let y = after_alloc x in
        if not (is_write_back x.dmc.cache_mode) || x.dmc.remove_in_prog
        then some x
        else if not (can_alloc x)
        then some y
        else (do
          c ← choose_blocks f x.dmc set force
          c' ← (elim c.writes_list [ [] ↦ some c | p ∷ ps ↦ merge_writes set c ])
          write_all c'.writes_list (with_dmc y c'.dmc))
