-- ===== src/Io/Addresses.antt =====
-- Where a block of the cache lies on the cache device: INDEX_TO_CACHE_ADDR and CACHE_ADDR_TO_INDEX
-- (src/flashcache.h), and the regions of a job (new_kcached_job of src/flashcache_subr.c).
use flashcache_ubuntu_xenial.Prelude.{
  ℕ, ◌+◌, ◌*◌, ◌/◌, ◌%◌, ◌^◌, ◌<◌, ◌≡◌, ap, ◌∙◌, arith, sub_word,
}
use native.Mathlib.Nat.{mul-div_cancel, one-le-pow}
use flashcache_ubuntu_xenial.Device.{CacheC, u32, u64}

-- The sectors before the first block; the product is an unsigned int.
abbrev pub md_sectors : CacheC → ℕ
md_sectors d = d.md_blocks * d.md_block_size % u32

unfoldable pub index_to_cache_addr : CacheC → ℕ → ℕ
index_to_cache_addr d index = (index * 2 ^ d.block_shift % u64 + md_sectors d) % u64

-- The int is kept as its 32-bit pattern.
unfoldable pub cache_addr_to_index : CacheC → ℕ → ℕ
cache_addr_to_index d addr = sub_word u64 addr (md_sectors d) / 2 ^ d.block_shift % u32

-- CACHE_ADDR_TO_INDEX undoes INDEX_TO_CACHE_ADDR for a block whose number is less than 2 ^ 31 and
-- whose offset from the first block is less than 2 ^ 64 sectors.
pub cache_addr_to_index-index_to_cache_addr :
    (d : CacheC) (index : ℕ)
    → index < 2 ^ 31
    → index * 2 ^ d.block_shift < u64
    → cache_addr_to_index d (index_to_cache_addr d index) ≡ index
unfolding index_to_cache_addr cache_addr_to_index
cache_addr_to_index-index_to_cache_addr d index small fits =
    let a : ℕ = index * 2 ^ d.block_shift in
    let b : ℕ = md_sectors d in
    let back : sub_word u64 ((a % u64 + b) % u64) b ≡ a =
      back_lem a (d.md_blocks * d.md_block_size) fits in
    ap (λ k. k / 2 ^ d.block_shift % u32) back
    ∙ ap (λ k. k % u32) (mul-div_cancel index (positive d.block_shift))
    ∙ omega (arith, small)
  where
    back_lem : (a c : ℕ) → a < u64 → sub_word u64 ((a % u64 + c % u32) % u64) (c % u32) ≡ a
    back_lem a c l = omega (arith, l)

    positive : (k : ℕ) → 0 < 2 ^ k
    positive k = one-le-pow k 2 (omega arith)
