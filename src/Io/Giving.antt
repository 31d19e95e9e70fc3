-- ===== src/Io/Giving.antt =====
-- A block that flashcache_do_pending_error gives up (src/flashcache_main.c).
use flashcache_ubuntu_xenial.Prelude.{
  ℕ, ◌<◌, ◌≡◌, ◌≢◌, refl, sym, ap, subst, ◌∙◌, true, false, some, if-eq, if-ne, if-false,
  guard-true, bind-some, sub_word, arith,
}
use flashcache_ubuntu_xenial.Device.{CacheC, CacheBlock, CacheState, u32, is_invalid}
use flashcache_ubuntu_xenial.Main.Lookup.{put_state}
use flashcache_ubuntu_xenial.Subr.Frame.{without_links}
use flashcache_ubuntu_xenial.Subr.Results.{NoLinks, hash_remove-NoLinks, invalid_insert-some}
use flashcache_ubuntu_xenial.Io.Jobs.{idle}
use flashcache_ubuntu_xenial.Io.Finish.{unvalid, unhash, give_up}

-- A clean block that holds data: VALID, with any of the I/O bits.
abbrev pub IsClean : CacheState → Type 0
IsClean s =
    (s.valid ≡ true) × (s.dirty ≡ false) × (s.dirty_fallow_1 ≡ false) × (s.dirty_fallow_2 ≡ false)

-- A block is invalid and keeps its queue's count, and nothing else changes but the hash links, the heads
-- of lists and the count of cached blocks.
pub record IsGivenUp (i : ℕ) (d d' : CacheC) : Type 0 where
  pub gone : is_invalid (d'.cache i).cache_state ≡ true
  pub queued_same : (d'.cache i).nr_queued ≡ (d.cache i).nr_queued
  pub others_same : (k : ℕ) → k ≢ i → without_links (d'.cache k) ≡ without_links (d.cache k)
  pub count_same : d'.pending_jobs_count ≡ d.pending_jobs_count
  pub mode_same : d'.cache_mode ≡ d.cache_mode

clean_gone : (s : CacheState) → IsClean s → is_invalid (idle (unvalid s)) ≡ true
clean_gone s (v, d, f, g) = ground (arith, v, d, f, g)

pub give_up-IsGivenUp :
    (jhash_1word : ℕ → ℕ → ℕ) (d : CacheC) (i : ℕ)
    → i < d.size
    → IsClean (d.cache i).cache_state
    → (d' : CacheC) × (give_up jhash_1word d i ≡ some d') × IsGivenUp i d d'
unfolding give_up unhash
give_up-IsGivenUp jhash d i l clean =
    let d0 : CacheC = record d { cached_blocks = sub_word u32 d.cached_blocks 1 } in
    let (d1, e1, s1, links) = hash_remove-NoLinks jhash d0 i clean.0 in
    let st : (d1.cache i).cache_state ≡ (d.cache i).cache_state =
      ap (λ (b : CacheBlock). b.cache_state) (s1.blocks_same i) in
    let d2 : CacheC = put_state d1 i (unvalid (d1.cache i).cache_state) in
    let here2 : d2.cache i
        ≡ record (d1.cache i) { cache_state = unvalid (d1.cache i).cache_state } =
      if-eq i i _ _ refl in
    let d3 : CacheC = put_state d2 i (idle (d2.cache i).cache_state) in
    let here3 : d3.cache i ≡ record (d2.cache i) { cache_state = idle (d2.cache i).cache_state } =
      if-eq i i _ _ refl in
    let state3 : (d3.cache i).cache_state ≡ idle (unvalid (d.cache i).cache_state) =
      ap (λ (b : CacheBlock). b.cache_state) here3
      ∙ ap (λ (b : CacheBlock). idle b.cache_state) here2
      ∙ ap (λ s. idle (unvalid s)) st in
    let gone3 : is_invalid (d3.cache i).cache_state ≡ true =
      ap is_invalid state3 ∙ clean_gone (d.cache i).cache_state clean in
    let size3 : i < d3.size = subst (λ (x : CacheC). i < x.size) (sym s1.rest_same) l in
    let links3 : NoLinks d3 i = (
      ap (λ (b : CacheBlock). b.hash_prev)
            (here3
              ∙ ap (λ (b : CacheBlock). record b { cache_state = idle (d2.cache i).cache_state })
                  here2)
          ∙ links.0,
      ap (λ (b : CacheBlock). b.hash_next)
            (here3
              ∙ ap (λ (b : CacheBlock). record b { cache_state = idle (d2.cache i).cache_state })
                  here2)
          ∙ links.1,
    ) in
    let (d4, e4, s4) = invalid_insert-some d3 i size3 gone3 links3 in
    (
      d4,
      guard-true _ _ _ clean.0
          (if-false _ _ _ clean.1 ∙ bind-some _ _ d2 _ (bind-some _ _ d1 _ e1 refl) e4),
      record {
        gone = ap (λ (b : CacheBlock). is_invalid b.cache_state) (s4.blocks_same i) ∙ gone3;
        queued_same =
            ap (λ (b : CacheBlock). b.nr_queued) (s4.blocks_same i)
            ∙ ap (λ (b : CacheBlock). b.nr_queued) here3
            ∙ ap (λ (b : CacheBlock). b.nr_queued) here2
            ∙ ap (λ (b : CacheBlock). b.nr_queued) (s1.blocks_same i);
        others_same = λ k ne.
            s4.blocks_same k
            ∙ ap without_links (if-ne i k _ (d2.cache k) (λ h. ne (sym h)))
            ∙ ap without_links (if-ne i k _ (d1.cache k) (λ h. ne (sym h)))
            ∙ s1.blocks_same k;
        count_same =
            ap (λ (x : CacheC). x.pending_jobs_count) s4.rest_same
            ∙ ap (λ (x : CacheC). x.pending_jobs_count) s1.rest_same;
        mode_same =
            ap (λ (x : CacheC). x.cache_mode) s4.rest_same
            ∙ ap (λ (x : CacheC). x.cache_mode) s1.rest_same;
      },
    )
