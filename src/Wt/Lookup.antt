-- ===== src/Wt/Lookup.antt =====
-- What cache_lookup finds in the write-through module (flashcache-wt/src/flashcache_wt.c).
use flashcache_ubuntu_xenial.Prelude.{
  ℕ, ◌*◌, ◌/◌, ◌≡◌, refl, sym, ap, subst, ◌∙◌, ◌⊎◌, inl, inr, true, false, Option, none, some,
  if-eq, some-injective, arith, ◌>>=◌, update,
}
use flashcache_ubuntu_xenial.Wt.Cache.{
  is_invalid, WtCache, WtBio, hash_block, next_in_set, find_reclaim_dbn, LookupResult, to_take,
  after_miss, after_find, cache_lookup,
}
use flashcache_ubuntu_xenial.Wt.Sweep.{
  Within, is_hit, find_valid_dbn-Finds, find_invalid_dbn-Finds, place, IsOldest, sweep-IsOldest,
}

-- What a lookup says: the block with the sector's data; or a block to take, an invalid one before a
-- valid one, and then the first valid one from the set's next place on, round the set; or that every
-- block of the set is busy.
abbrev pub IsLookup : WtCache → ℕ → ℕ → LookupResult → Type 0
IsLookup d start dbn (LookupResult.found i) = Within start d.assoc i × (is_hit d dbn i ≡ true)
IsLookup d start dbn (LookupResult.free i) =
    Within start d.assoc i
    × ((j : ℕ) → Within start d.assoc j → is_hit d dbn j ≡ false)
    × ((is_invalid (d.cache_state i) ≡ true)
        ⊎ (((j : ℕ) → Within start d.assoc j → is_invalid (d.cache_state j) ≡ false)
            × IsOldest d start (d.set_lru_next (start / d.assoc)) d.assoc (some i)))
IsLookup d start dbn LookupResult.no_room =
    ((j : ℕ) → Within start d.assoc j → is_hit d dbn j ≡ false)
    × ((j : ℕ) → Within start d.assoc j → is_invalid (d.cache_state j) ≡ false)
    × IsOldest d start (d.set_lru_next (start / d.assoc)) d.assoc none

-- The set's next place to search from is in the set.
abbrev pub IsSwept : WtCache → ℕ → Type 0
IsSwept d start = Within start d.assoc (d.set_lru_next (start / d.assoc))

-- The set's next place is the one after i, round the set.
abbrev pub advanced : WtCache → ℕ → ℕ → WtCache
advanced d start i = record d {
  set_lru_next = update d.set_lru_next (start / d.assoc) (place d start i 1);
}

-- What a lookup changes: the next place of the set alone, and only if it has searched for a valid
-- block.
abbrev pub IsAdvanced : WtCache → ℕ → LookupResult → WtCache → Type 0
IsAdvanced d start (LookupResult.found i) d' = d' ≡ d
IsAdvanced d start (LookupResult.free i) d' =
    ((is_invalid (d.cache_state i) ≡ true) × (d' ≡ d))
    ⊎ ((is_invalid (d.cache_state i) ≡ false) × (d' ≡ advanced d start i))
IsAdvanced d start LookupResult.no_room d' =
    d' ≡ advanced d start (d.set_lru_next (start / d.assoc))

-- Where the search for a valid block ends.
abbrev IsEnd : WtCache → ℕ → Option ℕ → ℕ → Type 0
IsEnd d start r i = (r ≡ some i) ⊎ ((r ≡ none) × (i ≡ d.set_lru_next (start / d.assoc)))

find_reclaim_dbn-IsOldest :
    (d : WtCache) (start : ℕ)
    → IsSwept d start
    → (i : ℕ) × (r : Option ℕ) × (find_reclaim_dbn d start ≡ some (advanced d start i, r))
      × IsEnd d start r i
      × IsSwept (advanced d start i) start
      × IsOldest d start (d.set_lru_next (start / d.assoc)) d.assoc r
unfolding find_reclaim_dbn
find_reclaim_dbn-IsOldest d start w =
    let set = start / d.assoc in
    let (s, e, at, o, z) = sweep-IsOldest d start d.assoc (d.set_lru_next set) w (omega arith) in
    let here : update d.set_lru_next set (place d start s.at 1) set ≡ place d start s.at 1 =
      if-eq set set (place d start s.at 1) (d.set_lru_next set) refl in
    let next : next_in_set d start s.at ≡ place d start s.at 1 = ground (arith, at.0, at.1) in
    (
      s.at,
      s.oldest,
      ap
            (λ m. m >>= λ s. some (
              record d { set_lru_next = update d.set_lru_next set (next_in_set d start s.at) },
              s.oldest,
            ))
            e
          ∙ ap (λ n. some (record d { set_lru_next = update d.set_lru_next set n }, s.oldest)) next,
      elim z [ inl q ↦ inl q | inr (q, back) ↦ inr (q, back ∙ ground (arith, w.0, w.1)) ],
      subst (λ n. Within start d.assoc n) (sym here)
          (ground (arith, at.0, at.1), ground (arith, at.0, at.1)),
      o,
    )

IsOldest-Within :
    (d : WtCache) (start i j : ℕ)
    → Within start d.assoc i
    → IsOldest d start i d.assoc (some j)
    → Within start d.assoc j
IsOldest-Within d start i j (l, u) o = elim o [
  | inl (k, p, q, r, g) ↦
      let at : j ≡ place d start i k = some-injective j (place d start i k) q in
      (ground (arith, at, l, u, p), ground (arith, at, l, u, p))
  | inr (q, g) ↦ absurd (cc q)
]

to_take-IsLookup :
    (d : WtCache) (start dbn : ℕ) (r : Option ℕ)
    → IsSwept d start
    → ((j : ℕ) → Within start d.assoc j → is_hit d dbn j ≡ false)
    → ((j : ℕ) → Within start d.assoc j → is_invalid (d.cache_state j) ≡ false)
    → IsOldest d start (d.set_lru_next (start / d.assoc)) d.assoc r
    → IsLookup d start dbn (to_take r)
to_take-IsLookup d start dbn none w miss busy o = (miss, busy, o)
to_take-IsLookup d start dbn (some i) w miss busy o =
    (IsOldest-Within d start (d.set_lru_next (start / d.assoc)) i w o, miss, inr (busy, o))

to_take-IsAdvanced :
    (d : WtCache) (start i : ℕ) (r : Option ℕ)
    → ((j : ℕ) → Within start d.assoc j → is_invalid (d.cache_state j) ≡ false)
    → IsSwept d start
    → IsOldest d start (d.set_lru_next (start / d.assoc)) d.assoc r
    → IsEnd d start r i
    → IsAdvanced d start (to_take r) (advanced d start i)
to_take-IsAdvanced d start i none busy w o z = elim z [
  | inl q ↦ absurd (cc q)
  | inr (q, e) ↦ ap (advanced d start) e
]
to_take-IsAdvanced d start i (some j) busy w o z = elim z [
  | inl q ↦ inr (
    busy j (IsOldest-Within d start (d.set_lru_next (start / d.assoc)) j w o),
    ap (advanced d start) (sym (some-injective j i q)),
  )
  | inr (q, e) ↦ absurd (cc q)
]

-- A lookup passes its assertions, and finds what IsLookup says, if the set's next place to search from
-- is in the set. A block with the sector's data and an invalid block change nothing; a valid block
-- that is taken moves the set's next place to the one after it, and a set that is busy moves it by
-- one, round the set; nothing else changes.
pub cache_lookup-IsLookup :
    (d : WtCache) (bio : WtBio)
    → IsSwept d (d.assoc * hash_block d bio.sector)
    → (d' : WtCache) × (r : LookupResult) × (cache_lookup d bio ≡ some (d', r))
      × IsLookup d (d.assoc * hash_block d bio.sector) bio.sector r
      × IsAdvanced d (d.assoc * hash_block d bio.sector) r d'
      × IsSwept d' (d.assoc * hash_block d bio.sector)
unfolding cache_lookup
cache_lookup-IsLookup d bio w =
    let start = d.assoc * hash_block d bio.sector in
    let dbn = bio.sector in
    elim (find_valid_dbn-Finds d dbn d.assoc start) [
      | inl (i, e, p, h) ↦ (d, LookupResult.found i, ap (after_find d start) e, (p, h), refl, w)
      | inr (e, miss) ↦ elim (find_invalid_dbn-Finds d d.assoc start) [
        | inl (i, f, p, h) ↦ (
          d,
          LookupResult.free i,
          ap (after_find d start) e ∙ ap (after_miss d start) f,
          (p, miss, inl h),
          inl (h, refl),
          w,
        )
        | inr (f, busy) ↦
            let (i, r, g, z, w', o) = find_reclaim_dbn-IsOldest d start w in
            let run =
              ap (after_find d start) e
              ∙ ap (after_miss d start) f
              ∙ ap (λ m. m >>= λ (d', oldest_clean). some (d', to_take oldest_clean)) g in
            (
              advanced d start i,
              to_take r,
              run,
              to_take-IsLookup d start dbn r w miss busy o,
              to_take-IsAdvanced d start i r busy w o z,
              w',
            )
      ]
    ]

IsAdvanced-next :
    (d d' : WtCache) (start : ℕ) (r : LookupResult)
    → IsAdvanced d start r d'
    → (next : ℕ → ℕ) × (d' ≡ record d { set_lru_next = next })
IsAdvanced-next d d' start (LookupResult.found i) a = (d.set_lru_next, a)
IsAdvanced-next d d' start (LookupResult.free i) a = elim a [
  | inl (t, e) ↦ (d.set_lru_next, e)
  | inr (t, e) ↦ (update d.set_lru_next (start / d.assoc) (place d start i 1), e)
]
IsAdvanced-next d d' start LookupResult.no_room a = (
  update d.set_lru_next (start / d.assoc) (place d start (d.set_lru_next (start / d.assoc)) 1),
  a,
)

-- The same with the next places of the sets forgotten.
pub cache_lookup-next :
    (d : WtCache) (bio : WtBio)
    → IsSwept d (d.assoc * hash_block d bio.sector)
    → (next : ℕ → ℕ) × (r : LookupResult) × (cache_lookup d bio
        ≡ some (record d { set_lru_next = next }, r))
      × IsSwept (record d { set_lru_next = next }) (d.assoc * hash_block d bio.sector)
      × IsLookup d (d.assoc * hash_block d bio.sector) bio.sector r
cache_lookup-next d bio w =
    let start = d.assoc * hash_block d bio.sector in
    let (d', r, e, h, a, w') = cache_lookup-IsLookup d bio w in
    let (next, same) = IsAdvanced-next d d' start r a in
    (next, r, e ∙ ap (λ t. some (t, r)) same, subst (λ t. IsSwept t start) same w', h)
