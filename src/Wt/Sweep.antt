-- ===== src/Wt/Sweep.antt =====
-- The searches of the write-through module in a set of blocks (flashcache-wt/src/flashcache_wt.c).
use flashcache_ubuntu_xenial.Prelude.{
  ℕ, zero, suc, ◌+◌, ◌-◌, ◌<◌, ◌≤◌, ◌≡◌, refl, sym, ap, ◌∙◌, ◌⊎◌, inl, inr, Bool, true, false, ◌&&◌,
  Option, none, some, ltb, leb, ◌==◌, if◌then◌else◌, if-true, if-false, guard-true, arith, eq-cases,
  Bool-cases,
}
use flashcache_ubuntu_xenial.Wt.Cache.{
  is_valid, is_invalid, is_live, WtCache, find_valid_dbn, find_invalid_dbn, next_in_set, Sweep,
  sweep,
}

abbrev pub Within : ℕ → ℕ → ℕ → Type 0
Within i n j = (i ≤ j) × (j < i + n)

-- A search by a test over n places from i ends at one of them, or there is none.
abbrev pub Finds : (ℕ → Bool) → ℕ → ℕ → Option ℕ → Type 0
Finds f i n r =
    ((j : ℕ) × (r ≡ some j) × Within i n j × (f j ≡ true))
    ⊎ ((r ≡ none) × ((j : ℕ) → Within i n j → f j ≡ false))

Finds-step :
    (f : ℕ → Bool) (i n : ℕ) (r : Option ℕ)
    → Finds f (suc i) n r
    → Finds f i (suc n) (if f i then some i else r)
Finds-step f i n r h = elim (Bool-cases (f i)) [
  | inl t ↦ inl (i, if-true (f i) (some i) r t, (omega arith, omega arith), t)
  | inr t ↦
      let e : (if f i then some i else r) ≡ r = if-false (f i) (some i) r t in
      elim h [
        | inl (j, q, (l, u), v) ↦ inl (j, e ∙ q, (omega (arith, l), omega (arith, u)), v)
        | inr (q, all) ↦ inr (
          e ∙ q,
          λ j (l, u). elim (eq-cases i j) [
            | inl p ↦ ap f (sym p) ∙ t
            | inr ne ↦ all j (omega (arith, l, ne), omega (arith, u))
          ],
        )
      ]
]

abbrev pub is_hit : WtCache → ℕ → ℕ → Bool
is_hit d dbn i = dbn == d.dbn i && is_live (d.cache_state i)

pub find_valid_dbn-Finds :
    (d : WtCache) (dbn n i : ℕ) → Finds (is_hit d dbn) i n (find_valid_dbn d dbn n i)
unfolding find_valid_dbn
find_valid_dbn-Finds d dbn zero i = inr (refl, λ j (l, u). absurd (omega (arith, l, u)))
find_valid_dbn-Finds d dbn (suc n) i =
    Finds-step (is_hit d dbn) i n (find_valid_dbn d dbn n (suc i))
      (find_valid_dbn-Finds d dbn n (suc i))

pub find_invalid_dbn-Finds :
    (d : WtCache) (n i : ℕ) → Finds (λ j. is_invalid (d.cache_state j)) i n (find_invalid_dbn d n i)
unfolding find_invalid_dbn
find_invalid_dbn-Finds d zero i = inr (refl, λ j (l, u). absurd (omega (arith, l, u)))
find_invalid_dbn-Finds d (suc n) i =
    Finds-step (λ j. is_invalid (d.cache_state j)) i n (find_invalid_dbn d n (suc i))
      (find_invalid_dbn-Finds d n (suc i))

-- The k-th block from i on, round the set.
abbrev pub place : WtCache → ℕ → ℕ → ℕ → ℕ
place d start i k = if ltb (i + k) (start + d.assoc) then i + k else i + k - d.assoc

-- The search goes round the set from i, and takes the first valid block of the next n.
abbrev pub IsOldest : WtCache → ℕ → ℕ → ℕ → Option ℕ → Type 0
IsOldest d start i n r =
    ((k : ℕ) × (k < n)
      × (r ≡ some (place d start i k))
      × (is_valid (d.cache_state (place d start i k)) ≡ true)
      × ((m : ℕ) → m < k → is_valid (d.cache_state (place d start i m)) ≡ false))
    ⊎ ((r ≡ none) × ((m : ℕ) → m < n → is_valid (d.cache_state (place d start i m)) ≡ false))

-- The search stands at the block that it takes, or n places further round the set.
abbrev pub Stops : WtCache → ℕ → ℕ → ℕ → Sweep → Type 0
Stops d start i n s = (s.oldest ≡ some s.at) ⊎ ((s.oldest ≡ none) × (s.at ≡ place d start i n))

pub sweep-IsOldest :
    (d : WtCache) (start n i : ℕ)
    → Within start d.assoc i
    → n ≤ d.assoc
    → (s : Sweep) × (sweep d start n i ≡ some s)
      × Within start d.assoc s.at
      × IsOldest d start i n s.oldest
      × Stops d start i n s
unfolding sweep
sweep-IsOldest d start zero i w h = (
  record { oldest = none; at = i },
  refl,
  w,
  inr (refl, λ m l. absurd (omega (arith, l))),
  inr (refl, ground (arith, w.1)),
)
sweep-IsOldest d start (suc n) i (l, u) h =
    let next = next_in_set d start i in
    let v = is_valid (d.cache_state i) in
    let here : place d start i 0 ≡ i = ground (arith, u) in
    let shift : (k : ℕ) → suc k ≤ d.assoc → place d start i (suc k) ≡ place d start next k =
      λ k p. ground (arith, l, u, p) in
    let (s, e, w, o, z) =
      sweep-IsOldest d start n next (ground (arith, l, u), ground (arith, l, u))
        (omega (arith, h)) in
    let stop : Sweep = record { oldest = some i; at = i } in
    let open_guards : (r : Option Sweep)
        → (if v then some stop else sweep d start n next) ≡ r
        → sweep d start (suc n) i ≡ r =
      λ r q. guard-true (leb start i && ltb i (start + d.assoc)) _ r (ground (arith, l, u)) q in
    elim (Bool-cases v) [
      | inl t ↦ (
        stop,
        open_guards (some stop) (if-true v (some stop) (sweep d start n next) t),
        (l, u),
        inl (
          0,
          omega arith,
          ap some (sym here),
          ap (λ j. is_valid (d.cache_state j)) here ∙ t,
          λ m p. absurd (omega (arith, p)),
        ),
        inl refl,
      )
      | inr t ↦
          let first : (m : ℕ) → m ≡ 0 → is_valid (d.cache_state (place d start i m)) ≡ false =
            λ m z.
              ap (λ j. is_valid (d.cache_state (place d start i j))) z
              ∙ ap (λ j. is_valid (d.cache_state j)) here
              ∙ t in
          let later : (b m : ℕ)
              → b ≤ n
              → ((k : ℕ) → k < b → is_valid (d.cache_state (place d start next k)) ≡ false)
              → m < suc b
              → is_valid (d.cache_state (place d start i m)) ≡ false =
            λ b m q g p. elim (eq-cases m 0) [
              | inl z ↦ first m z
              | inr ne ↦
                  let back : suc (m - 1) ≡ m = omega (arith, ne) in
                  ap (λ j. is_valid (d.cache_state (place d start i j))) (sym back)
                  ∙ ap (λ j. is_valid (d.cache_state j))
                      (shift (m - 1) (omega (arith, p, q, h, ne)))
                  ∙ g (m - 1) (omega (arith, p, ne))
            ] in
          (
            s,
            open_guards (some s) (if-false v (some stop) _ t ∙ e),
            w,
            elim o [
              | inl (k, p, q, r, g) ↦
                  let at = shift k (omega (arith, p, h)) in
                  inl (
                    suc k,
                    omega (arith, p),
                    q ∙ ap some (sym at),
                    ap (λ j. is_valid (d.cache_state j)) at ∙ r,
                    λ m z. later k m (omega (arith, p)) g z,
                  )
              | inr (q, g) ↦ inr (q, λ m z. later n m (omega arith) g z)
            ],
            elim z [ inl q ↦ inl q | inr (q, at) ↦ inr (q, at ∙ sym (shift n h)) ],
          )
    ]
