-- ===== src/Conf/Loading.antt =====
-- The inner loop of flashcache_writeback_load loads every block from its slot
-- (src/flashcache_conf.c).
use flashcache_ubuntu_xenial.Prelude.{
  ℕ, zero, suc, ◌+◌, ◌<◌, ◌≡◌, refl, sym, ap, subst, ◌∙◌, inl, inr, Bool, false, not, ◌&&◌, ◌||◌,
  if◌then◌else◌, if-true, if-false, if-eq, if-ne, arith, eq-cases, Bool-cases,
}
use flashcache_ubuntu_xenial.Device.{CacheBlock}
use flashcache_ubuntu_xenial.Io.Jobs.{MdSlot}
use flashcache_ubuntu_xenial.Conf.Machine.{ok, verify, state_of_slot, invalid_state}
use flashcache_ubuntu_xenial.Conf.Load.{Loaded, put_loaded, load_slot, load_slots}
use flashcache_ubuntu_xenial.Conf.Exits.{Ends, Ends-verify, Ends-bind}

-- A block is loaded: with the state and the sector of its slot after a clean shutdown or where the
-- slot is dirty, or else INVALID with sector 0; and nothing waits for it.
abbrev pub IsLoaded : Bool → MdSlot → CacheBlock → Type 0
IsLoaded clean s b =
    (b.cache_state ≡ (if clean || s.dirty then state_of_slot s else invalid_state))
    × (b.dbn ≡ (if clean || s.dirty then s.dbn else 0))
    × (b.nr_queued ≡ 0)

-- The first i blocks are loaded from their slots.
pub record IsLoading (clean : Bool) (f : ℕ → MdSlot) (i : ℕ) (l : Loaded) : Type 0 where
  pub at : l.i ≡ i
  pub loaded : (k : ℕ) → k < i → IsLoaded clean (f k) (l.cache k)

abbrev pub IsProper : MdSlot → Type 0
IsProper s = (s.valid && s.invalid) ≡ false

put_loaded-IsLoading :
    (clean : Bool) (f : ℕ → MdSlot) (i : ℕ) (b : CacheBlock) (l : Loaded)
    → IsLoading clean f i l
    → IsLoaded clean (f i) b
    → IsLoading clean f (suc i) (put_loaded b l)
put_loaded-IsLoading clean f i b l h p = record {
  at = ap suc h.at;
  loaded = λ k u. elim (eq-cases l.i k) [
    | inl e ↦
        let here : i ≡ k = sym h.at ∙ e in
        subst (λ c. IsLoaded clean (f k) c) (sym (if-eq l.i k b (l.cache k) e))
          (subst (λ j. IsLoaded clean (f j) b) here p)
    | inr n ↦
        subst (λ c. IsLoaded clean (f k) c) (sym (if-ne l.i k b (l.cache k) n))
          (h.loaded k (omega (arith, u, n, h.at)))
  ];
}

load_slot-IsLoading :
    (clean : Bool) (f : ℕ → MdSlot) (i : ℕ) (s : MdSlot) (l : Loaded)
    → f i ≡ s
    → IsProper s
    → IsLoading clean f i l
    → Ends ⊥ (IsLoading clean f (suc i)) (load_slot clean s l)
load_slot-IsLoading clean f i s l e p h =
    let b : CacheBlock = record (l.cache l.i) { nr_queued = 0 } in
    let taken : CacheBlock = record b { cache_state = state_of_slot s; dbn = s.dbn } in
    let empty : CacheBlock = record b { cache_state = invalid_state; dbn = 0 } in
    let l' : Loaded = record l {
      dirty_loaded = if s.dirty then l.dirty_loaded + 1 else l.dirty_loaded;
      num_valid = if s.valid then l.num_valid + 1 else l.num_valid;
    } in
    let good = verify (not (s.valid && s.invalid)) (put_loaded taken l') in
    let bad = ok (put_loaded empty l) in
    let P = Ends ⊥ (IsLoading clean f (suc i)) in
    elim (Bool-cases (clean || s.dirty)) [
      | inl c ↦
          let mine : IsLoaded clean s taken =
            (sym (if-true _ _ invalid_state c), sym (if-true _ _ 0 c), refl) in
          subst P (sym (if-true (clean || s.dirty) good bad c)) (
            Ends-verify ⊥ (IsLoading clean f (suc i)) (not (s.valid && s.invalid))
              (put_loaded taken l') (ap not p)
              (put_loaded-IsLoading clean f i taken l' (record { at = h.at; loaded = h.loaded })
                (subst (λ t. IsLoaded clean t taken) (sym e) mine)))
      | inr c ↦
          let mine : IsLoaded clean s empty =
            (sym (if-false _ (state_of_slot s) _ c), sym (if-false _ s.dbn _ c), refl) in
          subst P (sym (if-false (clean || s.dirty) good bad c)) (
            put_loaded-IsLoading clean f i empty l h
              (subst (λ t. IsLoaded clean t empty) (sym e) mine))
    ]

pub load_slots-IsLoading :
    (clean : Bool) (f buffer : ℕ → MdSlot) (n j i : ℕ) (l : Loaded)
    → ((k : ℕ) → k < n → f (i + k) ≡ buffer (j + k))
    → ((k : ℕ) → k < n → IsProper (buffer (j + k)))
    → IsLoading clean f i l
    → Ends ⊥ (IsLoading clean f (i + n)) (load_slots clean buffer n j l)
unfolding load_slots
load_slots-IsLoading clean f buffer zero j i l e p h =
    let q : i ≡ i + 0 = omega arith in subst (λ t. IsLoading clean f t l) q h
load_slots-IsLoading clean f buffer (suc n) j i l e p h =
    let i0 : i + 0 ≡ i = omega arith in
    let j0 : j + 0 ≡ j = omega arith in
    let step : (k : ℕ) → i + suc k ≡ suc i + k = λ k. omega arith in
    let step' : (k : ℕ) → j + suc k ≡ suc j + k = λ k. omega arith in
    let done : suc i + n ≡ i + suc n = omega arith in
    Ends-bind ⊥ (IsLoading clean f (suc i)) (IsLoading clean f (i + suc n))
      (load_slot clean (buffer j) l) (load_slots clean buffer n (suc j))
      (load_slot-IsLoading clean f i (buffer j) l (ap f (sym i0) ∙ e 0 (omega arith) ∙ ap buffer j0)
        (subst (λ t. IsProper (buffer t)) j0 (p 0 (omega arith))) h)
      (λ l' h'.
        subst (λ t. Ends ⊥ (IsLoading clean f t) (load_slots clean buffer n (suc j) l')) done
          (load_slots-IsLoading clean f buffer n (suc j) (suc i) l'
            (λ k u. ap f (sym (step k)) ∙ e (suc k) (omega (arith, u)) ∙ ap buffer (step' k))
            (λ k u. subst (λ t. IsProper (buffer t)) (step' k) (p (suc k) (omega (arith, u)))) h'))
