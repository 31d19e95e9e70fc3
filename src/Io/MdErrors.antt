-- ===== src/Io/MdErrors.antt =====
-- A metadata write that fails (src/flashcache_main.c): flashcache_md_write_done ends the request of a
-- WRITECACHE job but leaves `job->bio`, which flashcache_do_pending_error takes for an error of the
-- cache device outside write back mode.
use flashcache_ubuntu_xenial.Prelude.{
  ℕ, ◌≡◌, refl, sym, ap, ◌∙◌, inl, inr, true, Option, some, none, if-true, if-false, Bool-cases,
  ◌>>=◌, bind-inverse, guard-inverse, some-injective, result-cases,
}
use flashcache_ubuntu_xenial.Device.{CacheC}
use flashcache_ubuntu_xenial.Main.Lookup.{is_write_back}
use flashcache_ubuntu_xenial.Subr.Frame.{SameButHash, hash_remove-Same, invalid_insert-Same}
use flashcache_ubuntu_xenial.Io.Jobs.{Driver, Bio, Action, KcachedJob, MdSlot}
use flashcache_ubuntu_xenial.Io.Finish.{unhash, give_up, answer_pending, do_pending_error}
use flashcache_ubuntu_xenial.Io.Complete.{release, write_done, jobs_done, md_write_done}

Same-mode : (a b : CacheC) → SameButHash a b → b.cache_mode ≡ a.cache_mode
Same-mode a b s = ap (λ (d : CacheC). d.cache_mode) s.rest_same

-- A request whose write to the cache is done, and whose metadata write has failed.
abbrev pub failed_write : Bio → ℕ → KcachedJob
failed_write bio i = record { bio = some bio; index = i; action = Action.write_cache; error = true }

none-bind {ℓ κ} :
    {A : Type ℓ} {B : Type κ} (m : Option A) (f : A → Option B) → m ≡ none → (m >>= f) ≡ none
none-bind m f e = rw e refl

module _ (jhash_1word : ℕ → ℕ → ℕ) where
  unhash-mode :
      (d d' : CacheC) (i : ℕ) → unhash jhash_1word d i ≡ some d' → d'.cache_mode ≡ d.cache_mode
  unfolding unhash
  unhash-mode d d' i e =
      let (d1, e1, e2) = bind-inverse _ _ _ e in
      ap (λ (x : CacheC). x.cache_mode) (sym (some-injective _ _ e2))
      ∙ Same-mode _ d1 (hash_remove-Same jhash_1word _ d1 i e1)

  pub give_up-mode :
      (d d' : CacheC) (i : ℕ) → give_up jhash_1word d i ≡ some d' → d'.cache_mode ≡ d.cache_mode
  unfolding give_up
  give_up-mode d d' i e =
      let h = (guard-inverse (d.cache i).cache_state.valid _ _ e).1 in
      elim (Bool-cases (d.cache i).cache_state.dirty) [
        | inl t ↦
            let k =
              (guard-inverse (is_write_back d.cache_mode) _ _ (sym (if-true _ _ _ t) ∙ h)).1 in
            ap (λ (x : CacheC). x.cache_mode) (sym (some-injective _ _ k))
        | inr f ↦
            let (d1, e1, e2) =
              bind-inverse (unhash jhash_1word d i) _ d' (sym (if-false _ _ _ f) ∙ h) in
            Same-mode _ d' (invalid_insert-Same _ d' i e2) ∙ unhash-mode d d1 i e1
      ]

  do_pending_error-none :
      (x : Driver) (bio : Bio) (i : ℕ)
      → is_write_back x.dmc.cache_mode ≡ true
      → do_pending_error jhash_1word x (failed_write bio i) ≡ none
  unfolding do_pending_error answer_pending
  do_pending_error-none x bio i wb = elim (result-cases (give_up jhash_1word x.dmc i)) [
    | inl e ↦ none-bind _ _ e
    | inr (d, e) ↦
        let m : is_write_back d.cache_mode ≡ true =
          ap is_write_back (give_up-mode x.dmc d i e) ∙ wb in
        rw (e, m) refl
  ]

  -- In write back mode, a metadata write that fails for a write request makes
  -- flashcache_md_write_done fail an assertion, whatever the state of the block and of the driver.
  pub md_write_done-failed_write :
      (old : ℕ → MdSlot) (x : Driver) (bio : Bio) (i : ℕ)
      → is_write_back x.dmc.cache_mode ≡ true
      → md_write_done jhash_1word old x (failed_write bio i) ≡ none
  unfolding md_write_done jobs_done write_done release
  md_write_done-failed_write old x bio i wb =
      none-bind _ _ (none-bind _ _ (do_pending_error-none _ bio i wb))
