-- ===== src/Pfd/Readers.antt =====
-- What the steps on one entry of src/pfd_cache.c keep, and what a reader finds.
use mathlib.Core.Path.{ap₂}
use flashcache_ubuntu_xenial.Prelude.{
  ℕ, ◌+◌, ◌<◌, ◌≡◌, refl, sym, ap, subst, ◌∙◌, Bool, suc, true, false, arith, some, ◌==◌,
  if◌then◌else◌, List, [], ◌∷◌, ◌++◌, All-at, length, In, eq-cases, inl, inr, if-eq, if-ne,
}
use flashcache_ubuntu_xenial.Pfd.Cache.{MetaStatus, is_prepare, is_ready, io_callback, refuse}
use flashcache_ubuntu_xenial.Pfd.Sections.{
  hold-some, claim-some, reset_meta-some, All-none, All-without, count_without,
}
use flashcache_ubuntu_xenial.Pfd.World.{
  World, Step, enters, interrupted, passes, misses, copies, claims, dispatches, refused, completes,
  resets, Steps, stays, goes, loaded_by, preparing, IsSafe,
}

-- An entry that nobody holds, that is not valid and that no read is in flight for is safe.
idle-IsSafe :
    (x : World)
    → x.entry.hold_count ≡ 0
    → length x.waiting + length x.copying ≡ 0
    → is_ready x.entry.status ≡ false
    → x.dispatching ≡ preparing x.entry.status
    → length x.in_flight ≡ 0
    → IsSafe x
idle-IsSafe x h n f d e = record {
  held = h ∙ sym n;
  wanted = All-none (λ k. k ≡ x.entry.dbn) x.waiting (omega (arith, n));
  copied = All-none (λ k. k ≡ x.entry.dbn) x.copying (omega (arith, n));
  alone = omega (arith, d, e);
  flown = All-none (λ k. k ≡ x.entry.dbn) x.in_flight e;
  filled = λ t. absurd (ground (arith, t, f));
  stable = λ p. absurd (omega (arith, p, n));
}

both_ways : {b : Bool} → b ≡ false → b ≡ true → ⊥
both_ways e f = absurd (cc (e, f))

-- A prefetch that is on its way is alone, and no reader copies.
sole :
    (x : World)
    → IsSafe x
    → 0 < x.dispatching + length x.in_flight
    → (x.dispatching + length x.in_flight ≡ 1) × (is_ready x.entry.status ≡ false)
sole x v p = by_status x.entry.status v.alone
  where
    by_status :
        (s : MetaStatus)
        → x.dispatching + length x.in_flight ≡ preparing s
        → (x.dispatching + length x.in_flight ≡ 1) × (is_ready s ≡ false)
    by_status MetaStatus.empty e = absurd (omega (arith, e, p))
    by_status MetaStatus.prepare e = (e, refl)
    by_status MetaStatus.valid e = absurd (omega (arith, e, p))

idle_entry :
    (x : World)
    → IsSafe x
    → is_prepare x.entry.status ≡ false
    → x.dispatching + length x.in_flight ≡ 0
idle_entry x v f = by_status x.entry.status v.alone f
  where
    by_status :
        (s : MetaStatus)
        → x.dispatching + length x.in_flight ≡ preparing s
        → is_prepare s ≡ false
        → x.dispatching + length x.in_flight ≡ 0
    by_status MetaStatus.empty e g = e
    by_status MetaStatus.prepare e g = absurd (cc g)
    by_status MetaStatus.valid e g = e

completed :
    (dbn error : ℕ)
    → is_ready (if error == 0 then MetaStatus.valid else MetaStatus.empty) ≡ true
    → loaded_by dbn error ≡ some dbn
completed dbn error e = elim (eq-cases error 0) [
  | inl z ↦ if-eq error 0 _ _ z
  | inr ne ↦ absurd (both_ways (ap is_ready (if-ne error 0 MetaStatus.valid MetaStatus.empty ne)) e)
]

ended : (error : ℕ) → preparing (if error == 0 then MetaStatus.valid else MetaStatus.empty) ≡ 0
ended error = ground arith

-- Every step keeps the entry safe.
pub Step-IsSafe : (x y : World) → Step x y → IsSafe x → IsSafe y
unfolding io_callback refuse
Step-IsSafe _ _ (enters x dbn m e) v =
    let (em, ed) = hold-some x.entry m dbn e in
    subst (λ t. IsSafe (record x { entry = t; waiting = dbn ∷ x.waiting })) (sym em)
      (record {
        held = omega (arith, v.held);
        wanted = (ed, v.wanted);
        copied = v.copied;
        alone = v.alone;
        flown = v.flown;
        filled = v.filled;
        stable = v.stable;
      })
Step-IsSafe _ _ (interrupted x) v = record {
  held = v.held;
  wanted = v.wanted;
  copied = v.copied;
  alone = v.alone;
  flown = v.flown;
  filled = v.filled;
  stable = v.stable;
}
Step-IsSafe _ _ (passes x dbn l r e t) v =
    let (a, b) = All-without (λ k. k ≡ x.entry.dbn) dbn l r x.waiting e v.wanted in
    record {
      held = omega (arith, v.held, count_without dbn l r x.waiting e);
      wanted = a;
      copied = (b, v.copied);
      alone = v.alone;
      flown = v.flown;
      filled = v.filled;
      stable = λ p. t;
    }
Step-IsSafe _ _ (misses x dbn l r e f) v =
    let (a, b) = All-without (λ k. k ≡ x.entry.dbn) dbn l r x.waiting e v.wanted in
    record {
      held = omega (arith, v.held, count_without dbn l r x.waiting e);
      wanted = a;
      copied = v.copied;
      alone = v.alone;
      flown = v.flown;
      filled = v.filled;
      stable = v.stable;
    }
Step-IsSafe _ _ (copies x dbn l r e) v =
    let (a, b) = All-without (λ k. k ≡ x.entry.dbn) dbn l r x.copying e v.copied in
    record {
      held = omega (arith, v.held, count_without dbn l r x.copying e);
      wanted = v.wanted;
      copied = a;
      alone = v.alone;
      flown = v.flown;
      filled = v.filled;
      stable = λ p. v.stable (omega (arith, count_without dbn l r x.copying e));
    }
Step-IsSafe _ _ (claims x dbn m e) v =
    let (em, h, f) = claim-some x.entry m dbn e in
    let none_on : x.dispatching + length x.in_flight ≡ 0 = idle_entry x v f in
    subst (λ t. IsSafe (record x { entry = t; dispatching = x.dispatching + 1 })) (sym em)
      (idle-IsSafe _ h (sym v.held ∙ h) refl (omega (arith, none_on)) (omega (arith, none_on)))
Step-IsSafe _ _ (dispatches x n e) v =
    let (one, busy) = sole x v (omega (arith, e)) in
    record {
      held = v.held;
      wanted = v.wanted;
      copied = v.copied;
      alone = omega (arith, e, v.alone);
      flown = (refl, v.flown);
      filled = λ t. absurd (both_ways busy t);
      stable = v.stable;
    }
Step-IsSafe _ _ (refused x n e) v =
    let (one, busy) = sole x v (omega (arith, e)) in
    record {
      held = v.held;
      wanted = v.wanted;
      copied = v.copied;
      alone = omega (arith, e, one);
      flown = v.flown;
      filled = λ t. absurd (cc t);
      stable = λ q. absurd (both_ways busy (v.stable q));
    }
Step-IsSafe _ _ (completes x error dbn l r e) v =
    let fewer : length x.in_flight ≡ suc (length (l ++ r)) = count_without dbn l r x.in_flight e in
    let (one, busy) = sole x v (omega (arith, fewer)) in
    let (rest, mine) = All-without (λ k. k ≡ x.entry.dbn) dbn l r x.in_flight e v.flown in
    record {
      held = v.held;
      wanted = v.wanted;
      copied = v.copied;
      alone = omega (arith, fewer, one, ended error);
      flown = rest;
      filled = λ t. completed dbn error t ∙ ap some mine;
      stable = λ q. absurd (both_ways busy (v.stable q));
    }
Step-IsSafe _ _ (resets x m e) v =
    let (em, h, f) = reset_meta-some x.entry m e in
    let none_on : x.dispatching + length x.in_flight ≡ 0 = idle_entry x v f in
    subst (λ t. IsSafe (record x { entry = t })) (sym em)
      (idle-IsSafe _ h (sym v.held ∙ h) refl (omega (arith, none_on)) (omega (arith, none_on)))

Steps-IsSafe : (x y : World) → Steps x y → IsSafe x → IsSafe y
Steps-IsSafe _ _ (stays x) v = v
Steps-IsSafe _ _ (goes x z y s t) v = Steps-IsSafe z y t (Step-IsSafe x z s v)

-- The entry as init_pfd_cache leaves it, before any reader.
abbrev pub IsFresh : World → Type 0
IsFresh x =
    (x.entry.status ≡ MetaStatus.empty)
    × (x.entry.hold_count ≡ 0)
    × (x.waiting ≡ [])
    × (x.copying ≡ [])
    × (x.dispatching ≡ 0)
    × (x.in_flight ≡ [])

-- After any steps from a fresh entry, a reader that copies finds the buffer as a whole read that was
-- dispatched for the block that it wants has filled it, no read writes to the buffer meanwhile, and
-- the entry is valid.
pub copying-loaded :
    (x y : World) (dbn : ℕ)
    → IsFresh x
    → Steps x y
    → In dbn y.copying
    → (y.loaded ≡ some dbn) × (y.in_flight ≡ []) × (y.entry.status ≡ MetaStatus.valid)
copying-loaded x y dbn (e, h, w, c, d, f) s u =
    let v : IsSafe y = Steps-IsSafe x y s (
      idle-IsSafe x h (ap₂ (λ a b. length a + length b) w c) (ap is_ready e)
        (d ∙ sym (ap preparing e)) (ap length f)) in
    let ready : is_ready y.entry.status ≡ true = v.stable (some_length dbn y.copying u) in
    let same : dbn ≡ y.entry.dbn = All-at (λ k. k ≡ y.entry.dbn) dbn y.copying v.copied u in
    let valid : y.entry.status ≡ MetaStatus.valid = ready_valid y.entry.status ready in
    let rest : y.dispatching + length y.in_flight ≡ 0 = v.alone ∙ ap preparing valid in
    (v.filled ready ∙ ap some (sym same), no_length y.in_flight (omega (arith, rest)), valid)
  where
    no_length : (xs : List ℕ) → length xs ≡ 0 → xs ≡ []
    no_length [] e = refl
    no_length (z ∷ zs) e = absurd (omega (arith, e))

    some_length : (k : ℕ) (xs : List ℕ) → In k xs → 0 < length xs
    some_length k [] i = absurd i
    some_length k (z ∷ zs) i = omega arith

    ready_valid : (t : MetaStatus) → is_ready t ≡ true → t ≡ MetaStatus.valid
    ready_valid MetaStatus.empty h = absurd (cc)
    ready_valid MetaStatus.prepare h = absurd (cc)
    ready_valid MetaStatus.valid h = refl
