-- ===== src/Pfd/Search.antt =====
-- The entry that pfd_stat_queue_search looks for (src/pfd_stat.c).
use flashcache_ubuntu_xenial.Prelude.{
  ℕ, ◌≡◌, ◌≢◌, inl, inr, refl, sym, subst, ap, true, false, arith, if-true, if-false, Option, some,
  none, List, [], ◌∷◌, ◌++◌, All, In, In-middle, Bool-cases, Bool, if◌then◌else◌, ℤ, pos, negsuc,
  ◌==ℤ◌,
}
use flashcache_ubuntu_xenial.Device.{CacheC}
use flashcache_ubuntu_xenial.Pfd.Stat.{
  PfdStat, PfdStatQueue, is_of, is_tgt, reset_pfd_stat, is_unused,
}
use flashcache_ubuntu_xenial.Pfd.Pattern.{eq_ints, both}
use flashcache_ubuntu_xenial.Pfd.Queue.{found_in}

-- The entry is that of the process.
abbrev pub Owned : CacheC → ℤ → PfdStat → Type 0
Owned d pid s = (s.tgt ≡ some d.tgt) × (s.pid ≡ pid)

-- The entry is another process's.
abbrev pub Foreign : CacheC → ℤ → PfdStat → Type 0
Foreign d pid s = (s.tgt ≢ none) × (Owned d pid s → ⊥)

-- A list that begins with an unused entry, or is empty.
abbrev pub IsBlank : PfdStatQueue → List ℕ → Type 0
IsBlank q [] = Unit
IsBlank q (j ∷ r) = (q.stat_elms j).stat.tgt ≡ none

-- The process's entry, before which all are other processes'; or that there are only such ones up to
-- the first unused entry or the end.
abbrev pub IsFirst : CacheC → ℤ → PfdStatQueue → List ℕ → Option ℕ → Type 0
IsFirst d pid q xs (some i) =
    (l : List ℕ) × (r : List ℕ) × (xs ≡ l ++ i ∷ r)
    × All (λ j. Foreign d pid (q.stat_elms j).stat) l
    × Owned d pid (q.stat_elms i).stat
IsFirst d pid q xs none =
    (l : List ℕ) × (r : List ℕ) × (xs ≡ l ++ r)
    × All (λ j. Foreign d pid (q.stat_elms j).stat) l
    × IsBlank q r

same_tgt : (o : Option ℕ) (t : ℕ) → is_tgt o t ≡ true → o ≡ some t
same_tgt none t e = absurd (cc)
same_tgt (some a) t e = ap some (ground (arith, e))

is_of-Owned : (d : CacheC) (pid : ℤ) (s : PfdStat) → is_of d pid s ≡ true → Owned d pid s
is_of-Owned d pid s e =
    let (a, b) = both d (is_tgt s.tgt d.tgt) (s.pid ==ℤ pid) e in
    (same_tgt s.tgt d.tgt a, eq_ints d s.pid pid b)

Owned-is_of : (d : CacheC) (pid : ℤ) (s : PfdStat) → Owned d pid s → is_of d pid s ≡ true
Owned-is_of d pid s (t, p) = rw (t, p) (by_pid pid)
  where
    by_pid : (a : ℤ) → is_of d a (record s { tgt = some d.tgt; pid = a }) ≡ true
    by_pid (pos a) = ground arith
    by_pid (negsuc a) = ground arith

is_unused-none : (o : Option ℕ) → is_unused o ≡ true → o ≡ none
is_unused-none none e = refl
is_unused-none (some a) e = absurd (cc)

used : (o : Option ℕ) → is_unused o ≡ false → o ≢ none
used none e = absurd (cc)
used (some a) e = λ h. absurd (cc h)

not_both : {b : Bool} → b ≡ false → b ≡ true → ⊥
not_both e f = absurd (cc (e, f))

IsFirst-later :
    (d : CacheC) (pid : ℤ) (q : PfdStatQueue) (x : ℕ) (xs : List ℕ) (o : Option ℕ)
    → Foreign d pid (q.stat_elms x).stat
    → IsFirst d pid q xs o
    → IsFirst d pid q (x ∷ xs) o
IsFirst-later d pid q x xs none f (l, r, e, a, b) = (x ∷ l, r, ap (λ t. x ∷ t) e, (f, a), b)
IsFirst-later d pid q x xs (some i) f (l, r, e, a, b) = (x ∷ l, r, ap (λ t. x ∷ t) e, (f, a), b)

pub found_in-IsFirst :
    (d : CacheC) (pid : ℤ) (q : PfdStatQueue) (xs : List ℕ)
    → IsFirst d pid q xs (found_in q d pid xs)
found_in-IsFirst d pid q [] = ([], [], refl, tt, tt)
found_in-IsFirst d pid q (x ∷ xs) =
    let s = (q.stat_elms x).stat in
    let later = if is_unused s.tgt then none else found_in q d pid xs in
    elim (Bool-cases (is_of d pid s)) [
      | inl t ↦
          subst (λ o. IsFirst d pid q (x ∷ xs) o) (sym (if-true (is_of d pid s) (some x) later t))
            ([], xs, refl, tt, is_of-Owned d pid s t)
      | inr f ↦
          subst (λ o. IsFirst d pid q (x ∷ xs) o) (sym (if-false (is_of d pid s) (some x) later f))
            (elim (Bool-cases (is_unused s.tgt)) [
              | inl u ↦
                  subst (λ o. IsFirst d pid q (x ∷ xs) o)
                    (sym (if-true (is_unused s.tgt) none (found_in q d pid xs) u))
                    ([], x ∷ xs, refl, tt, is_unused-none s.tgt u)
              | inr u ↦
                  subst (λ o. IsFirst d pid q (x ∷ xs) o)
                    (sym (if-false (is_unused s.tgt) none (found_in q d pid xs) u))
                    (IsFirst-later d pid q x xs (found_in q d pid xs)
                      (used s.tgt u, λ o. not_both f (Owned-is_of d pid s o))
                      (found_in-IsFirst d pid q xs))
            ])
    ]

pub IsFirst-In :
    (d : CacheC) (pid : ℤ) (q : PfdStatQueue) (xs : List ℕ) (i : ℕ)
    → IsFirst d pid q xs (some i)
    → In i xs
IsFirst-In d pid q xs i (l, r, e, a, o) = subst (λ t. In i t) (sym e) (In-middle i l r)

-- What a request takes over: the entry that is found, or the last one of the queue, reset for the
-- process.
abbrev pub IsTaken : CacheC → ℤ → PfdStatQueue → Option ℕ → ℕ → PfdStat → Type 0
IsTaken d pid q (some j) i old = (i ≡ j) × (old ≡ (q.stat_elms j).stat)
IsTaken d pid q none i old =
    (i ≡ q.tail)
    × (old ≡ record (reset_pfd_stat (q.stat_elms q.tail).stat) { pid = pid; tgt = some d.tgt })
