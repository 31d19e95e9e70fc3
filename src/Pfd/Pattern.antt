-- ===== src/Pfd/Pattern.antt =====
-- What an entry of src/pfd_stat.c says about the requests that it took in.
use flashcache_ubuntu_xenial.Prelude.{
  ℕ, ◌+◌, ◌/◌, ◌^◌, ◌≤◌, ◌<◌, ◌≡◌, inl, inr, refl, sym, subst, ◌∙◌, if-true, if-false, if-eq, if-ne,
  ap, Bool, true, false, arith, ℤ, pos, negsuc, Option, ◌⊖◌, abs, Bool-cases, eq-cases, ◌==ℤ◌, ◌==◌,
  ltb, ◌&&◌,
}
use flashcache_ubuntu_xenial.Device.{CacheC}
use flashcache_ubuntu_xenial.Pfd.Stat.{
  PfdStat, curr_of, prev_of, observe, is_bio_fit_seq_stat, leave_run, reset_pfd_stat,
}
use flashcache_ubuntu_xenial.Pfd.Runs.{
  IsPattern, started, continued, restarted, jumped, jumped-IsPattern, forgot-IsPattern,
}

module _ (d : CacheC) where
  pub eq_ints : (a b : ℤ) → (a ==ℤ b) ≡ true → a ≡ b
  eq_ints (pos a) (pos b) e = ground (arith, e)
  eq_ints (negsuc a) (negsuc b) e = ground (arith, e)
  eq_ints (pos a) (negsuc b) e = absurd (cc)
  eq_ints (negsuc a) (pos b) e = absurd (cc)

  pub both : (a b : Bool) → (a && b) ≡ true → (a ≡ true) × (b ≡ true)
  both true true e = (refl, refl)
  both true false e = absurd (cc)
  both false b e = absurd (cc)

  as_pattern :
      (t u : PfdStat)
      → t ≡ u
      → IsPattern d u × (0 < (curr_of u).count)
      → IsPattern d t × (0 < (curr_of t).count)
  as_pattern t u e h = subst (λ w. IsPattern d w × (0 < (curr_of w).count)) (sym e) h

  left :
      (s : PfdStat) (sector : ℕ)
      → IsPattern d s
      → 0 < (curr_of s).count
      → IsPattern d (leave_run d s sector) × (0 < (curr_of (leave_run d s sector)).count)
  left s sector v some_run =
      let far : Bool =
        ltb (abs (sector ⊖ (curr_of s).start) / 2 ^ d.block_shift) (curr_of s).count in
      let next : Bool =
        (prev_of s).count == (curr_of s).count && (sector ⊖ (curr_of s).start) ==ℤ s.stride in
      elim (eq-cases (prev_of s).count 0) [
        | inl e ↦ elim (Bool-cases far) [
          | inl near ↦
              as_pattern _ _ (if-eq (prev_of s).count 0 _ _ e ∙ if-true far _ _ near)
                (restarted d s sector v some_run e)
          | inr away ↦
              as_pattern _ _ (if-eq (prev_of s).count 0 _ _ e ∙ if-false far _ _ away)
                (jumped-IsPattern d s sector v some_run 1 (omega arith) (ground (arith, away)))
        ]
        | inr ne ↦ elim (Bool-cases next) [
          | inl t ↦
              let (ec, es) = both ((prev_of s).count == (curr_of s).count) _ t in
              let stride : sector ⊖ (curr_of s).start ≡ s.stride = eq_ints _ _ es in
              let (_, _, long, n) = v.previous (omega (arith, ne)) in
              let same : (prev_of s).count ≡ (curr_of s).count = ground (arith, ec) in
              as_pattern _
                (jumped d s sector v some_run (sector ⊖ (curr_of s).start) (s.stride_count + 1))
                (if-ne (prev_of s).count 0 _ _ ne
                  ∙ if-true next _ _ t
                  ∙ ap (λ z. jumped d s sector v some_run z (s.stride_count + 1)) (sym stride))
                (jumped-IsPattern d s sector v some_run (s.stride_count + 1) (omega arith) (
                  subst (λ z. (curr_of s).count ≤ abs z / 2 ^ d.block_shift) (sym stride)
                    (subst (λ k. k ≤ abs s.stride / 2 ^ d.block_shift) same long)))
          | inr f ↦
              as_pattern _ _ (if-ne (prev_of s).count 0 _ _ ne ∙ if-false next _ _ f)
                (forgot-IsPattern d s sector v some_run)
        ]
      ]

-- A request keeps its entry well formed, and the current run is not empty after it.
pub observe-IsPattern :
    (d : CacheC) (s : PfdStat) (sector : ℕ)
    → IsPattern d s
    → IsPattern d (observe d s sector) × (0 < (curr_of (observe d s sector)).count)
unfolding observe
observe-IsPattern d s sector v = elim (eq-cases (curr_of s).count 0) [
  | inl e ↦ as_pattern d _ _ (if-eq (curr_of s).count 0 _ _ e) (started d s sector v e)
  | inr ne ↦ elim (Bool-cases (is_bio_fit_seq_stat d (curr_of s) sector)) [
    | inl t ↦
        as_pattern d _ _
          (if-ne (curr_of s).count 0 _ _ ne
            ∙ if-true (is_bio_fit_seq_stat d (curr_of s) sector) _ _ t)
          (continued d s sector v (omega (arith, ne)))
    | inr f ↦
        as_pattern d _ _
          (if-ne (curr_of s).count 0 _ _ ne
            ∙ if-false (is_bio_fit_seq_stat d (curr_of s) sector) _ _ f)
          (left d s sector v (omega (arith, ne)))
  ]
]

-- An entry that was reset is well formed.
pub reset_pfd_stat-IsPattern :
    (d : CacheC) (s : PfdStat) (p : ℤ) (t : Option ℕ)
    → IsPattern d (record (reset_pfd_stat s) { pid = p; tgt = t })
reset_pfd_stat-IsPattern d s p t = record {
  runs = inl (refl, refl);
  fresh = λ e. refl;
  no_previous = λ e. (refl, refl);
  previous = λ h. absurd (omega (arith, h));
}
