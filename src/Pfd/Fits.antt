-- ===== src/Pfd/Fits.antt =====
-- The blocks that src/pfd_stat.c asks for lie on the disk, and they are few.
use native.Mathlib.Nat.{le-div_iff_mul-le, one-le-pow}
use flashcache_ubuntu_xenial.Prelude.{
  ℕ, zero, suc, ◌+◌, ◌-◌, ◌*◌, ◌/◌, ◌^◌, ◌≤◌, ◌<◌, ◌≡◌, ◌⊎◌, refl, sym, subst, ap, ◌∙◌, inl, inr,
  false, arith, Option, some, ltb, leb, ◌==◌, if◌then◌else◌, if-true, if-false, if-eq, if-ne,
  Bool-cases, eq-cases, ℤ, pos, negsuc, ◌+ℤ◌, abs, List, [], All, length,
}
use flashcache_ubuntu_xenial.Device.{CacheC}
use flashcache_ubuntu_xenial.Pfd.Stat.{PfdStat, PfdStatInfo, info_of}
use flashcache_ubuntu_xenial.Pfd.Dbns.{
  neg, beyond, is_negative, write_entry, add_entry, straight, forward, backward, start_backward,
  bounded_steps, by_stride, enough_fuel, max_steps, threshold_step, pfd_stat_get_prefetch_dbns,
}
use flashcache_ubuntu_xenial.Pfd.Runs.{IsPattern}

abbrev OnDisk : CacheC → List ℕ → Type 0
OnDisk d xs = All (λ k. k < d.disk_sects) xs

-- From the index `i` on: at most `cap` blocks, all of them in the array. Going forwards they lie on
-- the disk.
abbrev Ahead : CacheC → ℕ → ℕ → ℤ × List ℕ → Type 0
Ahead d cap i r = (k : ℕ) × (r.0 ≡ pos k) × (k ≤ cap) × (k ≤ i + length r.1) × OnDisk d r.1

abbrev Behind : ℕ → ℕ → ℤ × List ℕ → Type 0
Behind cap i r = (k : ℕ) × (r.0 ≡ neg k) × (k ≤ cap) × (k ≤ i + length r.1)

stop-Ahead : (d : CacheC) (cap i k : ℕ) → k ≤ cap → k ≤ i → Ahead d cap i (pos k, [])
stop-Ahead d cap i k h l = (k, refl, h, omega (arith, l), tt)

step-Ahead :
    (d : CacheC) (cap i m : ℕ) (r : ℤ × List ℕ)
    → beyond (pos m) d.disk_sects ≡ false
    → Ahead d cap (i + 1) r
    → Ahead d cap i (write_entry (pos m) r)
step-Ahead d cap i m r f (k, e, h, l, a) = (k, e, h, omega (arith, l), (ground (arith, f), a))

step-Behind :
    (cap i : ℕ) (dbn : ℤ) (r : ℤ × List ℕ) → Behind cap (i + 1) r → Behind cap i (write_entry dbn r)
step-Behind cap i dbn r (k, e, h, l) = (k, e, h, omega (arith, l))

straight-Ahead :
    (d : CacheC) (left i m cap : ℕ) → i + left ≤ cap → Ahead d cap i (straight d left i (pos m))
unfolding straight
straight-Ahead d zero i m cap h = stop-Ahead d cap i i (omega (arith, h)) (omega arith)
straight-Ahead d (suc left) i m cap h =
    elim (Bool-cases (beyond (pos (m + d.block_size)) d.disk_sects)) [
      | inl t ↦
          subst (λ r. Ahead d cap i r) (sym (if-true _ _ _ t))
            (stop-Ahead d cap i i (omega (arith, h)) (omega arith))
      | inr f ↦
          subst (λ r. Ahead d cap i r) (sym (if-false _ _ _ f))
            (step-Ahead d cap i (m + d.block_size) _ f
              (straight-Ahead d left (i + 1) (m + d.block_size) cap (omega (arith, h))))
    ]

-- A stride that is not shorter than the run leads on.
shorten : (s t m : ℕ) → t ≤ s → pos m +ℤ (pos s +ℤ neg t) ≡ pos (m + (s - t))
shorten s t m h = elim (eq-cases t 0) [
  | inl e ↦ ground (arith, e, h)
  | inr ne ↦ ground (arith, ne, h)
]

-- The fuel that is left when `j` blocks of the run are done.
abbrev Enough : ℕ → ℕ → ℕ → ℕ → ℕ → Type 0
Enough fuel cap i j total = 2 * (cap - i) + (if ltb j total then 1 else 2) ≤ fuel

forward-Ahead :
    (fuel : ℕ) (d : CacheC) (info : PfdStatInfo) (cap i j m s : ℕ)
    → 0 < info.seq_total_count
    → info.stride_distance_sect ≡ pos s
    → info.seq_total_count * 2 ^ d.block_shift ≤ s
    → i ≤ cap
    → Enough fuel cap i j info.seq_total_count
    → (r : ℤ × List ℕ) × (forward fuel d info cap i j (pos m) ≡ some r) × Ahead d cap i r
unfolding forward
forward-Ahead zero d info cap i j m s p es wide h f = absurd (ground (arith, f))
forward-Ahead (suc fuel) d info cap i j m s p es wide h f =
    let m' : ℕ = m + d.block_size in
    elim (Bool-cases (ltb j info.seq_total_count)) [
      | inl inside ↦ elim (Bool-cases (leb cap i)) [
        | inl done ↦ (
          (pos cap, []),
          if-true _ _ _ inside ∙ if-true _ _ _ done,
          stop-Ahead d cap i cap (omega arith) (ground (arith, done)),
        )
        | inr more ↦ elim (Bool-cases (beyond (pos m') d.disk_sects)) [
          | inl t ↦ (
            (pos i, []),
            if-true _ _ _ inside ∙ if-false _ _ _ more ∙ if-true _ _ _ t,
            stop-Ahead d cap i i h (omega arith),
          )
          | inr on ↦
              let (r, e, a) =
                forward-Ahead fuel d info cap (i + 1) (j + 1) m' s p es wide (ground (arith, more))
                  (ground (arith, f, inside, more)) in
              (
                write_entry (pos m') r,
                if-true _ _ _ inside
                    ∙ if-false _ _ _ more
                    ∙ if-false _ _ _ on
                    ∙ ap (add_entry (pos m')) e,
                step-Ahead d cap i m' r on a,
              )
        ]
      ]
      | inr outside ↦
          let next : ℕ = m + (s - info.seq_total_count * 2 ^ d.block_shift) in
          let (r, e, a) =
            forward-Ahead fuel d info cap i 0 next s p es wide h (ground (arith, f, outside, p)) in
          (
            r,
            if-false _ _ _ outside
                ∙ ap
                    (λ z.
                      forward fuel d info cap i 0
                        (pos m +ℤ (z +ℤ neg (info.seq_total_count * 2 ^ d.block_shift))))
                    es
                ∙ ap (λ z. forward fuel d info cap i 0 z) (shorten s _ m wide)
                ∙ e,
            a,
          )
    ]

backward-Behind :
    (fuel : ℕ) (d : CacheC) (info : PfdStatInfo) (cap skip i j : ℕ) (dbn : ℤ)
    → 0 < info.seq_total_count
    → i ≤ cap
    → Enough fuel cap i j info.seq_total_count
    → (r : ℤ × List ℕ) × (backward fuel d info cap skip i j dbn ≡ some r) × Behind cap i r
unfolding backward
backward-Behind zero d info cap skip i j dbn p h f = absurd (ground (arith, f))
backward-Behind (suc fuel) d info cap skip i j dbn p h f =
    let dbn' : ℤ = dbn +ℤ neg d.block_size in
    elim (Bool-cases (ltb j info.seq_total_count)) [
      | inl inside ↦ elim (Bool-cases (leb cap i)) [
        | inl done ↦ (
          (neg cap, []),
          if-true _ _ _ inside ∙ if-true _ _ _ done,
          (cap, refl, omega arith, ground (arith, done)),
        )
        | inr more ↦ elim (Bool-cases (is_negative dbn')) [
          | inl t ↦ (
            (neg (i - j), []),
            if-true _ _ _ inside ∙ if-false _ _ _ more ∙ if-true _ _ _ t,
            (i - j, refl, omega (arith, h), omega arith),
          )
          | inr on ↦
              let (r, e, a) =
                backward-Behind fuel d info cap skip (i + 1) (j + 1) dbn' p (ground (arith, more))
                  (ground (arith, f, inside, more)) in
              (
                write_entry dbn' r,
                if-true _ _ _ inside
                    ∙ if-false _ _ _ more
                    ∙ if-false _ _ _ on
                    ∙ ap (add_entry dbn') e,
                step-Behind cap i dbn' r a,
              )
        ]
      ]
      | inr outside ↦
          let (r, e, a) =
            backward-Behind fuel d info cap 0 i 0 _ p h (ground (arith, f, outside, p)) in
          (r, if-false _ _ _ outside ∙ e, a)
    ]

start-Behind :
    (d : CacheC) (info : PfdStatInfo) (cap : ℕ)
    → 0 < info.seq_total_count
    → cap ≤ max_steps
    → (r : ℤ × List ℕ) × (start_backward enough_fuel d info cap ≡ some r) × Behind cap 0 r
unfolding start_backward
start-Behind d info cap p h = elim (Bool-cases (info.seq_total_count == info.seq_count)) [
  | inl t ↦
      let (r, e, a) =
        backward-Behind enough_fuel d info cap 0 0 0 _ p (omega arith) (ground (arith, h, p)) in
      (r, if-true _ _ _ t ∙ e, a)
  | inr f ↦
      let (r, e, a) =
        backward-Behind enough_fuel d info cap info.seq_count 0 info.seq_count _ p (omega arith)
          (ground (arith, h)) in
      (r, if-false _ _ _ f ∙ e, a)
]

few : (info : PfdStatInfo) (steps : ℕ) → bounded_steps info steps ≤ max_steps
few info steps = ground arith

-- The two outcomes for a pattern: blocks ahead on the disk, or blocks behind for a stride backwards.
abbrev pub Fits : CacheC → Option (ℤ × List ℕ) → Type 0
Fits d o = (r : ℤ × List ℕ) × (o ≡ some r) × (Ahead d max_steps 0 r ⊎ Behind max_steps 0 r)

pow-pos : (k : ℕ) → 0 < 2 ^ k
pow-pos k = omega (arith, one-le-pow k 2 (omega arith))

wide_enough : (t s p : ℕ) → 0 < p → t ≤ s / p → t * p ≤ s
wide_enough t s p h l = (le-div_iff_mul-le h).0 l

by_stride-Fits :
    (d : CacheC) (info : PfdStatInfo) (cap : ℕ) (z : ℤ)
    → 0 < info.seq_total_count
    → cap ≤ max_steps
    → info.stride_distance_sect ≡ z
    → info.seq_total_count ≤ abs z / 2 ^ d.block_shift
    → Fits d (by_stride d info cap z)
unfolding by_stride
by_stride-Fits d info cap (pos zero) p h e w =
    ((pos 0, []), refl, inl (0, refl, omega arith, omega arith, tt))
by_stride-Fits d info cap (pos (suc n)) p h e w =
    let (r, er, (k, ek, a, b, o)) =
      forward-Ahead enough_fuel d info cap 0 info.seq_count info.last_sect (suc n) p e
        (wide_enough info.seq_total_count (suc n) (2 ^ d.block_shift) (pow-pos d.block_shift) w)
        (omega arith) (ground (arith, h)) in
    (r, er, inl (k, ek, omega (arith, a, h), b, o))
by_stride-Fits d info cap (negsuc n) p h e w =
    let (r, er, (k, ek, a, b)) = start-Behind d info cap p h in
    (r, er, inr (k, ek, omega (arith, a, h), b))

-- For every well-formed entry the computation ends within its fuel with at most 256 blocks, all of
-- them written to the array; forwards, every block written lies on the disk.
pub pfd_stat_get_prefetch_dbns-Fits :
    (d : CacheC) (s : PfdStat) (sector : ℕ)
    → IsPattern d s
    → Fits d (pfd_stat_get_prefetch_dbns d (info_of s sector))
unfolding pfd_stat_get_prefetch_dbns
pfd_stat_get_prefetch_dbns-Fits d s sector v =
    let info : PfdStatInfo = info_of s sector in
    let steps : ℕ = info.stride_count * info.seq_total_count + info.seq_count in
    let cap : ℕ = bounded_steps info steps in
    elim (Bool-cases (ltb steps threshold_step)) [
      | inl t ↦ ((pos 0, []), if-true _ _ _ t, inl (0, refl, omega arith, omega arith, tt))
      | inr f ↦ elim (eq-cases info.seq_total_count 0) [
        | inl e ↦ (
          straight d cap 0 (pos sector),
          if-false _ _ _ f ∙ if-eq info.seq_total_count 0 _ _ e,
          inl (straight-Ahead d cap 0 sector max_steps (omega (arith, few info steps))),
        )
        | inr ne ↦
            let (_, _, w, _) = v.previous (omega (arith, ne)) in
            let (r, er, a) =
              by_stride-Fits d info cap s.stride (omega (arith, ne)) (few info steps) refl w in
            (r, if-false _ _ _ f ∙ if-ne info.seq_total_count 0 _ _ ne ∙ er, a)
      ]
    ]
