-- ===== src/Ioctl/Skip.antt =====
-- skip_sequential_io as a whole (src/flashcache_ioctl.c).
use flashcache_ubuntu_xenial.Prelude.{
  ℕ, zero, suc, ◌≤◌, ◌<◌, ◌≡◌, ◌⊎◌, inl, inr, refl, sym, subst, ap, ◌∙◌, Bool, true, false, arith,
  if-eq, if-ne, Option, some, ◌>>=◌, bind-some, List, [], ◌∷◌, ◌++◌, In, In-split, In-middle,
  ne_of_NotIn, length, length-middle, eq-cases,
}
use flashcache_ubuntu_xenial.Links.Segments.{Seg, Seg-frame, last-In}
use flashcache_ubuntu_xenial.Ioctl.Sequential.{
  SeqState, SequentialIo, Match, nil, queue_depth, put_io, match_of, find_flow, unless_head,
  conclude, take_in, skip_sequential_io, is_long,
}
use flashcache_ubuntu_xenial.Ioctl.Flows.{next_of, prev_of, IsFlows, seq_io_move_to_lruhead-IsFlows}

-- What the search finds: a flow of the list, unless it says that none is related.
abbrev Found : List ℕ → Option (ℕ × Match) → Type 0
Found xs o = (i : ℕ) × (m : Match) × (o ≡ some (i, m)) × ((m ≡ Match.unrelated) ⊎ In i xs)

find_flow-Found :
    (fuel : ℕ) (s : SeqState) (sector p h : ℕ) (xs : List ℕ) (q : ℕ)
    → Seg nil (next_of s) (prev_of s) p h xs q nil
    → length xs < fuel
    → Found xs (find_flow fuel s sector h)
unfolding find_flow
find_flow-Found zero s sector p h xs q l f = absurd (omega (arith, f))
find_flow-Found (suc fuel) s sector p h [] q l f =
    (nil, Match.unrelated, if-eq h nil _ _ l.0, inl refl)
find_flow-Found (suc fuel) s sector p h (x ∷ xs) q l f =
    let (i, m, e, c) =
      go (match_of s sector (s.seq_recent_ios x))
        (find_flow-Found fuel s sector x (next_of s x) xs q l.3 (omega (arith, f))) in
    (
      i,
      m,
      if-ne h nil _ _ (rw (l.0) l.1)
          ∙ ap
              (λ k. elim (match_of s sector (s.seq_recent_ios k)) [
                | Match.repeated ↦ some (k, Match.repeated)
                | Match.sequential ↦ some (k, Match.sequential)
                | Match.unrelated ↦ find_flow fuel s sector (s.seq_recent_ios k).next
              ])
              (l.0)
          ∙ e,
      c,
    )
  where
    go :
        (m : Match)
        → Found xs (find_flow fuel s sector (next_of s x))
        → Found (x ∷ xs) (elim m [
          | Match.repeated ↦ some (x, Match.repeated)
          | Match.sequential ↦ some (x, Match.sequential)
          | Match.unrelated ↦ find_flow fuel s sector (next_of s x)
        ])
    go Match.repeated r = (x, Match.repeated, refl, inr (inl refl))
    go Match.sequential r = (x, Match.sequential, refl, inr (inl refl))
    go Match.unrelated (i, m, e, inl u) = (i, m, e, inl u)
    go Match.unrelated (i, m, e, inr u) = (i, m, e, inr (inr u))

-- A flow's data is rewritten.
put_io-IsFlows :
    (s : SeqState) (i : ℕ) (e : SequentialIo) (xs : List ℕ)
    → e.next ≡ next_of s i
    → e.prev ≡ prev_of s i
    → IsFlows s xs
    → IsFlows (put_io s i e) xs
put_io-IsFlows s i e xs a b c = (
  Seg-frame nil (next_of s) (prev_of s) (next_of (put_io s i e)) (prev_of (put_io s i e)) nil
      s.seq_io_head xs s.seq_io_tail nil (λ j u. (ground (arith, a), ground (arith, b))) c.0,
  c.1,
)

unless_head-IsFlows :
    (s : SeqState) (i z : ℕ) (l r zs : List ℕ)
    → IsFlows s (l ++ i ∷ r)
    → l ++ r ≡ z ∷ zs
    → (s' : SeqState) × (unless_head s i ≡ some s') × IsFlows s' (i ∷ (l ++ r))
unless_head-IsFlows s i z [] r zs c e = (s, if-eq s.seq_io_head i _ _ (c.0.0), c)
unless_head-IsFlows s i z (x ∷ l) r zs c e =
    let (s', es, c') = seq_io_move_to_lruhead-IsFlows s i z (x ∷ l) r zs c e in
    (
      s',
      if-ne s.seq_io_head i _ _
            (λ h. ne_of_NotIn x i (l ++ i ∷ r) c.1.0 (In-middle i l r) (sym c.0.0 ∙ h))
          ∙ es,
      c',
    )

-- One flow is first, and the others keep their order.
abbrev pub Fronted : List ℕ → Option (SeqState × Bool) → Type 0
Fronted xs o =
    (s' : SeqState) × (skip : Bool) × (i : ℕ) × (l : List ℕ) × (r : List ℕ) × (o ≡ some (s', skip))
    × (xs ≡ l ++ i ∷ r)
    × IsFlows s' (i ∷ (l ++ r))

several :
    (xs l r : List ℕ) (i : ℕ)
    → xs ≡ l ++ i ∷ r
    → 2 ≤ length xs
    → (z : ℕ) × (zs : List ℕ) × (l ++ r ≡ z ∷ zs)
several xs l r i e h = nonempty (l ++ r) (omega (arith, h, ap length e, length-middle i l r))
  where
    nonempty : (ys : List ℕ) → 1 ≤ length ys → (z : ℕ) × (zs : List ℕ) × (ys ≡ z ∷ zs)
    nonempty [] k = absurd (omega (arith, k))
    nonempty (y ∷ ys) k = (y, ys, refl)

module _ (s : SeqState) (sector x : ℕ) (xs : List ℕ) (c : IsFlows s (x ∷ xs))
    (h : 2 ≤ length (x ∷ xs)) where
  tail-Fronted : Fronted (x ∷ xs) (take_in s sector (nil, Match.unrelated))
  unfolding take_in
  tail-Fronted =
      let t : ℕ = s.seq_io_tail in
      let u : In t (x ∷ xs) =
        last-In nil (next_of s) (prev_of s) nil s.seq_io_head x xs t nil c.0 in
      let (l, r, e) = In-split t (x ∷ xs) u in
      let (z, zs, ez) = several (x ∷ xs) l r t e h in
      let (s', es, c') =
        seq_io_move_to_lruhead-IsFlows s t z l r zs (subst (λ k. IsFlows s k) e c) ez in
      (
        _,
        false,
        t,
        l,
        r,
        bind-some _ _ s' _ es refl,
        e,
        put_io-IsFlows s' t _ (t ∷ (l ++ r)) refl refl c',
      )

  fronted :
      (i : ℕ) (m : Match)
      → (m ≡ Match.unrelated) ⊎ In i (x ∷ xs)
      → Fronted (x ∷ xs) (take_in s sector (i, m))
  unfolding take_in
  fronted i Match.unrelated u = tail-Fronted
  fronted i Match.repeated (inl e) = absurd (cc)
  fronted i Match.sequential (inl e) = absurd (cc)
  fronted i Match.repeated (inr u) =
      let (l, r, e) = In-split i (x ∷ xs) u in
      let (z, zs, ez) = several (x ∷ xs) l r i e h in
      let (s', es, c') = unless_head-IsFlows s i z l r zs (subst (λ k. IsFlows s k) e c) ez in
      (s', false, i, l, r, bind-some _ _ s' _ es refl, e, c')
  fronted i Match.sequential (inr u) =
      let (l, r, e) = In-split i (x ∷ xs) u in
      let (z, zs, ez) = several (x ∷ xs) l r i e h in
      let (s', es, c') =
        unless_head-IsFlows (put_io s i _) i z l r zs
          (put_io-IsFlows s i _ (l ++ i ∷ r) refl refl (subst (λ k. IsFlows s k) e c)) ez in
      (s', is_long s' i, i, l, r, bind-some _ _ s' _ es refl, e, c')

concluded :
    (is_read : Bool) (xs : List ℕ) (o : Option (SeqState × Bool))
    → Fronted xs o
    → Fronted xs (o >>= λ r. some (conclude is_read r))
concluded true xs o (s', true, i, l, r, e, ex, c) =
    (_, true, i, l, r, bind-some _ _ (s', true) _ e refl, ex, c)
concluded false xs o (s', true, i, l, r, e, ex, c) =
    (_, true, i, l, r, bind-some _ _ (s', true) _ e refl, ex, c)
concluded b xs o (s', false, i, l, r, e, ex, c) =
    (s', false, i, l, r, bind-some _ _ (s', false) _ e refl, ex, c)

-- A request on a queue of 2 to 32 flows: the search ends within its fuel, no assertion fails, and the
-- queue stays a list of the same flows, of which one is first and the others keep their order.
pub skip_sequential_io-Fronted :
    (s : SeqState) (sector x : ℕ) (xs : List ℕ) (is_read : Bool)
    → IsFlows s (x ∷ xs)
    → 2 ≤ length (x ∷ xs)
    → length (x ∷ xs) ≤ queue_depth
    → Fronted (x ∷ xs) (skip_sequential_io s sector is_read)
unfolding skip_sequential_io
skip_sequential_io-Fronted s sector x xs is_read c h few =
    elim (eq-cases s.sysctl_skip_seq_thresh_kb 0) [
      | inl e ↦ (s, false, x, [], xs, if-eq s.sysctl_skip_seq_thresh_kb 0 _ _ e, refl, c)
      | inr ne ↦
          let (i, m, ef, u) =
            find_flow-Found (suc queue_depth) s sector nil s.seq_io_head (x ∷ xs) s.seq_io_tail c.0
              (omega (arith, few)) in
          subst (λ o. Fronted (x ∷ xs) o)
            (sym (
              if-ne s.sysctl_skip_seq_thresh_kb 0 _ _ ne
              ∙ ap (λ o. o >>= λ t. take_in s sector t >>= λ r. some (conclude is_read r)) ef))
            (concluded is_read (x ∷ xs) (take_in s sector (i, m)) (fronted s sector x xs c h i m u))
    ]
