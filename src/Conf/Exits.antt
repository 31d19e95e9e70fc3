-- ===== src/Conf/Exits.antt =====
-- What every result of a call satisfies: no panic, a property of the value where it goes on, and a
-- return of 1 only where one is allowed.
use flashcache_ubuntu_xenial.Prelude.{◌≡◌, refl, suc, Bool, true, false, not, arith}
use flashcache_ubuntu_xenial.Conf.Machine.{
  Machine, Exit, ok, failed, panic, ◌>>=◌, verify, unless_failed, vmalloc, read_io, next_io,
}

module _ {A : Type 0} where
  abbrev pub Ends : Type 0 → (A → Type 0) → Exit A → Type 0
  Ends F P (ok a) = P a
  Ends F P (failed x) = F
  Ends F P panic = ⊥

  pub Ends-verify :
      (F : Type 0) (P : A → Type 0) (b : Bool) (a : A) → b ≡ true → P a → Ends F P (verify b a)
  Ends-verify F P true a e p = p
  Ends-verify F P false a e p = absurd (cc e)

  pub Ends-unless :
      (F : Type 0) (P : A → Type 0) (b : Bool) (x : Machine) (a : A)
      → (b ≡ true → F)
      → (b ≡ false → P a)
      → Ends F P (unless_failed b x a)
  Ends-unless F P true x a f p = f refl
  Ends-unless F P false x a f p = p refl

  pub Ends-map :
      (F G : Type 0) (P Q : A → Type 0) (m : Exit A)
      → (F → G)
      → ((a : A) → P a → Q a)
      → Ends F P m
      → Ends G Q m
  Ends-map F G P Q (ok a) f g p = g a p
  Ends-map F G P Q (failed x) f g p = f p
  Ends-map F G P Q panic f g p = absurd p

  -- A call that may not return 1 goes on.
  pub Ends-ok : (P : A → Type 0) (m : Exit A) → Ends ⊥ P m → (a : A) × (m ≡ ok a) × P a
  Ends-ok P (ok a) p = (a, refl, p)
  Ends-ok P (failed x) p = absurd p
  Ends-ok P panic p = absurd p

  pub Ends-at : (F : Type 0) (P : A → Type 0) (m : Exit A) (a : A) → m ≡ ok a → Ends F P m → P a
  Ends-at F P m a e p = aux m e p
    where
      aux : (m : Exit A) → m ≡ ok a → Ends F P m → P a
      aux (ok b) e p = rw (sym_ok b e) p
        where
          sym_ok : (b : A) → ok b ≡ ok a → a ≡ b
          sym_ok b e = cc e
      aux (failed x) e p = absurd (cc e)
      aux panic e p = absurd (cc e)

pub Ends-bind :
    {A B : Type 0} (F : Type 0) (P : A → Type 0) (Q : B → Type 0) (m : Exit A) (f : A → Exit B)
    → Ends F P m
    → ((a : A) → P a → Ends F Q (f a))
    → Ends F Q (m >>= f)
Ends-bind F P Q (ok a) f p h = h a p
Ends-bind F P Q (failed x) f p h = p
Ends-bind F P Q panic f p h = absurd p

-- The calls that go on or return 1, and what follows them.
module _ {A : Type 0} (F : Type 0) (P : A → Type 0) where
  pub unless-then :
      (b : Bool) (x y : Machine) (f : Machine → Exit A)
      → (b ≡ true → F)
      → (b ≡ false → Ends F P (f y))
      → Ends F P (unless_failed b x y >>= f)
  unless-then true x y f h p = h refl
  unless-then false x y f h p = p refl

  pub vmalloc-then :
      (x : Machine) (f : Machine → Exit A)
      → (x.can_vmalloc x.vmallocs ≡ false → F)
      → Ends F P (f (record x { vmallocs = suc x.vmallocs }))
      → Ends F P (vmalloc x >>= f)
  vmalloc-then x f h p =
      let y : Machine = record x { vmallocs = suc x.vmallocs } in
      unless-then (not (x.can_vmalloc x.vmallocs)) y y f (λ e. h (ground (arith, e))) (λ e. p)

  pub read_io-then :
      (x : Machine) (f : Machine → Exit A)
      → (x.io_error x.ios ≡ true → F)
      → Ends F P (f (next_io x))
      → Ends F P (read_io x >>= f)
  read_io-then x f h p = unless-then (x.io_error x.ios) (next_io x) (next_io x) f h (λ e. p)
