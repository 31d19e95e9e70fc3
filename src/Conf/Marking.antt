-- ===== src/Conf/Marking.antt =====
-- The end of flashcache_writeback_load: the superblock is marked DIRTY (src/flashcache_conf.c).
use flashcache_ubuntu_xenial.Prelude.{
  ℕ, suc, ◌+◌, ◌<◌, ◌≤◌, ◌≡◌, ◌≢◌, refl, sym, ap, subst, ◌∙◌, ◌⊎◌, inl, inr, Bool, true, false, not,
  if-true, if-eq, if-ne, arith, eq-cases,
}
use flashcache_ubuntu_xenial.Io.Jobs.{MdSlot}
use flashcache_ubuntu_xenial.Conf.Machine.{
  Machine, Exit, ok, ◌>>=◌, SbState, Superblock, default_md_block_size, flashcache_version,
  md_slots_per_block, metadata_io_num_blocks, write_superblock, vmalloc, lands, is_dirty_sb,
}
use flashcache_ubuntu_xenial.Conf.Load.{
  versioned, is_known_sb, header_memory, dirty_header, put_superblock,
}
use flashcache_ubuntu_xenial.Conf.Exits.{Ends, Ends-unless, Ends-bind, vmalloc-then}
use flashcache_ubuntu_xenial.Conf.Loading.{IsLoaded, IsProper}
use flashcache_ubuntu_xenial.Conf.Reading.{FailedIo}

-- The slot of block k, where the superblock says.
abbrev pub slot_on : Machine → ℕ → MdSlot
slot_on x k = x.slots (md_slots_per_block (versioned x.superblock).md_block_size + k)

abbrev pub was_clean : Machine → Bool
was_clean x = not (is_dirty_sb (versioned x.superblock).cache_sb_state)

-- The load has the sizes of the superblock and the blocks of the slots, which it leaves alone.
pub record IsTaken (x y : Machine) : Type 0 where
  pub size : y.dmc.size ≡ (versioned x.superblock).size
  pub block_size : y.dmc.block_size ≡ (versioned x.superblock).block_size
  pub assoc : y.dmc.assoc ≡ (versioned x.superblock).assoc
  pub md_block_size : y.dmc.md_block_size ≡ (versioned x.superblock).md_block_size
  pub version : y.dmc.on_ssd_version ≡ (versioned x.superblock).cache_version
  pub slots : y.slots ≡ x.slots
  pub io_error : y.io_error ≡ x.io_error
  pub can_vmalloc : y.can_vmalloc ≡ x.can_vmalloc
  pub blocks :
      (k : ℕ)
      → k < (versioned x.superblock).size
      → IsLoaded (was_clean x) (slot_on x k) (y.dmc.cache k)

-- The load is complete: the superblock says so, and that the cache is in use.
pub record IsReloaded (x y : Machine) : Type 0 where
  pub taken : IsTaken x y
  pub state : y.superblock.cache_sb_state ≡ SbState.dirty
  pub same_size : y.superblock.size ≡ (versioned x.superblock).size
  pub same_md_block_size : y.superblock.md_block_size ≡ (versioned x.superblock).md_block_size
  pub same_version : y.superblock.cache_version ≡ (versioned x.superblock).cache_version
  pub write_only :
      (versioned x.superblock).md_block_size ≡ default_md_block_size
      → y.superblock.write_only_cache ≡ x.superblock.write_only_cache

-- What the load relies on: a superblock that it accepts, and slots that the module writes.
pub record IsLoadable (x : Machine) : Type 0 where
  pub version : (versioned x.superblock).cache_version ≤ flashcache_version
  pub known : is_known_sb (versioned x.superblock).cache_sb_state ≡ true
  pub some : 0 < (versioned x.superblock).md_block_size
  pub room : 0 < metadata_io_num_blocks (versioned x.superblock).md_block_size
  pub proper : (k : ℕ) → k < (versioned x.superblock).size → IsProper (slot_on x k)

-- A read, a write or an allocation failed.
abbrev pub Failure : Machine → Type 0
Failure x = FailedIo x ⊎ ((n : ℕ) × (x.can_vmalloc n ≡ false))

put_superblock-IsReloaded :
    (x y : Machine) (m : Superblock)
    → IsTaken x y
    → (m.write_only_cache ≡ x.superblock.write_only_cache
        ⊎ ((versioned x.superblock).md_block_size ≢ default_md_block_size))
    → Ends (Failure x) (IsReloaded x) (put_superblock (dirty_header y m) y)
put_superblock-IsReloaded x y m t w =
    let h = dirty_header y m in
    let z = (write_superblock y h).0 in
    Ends-unless (Failure x) (IsReloaded x) (y.io_error y.ios) z z
      (λ e. inl (y.ios, ap (λ f. f y.ios) (sym t.io_error) ∙ e))
      (λ e.
        let wrote : z.superblock ≡ h = if-true (lands y 0) h y.superblock (ground (arith, e)) in
        record {
          taken = record {
            size = t.size;
            block_size = t.block_size;
            assoc = t.assoc;
            md_block_size = t.md_block_size;
            version = t.version;
            slots = t.slots;
            io_error = t.io_error;
            can_vmalloc = t.can_vmalloc;
            blocks = t.blocks;
          };
          state = ap (λ (s : Superblock). s.cache_sb_state) wrote;
          same_size = ap (λ (s : Superblock). s.size) wrote ∙ t.size;
          same_md_block_size = ap (λ (s : Superblock). s.md_block_size) wrote ∙ t.md_block_size;
          same_version = ap (λ (s : Superblock). s.cache_version) wrote ∙ t.version;
          write_only = λ d.
              ap (λ (s : Superblock). s.write_only_cache) wrote
              ∙ elim w [ inl q ↦ q | inr n ↦ absurd (n d) ];
        })

versioned-write_only : (h : Superblock) → (versioned h).write_only_cache ≡ h.write_only_cache
versioned-write_only h = elim (eq-cases h.cache_version 1) [
  | inl e ↦ ap (λ (s : Superblock). s.write_only_cache) (if-eq h.cache_version 1 _ h e)
  | inr n ↦ ap (λ (s : Superblock). s.write_only_cache) (if-ne h.cache_version 1 _ h n)
]

IsTaken-vmalloc : (x y : Machine) → IsTaken x y → IsTaken x (record y { vmallocs = suc y.vmallocs })
IsTaken-vmalloc x y t = record {
  size = t.size;
  block_size = t.block_size;
  assoc = t.assoc;
  md_block_size = t.md_block_size;
  version = t.version;
  slots = t.slots;
  io_error = t.io_error;
  can_vmalloc = t.can_vmalloc;
  blocks = t.blocks;
}

pub header_memory-IsReloaded :
    (x y : Machine)
    → IsTaken x y
    → Ends
        (Failure x)
        (IsReloaded x)
        (header_memory (versioned x.superblock) y >>= λ (z, m). put_superblock (dirty_header z m) z)
header_memory-IsReloaded x y t =
    let h = versioned x.superblock in
    let next : Machine × Superblock → Exit Machine =
      λ (z, m). put_superblock (dirty_header z m) z in
    let same : Exit (Machine × Superblock) = ok (y, h) in
    let fresh : Machine → Exit (Machine × Superblock) = λ z. ok (z, y.fresh_header y.vmallocs) in
    let new : Exit (Machine × Superblock) = vmalloc y >>= fresh in
    let F = Failure x in
    let P : Exit (Machine × Superblock) → Type 0 = λ e. Ends F (IsReloaded x) (e >>= next) in
    let b = y.dmc.md_block_size in
    elim (eq-cases default_md_block_size b) [
      | inl e ↦
          subst P (sym (if-eq default_md_block_size b same new e))
            (put_superblock-IsReloaded x y h t (inl (versioned-write_only x.superblock)))
      | inr n ↦
          let y' : Machine = record y { vmallocs = suc y.vmallocs } in
          let Q : Machine × Superblock → Type 0 = λ p. p.0 ≡ y' in
          let same_size = t.md_block_size in
          let other : h.md_block_size ≢ default_md_block_size = λ q. n (sym (same_size ∙ q)) in
          subst P (sym (if-ne default_md_block_size b same new n)) (
            Ends-bind F Q (IsReloaded x) new next
              (vmalloc-then F Q y fresh
                (λ e. inr (y.vmallocs, ap (λ f. f y.vmallocs) (sym t.can_vmalloc) ∙ e)) refl)
              (λ p e.
                subst (λ z. Ends F (IsReloaded x) (put_superblock (dirty_header z p.1) z)) (sym e)
                  (put_superblock-IsReloaded x y' p.1 (IsTaken-vmalloc x y t) (inr other))))
    ]
