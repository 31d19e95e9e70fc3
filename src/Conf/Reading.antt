-- ===== src/Conf/Reading.antt =====
-- The outer loop of flashcache_writeback_load loads all blocks, in as many turns as it has fuel, and
-- reads as many sectors as are expected (src/flashcache_conf.c).
use flashcache_ubuntu_xenial.Prelude.{
  ℕ, zero, suc, ◌+◌, ◌-◌, ◌*◌, ◌/◌, ◌%◌, ◌<◌, ◌≤◌, ◌≡◌, refl, sym, ap, subst, ◌∙◌, inl, inr, Bool,
  true, ◌==◌, if◌then◌else◌, arith, lt-cases,
}
use native.Mathlib.Nat.{div-add-mod', mod-lt, mul-le-mul_left}
use flashcache_ubuntu_xenial.Io.Jobs.{MdSlot}
use flashcache_ubuntu_xenial.Conf.Machine.{
  Machine, Exit, ok, ◌>>=◌, verify, md_slots_per_block, metadata_io_num_blocks, read_slots,
}
use flashcache_ubuntu_xenial.Conf.Writer.{sectors_of}
use flashcache_ubuntu_xenial.Conf.Load.{
  Loaded, Reader, load_slots, slots_read, load_block, load_blocks, load_metadata,
}
use flashcache_ubuntu_xenial.Conf.Exits.{Ends, Ends-verify, Ends-bind, Ends-map, read_io-then}
use flashcache_ubuntu_xenial.Conf.Filling.{md_slots_per_block_lem, slots-sectors}
use flashcache_ubuntu_xenial.Conf.Written.{sectors_of_lem}
use flashcache_ubuntu_xenial.Conf.Loading.{IsLoaded, IsLoading, IsProper, load_slots-IsLoading}

-- The slot of a block on the device.
abbrev pub slot_at : Machine → ℕ → MdSlot
slot_at x k = x.slots (md_slots_per_block x.dmc.md_block_size + k)

-- Before a turn of the outer loop, m metadata blocks are read.
record IsReading (clean : Bool) (x : Machine) (m : ℕ) (r : Reader) : Type 0 where
  loading : IsLoading clean (slot_at x) (m * md_slots_per_block x.dmc.md_block_size) r.loaded
  sector : r.sector ≡ x.dmc.md_block_size + m * x.dmc.md_block_size
  sectors : r.sectors_read ≡ m * x.dmc.md_block_size

-- All is read.
pub record IsRead (clean : Bool) (x : Machine) (r : Reader) : Type 0 where
  pub loading : IsLoading clean (slot_at x) x.dmc.size r.loaded
  pub sectors : r.sectors_read ≡ sectors_of x.dmc.md_block_size x.dmc.size

abbrev pub FailedIo : Machine → Type 0
FailedIo x = (n : ℕ) × (x.io_error n ≡ true)

sectors_of-add :
    (b m n : ℕ)
    → 0 < md_slots_per_block b
    → sectors_of b (m * md_slots_per_block b + n) ≡ m * b + sectors_of b n
sectors_of-add b m n p =
    let k = md_slots_per_block b in
    let r = n % k in
    let below : r < k = mod-lt n p in
    let whole : n ≡ n / k * k + r = sym (div-add-mod' n k) in
    let sum : m * k + n ≡ (m + n / k) * k + r = omega (arith, whole) in
    let extra = if r == 0 then 0 else b in
    let left : sectors_of b (m * k + n) ≡ (m + n / k) * b + extra =
      ap (sectors_of b) sum ∙ sectors_of_lem b (m + n / k) r below in
    let right : sectors_of b n ≡ n / k * b + extra =
      ap (sectors_of b) whole ∙ sectors_of_lem b (n / k) r below in
    omega (arith, left, right)

module _ (clean : Bool) (x : Machine) (proper : (k : ℕ) → k < x.dmc.size → IsProper (slot_at x k))
    (pos : 0 < md_slots_per_block x.dmc.md_block_size)
    (room : 0 < metadata_io_num_blocks x.dmc.md_block_size) where
  -- One turn, of n slots.
  abbrev After : ℕ → ℕ → Reader → Reader → Type 0
  After m n r r' =
      IsLoading clean (slot_at x) (m * md_slots_per_block x.dmc.md_block_size + n) r'.loaded
      × (r'.sector ≡ r.sector + sectors_of x.dmc.md_block_size n)
      × (r'.sectors_read ≡ r.sectors_read + sectors_of x.dmc.md_block_size n)

  load_block-After :
      (m size : ℕ) (r : Reader)
      → m * md_slots_per_block x.dmc.md_block_size + slots_read x.dmc.md_block_size size
        ≤ x.dmc.size
      → IsReading clean x m r
      → Ends
          (FailedIo x)
          (After m (slots_read x.dmc.md_block_size size) r)
          (load_block clean x size r)
  load_block-After m size r fits h =
      let b = x.dmc.md_block_size in
      let k = md_slots_per_block b in
      let n = slots_read b size in
      let count = sectors_of b n in
      let P = After m n r in
      let L = IsLoading clean (slot_at x) (m * k + n) in
      let out : ℕ → Loaded → Exit Reader = λ ios l. ok (record {
        loaded = l;
        ios = ios;
        sector = r.sector + count;
        sectors_read = r.sectors_read + count;
      }) in
      let body = load_slots clean (read_slots x r.sector) n 0 r.loaded in
      let place : (j : ℕ) → k + (m * k + j) ≡ r.sector * 32 + (0 + j) =
        λ j. omega (arith, h.sector, md_slots_per_block_lem b, slots-sectors m b) in
      read_io-then (FailedIo x) P (record x { ios = r.ios }) (λ y. body >>= out y.ios)
        (λ e. (r.ios, e))
        (Ends-bind (FailedIo x) L P body (out (suc r.ios))
          (Ends-map ⊥ (FailedIo x) L L body (λ u. absurd u) (λ l q. q)
            (load_slots-IsLoading clean (slot_at x) (read_slots x r.sector) n 0 (m * k) r.loaded
              (λ j u. ap x.slots (place j))
              (λ j u.
                subst (λ a. IsProper (x.slots a)) (place j)
                  (proper (m * k + j) (omega (arith, u, fits))))
              h.loading))
          (λ l q. (q, refl, refl)))

  load_blocks-IsRead :
      (fuel size m : ℕ) (r : Reader)
      → size ≤ fuel
      → x.dmc.size ≡ m * md_slots_per_block x.dmc.md_block_size + size
      → IsReading clean x m r
      → Ends (FailedIo x) (IsRead clean x) (load_blocks clean x fuel size r)
  unfolding load_blocks
  load_blocks-IsRead fuel zero m r l e h =
      let b = x.dmc.md_block_size in
      let k = md_slots_per_block b in
      let all : m * k ≡ x.dmc.size = omega (arith, e) in
      let total : sectors_of b (m * k + 0) ≡ m * b + 0 = sectors_of_lem b m 0 pos in
      record {
        loading = subst (λ t. IsLoading clean (slot_at x) t r.loaded) all h.loading;
        sectors = h.sectors ∙ omega (arith, ap (sectors_of b) e, total);
      }
  load_blocks-IsRead zero (suc size) m r l e h = absurd (omega (arith, l))
  load_blocks-IsRead (suc fuel) (suc size) m r l e h =
      let b = x.dmc.md_block_size in
      let k = md_slots_per_block b in
      let n = slots_read b (suc size) in
      let big = k * metadata_io_num_blocks b in
      let some_big : k * 1 ≤ big = mul-le-mul_left k room in
      let most : n ≤ suc size = omega arith in
      Ends-bind (FailedIo x) (After m n r) (IsRead clean x) (load_block clean x (suc size) r)
        (load_blocks clean x fuel (suc size - n))
        (load_block-After m (suc size) r (omega (arith, e, most)) h)
        (λ r' a. elim (lt-cases big (suc size)) [
          | inl more ↦
              let turn : n ≡ big = omega (arith, more) in
              let base : m * k + n ≡ (m + metadata_io_num_blocks b) * k = omega (arith, turn) in
              let got : sectors_of b n ≡ metadata_io_num_blocks b * b =
                ap (sectors_of b) (omega (arith, turn))
                ∙ sectors_of_lem b (metadata_io_num_blocks b) 0 pos
                ∙ omega arith in
              load_blocks-IsRead fuel (suc size - n) (m + metadata_io_num_blocks b) r'
                (omega (arith, l, turn, some_big, pos)) (omega (arith, e, base, most))
                (record {
                  loading = subst (λ t. IsLoading clean (slot_at x) t r'.loaded) base a.0;
                  sector = omega (arith, a.1, h.sector, got);
                  sectors = omega (arith, a.2, h.sectors, got);
                })
          | inr last ↦
              let turn : n ≡ suc size = omega (arith, last) in
              let none : suc size - n ≡ 0 = omega (arith, turn) in
              let all : m * k + n ≡ x.dmc.size = omega (arith, e, turn) in
              let total : sectors_of b (m * k + n) ≡ m * b + sectors_of b n =
                sectors_of-add b m n pos in
              let read : r'.sectors_read ≡ sectors_of b (m * k + n) =
                omega (arith, a.2, h.sectors, total) in
              let is_read : IsRead clean x r' = record {
                loading = subst (λ t. IsLoading clean (slot_at x) t r'.loaded) all a.0;
                sectors = subst (λ t. r'.sectors_read ≡ sectors_of b t) all read;
              } in
              rw none is_read
        ])

  -- The metadata is loaded, unless a read fails.
  pub load_metadata-Ends :
      Ends
        (FailedIo x)
        (λ y.
          (y ≡ record x { ios = y.ios; dmc = record x.dmc { cache = y.dmc.cache } })
          × ((k : ℕ) → k < x.dmc.size → IsLoaded clean (slot_at x k) (y.dmc.cache k)))
        (load_metadata clean x)
  unfolding load_metadata
  load_metadata-Ends =
      let b = x.dmc.md_block_size in
      let r : Reader = record {
        loaded = record { cache = x.dmc.cache; dirty_loaded = 0; num_valid = 0; i = 0 };
        ios = x.ios;
        sector = b;
        sectors_read = 0;
      } in
      let out : Reader → Machine =
        λ r. record x { ios = r.ios; dmc = record x.dmc { cache = r.loaded.cache } } in
      let P : Machine → Type 0 = λ y.
        (y ≡ record x { ios = y.ios; dmc = record x.dmc { cache = y.dmc.cache } })
        × ((k : ℕ) → k < x.dmc.size → IsLoaded clean (slot_at x k) (y.dmc.cache k)) in
      let zero_blocks : 0 ≡ 0 * md_slots_per_block b = omega arith in
      Ends-bind (FailedIo x) (IsRead clean x) P (load_blocks clean x x.dmc.size x.dmc.size r)
        (λ r. verify (r.sectors_read == sectors_of b x.dmc.size) (out r))
        (load_blocks-IsRead x.dmc.size x.dmc.size 0 r (omega arith) (omega arith) (record {
          loading = record {
            at = zero_blocks;
            loaded = λ k u. absurd (omega (arith, u, zero_blocks));
          };
          sector = omega arith;
          sectors = omega arith;
        }))
        (λ r h.
          Ends-verify (FailedIo x) P (r.sectors_read == sectors_of b x.dmc.size) (out r)
            (ground (arith, h.sectors)) (refl, h.loading.loaded))
