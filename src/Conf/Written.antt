-- ===== src/Conf/Written.antt =====
-- All blocks are written by the loop and the write after it, and the count of sectors is the one
-- that is expected (src/flashcache_conf.c).
use flashcache_ubuntu_xenial.Prelude.{
  ℕ, ◌+◌, ◌*◌, ◌/◌, ◌%◌, ◌<◌, ◌≤◌, ◌≡◌, refl, sym, ap, subst, inl, inr, Bool, true, false, ◌&&◌,
  ltb, ◌==◌, if◌then◌else◌, if-eq, if-ne, arith, tally, eq-cases, div_index, mod_index,
}
use native.Mathlib.Nat.{div-add-mod', mod-lt}
use flashcache_ubuntu_xenial.Io.Jobs.{MdSlot}
use flashcache_ubuntu_xenial.Conf.Machine.{
  Machine, ok, ◌>>=◌, verify, md_slots_per_block, metadata_io_num_blocks,
}
use flashcache_ubuntu_xenial.Conf.Writer.{
  Writer, sectors_of, begin, write_out, write_blocks, write_rest, write_metadata,
}
use flashcache_ubuntu_xenial.Conf.Exits.{Ends, Ends-verify, Ends-bind}
use flashcache_ubuntu_xenial.Conf.Turns.{write_blocks-IsFilling, begin-IsFilling}
use flashcache_ubuntu_xenial.Conf.Filling.{
  IsFilling, IsSaved, IsSound, written, write_out-Ends, write_slots-IsSaved, md_slots_per_block_lem,
  slots-sectors,
}

-- What is known when all is written.
pub record IsWritten (stop : Bool) (x : Machine) (w : Writer) : Type 0 where
  pub count : w.sectors_written ≡ sectors_of x.dmc.md_block_size x.dmc.size
  pub dirty : w.num_dirty ≡ tally (λ k. (x.dmc.cache k).cache_state.dirty) x.dmc.size
  pub saved : w.write_errors ≡ 0 → IsSaved x x.dmc.size w.slots
  pub sound : IsSound stop x → w.write_errors ≡ 0

pub sectors_of_lem :
    (b q r : ℕ)
    → r < md_slots_per_block b
    → sectors_of b (q * md_slots_per_block b + r) ≡ q * b + (if r == 0 then 0 else b)
sectors_of_lem b q r l =
    let k = md_slots_per_block b in rw (div_index q k r l, mod_index q k r l) (ground arith)

pub sectors_of-fits : (b n : ℕ) → 0 < b → n ≤ sectors_of b n * 32
sectors_of-fits b n p =
    let k = md_slots_per_block b in
    let unit : k ≡ b * 32 = md_slots_per_block_lem b in
    let pos : 0 < k = omega (arith, unit, p) in
    let whole : n / k * k + n % k ≡ n = div-add-mod' n k in
    let below : n % k < k = mod-lt n pos in
    let units : n / k * k ≡ n / k * b * 32 = rw unit (omega arith) in
    ground (arith, units, whole, below, unit)

module _ (stop : Bool) (x : Machine) (w : Writer) (h : IsFilling stop x x.dmc.size w) where
  -- The buffer is empty: all is written.
  empty-IsWritten : w.slots_written ≡ 0 → IsWritten stop x w
  empty-IsWritten z =
      let b = x.dmc.md_block_size in
      let k = md_slots_per_block b in
      let all : x.dmc.size ≡ h.m * k + 0 = omega (arith, h.place, z) in
      let size : h.m * k ≡ x.dmc.size = omega (arith, all) in
      let total : sectors_of b (h.m * k + 0) ≡ h.m * b + 0 =
        sectors_of_lem b h.m 0 (omega (arith, h.below)) in
      let count : w.sectors_written ≡ sectors_of b (h.m * k + 0) =
        omega (arith, h.sectors, total) in
      record {
        count = subst (λ t. w.sectors_written ≡ sectors_of b t) (sym all) count;
        dirty = h.dirty;
        saved = λ e. subst (λ t. IsSaved x t w.slots) size (h.saved e);
        sound = h.sound;
      }

  -- The rest of the buffer is written.
  rest-IsWritten :
      0 < x.dmc.md_block_size
      → (stop && x.io_error w.ios) ≡ false
      → IsWritten stop x (written x (sectors_of x.dmc.md_block_size w.slots_written) w)
  rest-IsWritten p goes =
      let b = x.dmc.md_block_size in
      let k = md_slots_per_block b in
      let unit : k ≡ b * 32 = md_slots_per_block_lem b in
      let all : x.dmc.size ≡ (h.m + h.a) * k + h.r = omega (arith, h.place, h.filled) in
      let total : sectors_of b ((h.m + h.a) * k + h.r)
          ≡ (h.m + h.a) * b + (if h.r == 0 then 0 else b) =
        sectors_of_lem b (h.m + h.a) h.r h.below in
      let rest : sectors_of b (h.a * k + h.r) ≡ h.a * b + (if h.r == 0 then 0 else b) =
        sectors_of_lem b h.a h.r h.below in
      let mine : sectors_of b w.slots_written ≡ sectors_of b (h.a * k + h.r) =
        ap (sectors_of b) h.filled in
      let sum : w.sectors_written + sectors_of b w.slots_written
          ≡ sectors_of b ((h.m + h.a) * k + h.r) =
        rw (mine, rest, total, h.sectors) (omega arith) in
      let at : w.sector * 32 ≡ k + h.m * k = omega (arith, h.sector, unit, slots-sectors h.m b) in
      record {
        count =
            subst (λ t. w.sectors_written + sectors_of b w.slots_written ≡ sectors_of b t) (sym all)
              sum;
        dirty = h.dirty;
        saved = λ z.
            let fine : x.io_error w.ios ≡ false = ground (arith, z) in
            let before : w.write_errors ≡ 0 = ground (arith, z) in
            subst (λ t. IsSaved x t (written x (sectors_of b w.slots_written) w).slots)
              (sym h.place)
              (write_slots-IsSaved x w (h.m * k) w.slots_written (sectors_of b w.slots_written) at
                (sectors_of-fits b w.slots_written p) h.held (h.saved before) fine);
        sound = λ s.
            let before = h.sound s in
            elim s [
              | inl t ↦ ground (arith, goes, t, before)
              | inr f ↦ ground (arith, f w.ios, before)
            ];
      }

  write_rest-IsWritten :
      0 < x.dmc.md_block_size → Ends (stop ≡ true) (IsWritten stop x) (write_rest stop x w)
  write_rest-IsWritten p =
      let n = sectors_of x.dmc.md_block_size w.slots_written in
      let P = Ends (stop ≡ true) (IsWritten stop x) in
      let more = verify (ltb 0 w.slots_written) w >>= write_out stop x n in
      elim (eq-cases w.next_ptr 0) [
        | inl e ↦
            subst P (sym (if-eq w.next_ptr 0 (ok w) more e))
              (empty-IsWritten (omega (arith, e, h.next)))
        | inr ne ↦
            let pos : ltb 0 w.slots_written ≡ true = ground (arith, ne, h.next) in
            let P0 : Writer → Type 0 = λ v. v ≡ w in
            subst P (sym (if-ne w.next_ptr 0 (ok w) more ne)) (
              Ends-bind (stop ≡ true) P0 (IsWritten stop x) (verify (ltb 0 w.slots_written) w)
                (write_out stop x n)
                (Ends-verify (stop ≡ true) P0 (ltb 0 w.slots_written) w pos refl)
                (λ v e.
                  subst (λ u. P (write_out stop x n u)) (sym e)
                    (write_out-Ends stop x (IsWritten stop x) n w (rest-IsWritten p))))
      ]

-- The loop writes every block, unless a write fails, and never panics.
pub write_metadata-IsWritten :
    (stop : Bool) (x : Machine) (buffer : ℕ → MdSlot)
    → 0 < x.dmc.md_block_size
    → 0 < metadata_io_num_blocks x.dmc.md_block_size
    → Ends (stop ≡ true) (IsWritten stop x) (write_metadata stop x buffer)
unfolding write_metadata
write_metadata-IsWritten stop x buffer p n =
    let F = stop ≡ true in
    let filling = IsFilling stop x x.dmc.size in
    let all = sectors_of x.dmc.md_block_size x.dmc.size in
    Ends-bind F filling (IsWritten stop x) (write_blocks stop x x.dmc.size 0 (begin x buffer))
      (λ w. write_rest stop x w >>= λ w'. verify (w'.sectors_written == all) w')
      (write_blocks-IsFilling stop x x.dmc.size 0 (begin x buffer)
        (begin-IsFilling stop x buffer p n) x.dmc.size (omega arith))
      (λ w h.
        Ends-bind F (IsWritten stop x) (IsWritten stop x) (write_rest stop x w)
          (λ w'. verify (w'.sectors_written == all) w') (write_rest-IsWritten stop x w h p)
          (λ w' k.
            Ends-verify F (IsWritten stop x) (w'.sectors_written == all) w'
              (ground (arith, k.count)) k))
