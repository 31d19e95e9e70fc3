-- ===== src/Conf/Turns.antt =====
-- The turns of the loop that writes the metadata keep its invariant (src/flashcache_conf.c).
use flashcache_ubuntu_xenial.Prelude.{
  ℕ, zero, suc, ◌+◌, ◌*◌, ◌/◌, ◌<◌, ◌≤◌, ◌≡◌, ◌≢◌, refl, sym, ap, subst, ◌∙◌, inl, inr, Bool, true,
  false, ◌&&◌, ◌==◌, if◌then◌else◌, if-eq, if-ne, arith, lt-cases, div_index,
}
use native.Mathlib.Nat.{mul-le-mul_right}
use flashcache_ubuntu_xenial.Io.Jobs.{MdSlot}
use flashcache_ubuntu_xenial.Conf.Machine.{Machine, ok, md_slots_per_block, metadata_io_num_blocks}
use flashcache_ubuntu_xenial.Conf.Writer.{
  Writer, begin, put_slot, next_block, write_out, write_full, fill_block, write_block, write_blocks,
}
use flashcache_ubuntu_xenial.Conf.Exits.{Ends, Ends-bind}
use flashcache_ubuntu_xenial.Conf.Filling.{
  IsFilling, IsSaved, written, write_out-Ends, write_slots-IsSaved, md_slots_per_block_lem,
  slots-sectors, put_slot-IsHeld, put_slot-dirty,
}

module _ (stop : Bool) (x : Machine) (i : ℕ) (w : Writer) (h : IsFilling stop x i w) where
  -- Block i is in the buffer, and its metadata block has room.
  put_slot-IsFilling :
      h.r + 1 < md_slots_per_block x.dmc.md_block_size → IsFilling stop x (suc i) (put_slot x i w)
  put_slot-IsFilling l = record {
    m = h.m;
    a = h.a;
    r = h.r + 1;
    place = omega (arith, h.place);
    filled = omega (arith, h.filled);
    below = l;
    room = h.room;
    next = omega (arith, h.next);
    left = omega (arith, h.left, l);
    sector = h.sector;
    sectors = h.sectors;
    dirty = put_slot-dirty x i w h.dirty;
    held =
        put_slot-IsHeld x i (h.m * md_slots_per_block x.dmc.md_block_size) w h.place h.next h.held;
    saved = h.saved;
    sound = h.sound;
  }

  -- Block i fills its metadata block, and the buffer has room.
  next_block-IsFilling :
      h.r + 1 ≡ md_slots_per_block x.dmc.md_block_size
      → h.a + 1 < metadata_io_num_blocks x.dmc.md_block_size
      → IsFilling stop x (suc i) (next_block x (put_slot x i w))
  next_block-IsFilling e l =
      let k = md_slots_per_block x.dmc.md_block_size in
      let full : w.slots_written + 1 ≡ (h.a + 1) * k + 0 = omega (arith, h.filled, e) in
      let whole : (w.slots_written + 1) / k ≡ h.a + 1 =
        ap (λ t. t / k) full ∙ div_index (h.a + 1) k 0 (omega (arith, e)) in
      record {
        m = h.m;
        a = h.a + 1;
        r = 0;
        place = omega (arith, h.place);
        filled = full;
        below = omega (arith, e);
        room = l;
        next = ap (λ t. t * k) whole ∙ omega (arith, full);
        left = omega arith;
        sector = h.sector;
        sectors = h.sectors;
        dirty = put_slot-dirty x i w h.dirty;
        held = put_slot-IsHeld x i (h.m * k) w h.place h.next h.held;
        saved = h.saved;
        sound = h.sound;
      }

  -- Block i fills the buffer, which is written.
  abbrev flushed : Writer
  flushed =
      let b = x.dmc.md_block_size in
      let w1 = put_slot x i w in
      let count = w1.slots_written / md_slots_per_block b * b in
      let w2 = written x count (record w1 { slots_written = 0 }) in
      next_block x (record w2 { sector = w2.sector + count })

  flushed-IsFilling :
      h.r + 1 ≡ md_slots_per_block x.dmc.md_block_size
      → h.a + 1 ≡ metadata_io_num_blocks x.dmc.md_block_size
      → (stop && x.io_error w.ios) ≡ false
      → IsFilling stop x (suc i) flushed
  flushed-IsFilling e l goes =
      let b = x.dmc.md_block_size in
      let k = md_slots_per_block b in
      let n = metadata_io_num_blocks b in
      let unit : k ≡ b * 32 = md_slots_per_block_lem b in
      let full : w.slots_written + 1 ≡ n * k + 0 = rw (sym l) (omega (arith, h.filled, e)) in
      let whole : (w.slots_written + 1) / k ≡ n =
        ap (λ t. t / k) full ∙ div_index n k 0 (omega (arith, e)) in
      let count = (w.slots_written + 1) / k * b in
      let count_eq : count ≡ n * b = ap (λ t. t * b) whole in
      let base : (h.m + n) * k ≡ h.m * k + (w.slots_written + 1) = omega (arith, full) in
      let none : 0 / k * k ≡ 0 = omega (arith, div_index 0 k 0 (omega (arith, e))) in
      let at : w.sector * 32 ≡ k + h.m * k = omega (arith, h.sector, unit, slots-sectors h.m b) in
      let fits : w.slots_written + 1 ≤ count * 32 =
        omega (arith, count_eq, full, slots-sectors n b) in
      let w1 = put_slot x i w in
      record {
        m = h.m + n;
        a = 0;
        r = 0;
        place = omega (arith, h.place, base);
        filled = omega arith;
        below = omega (arith, e);
        room = omega (arith, l);
        next = none;
        left = omega arith;
        sector = omega (arith, h.sector, count_eq);
        sectors = omega (arith, h.sectors, count_eq);
        dirty = put_slot-dirty x i w h.dirty;
        held = λ k l. absurd (omega (arith, l));
        saved = λ z.
            let fine : x.io_error w.ios ≡ false = ground (arith, z) in
            let before : w.write_errors ≡ 0 = ground (arith, z) in
            subst (λ t. IsSaved x t flushed.slots) (sym base)
              (write_slots-IsSaved x w1 (h.m * k) (w.slots_written + 1) count at fits
                (put_slot-IsHeld x i (h.m * k) w h.place h.next h.held) (h.saved before) fine);
        sound = λ s.
            let before = h.sound s in
            elim s [
              | inl t ↦ ground (arith, goes, t, before)
              | inr f ↦ ground (arith, f w.ios, before)
            ];
      }

  write_full-IsFilling :
      h.r + 1 ≡ md_slots_per_block x.dmc.md_block_size
      → h.a + 1 ≡ metadata_io_num_blocks x.dmc.md_block_size
      → Ends
          (stop ≡ true)
          (λ w'. IsFilling stop x (suc i) (next_block x w'))
          (write_full stop x (put_slot x i w))
  write_full-IsFilling e l =
      let b = x.dmc.md_block_size in
      let w1 : Writer = put_slot x i w in
      let count = w1.slots_written / md_slots_per_block b * b in
      let on : Writer → Writer = λ w'. record w' { sector = w'.sector + count } in
      let P : Writer → Type 0 = λ w'. IsFilling stop x (suc i) (next_block x (on w')) in
      let w2 : Writer = record w1 { slots_written = 0 } in
      Ends-bind (stop ≡ true) P (λ w'. IsFilling stop x (suc i) (next_block x w'))
        (write_out stop x count w2) (λ w'. ok (on w'))
        (write_out-Ends stop x P count w2 (λ goes. flushed-IsFilling e l goes)) (λ w' p. p)

  fill_block-IsFilling :
      h.r + 1 ≡ md_slots_per_block x.dmc.md_block_size
      → Ends (stop ≡ true) (IsFilling stop x (suc i)) (fill_block stop x (put_slot x i w))
  fill_block-IsFilling e =
      let k = md_slots_per_block x.dmc.md_block_size in
      let n = metadata_io_num_blocks x.dmc.md_block_size in
      let w1 : Writer = put_slot x i w in
      let P : Writer → Type 0 = λ w'. IsFilling stop x (suc i) (next_block x w') in
      let s = w.slots_written + 1 in
      let full : s ≡ (h.a + 1) * k = omega (arith, h.filled, e) in
      Ends-bind (stop ≡ true) P (IsFilling stop x (suc i))
        (if s == k * n then write_full stop x w1 else ok w1) (λ w'. ok (next_block x w'))
        (elim (lt-cases (h.a + 1) n) [
          | inl l ↦
              let more : suc (h.a + 1) * k ≤ n * k = mul-le-mul_right k l in
              let ne : s ≢ k * n = λ q. omega (arith, full, more, q, e) in
              subst (Ends (stop ≡ true) P) (sym (if-ne s (k * n) (write_full stop x w1) (ok w1) ne))
                (next_block-IsFilling e l)
          | inr l ↦
              let all : h.a + 1 ≡ n = omega (arith, h.room, l) in
              let eq : s ≡ k * n = rw (sym all) (omega (arith, full)) in
              subst (Ends (stop ≡ true) P) (sym (if-eq s (k * n) (write_full stop x w1) (ok w1) eq))
                (write_full-IsFilling e all)
        ])
        (λ w' p. p)

  write_block-IsFilling : Ends (stop ≡ true) (IsFilling stop x (suc i)) (write_block stop x i w)
  write_block-IsFilling =
      let k = md_slots_per_block x.dmc.md_block_size in
      let w1 : Writer = put_slot x i w in
      let P = Ends (stop ≡ true) (IsFilling stop x (suc i)) in
      elim (lt-cases (h.r + 1) k) [
        | inl l ↦
            let ne : w1.j ≢ 0 = omega (arith, h.left, l) in
            subst P (sym (if-ne w1.j 0 (fill_block stop x w1) (ok w1) ne)) (put_slot-IsFilling l)
        | inr l ↦
            let e : h.r + 1 ≡ k = omega (arith, h.below, l) in
            let z : w1.j ≡ 0 = omega (arith, h.left, e) in
            subst P (sym (if-eq w1.j 0 (fill_block stop x w1) (ok w1) z)) (fill_block-IsFilling e)
      ]

-- The loop keeps the invariant.
pub write_blocks-IsFilling :
    (stop : Bool) (x : Machine) (n i : ℕ) (w : Writer)
    → IsFilling stop x i w
    → (e : ℕ) → e ≡ i + n
    → Ends (stop ≡ true) (IsFilling stop x e) (write_blocks stop x n i w)
unfolding write_blocks
write_blocks-IsFilling stop x zero i w h e q =
    subst (λ t. IsFilling stop x t w) (let q' : i ≡ e = omega (arith, q) in q') h
write_blocks-IsFilling stop x (suc n) i w h e q =
    Ends-bind (stop ≡ true) (IsFilling stop x (suc i)) (IsFilling stop x e) (write_block stop x i w)
      (write_blocks stop x n (suc i)) (write_block-IsFilling stop x i w h)
      (λ w' h'. write_blocks-IsFilling stop x n (suc i) w' h' e (omega (arith, q)))

pub begin-IsFilling :
    (stop : Bool) (x : Machine) (buffer : ℕ → MdSlot)
    → 0 < x.dmc.md_block_size
    → 0 < metadata_io_num_blocks x.dmc.md_block_size
    → IsFilling stop x 0 (begin x buffer)
begin-IsFilling stop x buffer b n = record {
  m = 0;
  a = 0;
  r = 0;
  place = omega arith;
  filled = omega arith;
  below = omega (arith, md_slots_per_block_lem x.dmc.md_block_size, b);
  room = n;
  next = refl;
  left = omega arith;
  sector = omega arith;
  sectors = omega arith;
  dirty = refl;
  held = λ k l. absurd (omega (arith, l));
  saved = λ z k l. absurd (omega (arith, l));
  sound = λ s. refl;
}
