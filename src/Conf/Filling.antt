-- ===== src/Conf/Filling.antt =====
-- The loop that writes the metadata keeps its count of slots, sectors and dirty blocks, and what it
-- has written is on the device (src/flashcache_conf.c).
use flashcache_ubuntu_xenial.Prelude.{
  ℕ, suc, ◌+◌, ◌-◌, ◌*◌, ◌<◌, ◌≤◌, ◌≡◌, ap, ◌∙◌, ◌⊎◌, inl, inr, Bool, true, false, ◌&&◌,
  if◌then◌else◌, if-true, if-false, if-eq, if-ne, arith, tally, lt-cases, eq-cases,
}
use flashcache_ubuntu_xenial.Io.Jobs.{MdSlot}
use flashcache_ubuntu_xenial.Conf.Machine.{
  Machine, md_slots_per_block, metadata_io_num_blocks, write_slots, slot_of, changes,
}
use flashcache_ubuntu_xenial.Conf.Writer.{Writer, machine_of, put_slot, write_out}
use flashcache_ubuntu_xenial.Conf.Exits.{Ends, Ends-unless}

pub md_slots_per_block_lem : (b : ℕ) → md_slots_per_block b ≡ b * 32
unfolding md_slots_per_block
md_slots_per_block_lem b = omega arith

-- The slots of n metadata blocks, in sectors.
pub slots-sectors : (n b : ℕ) → n * md_slots_per_block b ≡ n * b * 32
slots-sectors n b = rw (md_slots_per_block_lem b) (omega arith)

-- The slots of the first n blocks are at their places on the device.
abbrev pub IsSaved : Machine → ℕ → (ℕ → MdSlot) → Type 0
IsSaved x n slots =
    (k : ℕ) → k < n → slots (md_slots_per_block x.dmc.md_block_size + k) ≡ slot_of (x.dmc.cache k)

-- The buffer has the slots of the n blocks from `base`.
abbrev pub IsHeld : Machine → ℕ → ℕ → (ℕ → MdSlot) → Type 0
IsHeld x base n buffer = (k : ℕ) → k < n → buffer k ≡ slot_of (x.dmc.cache (base + k))

pub write_slots-IsSaved :
    (x : Machine) (w : Writer) (base n count : ℕ)
    → w.sector * 32 ≡ md_slots_per_block x.dmc.md_block_size + base
    → n ≤ count * 32
    → IsHeld x base n w.buffer
    → IsSaved x base w.slots
    → x.io_error w.ios ≡ false
    → IsSaved x (base + n) (write_slots (machine_of x w) w.sector count w.buffer).0.slots
write_slots-IsSaved x w base n count at fits held saved e k l =
    let a = md_slots_per_block x.dmc.md_block_size + k in
    let c = changes (machine_of x w) w.sector count a in
    elim (lt-cases k base) [
      | inl h ↦
          let out : c ≡ false = ground (arith, at, h) in
          if-false c (w.buffer (a - w.sector * 32)) (w.slots a) out ∙ saved k h
      | inr h ↦
          let inside : c ≡ true = ground (arith, at, h, l, fits, e) in
          let place : a - w.sector * 32 ≡ k - base = omega (arith, at, h) in
          let whole : base + (k - base) ≡ k = omega (arith, h) in
          if-true c (w.buffer (a - w.sector * 32)) (w.slots a) inside
          ∙ ap w.buffer place
          ∙ held (k - base) (omega (arith, h, l))
          ∙ ap (λ t. slot_of (x.dmc.cache t)) whole
    ]

-- The writer as a write of `count` sectors leaves it.
abbrev pub written : Machine → ℕ → Writer → Writer
written x count w = record w {
  slots = (write_slots (machine_of x w) w.sector count w.buffer).0.slots;
  ios = suc w.ios;
  sectors_written = w.sectors_written + count;
  write_errors = if x.io_error w.ios then w.write_errors + 1 else w.write_errors;
}

pub write_out-Ends :
    (stop : Bool) (x : Machine) (P : Writer → Type 0) (count : ℕ) (w : Writer)
    → ((stop && x.io_error w.ios) ≡ false → P (written x count w))
    → Ends (stop ≡ true) P (write_out stop x count w)
write_out-Ends stop x P count w h =
    Ends-unless (stop ≡ true) P (stop && x.io_error w.ios)
      (write_slots (machine_of x w) w.sector count w.buffer).0 (written x count w)
      (λ e. ground (arith, e)) h

-- No write can fail unnoticed: either the loop stops at the first error, or there is none.
abbrev pub IsSound : Bool → Machine → Type 0
IsSound stop x = (stop ≡ true) ⊎ ((n : ℕ) → x.io_error n ≡ false)

-- The state of the loop before block i: `m` metadata blocks are on the device, `a` more are in the
-- buffer, and `r` slots of the next one.
pub record IsFilling (stop : Bool) (x : Machine) (i : ℕ) (w : Writer) : Type 0 where
  pub m : ℕ
  pub a : ℕ
  pub r : ℕ
  pub place : i ≡ m * md_slots_per_block x.dmc.md_block_size + w.slots_written
  pub filled : w.slots_written ≡ a * md_slots_per_block x.dmc.md_block_size + r
  pub below : r < md_slots_per_block x.dmc.md_block_size
  pub room : a < metadata_io_num_blocks x.dmc.md_block_size
  pub next : w.next_ptr ≡ w.slots_written
  pub left : w.j + r ≡ md_slots_per_block x.dmc.md_block_size
  pub sector : w.sector ≡ x.dmc.md_block_size + m * x.dmc.md_block_size
  pub sectors : w.sectors_written ≡ m * x.dmc.md_block_size
  pub dirty : w.num_dirty ≡ tally (λ k. (x.dmc.cache k).cache_state.dirty) i
  pub held : IsHeld x (m * md_slots_per_block x.dmc.md_block_size) w.slots_written w.buffer
  pub saved : w.write_errors ≡ 0 → IsSaved x (m * md_slots_per_block x.dmc.md_block_size) w.slots
  pub sound : IsSound stop x → w.write_errors ≡ 0

-- What is known of the writer once block i is in the buffer.
pub put_slot-IsHeld :
    (x : Machine) (i base : ℕ) (w : Writer)
    → i ≡ base + w.slots_written
    → w.next_ptr ≡ w.slots_written
    → IsHeld x base w.slots_written w.buffer
    → IsHeld x base (w.slots_written + 1) (put_slot x i w).buffer
put_slot-IsHeld x i base w at next held k l = elim (eq-cases w.next_ptr k) [
  | inl e ↦
      let here : i ≡ base + k = omega (arith, at, next, e) in
      if-eq w.next_ptr k (slot_of (x.dmc.cache i)) (w.buffer k) e
      ∙ ap (λ t. slot_of (x.dmc.cache t)) here
  | inr n ↦
      if-ne w.next_ptr k (slot_of (x.dmc.cache i)) (w.buffer k) n
      ∙ held k (omega (arith, next, n, l))
]

pub put_slot-dirty :
    (x : Machine) (i : ℕ) (w : Writer)
    → w.num_dirty ≡ tally (λ k. (x.dmc.cache k).cache_state.dirty) i
    → (put_slot x i w).num_dirty ≡ tally (λ k. (x.dmc.cache k).cache_state.dirty) (suc i)
put_slot-dirty x i w e = ground (arith, e)
