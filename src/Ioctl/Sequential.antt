-- ===== src/Ioctl/Sequential.antt =====
-- The recent flows of requests and the skipping of sequential ones (src/flashcache_ioctl.c). The
-- state is the fields of `struct cache_c` that these functions use. A pointer to seq_recent_ios[i]
-- is `i`, and NULL is `nil`; `none` is a failed VERIFY. The direction of a request is `is_read`.
use flashcache_ubuntu_xenial.Prelude.{
  ℕ, zero, suc, ◌+◌, ◌-◌, ◌*◌, ◌%◌, ◌^◌, Bool, true, false, ◌&&◌, Option, some, none, ltb, ◌==◌,
  if◌then◌else◌, guard, ◌>>=◌, ◌>>◌, update,
}
use flashcache_ubuntu_xenial.Device.{u32, u64}

pub record SequentialIo : Type 0 where
  pub most_recent_sector : ℕ
  pub sequential_count : ℕ
  pub prev : ℕ
  pub next : ℕ

pub record SeqState : Type 0 where
  pub seq_recent_ios : ℕ → SequentialIo
  pub seq_io_head : ℕ
  pub seq_io_tail : ℕ
  pub block_size : ℕ
  pub sysctl_skip_seq_thresh_kb : ℕ
  pub uncached_sequential_reads : ℕ
  pub uncached_sequential_writes : ℕ

-- SEQUENTIAL_TRACKER_QUEUE_DEPTH
abbrev pub queue_depth : ℕ
queue_depth = 32

abbrev pub nil : ℕ
nil = queue_depth

abbrev pub put_io : SeqState → ℕ → SequentialIo → SeqState
put_io s i e = record s { seq_recent_ios = update s.seq_recent_ios i e }

abbrev pub put_next : SeqState → ℕ → ℕ → SeqState
put_next s i v = put_io s i (record (s.seq_recent_ios i) { next = v })

abbrev pub put_prev : SeqState → ℕ → ℕ → SeqState
put_prev s i v = put_io s i (record (s.seq_recent_ios i) { prev = v })

-- The first half of seq_io_remove_from_lru.
unfoldable pub unlink_next : SeqState → ℕ → Option SeqState
unlink_next s i =
    let e = s.seq_recent_ios i in
    if e.prev == nil
    then guard (s.seq_io_head == i) >> some (record s { seq_io_head = e.next })
    else some (put_next s e.prev e.next)

-- The second half.
unfoldable pub unlink_prev : SeqState → ℕ → Option SeqState
unlink_prev s i =
    let e = s.seq_recent_ios i in
    if e.next == nil
    then guard (s.seq_io_tail == i) >> some (record s { seq_io_tail = e.prev })
    else some (put_prev s e.next e.prev)

abbrev pub seq_io_remove_from_lru : SeqState → ℕ → Option SeqState
seq_io_remove_from_lru s i = unlink_next s i >>= λ s'. unlink_prev s' i

-- The second half of seq_io_move_to_lruhead.
unfoldable pub add_to_lruhead : SeqState → ℕ → SeqState
add_to_lruhead s i =
    let s1 = if s.seq_io_head == nil then s else put_prev s s.seq_io_head i in
    record (put_prev (put_next s1 i s.seq_io_head) i nil) { seq_io_head = i }

unfoldable pub seq_io_move_to_lruhead : SeqState → ℕ → Option SeqState
seq_io_move_to_lruhead s i =
    let e = s.seq_recent_ios i in
    do
      s' ← (if e.prev == nil && e.next == nil then some s else seq_io_remove_from_lru s i)
      some (add_to_lruhead s' i)

-- What a request is to a flow.
pub data Match : Type 0 where
  repeated sequential unrelated : Match

abbrev pub match_of : SeqState → ℕ → SequentialIo → Match
match_of s sector e =
    if sector == e.most_recent_sector
    then Match.repeated
    else if sector == (e.most_recent_sector + s.block_size) % u64
    then Match.sequential
    else Match.unrelated

-- The flow that the loop of skip_sequential_io stops at, from `i` on.
unfoldable pub find_flow : ℕ → SeqState → ℕ → ℕ → Option (ℕ × Match)
find_flow zero s sector i = none
find_flow (suc fuel) s sector i =
    let rest = find_flow fuel s sector (s.seq_recent_ios i).next in
    if i == nil
    then some (nil, Match.unrelated)
    else elim (match_of s sector (s.seq_recent_ios i)) [
      | Match.repeated ↦ some (i, Match.repeated)
      | Match.sequential ↦ some (i, Match.sequential)
      | Match.unrelated ↦ rest
    ]

abbrev pub unless_head : SeqState → ℕ → Option SeqState
unless_head s i = if s.seq_io_head == i then some s else seq_io_move_to_lruhead s i

-- The product of the sysctl, an int, as the unsigned long that it is compared as: a product that wraps
-- round to a negative int is extended by its sign.
abbrev pub thresh_bytes : SeqState → ℕ
thresh_bytes s =
    let kb = s.sysctl_skip_seq_thresh_kb * 1024 % u32 in
    if ltb kb (2 ^ 31) then kb else kb + (u64 - u32)

-- The count of a flow exceeds the threshold, in bytes.
abbrev pub is_long : SeqState → ℕ → Bool
is_long s i =
    ltb (thresh_bytes s) ((s.seq_recent_ios i).sequential_count * s.block_size * 512 % u64)

abbrev pub count_skip : SeqState → Bool → Bool → SeqState
count_skip s false is_read = s
count_skip s true true = record s {
  uncached_sequential_reads = (s.uncached_sequential_reads + 1) % u64;
}
count_skip s true false = record s {
  uncached_sequential_writes = (s.uncached_sequential_writes + 1) % u64;
}

abbrev pub conclude : Bool → SeqState × Bool → SeqState × Bool
conclude is_read (s, skip) = (count_skip s skip is_read, skip)

-- The three ends of the search.
unfoldable pub take_in : SeqState → ℕ → ℕ × Match → Option (SeqState × Bool)
take_in s sector (i, Match.repeated) = unless_head s i >>= λ s'. some (s', false)
take_in s sector (i, Match.sequential) =
    let e = s.seq_recent_ios i in
    let counted = record e {
      most_recent_sector = sector;
      sequential_count = (e.sequential_count + 1) % u64;
    } in
    unless_head (put_io s i counted) i >>= λ s'. some (s', is_long s' i)
take_in s sector (i, Match.unrelated) = seq_io_move_to_lruhead s s.seq_io_tail >>= λ s'. some (
  put_io s' s.seq_io_tail (record (s'.seq_recent_ios s.seq_io_tail) {
    most_recent_sector = sector;
    sequential_count = 1;
  }),
  false,
)

-- skip_sequential_io; each flow takes a step of the search, and its end one more.
unfoldable pub skip_sequential_io : SeqState → ℕ → Bool → Option (SeqState × Bool)
skip_sequential_io s sector is_read =
    if s.sysctl_skip_seq_thresh_kb == 0
    then some (s, false)
    else (find_flow (suc queue_depth) s sector s.seq_io_head >>= λ m.
        take_in s sector m >>= λ r. some (conclude is_read r))
