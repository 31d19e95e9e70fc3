-- ===== src/Pfd/Stat.antt =====
-- The access patterns of processes (src/pfd_stat.c): the entries, and what a request does to its
-- process's entry and to the queue of entries.
-- A pointer to stat_elms[i] is `i`, and NULL is `nil`; a pointer to seq_stats[i] is `i`.
-- `current->pid` and the sector of the request are arguments.
use flashcache_ubuntu_xenial.Prelude.{
  ℕ, zero, suc, ◌+◌, ◌-◌, ◌*◌, ◌/◌, ◌%◌, ◌^◌, Bool, true, false, ◌&&◌, ◌||◌, Option, some, none,
  ltb, leb, ◌==◌, if◌then◌else◌, update, ◌>>=◌, ℤ, pos, negsuc, ◌⊖◌, abs, ◌==ℤ◌,
}
use flashcache_ubuntu_xenial.Device.{CacheC, u64}

pub record PfdSeqStat : Type 0 where
  pub start : ℕ
  pub count : ℕ

pub record PfdStat : Type 0 where
  pub tgt : Option ℕ
  pub pid : ℤ
  pub stride : ℤ
  pub stride_count : ℕ
  pub seq_stats : ℕ → PfdSeqStat
  pub curr_seq_stat : ℕ
  pub prev_seq_stat : ℕ

pub record PfdStatElm : Type 0 where
  pub stat : PfdStat
  pub next : ℕ
  pub prev : ℕ

pub record PfdStatQueue : Type 0 where
  pub stat_elms : ℕ → PfdStatElm
  pub head : ℕ
  pub tail : ℕ

pub record PfdStatInfo : Type 0 where
  pub last_sect : ℕ
  pub seq_count : ℕ
  pub seq_total_count : ℕ
  pub stride_distance_sect : ℤ
  pub stride_count : ℕ

-- PFD_STAT_COUNT
abbrev pub pfd_stat_count : ℕ
pfd_stat_count = 64

abbrev pub nil : ℕ
nil = pfd_stat_count

abbrev pub reset_pfd_seq_stat : PfdSeqStat → PfdSeqStat
reset_pfd_seq_stat t = record t { count = 0 }

abbrev pub is_bio_fit_seq_stat : CacheC → PfdSeqStat → ℕ → Bool
is_bio_fit_seq_stat d t sector = (t.start + t.count * d.block_size) % u64 == sector

-- A write through the pointer `i` into seq_stats.
abbrev pub put_seq : PfdStat → ℕ → PfdSeqStat → PfdStat
put_seq s i v = record s { seq_stats = update s.seq_stats i v }

abbrev pub curr_of : PfdStat → PfdSeqStat
curr_of s = s.seq_stats s.curr_seq_stat

abbrev pub prev_of : PfdStat → PfdSeqStat
prev_of s = s.seq_stats s.prev_seq_stat

abbrev pub reset_pfd_stat : PfdStat → PfdStat
reset_pfd_stat s = record {
  tgt = none;
  pid = negsuc 0;
  stride = pos 0;
  stride_count = 0;
  seq_stats = λ i. reset_pfd_seq_stat (s.seq_stats i);
  curr_seq_stat = 0;
  prev_seq_stat = 1;
}

abbrev pub swap_pfd_stat_curr_prev : PfdStat → PfdStat
swap_pfd_stat_curr_prev s = record s {
  curr_seq_stat = s.prev_seq_stat;
  prev_seq_stat = s.curr_seq_stat;
}

abbrev pub no_stride : PfdStat → PfdStat
no_stride s = record s { stride = pos 0; stride_count = 0 }

-- `prev` is reset.
abbrev pub reset_prev : PfdStat → PfdStat
reset_prev s = put_seq s s.prev_seq_stat (reset_pfd_seq_stat (prev_of s))

-- `curr` starts again at the request.
abbrev pub restart : PfdStat → ℕ → PfdStat
restart s sector = put_seq s s.curr_seq_stat (record { start = sector; count = 1 })

-- The branch of pfd_stat_update for a request that continues the current run.
abbrev pub continue_run : PfdStat → PfdStat
continue_run s =
    let curr = curr_of s in
    let s' = put_seq s s.curr_seq_stat (record curr { count = curr.count + 1 }) in
    if (prev_of s).count == 0 || leb (curr.count + 1) (prev_of s).count
    then s'
    else no_stride (reset_prev s')

-- The branch for a request elsewhere.
abbrev pub leave_run : CacheC → PfdStat → ℕ → PfdStat
leave_run d s sector =
    let curr = curr_of s in
    let new_stride = sector ⊖ curr.start in
    let other = swap_pfd_stat_curr_prev s in
    if (prev_of s).count == 0
    then (if ltb (abs new_stride / 2 ^ d.block_shift) curr.count
        then no_stride (restart s sector)
        else record (restart other sector) { stride = new_stride; stride_count = 1 })
    else if (prev_of s).count == curr.count && new_stride ==ℤ s.stride
    then record (restart other sector) { stride_count = s.stride_count + 1 }
    else no_stride (restart (reset_prev other) sector)

-- What pfd_stat_update does to the entry.
unfoldable pub observe : CacheC → PfdStat → ℕ → PfdStat
observe d s sector =
    let curr = curr_of s in
    if curr.count == 0
    then put_seq s s.curr_seq_stat (record { start = sector; count = curr.count + 1 })
    else if is_bio_fit_seq_stat d curr sector
    then continue_run s
    else leave_run d s sector

-- reset_pfd_stat_queue
unfoldable pub reset_pfd_stat_queue : PfdStatQueue → PfdStatQueue
reset_pfd_stat_queue q = record {
  stat_elms = λ i. record {
    stat = reset_pfd_stat (q.stat_elms i).stat;
    next = if i == pfd_stat_count - 1 then nil else i + 1;
    prev = if i == 0 then nil else i - 1;
  };
  head = 0;
  tail = pfd_stat_count - 1;
}

abbrev pub put_elm : PfdStatQueue → ℕ → PfdStatElm → PfdStatQueue
put_elm q i e = record q { stat_elms = update q.stat_elms i e }

abbrev pub put_next : PfdStatQueue → ℕ → ℕ → PfdStatQueue
put_next q i v = put_elm q i (record (q.stat_elms i) { next = v })

abbrev pub put_prev : PfdStatQueue → ℕ → ℕ → PfdStatQueue
put_prev q i v = put_elm q i (record (q.stat_elms i) { prev = v })

-- The element is taken out of the queue.
unfoldable pub taken_out : PfdStatQueue → ℕ → PfdStatQueue
taken_out q elm =
    let e = q.stat_elms elm in
    let q1 = if e.next == nil then q else put_prev q e.next e.prev in
    let q2 = if e.prev == nil then q1 else put_next q1 e.prev e.next in
    if q2.tail == elm then record q2 { tail = e.prev } else q2

-- It is put in before the head.
unfoldable pub put_first : PfdStatQueue → ℕ → PfdStatQueue
put_first q elm =
    let q1 = put_prev q q.head elm in
    record (put_prev (put_next q1 elm q.head) elm nil) { head = elm }

unfoldable pub pfd_stat_elm_to_head : PfdStatQueue → ℕ → PfdStatQueue
pfd_stat_elm_to_head q elm = if q.head == elm then q else put_first (taken_out q elm) elm

-- The entry is of this device and this process.
abbrev pub is_tgt : Option ℕ → ℕ → Bool
is_tgt none t = false
is_tgt (some a) t = a == t

abbrev pub is_unused : Option ℕ → Bool
is_unused none = true
is_unused (some a) = false

abbrev pub is_of : CacheC → ℤ → PfdStat → Bool
is_of d pid s = is_tgt s.tgt d.tgt && s.pid ==ℤ pid

-- The loop of pfd_stat_queue_search, from `elm` on.
unfoldable pub search_from : ℕ → PfdStatQueue → CacheC → ℤ → ℕ → Option (Option ℕ)
search_from zero q d pid elm = none
search_from (suc fuel) q d pid elm =
    let rest = search_from fuel q d pid (q.stat_elms elm).next in
    if elm == nil
    then some none
    else if is_of d pid (q.stat_elms elm).stat
    then some (some elm)
    else if is_unused (q.stat_elms elm).stat.tgt
    then some none
    else rest

-- Each element takes a step, and the end of the queue one more.
abbrev pub pfd_stat_queue_search : PfdStatQueue → CacheC → ℤ → Option (Option ℕ)
pfd_stat_queue_search q d pid = search_from (suc pfd_stat_count) q d pid q.head

-- The element for the process: the one found, or the last, reset for the process.
unfoldable pub elm_for : PfdStatQueue → CacheC → ℤ → Option ℕ → ℕ × PfdStatQueue
elm_for q d pid (some elm) = (elm, q)
elm_for q d pid none =
    let e = q.stat_elms q.tail in
    (
      q.tail,
      put_elm q q.tail
          (record e { stat = record (reset_pfd_stat e.stat) { pid = pid; tgt = some d.tgt } }),
    )

abbrev pub info_of : PfdStat → ℕ → PfdStatInfo
info_of s sector = record {
  last_sect = sector;
  seq_count = (curr_of s).count;
  seq_total_count = (prev_of s).count;
  stride_distance_sect = s.stride;
  stride_count = s.stride_count;
}

-- The element goes to the head and takes in the request.
unfoldable pub update_elm : CacheC → ℕ → ℕ × PfdStatQueue → PfdStatQueue × PfdStatInfo
update_elm d sector (elm, q) =
    let q' = pfd_stat_elm_to_head q elm in
    let e = q'.stat_elms elm in
    let s = observe d e.stat sector in (put_elm q' elm (record e { stat = s }), info_of s sector)

unfoldable pub pfd_stat_update : CacheC → ℤ → ℕ → PfdStatQueue → Option (PfdStatQueue × PfdStatInfo)
pfd_stat_update d pid sector q =
    pfd_stat_queue_search q d pid >>= λ found. some (update_elm d sector (elm_for q d pid found))
