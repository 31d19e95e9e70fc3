-- ===== src/Ioctl/Pids.antt =====
-- The lists of processes whose requests are or are not cached (src/flashcache_ioctl.c). The state is
-- the fields of `struct cache_c` that these functions use, with the nodes in a store: a pointer to a
-- node is its number, and NULL is `none`. `none` as a result is a failed VERIFY or a walk out of fuel.
use flashcache_ubuntu_xenial.Prelude.{
  ℕ, zero, suc, ◌+◌, ◌-◌, ◌%◌, Bool, true, false, not, Option, some, none, ltb, leb, ◌==◌,
  if◌then◌else◌, guard, ◌>>=◌, ◌>>◌, update,
}
use flashcache_ubuntu_xenial.Device.{u64}
use flashcache_ubuntu_xenial.Ioctl.Sequential.{SeqState, skip_sequential_io}

pub record PidNode : Type 0 where
  pub pid : ℕ
  pub next : Option ℕ
  pub prev : Option ℕ

-- One of the two lists, with its count.
pub record PidList : Type 0 where
  pub head : Option ℕ
  pub tail : Option ℕ
  pub num_pids : ℕ

pub data WhichList : Type 0 where
  whitelist blacklist : WhichList

pub record PidState : Type 0 where
  pub nodes : ℕ → PidNode
  pub list : WhichList → PidList
  pub sysctl_max_pids : ℕ
  pub pid_dels : ℕ
  pub pid_drops : ℕ
  pub bypass_cache : Bool
  pub sysctl_cache_all : Bool

abbrev pub set_list : PidState → WhichList → PidList → PidState
set_list s WhichList.whitelist v = record s {
  list = λ w. elim w [ WhichList.whitelist ↦ v | WhichList.blacklist ↦ s.list WhichList.blacklist ];
}
set_list s WhichList.blacklist v = record s {
  list = λ w. elim w [ WhichList.whitelist ↦ s.list WhichList.whitelist | WhichList.blacklist ↦ v ];
}

-- The walk of flashcache_find_pid_locked.
unfoldable pub find_from : ℕ → PidState → ℕ → Option ℕ → Option Bool
find_from fuel s pid none = some false
find_from zero s pid (some k) = none
find_from (suc fuel) s pid (some k) =
    let rest = find_from fuel s pid (s.nodes k).next in
    if (s.nodes k).pid == pid then some true else rest

-- flashcache_find_pid_locked; the count of the list is its fuel.
abbrev pub find_pid_locked : PidState → ℕ → WhichList → Option Bool
find_pid_locked s pid w = find_from (s.list w).num_pids s pid (s.list w).head

abbrev pub put_next : PidState → Option ℕ → Option ℕ → PidState
put_next s none v = s
put_next s (some k) v = record s { nodes = update s.nodes k (record (s.nodes k) { next = v }) }

abbrev pub put_prev : PidState → Option ℕ → Option ℕ → PidState
put_prev s none v = s
put_prev s (some k) v = record s { nodes = update s.nodes k (record (s.nodes k) { prev = v }) }

-- The node's neighbours, or the ends of the list, are linked past it.
abbrev pub unlink_front : PidState → WhichList → Option ℕ → Option ℕ → PidState
unlink_front s w none next = put_prev (set_list s w (record (s.list w) { head = next })) next none
unlink_front s w (some p) next = put_next s (some p) next

abbrev pub unlink_back : PidState → WhichList → Option ℕ → Option ℕ → PidState
unlink_back s w prev none = put_next (set_list s w (record (s.list w) { tail = prev })) prev none
unlink_back s w prev (some k) = put_prev s (some k) prev

unfoldable pub drop_node : PidState → WhichList → ℕ → PidState
drop_node s w k =
    let e = s.nodes k in
    let s' = unlink_back (unlink_front s w e.prev e.next) w e.prev e.next in
    record (set_list s' w (record (s'.list w) { num_pids = (s'.list w).num_pids - 1 })) {
      pid_dels = (s.pid_dels + 1) % u64;
    }

-- The walk of flashcache_del_pid_locked, from the tail.
unfoldable pub del_from : ℕ → PidState → ℕ → WhichList → Option ℕ → Option PidState
del_from fuel s pid w none = some s
del_from zero s pid w (some k) = none
del_from (suc fuel) s pid w (some k) =
    let rest = del_from fuel s pid w (s.nodes k).prev in
    guard (ltb 0 (s.list w).num_pids)
    >> (if (s.nodes k).pid == pid then some (drop_node s w k) else rest)

-- flashcache_del_pid_locked
abbrev pub del_pid_locked : PidState → ℕ → WhichList → Option PidState
del_pid_locked s pid w = del_from (s.list w).num_pids s pid w (s.list w).tail

-- The pid of the last node, for a list that has a first: the source reads it through the tail.
abbrev pub tail_pid : PidState → WhichList → Option ℕ → Option ℕ
tail_pid s w none = none
tail_pid s w (some h) = (s.list w).tail >>= λ k. some (s.nodes k).pid

-- flashcache_drop_pids, of at most `fuel` processes.
unfoldable pub drop_pids : ℕ → PidState → WhichList → Option PidState
drop_pids zero s w = none
drop_pids (suc fuel) s w =
    let dropped = do
      pid ← tail_pid s w (s.list w).head
      s' ← del_pid_locked s pid w
      drop_pids fuel (record s' { pid_drops = (s'.pid_drops + 1) % u64 }) w
    in if leb s.sysctl_max_pids (s.list w).num_pids then dropped else some s

-- The process of a request: current->pid and current->tgid.
pub record Task : Type 0 where
  pub pid : ℕ
  pub tgid : ℕ

-- The branch of flashcache_uncacheable that caches all, up to the test for sequential requests:
-- `some (some b)` is a decision, and `some none` leaves it to that test.
unfoldable pub listed : PidState → Task → Option (Option Bool)
listed s t = do
  black ← find_pid_locked s t.pid WhichList.blacklist
  group ← find_pid_locked s t.tgid WhichList.blacklist
  white ← find_pid_locked s t.pid WhichList.whitelist
  some (if black then some true else if group then some (not white) else none)

-- The branch that caches nothing.
unfoldable pub unlisted : PidState → Task → Option Bool
unlisted s t = do
  white ← find_pid_locked s t.pid WhichList.whitelist
  group ← find_pid_locked s t.tgid WhichList.whitelist
  black ← find_pid_locked s t.pid WhichList.blacklist
  some (if white then false else if group then black else true)

abbrev pub or_sequential : SeqState → ℕ → Bool → Option Bool → Option (SeqState × Bool)
or_sequential q sector is_read (some b) = some (q, b)
or_sequential q sector is_read none = skip_sequential_io q sector is_read

-- flashcache_uncacheable
unfoldable pub uncacheable : PidState → SeqState → Task → ℕ → Bool → Option (SeqState × Bool)
uncacheable s q t sector is_read =
    if s.bypass_cache
    then some (q, true)
    else if s.sysctl_cache_all
    then listed s t >>= or_sequential q sector is_read
    else unlisted s t >>= λ b. some (q, b)
