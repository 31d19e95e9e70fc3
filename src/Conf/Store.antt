-- ===== src/Conf/Store.antt =====
-- flashcache_writeback_md_store of src/flashcache_conf.c: on removal or reboot the metadata goes to
-- the cache device, and the superblock last.
use flashcache_ubuntu_xenial.Prelude.{false, ◌==◌, if◌then◌else◌}
use flashcache_ubuntu_xenial.Conf.Machine.{
  Machine, Exit, ok, ◌>>=◌, SbState, Superblock, dev_pathlen, strncpy, vmalloc, write_superblock,
}
use flashcache_ubuntu_xenial.Conf.Writer.{Writer, machine_of, write_metadata}

-- The state of the superblock: UNSTABLE after an error, FASTCLEAN with dirty blocks, or else CLEAN.
abbrev pub stored_state : Writer → SbState
stored_state w =
    if w.write_errors == 0
    then (if w.num_dirty == 0 then SbState.clean else SbState.fast_clean)
    else SbState.unstable

abbrev pub stored_header : Machine → SbState → Superblock
stored_header x s = record {
  size = x.dmc.size;
  block_size = x.dmc.block_size;
  assoc = x.dmc.assoc;
  cache_sb_state = s;
  cache_devname = strncpy dev_pathlen x.dm_vdevname;
  cache_devsize = x.cache_sectors;
  disk_devname = strncpy dev_pathlen x.disk_devname;
  disk_devsize = x.disk_sectors;
  cache_version = x.dmc.on_ssd_version;
  md_block_size = x.dmc.md_block_size;
  disk_assoc = x.dmc.disk_assoc;
  write_only_cache = x.dmc.write_only_cache;
}

-- flashcache_writeback_md_store, which returns 0 whatever the errors of its writes.
unfoldable pub writeback_md_store : Machine → Exit Machine
writeback_md_store x = do
  x' ← vmalloc x
  w ← write_metadata false x' (x.fresh_slots x.vmallocs)
  y ← vmalloc (machine_of x' w)
  ok (write_superblock y (stored_header y (stored_state w))).0
