-- ===== src/Recorder/Step/Growth.antt =====
-- What a call of a recorder (src/wrapper/wrapper.cpp) may do to the list of its DiskMods, and the
-- DiskMods that the calls make. The children go through the calls.
pub mod Metadata
pub mod Data
pub mod Ranges
pub mod Calls
pub mod Runs
use panda_scratchpad.Base.{
  ℕ, ◌+◌, ◌-◌, ◌≡◌, Bool, true, false, ◌&&◌, some, none, List, [], ◌∷◌, ◌++◌, ◌==◌, ltb, take,
  if◌then◌else◌,
}
use panda_scratchpad.Base.Int.{ℤ, pos, is_neg, to_ℕ, to_int}
use panda_scratchpad.Base.Words.{Bytes, u32, u64, test_bit}
use panda_scratchpad.Base.Outcome.{Outcome, ok, failed, fault, stuck}
use panda_scratchpad.Base.Exec.{Exec}
use panda_scratchpad.DiskMod.{
  DiskMod, Stat, s_isdir, reset, create_mod, data_mod, data_metadata_mod, remove_mod, fsync_mod,
  sync_mod, checkpoint_mod, sync_file_range_mod, ModOpts, none_opt, truncate_opt, ms_async_opt,
  ms_sync_opt,
}
use panda_scratchpad.Recorder.{FsFns, Sys, Mapping, to_u64}
use panda_scratchpad.Recorder.Tables.{FdMap, MmapMap}

-- Why a call that returns this result may have recorded nothing: it failed, or did not come back, or the
-- recorder's own `stat` of the call's file failed (`Asked` says which file that is), or the call leaves no
-- record anyway (`Silent`).
pub data Unrecorded {W : Type 0} (fns : FsFns W) (Asked : Bytes → Type 0) (Silent : Type 0)
    : Outcome ℤ → Type 0 where
  negative : {res : ℤ} → is_neg res ≡ true → Unrecorded fns Asked Silent (ok res)
  refused : Unrecorded fns Asked Silent failed
  faulted : Unrecorded fns Asked Silent fault
  endless : Unrecorded fns Asked Silent stuck
  unstated :
      (path : Bytes) (w : W) {r : Outcome ℤ}
      → Asked path
      → is_neg (fns.fn_stat path w).0.0 ≡ true
      → Unrecorded fns Asked Silent r
  silent : {r : Outcome ℤ} → Silent → Unrecorded fns Asked Silent r

-- How the records may change, by the result of the call: `P` is what a new one must be.
pub data Grows {W : Type 0} (fns : FsFns W) (Asked : Bytes → Type 0) (Silent : Type 0)
    (P : DiskMod → Type 0) (before : List DiskMod) : Outcome ℤ → List DiskMod → Type 0 where
  same : {r : Outcome ℤ} → Unrecorded fns Asked Silent r → Grows fns Asked Silent P before r before
  one :
      (m : DiskMod)
      → P m
      → {res : ℤ} → is_neg res ≡ false
      → Grows fns Asked Silent P before (ok res) (before ++ m ∷ [])

-- `M` is what the maps must be after the call.
module _ {W : Type 0} (Asked : Bytes → Type 0) (Silent : Type 0) (P : DiskMod → Type 0)
    (M : FdMap → MmapMap → Type 0) (fns : FsFns W) (s : Sys W) where
  abbrev pub Keeps : Exec (Sys W) ℤ → Type 0
  Keeps m =
      Grows fns Asked Silent P s.recorder.mods (m s).0 (m s).1.recorder.mods
      × M (m s).1.recorder.fd_map (m s).1.recorder.mmap_map

abbrev pub new_directory : Bytes → DiskMod
new_directory pathname = record reset {
  directory_mod = true;
  path = pathname;
  mod_type = create_mod;
  mod_opts = none_opt;
}

abbrev pub opened_file : Bytes → Bool → Stat → DiskMod
opened_file pathname exists stats = record reset {
  post_mod_stats = stats;
  directory_mod = s_isdir stats.st_mode;
  mod_type = if exists then data_metadata_mod else create_mod;
  mod_opts = if exists then truncate_opt else none_opt;
  path = pathname;
}

abbrev pub written_directory : ℕ → DiskMod
written_directory location = record reset { file_mod_location = location; directory_mod = true }

abbrev pub written_file : Bytes → Bytes → ℕ → (pre post : Stat) → ℤ → DiskMod
written_file path buf location pre post write_res = record reset {
  file_mod_location = location;
  file_mod_len = to_ℕ write_res;
  path = path;
  post_mod_stats = post;
  mod_type = if pre.st_size == post.st_size then data_mod else data_metadata_mod;
  file_mod_data = if ltb 0 (to_ℕ write_res) then some (take (to_ℕ write_res) buf) else none;
}

-- What a write to the file of `path` records, from the states of the file in front of it and behind it.
module _ {W : Type 0} (fns : FsFns W) (w : W) (fd : ℤ) (buf : Bytes) (count : ℕ) where
  abbrev pub write_location : (path : Bytes) → ℤ × W
  write_location path = fns.fn_lseek fd (pos 0) 1 (fns.fn_stat path w).1

  abbrev pub write_record : (path : Bytes) → DiskMod
  write_record path =
      let pre = (fns.fn_stat path w).0.1 in
      let (location, w1) = write_location path in
      let (written, w2) = fns.fn_write fd buf count w1 in
      written_file path buf (to_u64 location) pre (fns.fn_stat path w2).0.1 (to_int written)

  abbrev pub pwrite_record : (offset : ℤ) (path : Bytes) → DiskMod
  pwrite_record offset path =
      let (pre_stat, w1) = fns.fn_stat path w in
      let (written, w2) = fns.fn_pwrite fd buf count offset w1 in
      written_file path buf (if s_isdir pre_stat.1.st_mode then 0 else to_u64 offset) pre_stat.1
        (fns.fn_stat path w2).0.1 (to_int written)

abbrev pub synced_mapping : ℕ × Mapping → (addr length flags : ℕ) → Bytes → DiskMod
synced_mapping (k, v) addr length flags bs = record reset {
  mod_type = data_mod;
  mod_opts = if test_bit flags 0 then ms_async_opt else ms_sync_opt;
  path = v.path;
  file_mod_location = u64 (u32 v.offset + (addr - k));
  file_mod_len = length;
  file_mod_data = some bs;
}

abbrev pub allocated_range : Bytes → (offset len : ℤ) → (pre post : Stat) → ModOpts → DiskMod
allocated_range path offset len pre post opts = record reset {
  mod_type =
      if (pre.st_size == post.st_size) && (pre.st_blocks == post.st_blocks)
      then data_mod
      else data_metadata_mod;
  path = path;
  file_mod_location = to_u64 offset;
  file_mod_len = to_u64 len;
  mod_opts = opts;
}

abbrev pub removed_path : Bytes → DiskMod
removed_path pathname = record reset { mod_type = remove_mod; mod_opts = none_opt; path = pathname }

abbrev pub synced_file : Bytes → DiskMod
synced_file path = record reset { mod_type = fsync_mod; mod_opts = none_opt; path = path }

abbrev pub synced_all : DiskMod
synced_all = record reset { mod_type = sync_mod; mod_opts = none_opt }

abbrev pub synced_range : Bytes → Stat → (offset nbytes : ℕ) → DiskMod
synced_range path stats offset nbytes = record reset {
  mod_type = sync_file_range_mod;
  mod_opts = none_opt;
  path = path;
  post_mod_stats = stats;
  file_mod_location = offset;
  file_mod_len = nbytes;
}

abbrev pub checkpoint_marker : DiskMod
checkpoint_marker = record reset { mod_type = checkpoint_mod; mod_opts = none_opt }
