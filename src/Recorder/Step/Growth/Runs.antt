-- ===== src/Recorder/Step/Growth/Runs.antt =====
-- `Grows` for every call of a recorder (src/wrapper/wrapper.cpp), with the DiskMod that stands for the
-- call, and for the calls of a test case.
use panda_scratchpad.Base.{ℕ, none, ◌≡◌, ◌⊎◌, true, false, not, ◌||◌, [], some, if◌then◌else◌}
use panda_scratchpad.Base.Int.{ℤ}
use panda_scratchpad.Base.Words.{test_bit}
use panda_scratchpad.Base.Outcome.{ok}
use panda_scratchpad.DiskMod.{DiskMod}
use panda_scratchpad.Recorder.{
  FsFns, Sys, Op, mkdir, open2, open3, write, pwrite, msync, fallocate, unlink, remove, fsync,
  fdatasync, sync, sync_file_range, checkpoint, to_u64,
}
use panda_scratchpad.Recorder.Tables.{lookup_fd}
use panda_scratchpad.Recorder.Files.{fallocate_opts}
use panda_scratchpad.Base.Texts.{c_str}
use panda_scratchpad.Base.Words.{Bytes}
use panda_scratchpad.DiskMod.{Stat, s_isdir, ModOpts}
use panda_scratchpad.Recorder.{Mapping}
use panda_scratchpad.Recorder.Mappings.{find_mapping}
use panda_scratchpad.Recorder.Step.Growth.{
  new_directory, opened_file, written_directory, write_location, write_record, pwrite_record,
  synced_mapping, allocated_range, removed_path, synced_file, synced_all, synced_range,
  checkpoint_marker,
}

module _ {W : Type 0} (fns : FsFns W) (s : Sys W) where
  abbrev OfFile : ℤ → Bytes → Type 0
  OfFile fd path = lookup_fd fd s.recorder.fd_map ≡ some path

  -- The DiskMod that stands for a call, whole: its path, type, options, range, data and what `stat`
  -- said. Of the states of a file that `fallocate` compares, nothing is said.
  abbrev pub IsRecordOf : Op → DiskMod → Type 0
  IsRecordOf (mkdir p mode) m = m ≡ new_directory p
  IsRecordOf (open2 p flags) m =
      let (exists, w) = fns.fn_path_exists (c_str p) s.world in
      ((not exists || test_bit flags 9) ≡ true)
      × (m ≡ opened_file p exists (fns.fn_stat (c_str p) (fns.fn_open (c_str p) flags w).1).0.1)
  IsRecordOf (open3 p flags mode) m =
      let (exists, w) = fns.fn_path_exists (c_str p) s.world in
      ((not exists || test_bit flags 9) ≡ true)
      × (m
          ≡ opened_file p exists
              (fns.fn_stat (c_str p) (fns.fn_open2 (c_str p) flags mode w).1).0.1)
  IsRecordOf (write fd buf count) m =
      (path : Bytes) × OfFile fd path
      × (if s_isdir (fns.fn_stat path s.world).0.1.st_mode
          then m ≡ written_directory (to_u64 (write_location fns s.world fd buf count path).0)
          else m ≡ write_record fns s.world fd buf count path)
  IsRecordOf (pwrite fd buf count offset) m =
      (path : Bytes) × OfFile fd path
      × (if s_isdir (fns.fn_stat path s.world).0.1.st_mode
          then m ≡ written_directory 0
          else m ≡ pwrite_record fns s.world fd buf count offset path)
  IsRecordOf (msync addr n flags) m =
      (entry : ℕ × Mapping) × (find_mapping addr s.recorder.mmap_map ≡ some entry)
      × (m
          ≡ synced_mapping entry addr n flags
              (fns.memory addr n (fns.fn_msync addr n flags s.world).1))
  IsRecordOf (fallocate fd mode offset len) m =
      (path : Bytes) × (pre : Stat) × (post : Stat) × (opts : ModOpts) × (OfFile fd path
        ⊎ (path ≡ []))
      × (fallocate_opts mode ≡ ok opts)
      × (m ≡ allocated_range path offset len pre post opts)
  IsRecordOf (unlink p) m = m ≡ removed_path p
  IsRecordOf (remove p) m = m ≡ removed_path p
  IsRecordOf (fsync fd) m = (path : Bytes) × OfFile fd path × (m ≡ synced_file path)
  IsRecordOf (fdatasync fd) m = (path : Bytes) × OfFile fd path × (m ≡ synced_file path)
  IsRecordOf sync m = m ≡ synced_all
  IsRecordOf (sync_file_range fd offset nbytes flags) m =
      (path : Bytes) × OfFile fd path
      × (m
          ≡ synced_range path
              (fns.fn_stat path (fns.fn_sync_file_range fd offset nbytes flags s.world).1).0.1
              offset nbytes)
  IsRecordOf checkpoint m = m ≡ checkpoint_marker
  IsRecordOf _ m = ⊥

  -- The calls that leave no record though they succeed.
  abbrev pub IsSilent : Op → Type 0
  IsSilent (mkdir p mode) = ⊥
  IsSilent (open2 p flags) =
      ((fns.fn_path_exists (c_str p) s.world).0 ≡ true) × (test_bit flags 9 ≡ false)
  IsSilent (open3 p flags mode) =
      ((fns.fn_path_exists (c_str p) s.world).0 ≡ true) × (test_bit flags 9 ≡ false)
  IsSilent (write fd buf count) = ⊥
  IsSilent (pwrite fd buf count offset) = ⊥
  IsSilent (msync addr n flags) = find_mapping addr s.recorder.mmap_map ≡ none
  IsSilent (fallocate fd mode offset len) = ⊥
  IsSilent (unlink p) = ⊥
  IsSilent (remove p) = ⊥
  IsSilent (fsync fd) = ⊥
  IsSilent (fdatasync fd) = ⊥
  IsSilent sync = ⊥
  IsSilent (sync_file_range fd offset nbytes flags) = ⊥
  IsSilent checkpoint = ⊥
  IsSilent _ = Unit {0}

  -- The file of a call, whose state the recorder asks for.
  abbrev pub IsFileOf : Op → Bytes → Type 0
  IsFileOf (open2 p flags) path = path ≡ c_str p
  IsFileOf (open3 p flags mode) path = path ≡ c_str p
  IsFileOf (write fd buf count) path = OfFile fd path
  IsFileOf (pwrite fd buf count offset) path = OfFile fd path
  IsFileOf (fallocate fd mode offset len) path =
      (entry : Bytes) × (OfFile fd entry ⊎ (entry ≡ [])) × (path ≡ c_str entry)
  IsFileOf (sync_file_range fd offset nbytes flags) path = OfFile fd path
  IsFileOf _ path = ⊥
