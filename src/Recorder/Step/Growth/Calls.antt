-- ===== src/Recorder/Step/Growth/Calls.antt =====
-- What has to hold of the DiskMods that a call of a recorder (src/wrapper/wrapper.cpp) can make, so
-- that it holds of the one that it records.
use panda_scratchpad.Base.{
  ℕ, ◌⊎◌, ◌≡◌, refl, Bool, true, false, not, ◌||◌, none, some, [], inl, inr, if◌then◌else◌,
}
use panda_scratchpad.Base.Int.{ℤ, is_neg, to_int}
use panda_scratchpad.Base.Words.{Bytes, u32, test_bit}
use panda_scratchpad.Base.Outcome.{ok}
use panda_scratchpad.DiskMod.{DiskMod, Stat, s_isdir, ModOpts}
use panda_scratchpad.Base.Texts.{c_str}
use panda_scratchpad.Recorder.Tables.{
  lookup_fd, FdMap, MmapMap, insert_fd, erase_fd, insert_mapping, erase_mapping, rename_fds,
}
use panda_scratchpad.Recorder.Mappings.{find_mapping}
use panda_scratchpad.Recorder.{
  Mapping, to_u64, FsFns, Sys, Op, mknod, mkdir, open2, open3, lseek, write, pwrite, mmap, msync,
  munmap, fallocate, close, rename, unlink, remove, fsync, fdatasync, sync, sync_file_range,
  checkpoint,
}
use panda_scratchpad.Recorder.Files.{cm_mknod, cm_lseek, cm_rename, fallocate_opts}
use panda_scratchpad.Recorder.Sync.{cm_sync}
use panda_scratchpad.Recorder.Step.{step}
use panda_scratchpad.Recorder.Step.Growth.{
  Grows, same, silent, one, write_location, write_record, pwrite_record, new_directory, opened_file,
  written_directory, synced_mapping, allocated_range, removed_path, synced_file, synced_all,
  synced_range, checkpoint_marker,
}
use panda_scratchpad.Recorder.Step.Growth.Metadata.{
  mkdir-Grows, fsync-Grows, fdatasync-Grows, sync_file_range-Grows, checkpoint-Grows, unlink-Grows,
  remove-Grows, close-Grows,
}
use panda_scratchpad.Recorder.Step.Growth.Data.{
  open2-Grows, open3-Grows, write-Grows, pwrite-Grows, munmap-Grows, msync-Grows, mmap-Grows,
}
use panda_scratchpad.Recorder.Step.Growth.Ranges.{fallocate-Grows}

module _ {W : Type 0} (P : DiskMod → Type 0) (fns : FsFns W) (s : Sys W) where
  abbrev OfFile : ℤ → Bytes → Type 0
  OfFile fd path = lookup_fd fd s.recorder.fd_map ≡ some path

  abbrev MakesOpened : Bytes → ℕ → Bool → ℤ × W → Type 0
  MakesOpened p flags exists (res, w) =
      is_neg res ≡ false
      → (not exists || test_bit flags 9) ≡ true
      → P (opened_file p exists (fns.fn_stat (c_str p) w).0.1)

  abbrev pub Makes : Op → Type 0
  Makes (mkdir p mode) = P (new_directory p)
  Makes (open2 p flags) =
      let (exists, w) = fns.fn_path_exists (c_str p) s.world in
      MakesOpened p flags exists (fns.fn_open (c_str p) flags w)
  Makes (open3 p flags mode) =
      let (exists, w) = fns.fn_path_exists (c_str p) s.world in
      MakesOpened p flags exists (fns.fn_open2 (c_str p) flags mode w)
  Makes (write fd buf count) =
      ((path : Bytes)
        → OfFile fd path
        → s_isdir (fns.fn_stat path s.world).0.1.st_mode ≡ true
        → P (written_directory (to_u64 (write_location fns s.world fd buf count path).0)))
      × ((path : Bytes)
          → OfFile fd path
          → s_isdir (fns.fn_stat path s.world).0.1.st_mode ≡ false
          → is_neg (
              to_int (fns.fn_write fd buf count (write_location fns s.world fd buf count path).1).0)
            ≡ false
          → P (write_record fns s.world fd buf count path))
  Makes (pwrite fd buf count offset) =
      ((path : Bytes)
        → OfFile fd path
        → s_isdir (fns.fn_stat path s.world).0.1.st_mode ≡ true
        → P (
            written_directory
              (if s_isdir (fns.fn_stat path s.world).0.1.st_mode then 0 else to_u64 offset)))
      × ((path : Bytes)
          → OfFile fd path
          → s_isdir (fns.fn_stat path s.world).0.1.st_mode ≡ false
          → is_neg (to_int (fns.fn_pwrite fd buf count offset (fns.fn_stat path s.world).1).0)
            ≡ false
          → P (pwrite_record fns s.world fd buf count offset path))
  Makes (msync addr n flags) =
      (entry : ℕ × Mapping)
      → find_mapping addr s.recorder.mmap_map ≡ some entry
      → P (
          synced_mapping entry addr n flags
            (fns.memory addr n (fns.fn_msync addr n flags s.world).1))
  Makes (fallocate fd mode offset len) =
      (path : Bytes) (pre post : Stat) (opts : ModOpts)
      → (OfFile fd path ⊎ (path ≡ []))
      → fallocate_opts mode ≡ ok opts
      → P (allocated_range path offset len pre post opts)
  Makes (unlink p) = P (removed_path p)
  Makes (remove p) = P (removed_path p)
  Makes (fsync fd) = (path : Bytes) → OfFile fd path → P (synced_file path)
  Makes (fdatasync fd) = (path : Bytes) → OfFile fd path → P (synced_file path)
  Makes sync = P synced_all
  Makes (sync_file_range fd offset nbytes flags) =
      (path : Bytes)
      → OfFile fd path
      → P (
          synced_range path
            (fns.fn_stat path (fns.fn_sync_file_range fd offset nbytes flags s.world).1).0.1 offset
            nbytes)
  Makes checkpoint = P checkpoint_marker
  Makes _ = Unit {0}

module _ {W : Type 0} (Silent : Type 0) (fns : FsFns W) (s : Sys W) where
  -- When a call that succeeds is to be silent: `open` of a file that is there and is not truncated,
  -- `msync` outside all mappings, and the calls that change no content.
  abbrev pub Silences : Op → Type 0
  Silences (open2 p flags) =
      (not (fns.fn_path_exists (c_str p) s.world).0 || test_bit flags 9) ≡ false → Silent
  Silences (open3 p flags mode) =
      (not (fns.fn_path_exists (c_str p) s.world).0 || test_bit flags 9) ≡ false → Silent
  Silences (msync addr n flags) = find_mapping addr s.recorder.mmap_map ≡ none → Silent
  Silences (mknod p mode dev) = Silent
  Silences (lseek fd offset whence) = Silent
  Silences (mmap addr n prot flags fd offset) = Silent
  Silences (munmap addr n) = Silent
  Silences (close fd) = Silent
  Silences (rename old_path new_path) = Silent
  Silences _ = Unit {0}

module _ {W : Type 0} (Asked : Bytes → Type 0) (s : Sys W) where
  -- The files that the recorder asks `stat` for.
  abbrev pub Asks : Op → Type 0
  Asks (open2 p flags) = Asked (c_str p)
  Asks (open3 p flags mode) = Asked (c_str p)
  Asks (write fd buf count) =
      (path : Bytes) → lookup_fd fd s.recorder.fd_map ≡ some path → Asked path
  Asks (pwrite fd buf count offset) =
      (path : Bytes) → lookup_fd fd s.recorder.fd_map ≡ some path → Asked path
  Asks (fallocate fd mode offset len) =
      (path : Bytes)
      → (lookup_fd fd s.recorder.fd_map ≡ some path) ⊎ (path ≡ [])
      → Asked (c_str path)
  Asks (sync_file_range fd offset nbytes flags) =
      (path : Bytes) → lookup_fd fd s.recorder.fd_map ≡ some path → Asked path
  Asks _ = Unit {0}

module _ {W : Type 0} (M : FdMap → MmapMap → Type 0) (s : Sys W) where
  -- What has to hold so that the maps after a call are in `M`.
  abbrev pub Moves : Op → Type 0
  Moves (open2 p flags) = (res : ℤ) → M (insert_fd res p s.recorder.fd_map) s.recorder.mmap_map
  Moves (open3 p flags mode) = (res : ℤ) → M (insert_fd res p s.recorder.fd_map) s.recorder.mmap_map
  Moves (close fd) = M (erase_fd fd s.recorder.fd_map) s.recorder.mmap_map
  Moves (mmap addr n prot flags fd offset) =
      (res : ℕ) (path : Bytes)
      → lookup_fd fd s.recorder.fd_map ≡ some path
      → M s.recorder.fd_map (
          insert_mapping res (record { path = path; offset = u32 (to_u64 offset); length = u32 n })
            s.recorder.mmap_map)
  Moves (munmap addr n) = M s.recorder.fd_map (erase_mapping addr s.recorder.mmap_map)
  Moves (fallocate fd mode offset len) = (f : FdMap) (g : MmapMap) → M f g → M (insert_fd fd [] f) g
  Moves (rename old_path new_path) =
      M (rename_fds old_path new_path s.recorder.fd_map) s.recorder.mmap_map
  Moves _ = Unit {0}

module _ {W : Type 0} (Asked : Bytes → Type 0) (Silent : Type 0) (P : DiskMod → Type 0)
    (M : FdMap → MmapMap → Type 0) (fns : FsFns W) (s : Sys W)
    (k : M s.recorder.fd_map s.recorder.mmap_map) where
  pub step_lem :
      (op : Op)
      → Makes P fns s op
      → Asks Asked s op
      → Silences Silent fns s op
      → Moves M s op
      → Grows fns Asked Silent P s.recorder.mods (step fns op s).0 (step fns op s).1.recorder.mods
        × M (step fns op s).1.recorder.fd_map (step fns op s).1.recorder.mmap_map
  unfolding step cm_mknod cm_lseek cm_rename cm_sync
  step_lem (mknod p mode dev) h a q g = (same (silent q), k)
  step_lem (mkdir p mode) h a q g = mkdir-Grows Asked Silent P M fns s k p mode h
  step_lem (open2 p flags) h a q g = open2-Grows Asked Silent P M fns s k p flags a h q g
  step_lem (open3 p flags mode) h a q g = open3-Grows Asked Silent P M fns s k p flags mode a h q g
  step_lem (lseek fd offset whence) h a q g = (same (silent q), k)
  step_lem (write fd buf count) (hd, hf) a q g =
      write-Grows Asked Silent P M fns s k fd buf count a hd hf
  step_lem (pwrite fd buf count offset) (hd, hf) a q g =
      pwrite-Grows Asked Silent P M fns s k fd buf count offset a hd hf
  step_lem (mmap addr n prot flags fd offset) h a q g =
      mmap-Grows Asked Silent P M fns s k addr n prot flags fd offset q g
  step_lem (msync addr n flags) h a q g = msync-Grows Asked Silent P M fns s k addr n flags q h
  step_lem (munmap addr n) h a q g = munmap-Grows Asked Silent P M fns s k addr n q g
  step_lem (fallocate fd mode offset len) h a q g =
      fallocate-Grows Asked Silent P M fns s k (λ path. OfFile P fns s fd path ⊎ (path ≡ [])) fd
        mode offset len (inr refl) (λ path l. inl l) a h g
  step_lem (close fd) h a q g = close-Grows Asked Silent P M fns s k fd q g
  step_lem (rename old_path new_path) h a q g = (same (silent q), g)
  step_lem (unlink p) h a q g = unlink-Grows Asked Silent P M fns s k p h
  step_lem (remove p) h a q g = remove-Grows Asked Silent P M fns s k p h
  step_lem (fsync fd) h a q g = fsync-Grows Asked Silent P M fns s k fd h
  step_lem (fdatasync fd) h a q g = fdatasync-Grows Asked Silent P M fns s k fd h
  step_lem sync h a q g = (one _ h refl, k)
  step_lem (sync_file_range fd offset nbytes flags) h a q g =
      sync_file_range-Grows Asked Silent P M fns s k fd offset nbytes flags a h
  step_lem checkpoint h a q g = checkpoint-Grows Asked Silent P M fns s k h
