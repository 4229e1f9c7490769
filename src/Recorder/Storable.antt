-- ===== src/Recorder/Storable.antt =====
-- Which DiskMods a recorder (src/wrapper/wrapper.cpp) makes, against what their serialized form can
-- hold.
pub mod Maps
pub mod Mods
pub mod Steps
use panda_scratchpad.Base.{ℕ, ◌<◌, ◌≤◌, ◌≡◌, true, false, List, [], ◌∷◌, length}
use panda_scratchpad.Base.Int.{ℤ, is_neg, to_ℕ, to_int}
use panda_scratchpad.Base.Words.{Bytes, test_bit}
use panda_scratchpad.DiskMod.{DiskMod, s_isdir}
use panda_scratchpad.DiskMod.Layout.{NoNul, IsStorable}
use panda_scratchpad.Recorder.{
  FsFns, Sys, Op, mkdir, open2, open3, msync, fallocate, rename, unlink, remove, sync_file_range,
  to_u64,
}
use panda_scratchpad.Recorder.Tables.{FdMap, MmapMap, rename_fds}

abbrev pub IsGoodPath : Bytes → Type 0
IsGoodPath p = NoNul p × (length p < 2147483600)

abbrev pub GoodFds : FdMap → Type 0
GoodFds [] = Unit {0}
GoodFds ((k, p) ∷ m) = IsGoodPath p × GoodFds m

abbrev pub GoodMappings : MmapMap → Type 0
GoodMappings [] = Unit {0}
GoodMappings ((k, v) ∷ m) = IsGoodPath v.path × GoodMappings m

-- What the system calls do: a write takes no more than it is given, and less than 2 GiB; memory has
-- the length that is asked for; and only files are truncated by an `open`.
pub record IsPosix {W : Type 0} (fns : FsFns W) : Type 0 where
  pub write_fits :
      (fd : ℤ) (buf : Bytes) (n : ℕ) (w : W)
      → (to_ℕ (to_int (fns.fn_write fd buf n w).0) ≤ length buf)
        × (to_ℕ (to_int (fns.fn_write fd buf n w).0) < 2147483600)
  pub pwrite_fits :
      (fd : ℤ) (buf : Bytes) (n : ℕ) (offset : ℤ) (w : W)
      → (to_ℕ (to_int (fns.fn_pwrite fd buf n offset w).0) ≤ length buf)
        × (to_ℕ (to_int (fns.fn_pwrite fd buf n offset w).0) < 2147483600)
  pub memory_length : (addr n : ℕ) (w : W) → length (fns.memory addr n w) ≡ n
  pub truncates_file :
      (p : Bytes) (flags : ℕ) (w : W)
      → is_neg (fns.fn_open p flags w).0 ≡ false
      → test_bit flags 9 ≡ true
      → s_isdir (fns.fn_stat p (fns.fn_open p flags w).1).0.1.st_mode ≡ false
  pub truncates_file2 :
      (p : Bytes) (flags mode : ℕ) (w : W)
      → is_neg (fns.fn_open2 p flags mode w).0 ≡ false
      → test_bit flags 9 ≡ true
      → s_isdir (fns.fn_stat p (fns.fn_open2 p flags mode w).1).0.1.st_mode ≡ false

-- A call whose DiskMod the format can hold: paths without NUL, ranges below 2 GiB, no removal. A
-- renaming leaves the paths of the open files good.
abbrev pub CanStore : {W : Type 0} → Sys W → Op → Type 0
CanStore s (mkdir p mode) = IsGoodPath p
CanStore s (open2 p flags) = IsGoodPath p
CanStore s (open3 p flags mode) = IsGoodPath p
CanStore s (msync addr n flags) = n < 2147483600
CanStore s (fallocate fd mode offset len) = to_u64 len < 2147483600
CanStore s (rename old_path new_path) = GoodFds (rename_fds old_path new_path s.recorder.fd_map)
CanStore s (unlink p) = ⊥
CanStore s (remove p) = ⊥
CanStore s (sync_file_range fd offset nbytes flags) =
    (offset < 18446744073709551616) × (nbytes < 2147483600)
CanStore s _ = Unit {0}

abbrev pub AllMods : List DiskMod → Type 0
AllMods [] = Unit {0}
AllMods (m ∷ ms) = IsStorable m × AllMods ms

-- A recorder whose open files, mappings and DiskMods can be stored.
pub record IsGood {W : Type 0} (s : Sys W) : Type 0 where
  pub good_fds : GoodFds s.recorder.fd_map
  pub good_mappings : GoodMappings s.recorder.mmap_map
  pub good_mods : AllMods s.recorder.mods
