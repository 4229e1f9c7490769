-- ===== src/Recorder.antt =====
-- src/wrapper/wrapper.h: the interface to the file system (`FsFns`), the state of a recorder
-- (`RecordCmFsOps`) and the calls that both kinds of `CmFsOps` offer. The recorder's methods are in
-- the children `Files`, `Mappings` and `Sync`.
pub mod Tables
pub mod Files
pub mod Mappings
pub mod Sync
pub mod Step
pub mod Passthrough
pub mod Transparency
pub mod Default
pub mod Storable
pub mod Examples
use panda_scratchpad.Base.{ℕ, ◌-◌, Bool, List, [], ◌∷◌, ◌++◌}
use panda_scratchpad.Base.Int.{ℤ, pos, negsuc}
use panda_scratchpad.Base.Words.{Bytes, u64}
use panda_scratchpad.Base.Outcome.{ok}
use panda_scratchpad.Base.Exec.{Exec}
use panda_scratchpad.DiskMod.{DiskMod, Stat}

-- The system calls, over a world `W`. `memory` is what stands at an address, for `CmMsync`.
pub record FsFns (W : Type 0) : Type 0 where
  pub fn_mknod : (pathname : Bytes) (mode dev : ℕ) → W → ℤ × W
  pub fn_mkdir : (pathname : Bytes) (mode : ℕ) → W → ℤ × W
  pub fn_open : (pathname : Bytes) (flags : ℕ) → W → ℤ × W
  pub fn_open2 : (pathname : Bytes) (flags mode : ℕ) → W → ℤ × W
  pub fn_lseek : (fd offset : ℤ) (whence : ℕ) → W → ℤ × W
  pub fn_write : (fd : ℤ) (buf : Bytes) (count : ℕ) → W → ℤ × W
  pub fn_pwrite : (fd : ℤ) (buf : Bytes) (count : ℕ) (offset : ℤ) → W → ℤ × W
  pub fn_mmap : (addr length prot flags : ℕ) (fd offset : ℤ) → W → ℕ × W
  pub fn_msync : (addr length flags : ℕ) → W → ℤ × W
  pub fn_munmap : (addr length : ℕ) → W → ℤ × W
  pub fn_fallocate : (fd : ℤ) (mode : ℕ) (offset len : ℤ) → W → ℤ × W
  pub fn_close : (fd : ℤ) → W → ℤ × W
  pub fn_rename : (old_path new_path : Bytes) → W → ℤ × W
  pub fn_unlink : (pathname : Bytes) → W → ℤ × W
  pub fn_remove : (pathname : Bytes) → W → ℤ × W
  pub fn_stat : (pathname : Bytes) → W → (ℤ × Stat) × W
  pub fn_path_exists : (pathname : Bytes) → W → Bool × W
  pub fn_fsync : (fd : ℤ) → W → ℤ × W
  pub fn_fdatasync : (fd : ℤ) → W → ℤ × W
  pub fn_sync : W → W
  pub fn_sync_file_range : (fd : ℤ) (offset nbytes flags : ℕ) → W → ℤ × W
  pub cm_checkpoint : W → ℤ × W
  pub memory : (addr length : ℕ) → W → Bytes

-- An entry of `mmap_map_`: the path, and the offset and the length given to `mmap`.
pub record Mapping : Type 0 where
  pub path : Bytes
  pub offset : ℕ
  pub length : ℕ

-- The maps are lists of entries, in the order in which an iteration meets them.
pub record Recorder : Type 0 where
  pub fd_map : List (ℤ × Bytes)
  pub mmap_map : List (ℕ × Mapping)
  pub mods : List DiskMod

-- A recorder and the world that it runs in.
pub record Sys (W : Type 0) : Type 0 where
  pub recorder : Recorder
  pub world : W

-- The calls of `CmFsOps`. `CmSync` returns nothing, and `CmMmap` an address.
pub data Op : Type 0 where
  mknod : (pathname : Bytes) (mode dev : ℕ) → Op
  mkdir : (pathname : Bytes) (mode : ℕ) → Op
  open2 : (pathname : Bytes) (flags : ℕ) → Op
  open3 : (pathname : Bytes) (flags mode : ℕ) → Op
  lseek : (fd offset : ℤ) (whence : ℕ) → Op
  write : (fd : ℤ) (buf : Bytes) (count : ℕ) → Op
  pwrite : (fd : ℤ) (buf : Bytes) (count : ℕ) (offset : ℤ) → Op
  mmap : (addr length prot flags : ℕ) (fd offset : ℤ) → Op
  msync : (addr length flags : ℕ) → Op
  munmap : (addr length : ℕ) → Op
  fallocate : (fd : ℤ) (mode : ℕ) (offset len : ℤ) → Op
  close : (fd : ℤ) → Op
  rename : (old_path new_path : Bytes) → Op
  unlink : (pathname : Bytes) → Op
  remove : (pathname : Bytes) → Op
  fsync : (fd : ℤ) → Op
  fdatasync : (fd : ℤ) → Op
  sync : Op
  sync_file_range : (fd : ℤ) (offset nbytes flags : ℕ) → Op
  checkpoint : Op

module _ {W : Type 0} where
  -- A call of the interface.
  abbrev pub call : {A : Type 0} → (W → A × W) → Exec (Sys W) A
  call f s = (ok (f s.world).0, record s { world = (f s.world).1 })

  -- `mods_.push_back(mod)`
  abbrev pub push_mod : DiskMod → Exec (Sys W) (Unit {0})
  push_mod m s =
      (ok tt, record s { recorder = record s.recorder { mods = s.recorder.mods ++ m ∷ [] } })

-- The conversion of a signed 64-bit value to `uint64_t`.
abbrev pub to_u64 : ℤ → ℕ
to_u64 (pos n) = u64 n
to_u64 (negsuc n) = 18446744073709551615 - u64 n
