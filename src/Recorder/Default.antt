-- ===== src/Recorder/Default.antt =====
-- `DefaultFsFns` of src/wrapper/wrapper.cpp: the file system interface on the C library, and
-- `Checkpoint` of src/wrapper/actions.cpp.
use panda_scratchpad.Base.{ℕ, Bool}
use panda_scratchpad.Base.Int.{ℤ, pos, eq_ℤ}
use panda_scratchpad.Base.Words.{Bytes}
use panda_scratchpad.DiskMod.{Stat}
use panda_scratchpad.Recorder.{FsFns}
use panda_scratchpad.Base.Texts.{c_str}

-- The calls of the C library over a world `W`. `memory` is what stands at an address.
pub record Libc (W : Type 0) : Type 0 where
  pub mknod : (pathname : Bytes) (mode dev : ℕ) → W → ℤ × W
  pub mkdir : (pathname : Bytes) (mode : ℕ) → W → ℤ × W
  pub open2 : (pathname : Bytes) (flags : ℕ) → W → ℤ × W
  pub open3 : (pathname : Bytes) (flags mode : ℕ) → W → ℤ × W
  pub lseek : (fd offset : ℤ) (whence : ℕ) → W → ℤ × W
  pub write : (fd : ℤ) (buf : Bytes) (count : ℕ) → W → ℤ × W
  pub pwrite : (fd : ℤ) (buf : Bytes) (count : ℕ) (offset : ℤ) → W → ℤ × W
  pub mmap : (addr length prot flags : ℕ) (fd offset : ℤ) → W → ℕ × W
  pub msync : (addr length flags : ℕ) → W → ℤ × W
  pub munmap : (addr length : ℕ) → W → ℤ × W
  pub fallocate : (fd : ℤ) (mode : ℕ) (offset len : ℤ) → W → ℤ × W
  pub close : (fd : ℤ) → W → ℤ × W
  pub rename : (old_path new_path : Bytes) → W → ℤ × W
  pub unlink : (pathname : Bytes) → W → ℤ × W
  pub remove : (pathname : Bytes) → W → ℤ × W
  pub stat : (pathname : Bytes) → W → (ℤ × Stat) × W
  pub access : (pathname : Bytes) (mode : ℕ) → W → ℤ × W
  pub fsync : (fd : ℤ) → W → ℤ × W
  pub fdatasync : (fd : ℤ) → W → ℤ × W
  pub sync : W → W
  pub sync_file_range : (fd : ℤ) (offset nbytes flags : ℕ) → W → ℤ × W
  pub memory : (addr length : ℕ) → W → Bytes

-- `Checkpoint` returns 1; its command to the tester is commented out.
abbrev pub checkpoint {ℓ} : {W : Type ℓ} → W → ℤ × W
checkpoint w = (pos 1, w)

module _ {W : Type 0} (libc : Libc W) where
  -- `F_OK` is 0.
  abbrev path_exists : Bytes → W → Bool × W
  path_exists pathname w =
      (eq_ℤ (libc.access (c_str pathname) 0 w).0 (pos 0), (libc.access (c_str pathname) 0 w).1)

  unfoldable default_fs_fns : FsFns W
  default_fs_fns = record {
    fn_mknod = λ pathname mode dev. libc.mknod (c_str pathname) mode dev;
    fn_mkdir = λ pathname mode. libc.mkdir (c_str pathname) mode;
    fn_open = λ pathname flags. libc.open2 (c_str pathname) flags;
    fn_open2 = λ pathname flags mode. libc.open3 (c_str pathname) flags mode;
    fn_lseek = libc.lseek;
    fn_write = libc.write;
    fn_pwrite = libc.pwrite;
    fn_mmap = libc.mmap;
    fn_msync = libc.msync;
    fn_munmap = libc.munmap;
    fn_fallocate = libc.fallocate;
    fn_close = libc.close;
    fn_rename = λ old_path new_path. libc.rename (c_str old_path) (c_str new_path);
    fn_unlink = λ pathname. libc.unlink (c_str pathname);
    fn_remove = λ pathname. libc.remove (c_str pathname);
    fn_stat = λ pathname. libc.stat (c_str pathname);
    fn_path_exists = path_exists;
    fn_fsync = libc.fsync;
    fn_fdatasync = libc.fdatasync;
    fn_sync = libc.sync;
    fn_sync_file_range = libc.sync_file_range;
    cm_checkpoint = checkpoint;
    memory = libc.memory;
  }
