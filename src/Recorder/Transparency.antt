-- ===== src/Recorder/Transparency.antt =====
-- A recorder (src/wrapper/wrapper.cpp) against `PassthroughCmFsOps`: the conditions under which a
-- test case sees no difference.
pub mod Metadata
pub mod Data
use panda_scratchpad.Base.{◌≡◌, false, some}
use panda_scratchpad.Base.Int.{ℤ, pos, is_neg, to_int}
use panda_scratchpad.Base.Words.{Bytes}
use panda_scratchpad.Base.Outcome.{ok}
use panda_scratchpad.Base.Exec.{Exec}
use panda_scratchpad.DiskMod.{ModOpts}
use panda_scratchpad.Recorder.{
  FsFns, Sys, Op, write, pwrite, mmap, fallocate, fsync, fdatasync, sync_file_range,
}
use panda_scratchpad.Base.Texts.{c_str}
use panda_scratchpad.Recorder.Tables.{lookup_fd}
use panda_scratchpad.Recorder.Files.{fallocate_opts}
use panda_scratchpad.Recorder.Passthrough.{passthrough}

-- The recorder's own queries leave the file system as it is.
pub record IsQuiet {W : Type 0} (fns : FsFns W) : Type 0 where
  pub quiet_stat : (p : Bytes) (w : W) → (fns.fn_stat p w).1 ≡ w
  pub quiet_exists : (p : Bytes) (w : W) → (fns.fn_path_exists p w).1 ≡ w
  pub quiet_tell : (fd : ℤ) (w : W) → (fns.fn_lseek fd (pos 0) 1 w).1 ≡ w

module _ {W : Type 0} (fns : FsFns W) (s : Sys W) where
  -- The descriptor was opened through the recorder, and its file is still where it was.
  abbrev pub HasPath : ℤ → Type 0
  HasPath fd = (path : Bytes) × (lookup_fd fd s.recorder.fd_map ≡ some path)

  abbrev pub CanStat : ℤ → Type 0
  CanStat fd =
      (path : Bytes) × (lookup_fd fd s.recorder.fd_map ≡ some path)
      × (is_neg (fns.fn_stat path s.world).0.0 ≡ false)

  -- What a call needs of the state before it. A positional write stays below 2 GiB; an
  -- allocation's file can be read before and after it, and its flags pass the assertion;
  -- `CmSyncFileRange` has no result to compare.
  abbrev pub IsTracked : Op → Type 0
  IsTracked (write fd buf count) = CanStat fd
  IsTracked (pwrite fd buf count offset) =
      CanStat fd
      × (to_int (fns.fn_pwrite fd buf count offset s.world).0
          ≡ (fns.fn_pwrite fd buf count offset s.world).0)
  IsTracked (mmap addr n prot flags fd offset) = HasPath fd
  IsTracked (fallocate fd mode offset len) =
      (path : Bytes) × (lookup_fd fd s.recorder.fd_map ≡ some path)
      × (is_neg (fns.fn_stat (c_str path) s.world).0.0 ≡ false)
      × (is_neg (fns.fn_stat (c_str path) (fns.fn_fallocate fd mode offset len s.world).1).0.0
          ≡ false)
      × (opts : ModOpts) × (fallocate_opts mode ≡ ok opts)
  IsTracked (fsync fd) = HasPath fd
  IsTracked (fdatasync fd) = HasPath fd
  IsTracked (sync_file_range fd offset nbytes flags) = ⊥
  IsTracked op = Unit {0}

  abbrev pub Agrees : Exec (Sys W) ℤ → Op → Type 0
  Agrees m op =
      ((m s).0 ≡ (passthrough fns op s.world).0) × ((m s).1.world ≡ (passthrough fns op s.world).1)
