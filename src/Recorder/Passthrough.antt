-- ===== src/Recorder/Passthrough.antt =====
-- `PassthroughCmFsOps` of src/wrapper/wrapper.cpp: the calls of `CmFsOps` without a record.
use panda_scratchpad.Base.Int.{ℤ, pos, to_int}
use panda_scratchpad.Base.Outcome.{Outcome, ok, fault}
use panda_scratchpad.Recorder.{
  FsFns, Op, mknod, mkdir, open2, open3, lseek, write, pwrite, mmap, msync, munmap, fallocate,
  close, rename, unlink, remove, fsync, fdatasync, sync, sync_file_range, checkpoint,
}
use panda_scratchpad.Base.Texts.{c_str}

module _ {W : Type 0} where
  abbrev forward : {A : Type 0} → (A → ℤ) → A × W → Outcome ℤ × W
  forward f r = (ok (f r.0), r.1)

  -- `CmWrite` returns an `int`. `CmSyncFileRange` ends without a `return`, so what its caller gets
  -- is undefined.
  unfoldable pub passthrough : FsFns W → Op → W → Outcome ℤ × W
  passthrough fns (mknod p mode dev) w = forward (λ r. r) (fns.fn_mknod (c_str p) mode dev w)
  passthrough fns (mkdir p mode) w = forward (λ r. r) (fns.fn_mkdir (c_str p) mode w)
  passthrough fns (open2 p flags) w = forward (λ r. r) (fns.fn_open (c_str p) flags w)
  passthrough fns (open3 p flags mode) w = forward (λ r. r) (fns.fn_open2 (c_str p) flags mode w)
  passthrough fns (lseek fd offset whence) w = forward (λ r. r) (fns.fn_lseek fd offset whence w)
  passthrough fns (write fd buf count) w = forward to_int (fns.fn_write fd buf count w)
  passthrough fns (pwrite fd buf count offset) w =
      forward (λ r. r) (fns.fn_pwrite fd buf count offset w)
  passthrough fns (mmap addr n prot flags fd offset) w =
      forward pos (fns.fn_mmap addr n prot flags fd offset w)
  passthrough fns (msync addr n flags) w = forward (λ r. r) (fns.fn_msync addr n flags w)
  passthrough fns (munmap addr n) w = forward (λ r. r) (fns.fn_munmap addr n w)
  passthrough fns (fallocate fd mode offset len) w =
      forward (λ r. r) (fns.fn_fallocate fd mode offset len w)
  passthrough fns (close fd) w = forward (λ r. r) (fns.fn_close fd w)
  passthrough fns (rename old_path new_path) w =
      forward (λ r. r) (fns.fn_rename old_path new_path w)
  passthrough fns (unlink p) w = forward (λ r. r) (fns.fn_unlink (c_str p) w)
  passthrough fns (remove p) w = forward (λ r. r) (fns.fn_remove (c_str p) w)
  passthrough fns (fsync fd) w = forward (λ r. r) (fns.fn_fsync fd w)
  passthrough fns (fdatasync fd) w = forward (λ r. r) (fns.fn_fdatasync fd w)
  passthrough fns sync w = (ok (pos 0), fns.fn_sync w)
  passthrough fns (sync_file_range fd offset nbytes flags) w =
      (fault, (fns.fn_sync_file_range fd offset nbytes flags w).1)
  passthrough fns checkpoint w = forward (λ r. r) (fns.cm_checkpoint w)
