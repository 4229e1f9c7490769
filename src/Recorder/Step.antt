-- ===== src/Recorder/Step.antt =====
-- The calls of `CmFsOps` (src/wrapper/wrapper.h) on a recorder, and what any of them may do to the
-- list of recorded DiskMods.
pub mod Growth
use panda_scratchpad.Base.{List, [], ◌∷◌}
use panda_scratchpad.Base.Int.{ℤ, pos}
use panda_scratchpad.Base.Exec.{Exec, ◌>>=◌, ◌>>◌, pure}
use panda_scratchpad.Recorder.{
  FsFns, Sys, Op, mknod, mkdir, open2, open3, lseek, write, pwrite, mmap, msync, munmap, fallocate,
  close, rename, unlink, remove, fsync, fdatasync, sync, sync_file_range, checkpoint,
}
use panda_scratchpad.Recorder.Files.{
  cm_mknod, cm_mkdir, cm_open2, cm_open3, cm_lseek, cm_write, cm_pwrite, cm_fallocate, cm_close,
  cm_rename, cm_unlink, cm_remove,
}
use panda_scratchpad.Recorder.Mappings.{cm_mmap, cm_msync, cm_munmap}
use panda_scratchpad.Recorder.Sync.{
  cm_fsync, cm_fdatasync, cm_sync, cm_sync_file_range, cm_checkpoint,
}

module _ {W : Type 0} (fns : FsFns W) where
  -- An address is returned as a number, and nothing as 0.
  unfoldable pub step : Op → Exec (Sys W) ℤ
  step (mknod pathname mode dev) = cm_mknod fns pathname mode dev
  step (mkdir pathname mode) = cm_mkdir fns pathname mode
  step (open2 pathname flags) = cm_open2 fns pathname flags
  step (open3 pathname flags mode) = cm_open3 fns pathname flags mode
  step (lseek fd offset whence) = cm_lseek fns fd offset whence
  step (write fd buf count) = cm_write fns fd buf count
  step (pwrite fd buf count offset) = cm_pwrite fns fd buf count offset
  step (mmap addr length prot flags fd offset) = do
    res ← cm_mmap fns addr length prot flags fd offset
    pure (pos res)
  step (msync addr length flags) = cm_msync fns addr length flags
  step (munmap addr length) = cm_munmap fns addr length
  step (fallocate fd mode offset len) = cm_fallocate fns fd mode offset len
  step (close fd) = cm_close fns fd
  step (rename old_path new_path) = cm_rename fns old_path new_path
  step (unlink pathname) = cm_unlink fns pathname
  step (remove pathname) = cm_remove fns pathname
  step (fsync fd) = cm_fsync fns fd
  step (fdatasync fd) = cm_fdatasync fns fd
  step sync = do cm_sync fns; pure (pos 0)
  step (sync_file_range fd offset nbytes flags) = cm_sync_file_range fns fd offset nbytes flags
  step checkpoint = cm_checkpoint fns

  -- A test case: its calls in order. What they return does not stop the next one here.
  unfoldable pub run : List Op → Sys W → Sys W
  run [] s = s
  run (op ∷ ops) s = run ops (step op s).1
