-- ===== src/Recorder/Transparency/Data.antt =====
-- Every call of a recorder (src/wrapper/wrapper.cpp) against `PassthroughCmFsOps`.
use panda_scratchpad.Base.{ℕ, ◌≡◌, refl, Bool, ◌||◌, not, Bool-cases, inl, inr}
use panda_scratchpad.Base.Int.{ℤ, is_neg, to_int}
use panda_scratchpad.Base.Words.{Bytes, test_bit}
use panda_scratchpad.Base.Outcome.{ok}
use panda_scratchpad.Base.Exec.{◌>>◌, pure}
use panda_scratchpad.DiskMod.{s_isdir, Stat}
use panda_scratchpad.Recorder.{
  FsFns, Sys, Op, mknod, mkdir, open2, open3, lseek, write, pwrite, mmap, msync, munmap, fallocate,
  close, rename, unlink, remove, fsync, fdatasync, sync, sync_file_range, checkpoint,
}
use panda_scratchpad.Base.Texts.{c_str}
use panda_scratchpad.Recorder.Tables.{fd_at, fd_index}
use panda_scratchpad.Recorder.Files.{
  cm_mknod, cm_open_common, cm_open2, cm_open3, cm_lseek, record_write, cm_write, cm_pwrite,
  cm_fallocate, cm_rename,
}
use panda_scratchpad.Recorder.Sync.{cm_sync}
use panda_scratchpad.Recorder.Step.{step}
use panda_scratchpad.Recorder.Passthrough.{passthrough}
use panda_scratchpad.Recorder.Transparency.{IsQuiet, HasPath, CanStat, IsTracked, Agrees}
use panda_scratchpad.Recorder.Transparency.Metadata.{
  fsync-Agrees, fdatasync-Agrees, mkdir-Agrees, unlink-Agrees, remove-Agrees, close-Agrees,
  checkpoint-Agrees, munmap-Agrees, msync-Agrees, mmap-Agrees,
}

module _ {W : Type 0} (fns : FsFns W) (quiet : IsQuiet fns) (s : Sys W) where
  record_write-Agrees :
      (fd : ℤ) (buf : Bytes) (location : ℕ) (pre : Stat) (res : ℤ)
      → HasPath fns s fd
      → ((record_write fns fd buf location pre res s).0 ≡ ok res)
        × ((record_write fns fd buf location pre res s).1.world ≡ s.world)
  unfolding record_write fd_at
  record_write-Agrees fd buf location pre res (path, l) = elim (Bool-cases (s_isdir pre.st_mode)) [
    | inl d ↦ rw d (refl, refl)
    | inr d ↦ elim (Bool-cases (is_neg (fns.fn_stat path s.world).0.0)) [
      | inl n ↦ rw (d, fd_at, l, n) (refl, quiet.quiet_stat path s.world)
      | inr n ↦ rw (d, fd_at, l, n) (refl, quiet.quiet_stat path s.world)
    ]
  ]

  open_common-Agrees :
      (res : ℤ) (p : Bytes) (exists : Bool) (flags : ℕ)
      → ((cm_open_common fns res p exists flags >> pure res) s).0 ≡ ok res
        × ((cm_open_common fns res p exists flags >> pure res) s).1.world ≡ s.world
  unfolding cm_open_common
  open_common-Agrees res p exists flags = elim (Bool-cases (not exists || test_bit flags 9)) [
    | inr n ↦ rw n (refl, refl)
    | inl n ↦ elim (Bool-cases (is_neg (fns.fn_stat (c_str p) s.world).0.0)) [
      | inl f ↦ rw (n, f) (refl, quiet.quiet_stat (c_str p) s.world)
      | inr f ↦ rw (n, f) (refl, quiet.quiet_stat (c_str p) s.world)
    ]
  ]

module _ {W : Type 0} (fns : FsFns W) (quiet : IsQuiet fns) (s : Sys W) where
  open2-Agrees : (p : Bytes) (flags : ℕ) → Agrees fns s (cm_open2 fns p flags) (open2 p flags)
  unfolding cm_open2 passthrough
  open2-Agrees p flags = elim (Bool-cases (is_neg (fns.fn_open (c_str p) flags s.world).0)) [
    | inl e ↦ rw (quiet.quiet_exists (c_str p) s.world, e) (refl, refl)
    | inr e ↦
        rw (quiet.quiet_exists (c_str p) s.world, e)
          (open_common-Agrees fns quiet _ _ p (fns.fn_path_exists (c_str p) s.world).0 flags)
  ]

  open3-Agrees :
      (p : Bytes) (flags mode : ℕ) → Agrees fns s (cm_open3 fns p flags mode) (open3 p flags mode)
  unfolding cm_open3 passthrough
  open3-Agrees p flags mode =
      elim (Bool-cases (is_neg (fns.fn_open2 (c_str p) flags mode s.world).0)) [
        | inl e ↦ rw (quiet.quiet_exists (c_str p) s.world, e) (refl, refl)
        | inr e ↦
            rw (quiet.quiet_exists (c_str p) s.world, e)
              (open_common-Agrees fns quiet _ _ p (fns.fn_path_exists (c_str p) s.world).0 flags)
      ]

  write-Agrees :
      (fd : ℤ) (buf : Bytes) (count : ℕ)
      → CanStat fns s fd
      → Agrees fns s (cm_write fns fd buf count) (write fd buf count)
  unfolding cm_write fd_at passthrough
  write-Agrees fd buf count (path, l, n) =
      elim (Bool-cases (is_neg (to_int (fns.fn_write fd buf count s.world).0))) [
        | inl e ↦
            rw (fd_at, l, n, quiet.quiet_stat path s.world, quiet.quiet_tell fd s.world, e)
              (refl, refl)
        | inr e ↦
            rw (fd_at, l, n, quiet.quiet_stat path s.world, quiet.quiet_tell fd s.world, e)
              (record_write-Agrees fns quiet _ fd buf _ (fns.fn_stat path s.world).0.1 _ (path, l))
      ]

  pwrite-Agrees :
      (fd : ℤ) (buf : Bytes) (count : ℕ) (offset : ℤ)
      → IsTracked fns s (pwrite fd buf count offset)
      → Agrees fns s (cm_pwrite fns fd buf count offset) (pwrite fd buf count offset)
  unfolding cm_pwrite fd_at passthrough
  pwrite-Agrees fd buf count offset ((path, l, n), fits) =
      elim (Bool-cases (is_neg (fns.fn_pwrite fd buf count offset s.world).0)) [
        | inl e ↦ rw (fd_at, l, n, quiet.quiet_stat path s.world, fits, e) (refl, refl)
        | inr e ↦
            rw (fd_at, l, n, quiet.quiet_stat path s.world, fits, e)
              (record_write-Agrees fns quiet _ fd buf _ (fns.fn_stat path s.world).0.1 _ (path, l))
      ]

  fallocate-Agrees :
      (fd : ℤ) (mode : ℕ) (offset len : ℤ)
      → IsTracked fns s (fallocate fd mode offset len)
      → Agrees fns s (cm_fallocate fns fd mode offset len) (fallocate fd mode offset len)
  unfolding cm_fallocate fd_index passthrough
  fallocate-Agrees fd mode offset len (path, l, n, n2, opts, o) =
      let w = (fns.fn_fallocate fd mode offset len s.world).1 in
      elim (Bool-cases (is_neg (fns.fn_fallocate fd mode offset len s.world).0)) [
        | inl e ↦ rw (fd_index, l, n, quiet.quiet_stat (c_str path) s.world, e) (refl, refl)
        | inr e ↦
            rw
              (
                fd_index,
                l,
                n,
                quiet.quiet_stat (c_str path) s.world,
                e,
                fd_index,
                l,
                n2,
                fd_index,
                l,
                o,
              )
              (refl, quiet.quiet_stat (c_str path) w)
      ]

  -- If the recorder's own queries leave the file system as it is, and the call finds its
  -- descriptor and its file (`IsTracked`), then it returns what the same call without a recorder
  -- returns, and leaves the same file system.
  pub step-passthrough :
      (op : Op)
      → IsTracked fns s op
      → ((step fns op s).0 ≡ (passthrough fns op s.world).0)
        × ((step fns op s).1.world ≡ (passthrough fns op s.world).1)
  unfolding step passthrough cm_mknod cm_lseek cm_rename cm_sync
  step-passthrough (mknod p mode dev) h = (refl, refl)
  step-passthrough (mkdir p mode) h = mkdir-Agrees fns s p mode
  step-passthrough (open2 p flags) h = open2-Agrees p flags
  step-passthrough (open3 p flags mode) h = open3-Agrees p flags mode
  step-passthrough (lseek fd offset whence) h = (refl, refl)
  step-passthrough (write fd buf count) h = write-Agrees fd buf count h
  step-passthrough (pwrite fd buf count offset) h = pwrite-Agrees fd buf count offset h
  step-passthrough (mmap addr n prot flags fd offset) h =
      mmap-Agrees fns s addr n prot flags fd offset h
  step-passthrough (msync addr n flags) h = msync-Agrees fns s addr n flags
  step-passthrough (munmap addr n) h = munmap-Agrees fns s addr n
  step-passthrough (fallocate fd mode offset len) h = fallocate-Agrees fd mode offset len h
  step-passthrough (close fd) h = close-Agrees fns s fd
  step-passthrough (rename old_path new_path) h = (refl, refl)
  step-passthrough (unlink p) h = unlink-Agrees fns s p
  step-passthrough (remove p) h = remove-Agrees fns s p
  step-passthrough (fsync fd) h = fsync-Agrees fns s fd h
  step-passthrough (fdatasync fd) h = fdatasync-Agrees fns s fd h
  step-passthrough sync h = (refl, refl)
  step-passthrough (sync_file_range fd offset nbytes flags) h = elim h [ ]
  step-passthrough checkpoint h = checkpoint-Agrees fns s
