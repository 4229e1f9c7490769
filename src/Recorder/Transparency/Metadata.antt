-- ===== src/Recorder/Transparency/Metadata.antt =====
-- The calls of a recorder (src/wrapper/wrapper.cpp) that stat no file, against
-- `PassthroughCmFsOps`.
use panda_scratchpad.Base.{ℕ, refl, ◌||◌, not, ◌==◌, Bool-cases, inl, inr, Option-cases}
use panda_scratchpad.Base.Int.{ℤ, pos, is_neg}
use panda_scratchpad.Base.Words.{Bytes, test_bit}
use panda_scratchpad.Base.Exec.{◌>>=◌, pure}
use panda_scratchpad.Recorder.{
  FsFns, Sys, mkdir, mmap, msync, munmap, close, unlink, remove, fsync, fdatasync, checkpoint,
}
use panda_scratchpad.Base.Texts.{c_str}
use panda_scratchpad.Recorder.Tables.{fd_at}
use panda_scratchpad.Recorder.Files.{cm_mkdir, cm_close, cm_unlink, cm_remove}
use panda_scratchpad.Recorder.Mappings.{find_mapping, cm_mmap, cm_msync, cm_munmap}
use panda_scratchpad.Recorder.Sync.{cm_fsync, cm_fdatasync, cm_checkpoint}
use panda_scratchpad.Recorder.Passthrough.{passthrough}
use panda_scratchpad.Recorder.Transparency.{HasPath, Agrees}

module _ {W : Type 0} (fns : FsFns W) (s : Sys W) where
  pub fsync-Agrees : (fd : ℤ) → HasPath fns s fd → Agrees fns s (cm_fsync fns fd) (fsync fd)
  unfolding cm_fsync fd_at passthrough
  fsync-Agrees fd (path, l) = elim (Bool-cases (is_neg (fns.fn_fsync fd s.world).0)) [
    | inl e ↦ rw e (refl, refl)
    | inr e ↦ rw (e, fd_at, l) (refl, refl)
  ]

  pub fdatasync-Agrees :
      (fd : ℤ) → HasPath fns s fd → Agrees fns s (cm_fdatasync fns fd) (fdatasync fd)
  unfolding cm_fdatasync fd_at passthrough
  fdatasync-Agrees fd (path, l) = elim (Bool-cases (is_neg (fns.fn_fdatasync fd s.world).0)) [
    | inl e ↦ rw e (refl, refl)
    | inr e ↦ rw (e, fd_at, l) (refl, refl)
  ]

  pub mkdir-Agrees : (p : Bytes) (mode : ℕ) → Agrees fns s (cm_mkdir fns p mode) (mkdir p mode)
  unfolding cm_mkdir passthrough
  mkdir-Agrees p mode = elim (Bool-cases (is_neg (fns.fn_mkdir (c_str p) mode s.world).0)) [
    | inl e ↦ rw e (refl, refl)
    | inr e ↦ rw e (refl, refl)
  ]

  pub unlink-Agrees : (p : Bytes) → Agrees fns s (cm_unlink fns p) (unlink p)
  unfolding cm_unlink passthrough
  unlink-Agrees p = elim (Bool-cases (is_neg (fns.fn_unlink (c_str p) s.world).0)) [
    | inl e ↦ rw e (refl, refl)
    | inr e ↦ rw e (refl, refl)
  ]

  pub remove-Agrees : (p : Bytes) → Agrees fns s (cm_remove fns p) (remove p)
  unfolding cm_remove passthrough
  remove-Agrees p = elim (Bool-cases (is_neg (fns.fn_remove (c_str p) s.world).0)) [
    | inl e ↦ rw e (refl, refl)
    | inr e ↦ rw e (refl, refl)
  ]

  pub close-Agrees : (fd : ℤ) → Agrees fns s (cm_close fns fd) (close fd)
  unfolding cm_close passthrough
  close-Agrees fd = elim (Bool-cases (is_neg (fns.fn_close fd s.world).0)) [
    | inl e ↦ rw e (refl, refl)
    | inr e ↦ rw e (refl, refl)
  ]

  pub checkpoint-Agrees : Agrees fns s (cm_checkpoint fns) checkpoint
  unfolding cm_checkpoint passthrough
  checkpoint-Agrees = elim (Bool-cases (is_neg (fns.cm_checkpoint s.world).0)) [
    | inl e ↦ rw e (refl, refl)
    | inr e ↦ rw e (refl, refl)
  ]

  pub munmap-Agrees : (addr n : ℕ) → Agrees fns s (cm_munmap fns addr n) (munmap addr n)
  unfolding cm_munmap passthrough
  munmap-Agrees addr n = elim (Bool-cases (is_neg (fns.fn_munmap addr n s.world).0)) [
    | inl e ↦ rw e (refl, refl)
    | inr e ↦ rw e (refl, refl)
  ]

  pub msync-Agrees :
      (addr n flags : ℕ) → Agrees fns s (cm_msync fns addr n flags) (msync addr n flags)
  unfolding cm_msync passthrough
  msync-Agrees addr n flags = elim (Bool-cases (is_neg (fns.fn_msync addr n flags s.world).0)) [
    | inl e ↦ rw e (refl, refl)
    | inr e ↦ elim (Option-cases (find_mapping addr s.recorder.mmap_map)) [
      | inl l ↦ rw (e, l) (refl, refl)
      | inr (entry, l) ↦ rw (e, l) (refl, refl)
    ]
  ]

  pub mmap-Agrees :
      (addr n prot flags : ℕ) (fd offset : ℤ)
      → HasPath fns s fd
      → Agrees fns s
          (do res ← cm_mmap fns addr n prot flags fd offset; pure (pos res))
          (mmap addr n prot flags fd offset)
  unfolding cm_mmap fd_at passthrough
  mmap-Agrees addr n prot flags fd offset (path, l) =
      let res = (fns.fn_mmap addr n prot flags fd offset s.world).0 in
      elim (Bool-cases (
        (res == 18446744073709551615)
        || (not (test_bit prot 1) || (test_bit flags 1 || test_bit flags 5)))) [
          | inl b ↦ rw b (refl, refl)
          | inr b ↦ rw (b, fd_at, l) (refl, refl)
        ]
