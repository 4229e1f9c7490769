-- ===== src/Recorder/Step/Growth/Metadata.antt =====
-- The calls of a recorder (src/wrapper/wrapper.cpp) that stat no file, and the parts that the
-- others end with, against `Grows`.
use panda_scratchpad.Base.{
  ℕ, ◌≡◌, Bool, true, false, some, ◌||◌, not, Option-cases, inl, inr, Bool-cases,
}
use panda_scratchpad.Base.Int.{ℤ, is_neg}
use panda_scratchpad.Base.Words.{Bytes, test_bit}
use panda_scratchpad.Base.Exec.{◌>>◌, pure}
use panda_scratchpad.DiskMod.{DiskMod, Stat, s_isdir}
use panda_scratchpad.Recorder.{FsFns, Sys}
use panda_scratchpad.Base.Texts.{c_str}
use panda_scratchpad.Recorder.Tables.{FdMap, MmapMap, insert_fd, erase_fd, fd_at, lookup_fd}
use panda_scratchpad.Recorder.Files.{
  cm_mkdir, cm_open_common, record_write, cm_close, cm_unlink, cm_remove,
}
use panda_scratchpad.Recorder.Sync.{cm_fsync, cm_fdatasync, cm_sync_file_range, cm_checkpoint}
use panda_scratchpad.Recorder.Step.Growth.{
  same, negative, faulted, unstated, silent, one, Keeps, new_directory, opened_file,
  written_directory, written_file, removed_path, synced_file, synced_range, checkpoint_marker,
}

module _ {W : Type 0} (Asked : Bytes → Type 0) (Silent : Type 0) (P : DiskMod → Type 0)
    (M : FdMap → MmapMap → Type 0) (fns : FsFns W) (s : Sys W)
    (k : M s.recorder.fd_map s.recorder.mmap_map) where
  pub mkdir-Grows :
      (p : Bytes) (mode : ℕ)
      → P (new_directory p)
      → Keeps Asked Silent P M fns s (cm_mkdir fns p mode)
  unfolding cm_mkdir
  mkdir-Grows p mode h = elim (Bool-cases (is_neg (fns.fn_mkdir (c_str p) mode s.world).0)) [
    | inl e ↦ rw e (same (negative e), k)
    | inr e ↦ rw e (one _ h e, k)
  ]

  pub fsync-Grows :
      (fd : ℤ)
      → ((path : Bytes) → lookup_fd fd s.recorder.fd_map ≡ some path → P (synced_file path))
      → Keeps Asked Silent P M fns s (cm_fsync fns fd)
  unfolding cm_fsync fd_at
  fsync-Grows fd h = elim (Bool-cases (is_neg (fns.fn_fsync fd s.world).0)) [
    | inl e ↦ rw e (same (negative e), k)
    | inr e ↦ elim (Option-cases (lookup_fd fd s.recorder.fd_map)) [
      | inl l ↦ rw (e, fd_at, l) (same faulted, k)
      | inr (path, l) ↦ rw (e, fd_at, l) (one _ (h path l) e, k)
    ]
  ]

  pub fdatasync-Grows :
      (fd : ℤ)
      → ((path : Bytes) → lookup_fd fd s.recorder.fd_map ≡ some path → P (synced_file path))
      → Keeps Asked Silent P M fns s (cm_fdatasync fns fd)
  unfolding cm_fdatasync fd_at
  fdatasync-Grows fd h = elim (Bool-cases (is_neg (fns.fn_fdatasync fd s.world).0)) [
    | inl e ↦ rw e (same (negative e), k)
    | inr e ↦ elim (Option-cases (lookup_fd fd s.recorder.fd_map)) [
      | inl l ↦ rw (e, fd_at, l) (same faulted, k)
      | inr (path, l) ↦ rw (e, fd_at, l) (one _ (h path l) e, k)
    ]
  ]

  pub sync_file_range-Grows :
      (fd : ℤ) (offset nbytes flags : ℕ)
      → ((path : Bytes) → lookup_fd fd s.recorder.fd_map ≡ some path → Asked path)
      → ((path : Bytes)
          → lookup_fd fd s.recorder.fd_map ≡ some path
          → P (
              synced_range path
                (fns.fn_stat path (fns.fn_sync_file_range fd offset nbytes flags s.world).1).0.1
                offset
                nbytes))
      → Keeps Asked Silent P M fns s (cm_sync_file_range fns fd offset nbytes flags)
  unfolding cm_sync_file_range fd_at
  sync_file_range-Grows fd offset nbytes flags a h =
      elim (Bool-cases (is_neg (fns.fn_sync_file_range fd offset nbytes flags s.world).0)) [
        | inl e ↦ rw e (same (negative e), k)
        | inr e ↦ elim (Option-cases (lookup_fd fd s.recorder.fd_map)) [
          | inl l ↦ rw (e, fd_at, l) (same faulted, k)
          | inr (path, l) ↦
              let w = (fns.fn_sync_file_range fd offset nbytes flags s.world).1 in
              elim (Bool-cases (is_neg (fns.fn_stat path w).0.0)) [
                | inl n ↦ rw (e, fd_at, l, n) (same (unstated _ _ (a path l) n), k)
                | inr n ↦ rw (e, fd_at, l, n) (one _ (h path l) e, k)
              ]
        ]
      ]

  pub checkpoint-Grows : P checkpoint_marker → Keeps Asked Silent P M fns s (cm_checkpoint fns)
  unfolding cm_checkpoint
  checkpoint-Grows h = elim (Bool-cases (is_neg (fns.cm_checkpoint s.world).0)) [
    | inl e ↦ rw e (same (negative e), k)
    | inr e ↦ rw e (one _ h e, k)
  ]

  pub unlink-Grows :
      (p : Bytes) → P (removed_path p) → Keeps Asked Silent P M fns s (cm_unlink fns p)
  unfolding cm_unlink
  unlink-Grows p h = elim (Bool-cases (is_neg (fns.fn_unlink (c_str p) s.world).0)) [
    | inl e ↦ rw e (same (negative e), k)
    | inr e ↦ rw e (one _ h e, k)
  ]

  pub remove-Grows :
      (p : Bytes) → P (removed_path p) → Keeps Asked Silent P M fns s (cm_remove fns p)
  unfolding cm_remove
  remove-Grows p h = elim (Bool-cases (is_neg (fns.fn_remove (c_str p) s.world).0)) [
    | inl e ↦ rw e (same (negative e), k)
    | inr e ↦ rw e (one _ h e, k)
  ]

  pub close-Grows :
      (fd : ℤ)
      → Silent
      → M (erase_fd fd s.recorder.fd_map) s.recorder.mmap_map
      → Keeps Asked Silent P M fns s (cm_close fns fd)
  unfolding cm_close
  close-Grows fd q kept = elim (Bool-cases (is_neg (fns.fn_close fd s.world).0)) [
    | inl e ↦ rw e (same (negative e), k)
    | inr e ↦ rw e (same (silent q), kept)
  ]

  pub open_common-Grows :
      (res : ℤ) (p : Bytes) (exists : Bool) (flags : ℕ)
      → Asked (c_str p)
      → is_neg res ≡ false
      → ((not exists || test_bit flags 9) ≡ true
          → P (opened_file p exists (fns.fn_stat (c_str p) s.world).0.1))
      → ((not exists || test_bit flags 9) ≡ false → Silent)
      → M (insert_fd res p s.recorder.fd_map) s.recorder.mmap_map
      → Keeps Asked Silent P M fns s (do cm_open_common fns res p exists flags; pure res)
  unfolding cm_open_common
  open_common-Grows res p exists flags a e h q kept =
      elim (Bool-cases (not exists || test_bit flags 9)) [
        | inr n ↦ rw n (same (silent (q n)), kept)
        | inl n ↦ elim (Bool-cases (is_neg (fns.fn_stat (c_str p) s.world).0.0)) [
          | inl f ↦ rw (n, f) (same (unstated _ _ a f), kept)
          | inr f ↦ rw (n, f) (one _ (h n) e, kept)
        ]
      ]

  pub record_write-Grows :
      (fd : ℤ) (buf : Bytes) (location : ℕ) (pre : Stat) (res : ℤ)
      → ((path : Bytes) → lookup_fd fd s.recorder.fd_map ≡ some path → Asked path)
      → is_neg res ≡ false
      → (s_isdir pre.st_mode ≡ true → P (written_directory location))
      → (s_isdir pre.st_mode ≡ false
          → (path : Bytes) → lookup_fd fd s.recorder.fd_map ≡ some path
          → P (written_file path buf location pre (fns.fn_stat path s.world).0.1 res))
      → Keeps Asked Silent P M fns s (record_write fns fd buf location pre res)
  unfolding record_write fd_at
  record_write-Grows fd buf location pre res a e hd hf = elim (Bool-cases (s_isdir pre.st_mode)) [
    | inl d ↦ rw d (one _ (hd d) e, k)
    | inr d ↦ elim (Option-cases (lookup_fd fd s.recorder.fd_map)) [
      | inl l ↦ rw (d, fd_at, l) (same faulted, k)
      | inr (path, l) ↦ elim (Bool-cases (is_neg (fns.fn_stat path s.world).0.0)) [
        | inl n ↦ rw (d, fd_at, l, n) (same (unstated _ _ (a path l) n), k)
        | inr n ↦ rw (d, fd_at, l, n) (one _ (hf d path l) e, k)
      ]
    ]
  ]
