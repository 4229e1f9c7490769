-- ===== src/Recorder/Step/Growth/Data.antt =====
-- The calls of a recorder (src/wrapper/wrapper.cpp) on open files and mappings, against `Grows`.
use panda_scratchpad.Base.{
  none, sym, ◌∙◌, ℕ, ◌≡◌, true, false, some, ◌||◌, not, if◌then◌else◌, ◌==◌, Option-cases, inl, inr,
  Bool-cases,
}
use mathlib.Core.Path.{subst}
use mathlib.Core.Option.{some-injective}
use panda_scratchpad.Base.Int.{ℤ, pos, is_neg, to_int}
use panda_scratchpad.Base.Words.{Bytes, u32, test_bit}
use panda_scratchpad.Base.Exec.{◌>>=◌, pure}
use panda_scratchpad.DiskMod.{DiskMod, s_isdir}
use panda_scratchpad.Recorder.{FsFns, Sys, Mapping, to_u64}
use panda_scratchpad.Base.Texts.{c_str}
use panda_scratchpad.Recorder.Tables.{
  FdMap, MmapMap, insert_fd, insert_mapping, erase_mapping, fd_at, lookup_fd, insert_fd,
}
use panda_scratchpad.Recorder.Files.{cm_open2, cm_open3, cm_write, cm_pwrite}
use panda_scratchpad.Recorder.Mappings.{find_mapping, cm_mmap, cm_msync, cm_munmap}
use panda_scratchpad.Recorder.Step.Growth.{
  same, negative, faulted, unstated, silent, one, Keeps, opened_file, written_directory,
  written_file, synced_mapping, write_location, write_record, pwrite_record,
}
use panda_scratchpad.Recorder.Step.Growth.Metadata.{open_common-Grows, record_write-Grows}

-- The calls that another part of the recorder ends.
module _ {W : Type 0} (Asked : Bytes → Type 0) (Silent : Type 0) (P : DiskMod → Type 0)
    (M : FdMap → MmapMap → Type 0) (fns : FsFns W) (s : Sys W)
    (k : M s.recorder.fd_map s.recorder.mmap_map) where
  pub open2-Grows :
      (p : Bytes) (flags : ℕ)
      → Asked (c_str p)
      → (is_neg (fns.fn_open (c_str p) flags (fns.fn_path_exists (c_str p) s.world).1).0 ≡ false
          → (not (fns.fn_path_exists (c_str p) s.world).0 || test_bit flags 9) ≡ true
          → P (
              opened_file p
                (fns.fn_path_exists (c_str p) s.world).0
                (fns.fn_stat
                  (c_str p)
                  (fns.fn_open (c_str p) flags (fns.fn_path_exists (c_str p) s.world).1).1).0.1))
      → ((not (fns.fn_path_exists (c_str p) s.world).0 || test_bit flags 9) ≡ false → Silent)
      → ((res : ℤ) → M (insert_fd res p s.recorder.fd_map) s.recorder.mmap_map)
      → Keeps Asked Silent P M fns s (cm_open2 fns p flags)
  unfolding cm_open2
  open2-Grows p flags a h q kept =
      let w = (fns.fn_path_exists (c_str p) s.world).1 in
      elim (Bool-cases (is_neg (fns.fn_open (c_str p) flags w).0)) [
        | inl e ↦ rw e (same (negative e), k)
        | inr e ↦ rw e (open_common-Grows Asked Silent P M fns _ k _ p _ flags a e (h e) q (kept _))
      ]

  pub open3-Grows :
      (p : Bytes) (flags mode : ℕ)
      → Asked (c_str p)
      → (is_neg (fns.fn_open2 (c_str p) flags mode (fns.fn_path_exists (c_str p) s.world).1).0
            ≡ false
          → (not (fns.fn_path_exists (c_str p) s.world).0 || test_bit flags 9) ≡ true
          → P (
              opened_file p
                (fns.fn_path_exists (c_str p) s.world).0
                (fns.fn_stat
                  (c_str p)
                  (fns.fn_open2
                    (c_str p)
                    flags
                    mode
                    (fns.fn_path_exists (c_str p) s.world).1).1).0.1))
      → ((not (fns.fn_path_exists (c_str p) s.world).0 || test_bit flags 9) ≡ false → Silent)
      → ((res : ℤ) → M (insert_fd res p s.recorder.fd_map) s.recorder.mmap_map)
      → Keeps Asked Silent P M fns s (cm_open3 fns p flags mode)
  unfolding cm_open3
  open3-Grows p flags mode a h q kept =
      let w = (fns.fn_path_exists (c_str p) s.world).1 in
      elim (Bool-cases (is_neg (fns.fn_open2 (c_str p) flags mode w).0)) [
        | inl e ↦ rw e (same (negative e), k)
        | inr e ↦ rw e (open_common-Grows Asked Silent P M fns _ k _ p _ flags a e (h e) q (kept _))
      ]

  pub write-Grows :
      (fd : ℤ) (buf : Bytes) (count : ℕ)
      → ((path : Bytes) → lookup_fd fd s.recorder.fd_map ≡ some path → Asked path)
      → ((path : Bytes)
          → lookup_fd fd s.recorder.fd_map ≡ some path
          → s_isdir (fns.fn_stat path s.world).0.1.st_mode ≡ true
          → P (written_directory (to_u64 (write_location fns s.world fd buf count path).0)))
      → ((path : Bytes)
          → lookup_fd fd s.recorder.fd_map ≡ some path
          → s_isdir (fns.fn_stat path s.world).0.1.st_mode ≡ false
          → is_neg (
              to_int (fns.fn_write fd buf count (write_location fns s.world fd buf count path).1).0)
            ≡ false
          → P (write_record fns s.world fd buf count path))
      → Keeps Asked Silent P M fns s (cm_write fns fd buf count)
  unfolding cm_write fd_at
  write-Grows fd buf count a hd hf = elim (Option-cases (lookup_fd fd s.recorder.fd_map)) [
    | inl l ↦ rw (fd_at, l) (same faulted, k)
    | inr (path, l) ↦ elim (Bool-cases (is_neg (fns.fn_stat path s.world).0.0)) [
      | inl n ↦ rw (fd_at, l, n) (same (unstated _ _ (a path l) n), k)
      | inr n ↦
          elim (Bool-cases (
            is_neg (
              to_int
                (fns.fn_write fd buf count (write_location fns s.world fd buf count path).1).0))) [
                  | inl e ↦ rw (fd_at, l, n, e) (same (negative e), k)
                  | inr e ↦
                      rw (fd_at, l, n, e)
                        (record_write-Grows Asked Silent P M fns _ k fd buf _
                          (fns.fn_stat path s.world).0.1 _ a e (hd path l)
                          (λ d p found.
                            subst
                              (λ q. P (
                                written_file q buf
                                  (to_u64 (write_location fns s.world fd buf count path).0)
                                  (fns.fn_stat path s.world).0.1
                                  (fns.fn_stat q
                                    (fns.fn_write fd buf count
                                      (write_location fns s.world fd buf count path).1).1).0.1
                                  (to_int
                                    (fns.fn_write fd buf count
                                      (write_location fns s.world fd buf count path).1).0)))
                              (some-injective path p (sym l ∙ found)) (hf path l d e)))
                ]
    ]
  ]

  pub pwrite-Grows :
      (fd : ℤ) (buf : Bytes) (count : ℕ) (offset : ℤ)
      → ((path : Bytes) → lookup_fd fd s.recorder.fd_map ≡ some path → Asked path)
      → ((path : Bytes)
          → lookup_fd fd s.recorder.fd_map ≡ some path
          → s_isdir (fns.fn_stat path s.world).0.1.st_mode ≡ true
          → P (
              written_directory
                (if s_isdir (fns.fn_stat path s.world).0.1.st_mode then 0 else to_u64 offset)))
      → ((path : Bytes)
          → lookup_fd fd s.recorder.fd_map ≡ some path
          → s_isdir (fns.fn_stat path s.world).0.1.st_mode ≡ false
          → is_neg (to_int (fns.fn_pwrite fd buf count offset (fns.fn_stat path s.world).1).0)
            ≡ false
          → P (pwrite_record fns s.world fd buf count offset path))
      → Keeps Asked Silent P M fns s (cm_pwrite fns fd buf count offset)
  unfolding cm_pwrite fd_at
  pwrite-Grows fd buf count offset a hd hf = elim (Option-cases (lookup_fd fd s.recorder.fd_map)) [
    | inl l ↦ rw (fd_at, l) (same faulted, k)
    | inr (path, l) ↦ elim (Bool-cases (is_neg (fns.fn_stat path s.world).0.0)) [
      | inl n ↦ rw (fd_at, l, n) (same (unstated _ _ (a path l) n), k)
      | inr n ↦
          elim (Bool-cases
            (is_neg (to_int (fns.fn_pwrite fd buf count offset (fns.fn_stat path s.world).1).0))) [
              | inl e ↦ rw (fd_at, l, n, e) (same (negative e), k)
              | inr e ↦
                  rw (fd_at, l, n, e)
                    (record_write-Grows Asked Silent P M fns _ k fd buf _
                      (fns.fn_stat path s.world).0.1 _ a e (hd path l)
                      (λ d p found.
                        subst
                          (λ q. P (
                            written_file q buf
                              (if s_isdir (fns.fn_stat path s.world).0.1.st_mode
                                then 0
                                else to_u64 offset)
                              (fns.fn_stat path s.world).0.1
                              (fns.fn_stat q
                                (fns.fn_pwrite fd buf count offset
                                  (fns.fn_stat path s.world).1).1).0.1
                              (to_int
                                (fns.fn_pwrite fd buf count offset
                                  (fns.fn_stat path s.world).1).0)))
                          (some-injective path p (sym l ∙ found)) (hf path l d e)))
            ]
    ]
  ]

  pub munmap-Grows :
      (addr n : ℕ)
      → Silent
      → M s.recorder.fd_map (erase_mapping addr s.recorder.mmap_map)
      → Keeps Asked Silent P M fns s (cm_munmap fns addr n)
  unfolding cm_munmap
  munmap-Grows addr n q kept = elim (Bool-cases (is_neg (fns.fn_munmap addr n s.world).0)) [
    | inl e ↦ rw e (same (negative e), k)
    | inr e ↦ rw e (same (silent q), kept)
  ]

  pub msync-Grows :
      (addr n flags : ℕ)
      → (find_mapping addr s.recorder.mmap_map ≡ none → Silent)
      → ((entry : ℕ × Mapping)
          → find_mapping addr s.recorder.mmap_map ≡ some entry
          → P (
              synced_mapping entry addr n flags
                (fns.memory addr n (fns.fn_msync addr n flags s.world).1)))
      → Keeps Asked Silent P M fns s (cm_msync fns addr n flags)
  unfolding cm_msync
  msync-Grows addr n flags q h = elim (Bool-cases (is_neg (fns.fn_msync addr n flags s.world).0)) [
    | inl e ↦ rw e (same (negative e), k)
    | inr e ↦ elim (Option-cases (find_mapping addr s.recorder.mmap_map)) [
      | inl l ↦ rw (e, l) (same (silent (q l)), k)
      | inr (entry, l) ↦ rw (e, l) (one _ (h entry l) e, k)
    ]
  ]

  pub mmap-Grows :
      (addr n prot flags : ℕ) (fd offset : ℤ)
      → Silent
      → ((res : ℕ) (path : Bytes)
          → lookup_fd fd s.recorder.fd_map ≡ some path
          → M s.recorder.fd_map (
              insert_mapping res
                (record { path = path; offset = u32 (to_u64 offset); length = u32 n })
                s.recorder.mmap_map))
      → Keeps Asked Silent P M fns s
          (do res ← cm_mmap fns addr n prot flags fd offset; pure (pos res))
  unfolding cm_mmap fd_at
  mmap-Grows addr n prot flags fd offset q kept =
      let res = (fns.fn_mmap addr n prot flags fd offset s.world).0 in
      elim (Bool-cases (
        (res == 18446744073709551615)
        || (not (test_bit prot 1) || (test_bit flags 1 || test_bit flags 5)))) [
          | inl b ↦ rw b (same (silent q), k)
          | inr b ↦ elim (Option-cases (lookup_fd fd s.recorder.fd_map)) [
            | inl l ↦ rw (b, fd_at, l) (same faulted, k)
            | inr (path, l) ↦ rw (b, fd_at, l) (same (silent q), kept res path l)
          ]
        ]
