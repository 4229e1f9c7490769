-- ===== src/Tester.antt =====
-- `Tester::test_check` and `check_disk_and_snapshot_contents` of src/utils/Tester.cpp: which
-- DiskMods the state after a crash is checked against, and what is tallied.
pub mod Checkpoints
pub mod Harness
pub mod Cleanup
pub mod Comparisons
mod Examples
use panda_scratchpad.Base.{
  ℕ, Bool, false, not, List, [], ◌∷◌, if◌then◌else◌, drop, Option, none, some,
}
use panda_scratchpad.Base.Int.{ℤ, pos, eq_ℤ, to_int}
use panda_scratchpad.Base.Words.{Bytes}
use panda_scratchpad.Base.Outcome.{Outcome, ok, failed, fault, stuck}
use panda_scratchpad.Base.Exec.{Exec, ◌>>=◌, pure, lift}
use panda_scratchpad.DiskMod.{DiskMod, fsync_mod, sync_mod, data_mod, sync_file_range_mod}
use panda_scratchpad.Results.{fresh_info, set_data_error, auto_check_failed}
use panda_scratchpad.Results.Tally.{TestSuiteResult, tally_timing_result}

-- `DiskContents` of both devices (`Tester.Comparisons`) and the mounts, over a world `W`.
pub record Devices (W : Type 0) : Type 0 where
  pub mount_replay : W → ℤ × W
  pub mount_record : W → ℤ × W
  pub compare_disk_contents : Exec W Bool
  pub compare_entries_at_path : Bytes → Exec W Bool
  pub compare_file_contents : Bytes → (offset length : ℤ) → Exec W Bool
  pub sanity_checks : Exec W Bool

-- `mods_.at(mods_.size() - 2)`, which throws where there are fewer than two groups.
unfoldable pub last_group : List (List DiskMod) → Outcome (List DiskMod)
last_group [] = fault
last_group (g ∷ []) = fault
last_group (g ∷ h ∷ []) = ok g
last_group (g ∷ h ∷ k ∷ gs) = last_group (h ∷ k ∷ gs)

module _ {W : Type 0} (devices : Devices W) where
  -- The sanity checks behind a comparison that succeeds.
  abbrev with_sanity_checks : Exec W Bool → Exec W Bool
  with_sanity_checks compare = do ret ← compare; if ret then devices.sanity_checks else pure false

  -- The comparison for a DiskMod; `none` where the loop goes on. The mount point is cut off the
  -- path. The 64-bit place and length become `int`s.
  unfoldable pub check_of : DiskMod → Option (Exec W Bool)
  check_of m = elim m.mod_type [
    | fsync_mod ↦ some (with_sanity_checks (devices.compare_entries_at_path (drop 10 m.path)))
    | sync_mod ↦ some (with_sanity_checks devices.compare_disk_contents)
    | data_mod ↦ some (
        with_sanity_checks (
          devices.compare_file_contents (drop 10 m.path) (to_int (pos m.file_mod_location))
            (to_int (pos m.file_mod_len))))
    | sync_file_range_mod ↦ some (
        with_sanity_checks (
          devices.compare_file_contents (drop 10 m.path) (to_int (pos m.file_mod_location))
            (to_int (pos m.file_mod_len))))
    | _ ↦ none
  ]

  -- The loop: the first DiskMod with a comparison decides.
  unfoldable pub check_group : List DiskMod → Exec W Bool
  unfolding check_of
  check_group [] = pure false
  check_group (m ∷ ms) = elim (check_of m) [ none ↦ check_group ms | some check ↦ check ]

  unfoldable pub check_disk_and_snapshot_contents : List (List DiskMod) → Exec W Bool
  unfolding last_group
  check_disk_and_snapshot_contents mods = do group ← lift (last_group mods); check_group group

  -- What is kept of `test_check`: the tally. A device that cannot be mounted ends it before.
  unfoldable pub test_check : List (List DiskMod) → Exec (TestSuiteResult × W) (Unit {0})
  test_check mods (suite, w) =
      let (replay_res, w1) = devices.mount_replay w in
      let (record_res, w2) = devices.mount_record w1 in
      if not (eq_ℤ replay_res (pos 0))
      then (ok tt, (suite, w1))
      else if not (eq_ℤ record_res (pos 0))
      then (ok tt, (suite, w2))
      else elim (check_disk_and_snapshot_contents mods w2).0 [
        | ok ret ↦ (
          ok tt,
          (
            tally_timing_result
                (if ret then fresh_info else set_data_error auto_check_failed fresh_info) suite,
            (check_disk_and_snapshot_contents mods w2).1,
          ),
        )
        | failed ↦ (failed, (suite, (check_disk_and_snapshot_contents mods w2).1))
        | fault ↦ (fault, (suite, (check_disk_and_snapshot_contents mods w2).1))
        | stuck ↦ (stuck, (suite, (check_disk_and_snapshot_contents mods w2).1))
      ]
