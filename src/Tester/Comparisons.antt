-- ===== src/Tester/Comparisons.antt =====
-- `check_disk_and_snapshot_contents` of src/utils/Tester.cpp with the comparisons of
-- src/checker/DiskContents.cpp.
use panda_scratchpad.Base.{[], ◌++◌, false, none, ℕ, ◌<◌, ◌≡◌, refl, Bool, true, List, ◌∷◌}
use panda_scratchpad.Base.Int.{ℤ}
use panda_scratchpad.Base.Words.{Bytes}
use panda_scratchpad.Base.Texts.{codes, text_eq}
use panda_scratchpad.Base.Outcome.{Outcome, ok, failed, fault, stuck}
use panda_scratchpad.Base.Exec.{Exec}
use panda_scratchpad.DiskMod.{
  DiskMod, ModType, create_mod, sync_mod, fsync_mod, data_mod, sync_file_range_mod,
}
use panda_scratchpad.Checker.{DiskContents, new_contents, set_mount_point}
use panda_scratchpad.Checker.Scan.Depth.{HasDepth, HasSums}
use panda_scratchpad.Checker.Scan.Mirror.{Mirrors}
use panda_scratchpad.Checker.Compare.{
  Diff, Comparison, base_path, compare_disk_contents, compare_entries_at_path,
  compare_file_contents,
}
use panda_scratchpad.Checker.Compare.Disks.{compare_disk_contents-scanned}
use panda_scratchpad.Checker.Scan.{Contents, get_contents}
use panda_scratchpad.Checker.Sanity.{Files, sanity_checks}
use panda_scratchpad.Tester.{
  Devices, last_group, check_of, check_group, check_disk_and_snapshot_contents,
}

-- `disk1`, `disk2` and `diff_file`, beside the world that the sanity checks change.
pub record Checked (W : Type 0) : Type 0 where
  pub disk1 : DiskContents
  pub disk2 : DiskContents
  pub diff : Diff
  pub world : W

-- `disk1` and `disk2` at the start.
abbrev pub fresh_disks : {W : Type 0} → W → (record_path replay_path fs : Bytes) → Diff → Checked W
fresh_disks w record_path replay_path fs diff = record {
  disk1 = set_mount_point base_path (new_contents record_path fs);
  disk2 = set_mount_point (codes "/mnt/pmem1") (new_contents replay_path fs);
  diff = diff;
  world = w;
}

-- The DiskMods at which the loop of `check_disk_and_snapshot_contents` stops.
unfoldable pub is_compared : ModType → Bool
is_compared fsync_mod = true
is_compared sync_mod = true
is_compared data_mod = true
is_compared sync_file_range_mod = true
is_compared _ = false

abbrev pub NoneCompared : List DiskMod → Type 0
NoneCompared [] = Unit {0}
NoneCompared (m ∷ ms) = (is_compared m.mod_type ≡ false) × NoneCompared ms

module _ {W : Type 0} (devices : Devices W) where
  check_of-none : (m : DiskMod) → is_compared m.mod_type ≡ false → check_of devices m ≡ none
  unfolding check_of is_compared
  check_of-none m h = go m.mod_type refl h
    where
      go : (t : ModType) → m.mod_type ≡ t → is_compared t ≡ false → check_of devices m ≡ none
      go create_mod e h = rw (check_of, e)
      go fsync_mod e h = absurd cc
      go sync_mod e h = absurd cc
      go data_mod e h = absurd cc
      go sync_file_range_mod e h = absurd cc
      go _ e h = rw (check_of, e)

  check_group-skip :
      (pre : List DiskMod) (m : DiskMod) (ms : List DiskMod)
      → NoneCompared pre
      → check_group devices (pre ++ m ∷ ms) ≡ check_group devices (m ∷ ms)
  unfolding check_group
  check_group-skip [] m ms h = refl
  check_group-skip (p ∷ pre) m ms h =
      rw (check_group, check_of-none p h.0) (check_group-skip pre m ms h.1)

module _ {W : Type 0} (files : Files W) (st_ino fuel : ℕ) (fresh other_fresh : ℕ → Bytes)
    (mount_replay mount_record : Checked W → ℤ × Checked W) where
  -- What a comparison of whole disks leaves.
  abbrev keep_comparison : Outcome Comparison → Exec (Checked W) Bool
  keep_comparison (ok r) c =
      (ok r.result, record c { disk1 = r.disk; disk2 = r.other; diff = r.diff })
  keep_comparison failed c = (failed, c)
  keep_comparison fault c = (fault, c)
  keep_comparison stuck c = (stuck, c)

  abbrev keep_diff : Outcome (Bool × Diff) → Exec (Checked W) Bool
  keep_diff (ok (result, diff)) c = (ok result, record c { diff = diff })
  keep_diff failed c = (failed, c)
  keep_diff fault c = (fault, c)
  keep_diff stuck c = (stuck, c)

  -- `disk1.sanity_checks(diff_file)`
  abbrev run_sanity_checks : Exec (Checked W) Bool
  run_sanity_checks c =
      let (result, s) =
        sanity_checks files st_ino c.disk1.mount_point fuel
          (record { world = c.world; contents = c.disk1.contents; diff = c.diff }) in
      (
        result,
        record c {
          disk1 = record c.disk1 { contents = s.contents };
          diff = s.diff;
          world = s.world;
        },
      )

  -- The tester's devices with the checker's comparisons.
  abbrev pub checked_devices : Devices (Checked W)
  checked_devices = record {
    mount_replay = mount_replay;
    mount_record = mount_record;
    compare_disk_contents = λ c.
        keep_comparison
          (compare_disk_contents (files.os c.world) st_ino fuel c.disk1 c.disk2 c.diff) c;
    compare_entries_at_path = λ path c.
        keep_diff (compare_entries_at_path (files.os c.world) st_ino c.disk1 c.disk2 path c.diff) c;
    compare_file_contents = λ path offset length c.
        keep_diff
          (compare_file_contents (files.os c.world) fresh other_fresh c.disk1 c.disk2 path offset
            length c.diff)
          c;
    sanity_checks = run_sanity_checks;
  }

  -- In the group of the last checkpoint the first DiskMod with a comparison is a sync, both devices are
  -- mounted, and each path has a sum. If the file systems look the same below /mnt/pmem0 and /mnt/pmem1,
  -- with directories less deep than the fuel, then the comparison finds no difference and says none, so
  -- that the check of the state after the crash gives what the sanity checks give on the scan of the
  -- record device.
  pub check_disk_and_snapshot_contents-Mirrors :
      (w : W) (record_path replay_path fs : Bytes) (diff : Diff) (mods : List (List DiskMod))
      (pre : List DiskMod) (m : DiskMod) (ms : List DiskMod) (depth : Bytes → ℕ)
      → last_group mods ≡ ok (pre ++ m ∷ ms)
      → NoneCompared pre
      → m.mod_type ≡ sync_mod
      → HasSums (files.os w)
      → HasDepth (files.os w) depth
      → depth base_path < fuel
      → depth (codes "/mnt/pmem1") < fuel
      → Mirrors (files.os w) base_path (codes "/mnt/pmem1")
      → text_eq record_path replay_path ≡ false
      → (scanned : Contents) × (get_contents (files.os w) st_ino base_path fuel base_path []
          ≡ ok scanned)
        × ((check_disk_and_snapshot_contents checked_devices mods
              (fresh_disks w record_path replay_path fs diff)).0
            ≡ (sanity_checks files st_ino base_path fuel
                (record { world = w; contents = scanned; diff = diff })).0)
  unfolding check_disk_and_snapshot_contents check_group check_of
  check_disk_and_snapshot_contents-Mirrors w record_path replay_path fs diff mods pre m ms depth
        last none_before kind sums less mine theirs same differ =
      let start = fresh_disks w record_path replay_path fs diff in
      let os = files.os w in
      let (scanned, scan, (r, e, found, silent, left)) =
        compare_disk_contents-scanned os sums depth less st_ino fuel start.disk1 start.disk2 diff
          mine theirs refl refl refl same differ in
      (
        scanned,
        scan,
        rw
            (
              last,
              check_group-skip checked_devices pre m ms none_before,
              check_group,
              check_of,
              kind,
              e,
              found,
              left,
              silent,
            )
            refl,
      )
