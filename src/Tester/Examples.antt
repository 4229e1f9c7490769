-- ===== src/Tester/Examples.antt =====
-- The theorem about the compared DiskMods (src/utils/Tester.cpp) at concrete ones, and a test of the
-- check.
use panda_scratchpad.Base.{false, arith, ◌≡◌, refl, true, [], ◌∷◌, ◌++◌}
use mathlib.Core.List.{foldl}
use panda_scratchpad.Base.Outcome.{ok}
use panda_scratchpad.Base.Int.{pos}
use panda_scratchpad.DiskMod.{DiskMod, reset, checkpoint_mod, fsync_mod, sync_mod}
use panda_scratchpad.DiskMod.Examples.{three_bytes}
use panda_scratchpad.ChangeLog.{add_mod}
use panda_scratchpad.Tester.{
  Devices, last_group, check_of, check_group, check_disk_and_snapshot_contents,
}
use panda_scratchpad.Base.Texts.{codes, text_eq}
use panda_scratchpad.Checker.Scan.{Contents, get_contents}
use panda_scratchpad.Checker.Compare.{base_path}
use panda_scratchpad.Checker.Sanity.{Files, sanity_checks}
use panda_scratchpad.Checker.Examples.{one_log, one_log-HasSums, one_log-HasDepth, one_log-Mirrors}
use panda_scratchpad.Tester.Comparisons.{
  is_compared, checked_devices, fresh_disks, check_disk_and_snapshot_contents-Mirrors,
}
use panda_scratchpad.Tester.Checkpoints.{last_group-add_mod}

abbrev set_checkpoint : DiskMod
set_checkpoint = record reset { mod_type = checkpoint_mod }

abbrev synced : DiskMod
synced = record reset { mod_type = fsync_mod }

last_group-add_mod_example :
    last_group (
      foldl add_mod [] (
        (three_bytes ∷ [])
        ++ set_checkpoint ∷ ((synced ∷ three_bytes ∷ []) ++ set_checkpoint ∷ (synced ∷ []))))
    ≡ ok (synced ∷ three_bytes ∷ [])
last_group-add_mod_example =
    last_group-add_mod (three_bytes ∷ []) (synced ∷ three_bytes ∷ []) (synced ∷ []) set_checkpoint
      set_checkpoint refl refl refl refl

abbrev equal_devices : Devices (Unit {0})
equal_devices = record {
  mount_replay = λ w. (pos 0, w);
  mount_record = λ w. (pos 0, w);
  compare_disk_contents = λ w. (ok true, w);
  compare_entries_at_path = λ p w. (ok true, w);
  compare_file_contents = λ p o n w. (ok true, w);
  sanity_checks = λ w. (ok true, w);
}

check_run :
    check_disk_and_snapshot_contents equal_devices ((synced ∷ []) ∷ [] ∷ []) tt ≡ (ok true, tt)
unfolding check_disk_and_snapshot_contents last_group check_group check_of
check_run = refl

abbrev whole_sync : DiskMod
whole_sync = record reset { mod_type = sync_mod }

-- The files of `one_log`, of which nothing can be made or removed.
abbrev fixed_files : Files (Unit {0})
fixed_files = record {
  os = λ _. one_log;
  unlink = λ path w. (false, w);
  rmdir = λ path w. (false, w);
  create = λ path w. (false, w);
}

check_disk_and_snapshot_contents-Mirrors_example :
    (scanned : Contents) × (get_contents one_log 7 base_path 1 base_path [] ≡ ok scanned)
    × ((check_disk_and_snapshot_contents
          (checked_devices fixed_files 7 1 (λ _. []) (λ _. []) (λ c. (pos 0, c)) (λ c. (pos 0, c)))
          ((set_checkpoint ∷ whole_sync ∷ []) ∷ [] ∷ [])
          (fresh_disks tt (codes "/dev/pmem0") (codes "/dev/pmem1") (codes "NOVA") [])).0
        ≡ (sanity_checks fixed_files 7 base_path 1
            (record { world = tt; contents = scanned; diff = [] })).0)
unfolding last_group is_compared text_eq
check_disk_and_snapshot_contents-Mirrors_example =
    check_disk_and_snapshot_contents-Mirrors fixed_files 7 1 (λ _. []) (λ _. []) (λ c. (pos 0, c))
      (λ c. (pos 0, c)) tt (codes "/dev/pmem0") (codes "/dev/pmem1") (codes "NOVA") []
      ((set_checkpoint ∷ whole_sync ∷ []) ∷ [] ∷ []) (set_checkpoint ∷ []) whole_sync [] (λ _. 0)
      refl (refl, tt) refl one_log-HasSums one_log-HasDepth (omega arith) (omega arith)
      one_log-Mirrors refl
