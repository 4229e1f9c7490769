-- ===== src/TestCase/Examples.antt =====
-- The theorems about the runs of a test case at a concrete one, on the file system of one file.
use panda_scratchpad.Base.{ℕ, ◌≡◌, refl, [], ◌∷◌, map, arith}
use panda_scratchpad.Base.Int.{pos}
use panda_scratchpad.Base.Outcome.{ok}
use panda_scratchpad.DiskMod.Examples.{zeroed}
use panda_scratchpad.DiskMod.Roundtrip.{wire_view}
use panda_scratchpad.ChangeLog.{get_change_data}
use panda_scratchpad.ChangeLog.Groups.{checkpoint_groups}
use panda_scratchpad.ChangeLog.Examples.{slow_disk, slow_disk-IsReliable}
use panda_scratchpad.Recorder.{mkdir, checkpoint, sync}
use panda_scratchpad.Recorder.Files.{cm_mkdir}
use panda_scratchpad.Recorder.Sync.{cm_sync, cm_checkpoint}
use panda_scratchpad.Recorder.Step.{step}
use panda_scratchpad.Recorder.Passthrough.{passthrough}
use panda_scratchpad.Recorder.Examples.{one_file, one_file-IsQuiet, one_file-IsPosix}
use panda_scratchpad.TestCase.{Body, return, call, run_body, fresh, run_test}
use panda_scratchpad.TestCase.Changes.{run_test-get_change_data}
use panda_scratchpad.TestCase.Runs.{run_body-passthrough}

-- Makes the directory `/d`, syncs and sets a checkpoint.
abbrev make_directory : ℕ → Body
make_directory n =
    call (mkdir (47 ∷ 100 ∷ []) 493) λ res. call sync λ res2. call checkpoint λ res3. return (pos 0)

ends_well : (run_body (step one_file) (make_directory 0) (fresh [])).0 ≡ ok (pos 0)
unfolding run_body step cm_mkdir cm_sync cm_checkpoint
ends_well = refl

run_test-get_change_data_example :
    ((run_test one_file zeroed slow_disk make_directory 0 ([], [])).0 ≡ ok (pos 0))
    × (get_change_data zeroed slow_disk []
          (run_test one_file zeroed slow_disk make_directory 0 ([], [])).1.1
        ≡ (
          ok tt,
          checkpoint_groups (
              map wire_view
                (run_body (step one_file) (make_directory 0) (fresh [])).1.recorder.mods),
        ))
run_test-get_change_data_example =
    run_test-get_change_data one_file one_file-IsPosix zeroed (λ n. refl) slow_disk
      slow_disk-IsReliable make_directory [] (pos 0)
      ((omega arith, omega arith), λ res e. (tt, λ res2 e2. (tt, λ res3 e3. tt))) ends_well refl

run_body-passthrough_example :
    ((run_body (step one_file) (make_directory 0) (fresh [])).0
      ≡ (run_body (passthrough one_file) (make_directory 0) []).0)
    × ((run_body (step one_file) (make_directory 0) (fresh [])).1.world
        ≡ (run_body (passthrough one_file) (make_directory 0) []).1)
run_body-passthrough_example =
    run_body-passthrough one_file one_file-IsQuiet (make_directory 0) (fresh [])
      (tt, λ res e. (tt, λ res2 e2. (tt, λ res3 e3. tt)))
