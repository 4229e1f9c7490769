-- ===== src/TestCase.antt =====
-- src/tests/BaseTestCase.cpp: how a test case is run, on a recorder for the first time and without a
-- record for the later checkpoints, and how its DiskMods get into the change file.
pub mod Changes
pub mod Runs
mod Examples
use panda_scratchpad.Base.{ℕ, [], ◌==◌, if◌then◌else◌}
use panda_scratchpad.Base.Int.{ℤ, negsuc, is_neg}
use panda_scratchpad.Base.Words.{Bytes}
use panda_scratchpad.Base.Outcome.{Outcome, ok, failed, fault, stuck}
use panda_scratchpad.Base.Exec.{Exec, ◌>>=◌, pure}
use panda_scratchpad.Base.Memory.{Allocator}
use panda_scratchpad.Recorder.{FsFns, Sys, Op}
use panda_scratchpad.Recorder.Step.{step}
use panda_scratchpad.Recorder.Passthrough.{passthrough}
use panda_scratchpad.ChangeLog.{FileIo, serialize_mods}

-- The body of a test case, `run` of a derived class: calls of `cm_`, each chosen by what the ones
-- before it returned, and a result.
pub data Body : Type 0 where
  return : ℤ → Body
  call : Op → (ℤ → Body) → Body

module _ {S : Type 0} where
  -- The body on an implementation of `CmFsOps`.
  unfoldable pub run_body : (Op → Exec S ℤ) → Body → Exec S ℤ
  run_body cm (return res) = pure res
  run_body cm (call op next) = do res ← cm op; run_body cm (next res)

abbrev pub fresh : {W : Type 0} → W → Sys W
fresh w = record { recorder = record { fd_map = []; mmap_map = []; mods = [] }; world = w }

module _ {W : Type 0} (fns : FsFns W) (mem : Allocator) (io : FileIo) where
  -- `cm.Serialize(change_fd)` behind the body, on the content of the change file: -1 if it fails.
  abbrev pub serialize_change_fd : ℤ → Sys W → Bytes → Outcome ℤ × (W × Bytes)
  serialize_change_fd res_1 s file = elim (serialize_mods mem io s.recorder.mods file).0 [
    | ok _ ↦ (ok res_1, (s.world, (serialize_mods mem io s.recorder.mods file).1))
    | failed ↦ (ok (negsuc 0), (s.world, (serialize_mods mem io s.recorder.mods file).1))
    | fault ↦ (fault, (s.world, (serialize_mods mem io s.recorder.mods file).1))
    | stuck ↦ (stuck, (s.world, (serialize_mods mem io s.recorder.mods file).1))
  ]

  abbrev pub after_body : Outcome ℤ × Sys W → Bytes → Outcome ℤ × (W × Bytes)
  after_body (ok res_1, s) file =
      if is_neg res_1 then (ok res_1, (s.world, file)) else serialize_change_fd res_1 s file
  after_body (failed, s) file = (failed, (s.world, file))
  after_body (fault, s) file = (fault, (s.world, file))
  after_body (stuck, s) file = (stuck, (s.world, file))

  abbrev plain_run : Outcome ℤ × W → Bytes → Outcome ℤ × (W × Bytes)
  plain_run (r, w) file = (r, (w, file))

  -- `BaseTestCase::Run`
  unfoldable pub run_test : (body : ℕ → Body) (checkpoint : ℕ) → Exec (W × Bytes) ℤ
  run_test body checkpoint (w, file) =
      if checkpoint == 0
      then after_body (run_body (step fns) (body 0) (fresh w)) file
      else plain_run (run_body (passthrough fns) (body checkpoint) w) file
