-- ===== src/Main/Phases.antt =====
-- The phases of src/main.cpp behind the loading of the test case, over the socket, the processes and
-- the check, which are parameters here.
use panda_scratchpad.Base.{ℕ, ◌<◌, ◌≡◌, ◌⊎◌, Bool, true, false, not, if◌then◌else◌}
use panda_scratchpad.Base.Int.{ℤ, pos, negsuc, eq_ℤ}
use panda_scratchpad.Base.Words.{Bytes}
use panda_scratchpad.Base.Outcome.{Outcome, ok, failed, fault, stuck}
use panda_scratchpad.Base.Exec.{Exec, ◌>>=◌, pure}
use panda_scratchpad.ClassLoader.{ClassLoader, unload_class}
use panda_scratchpad.ClientSocket.{
  SockMessage, writetracker, replay, build_load_plugin_msg, build_unload_plugin_msg,
}
use panda_scratchpad.FsCommands.{FsCommands}
use panda_scratchpad.Tester.Harness.{
  Machine, Harness, mnt_point_record, umount_device, cleanup_harness,
}
use panda_scratchpad.Main.{on_world, umount, guarded, prepare_device}

pub record Parts (W : Type 0) : Type 0 where
  -- `Init`, `SendCommand` and `ReceiveReply`; whether they succeed
  pub init : W → Bool × W
  pub send : SockMessage → W → Bool × W
  pub receive : W → W
  -- `system("./workload")`
  pub workload : W → W
  -- the child that runs the test case (`TestCase`): 0 if it could be made and exited. The loop around it has one
  -- round, since `last_checkpoint` is set behind it.
  pub run : W → ℤ × W
  -- opening the change file, and `GetChangeData` (`ChangeLog`), which may end `main` by an exception
  pub read_changes : W → Outcome ℤ × W
  -- `test_check` (`Tester`), which may too
  pub check : W → Outcome (Unit {0}) × W
  -- `system("umount /mnt/pmem1")`
  pub umount_replay : W → W

-- The addresses and the device that `main` takes from the options.
pub record Target : Type 0 where
  pub begin_trace_addr : Bytes
  pub end_trace_addr : Bytes
  pub begin_replay_addr : Bytes
  pub fs : Bytes
  pub record_device_path : Bytes
  -- what a new `SockMessage` holds
  pub message : SockMessage

module _ {W : Type 0} (machine : Machine W) (fuel : ℕ) (parts : Parts W) where
  -- A call of the socket; `main` returns -1 at once if it fails.
  abbrev checked : (W → Bool × W) → Exec (Harness × W) ℤ → Exec (Harness × W) ℤ
  checked call rest (h, w) =
      if (call w).0 then rest (h, (call w).1) else (ok (negsuc 0), (h, (call w).1))

  abbrev then_do : (W → W) → Exec (Harness × W) ℤ → Exec (Harness × W) ℤ
  then_do f rest (h, w) = rest (h, f w)

  -- A call that may not come back.
  abbrev pub risked : {A : Type 0} → (W → Outcome A × W) → Exec (Harness × W) A
  risked call (h, w) = ((call w).0, (h, (call w).1))

  -- A message and its reply.
  abbrev pub told : SockMessage → Exec (Harness × W) ℤ → Exec (Harness × W) ℤ
  told message rest = checked (parts.send message) (then_do parts.receive rest)

  abbrev finished : Outcome (Harness × W) → Exec (Harness × W) ℤ
  finished (ok (h, w)) s = (ok (pos 0), (h, parts.umount_replay w))
  finished failed s = (failed, s)
  finished fault s = (fault, s)
  finished stuck s = (stuck, s)

  abbrev pub finish : Exec (Harness × W) ℤ
  finish (h, w) = finished (cleanup_harness machine fuel h w) (h, w)

  -- From the replay to the end of `main`.
  abbrev pub replay_phases : Target → Exec (Harness × W) ℤ
  replay_phases t =
      told (build_load_plugin_msg replay t.begin_replay_addr t.end_trace_addr t.message)
        (told (build_unload_plugin_msg 0 t.message) (risked parts.check >>= λ _. finish))

  -- From the end of the trace to the end of `main`.
  unfoldable pub test_phases : Target → Exec (Harness × W) ℤ
  unfolding guarded umount_device cleanup_harness
  test_phases t =
      told (build_unload_plugin_msg 0 t.message)
        (guarded machine fuel (umount machine fuel) (replay_phases t))

  unfoldable pub main_phases : Target → Exec (Harness × W) ℤ
  unfolding guarded prepare_device test_phases
  main_phases t = checked parts.init (
      prepare_device machine fuel t.fs t.record_device_path >>= λ res.
      if not (eq_ℤ res (pos 0))
      then pure res
      else told (build_load_plugin_msg writetracker t.begin_trace_addr t.end_trace_addr t.message) (
          then_do parts.workload (
            guarded machine fuel (on_world machine fuel (λ h. parts.run))
              (guarded machine fuel (risked parts.read_changes) (test_phases t)))))

-- A call that did not come back.
abbrev pub IsLost : {A : Type 0} → Outcome A → Type 0
IsLost (ok a) = ⊥
IsLost failed = Unit {0}
IsLost fault = Unit {0}
IsLost stuck = Unit {0}

module _ {W : Type 0} (machine : Machine W) (patience : W → ℕ)
    (calms : (w : W)
      → (machine.umount mnt_point_record w).1 ≡ true
      → patience (machine.umount mnt_point_record w).2 < patience w)
    (fuel : ℕ) (patient : (w : W) → patience w < fuel) (parts : Parts W) (loader : ClassLoader)
    (Broken : W → Type 0)
    (init_breaks : (w : W) → (parts.init w).0 ≡ false → Broken (parts.init w).1)
    (send_breaks : (m : SockMessage) (w : W)
      → (parts.send m w).0 ≡ false
      → Broken (parts.send m w).1) where
  -- The end of `main`. It returns 0 with the class unloaded, for which `Ran` gives the reason. Or it
  -- returns -1, and the class is unloaded, or a call of the socket has failed. Or it does not come back,
  -- since reading the changes or the check did not.
  abbrev pub Unloads : Type 0 → Outcome ℤ × (Harness × W) → Type 0
  Unloads Ran s =
      ((s.0 ≡ ok (pos 0)) × (s.1.0.test_loader ≡ unload_class loader) × Ran)
      ⊎ (((s.0 ≡ ok (negsuc 0)) × ((s.1.0.test_loader ≡ unload_class loader) ⊎ Broken s.1.1))
          ⊎ (IsLost s.0 × ((w : W) × (IsLost (parts.read_changes w).0 ⊎ IsLost (parts.check w).0))))

  -- Code that does so from any state in which the class is loaded.
  abbrev Unloading : Type 0 → Exec (Harness × W) ℤ → Type 0
  Unloading Ran m = (h : Harness) (w : W) → h.test_loader ≡ loader → Unloads Ran (m (h, w))

  -- The child exited, and the changes could be read.
  abbrev pub TestRan : Type 0
  TestRan =
      (w : W) × ((parts.run w).0 ≡ pos 0) × ((parts.read_changes (parts.run w).1).0 ≡ ok (pos 0))
