-- ===== src/Main.antt =====
-- The name of the test case and the preparation of the record device in src/main.cpp, over the devices of
-- a `Tester`.
pub mod Prepared
pub mod Options
pub mod Phases
pub mod Names
pub mod Examples
use panda_scratchpad.Base.{
  ℕ, Bool, true, false, none, some, Option, if◌then◌else◌, take, length, drop, ◌-◌, ltb, [], ◌∷◌,
  ◌==◌,
}
use panda_scratchpad.Base.Int.{ℤ, pos, negsuc, eq_ℤ}
use panda_scratchpad.Base.Words.{Bytes}
use panda_scratchpad.Base.Texts.{codes, text_eq}
use panda_scratchpad.Base.Outcome.{Outcome, ok, failed, fault, stuck}
use panda_scratchpad.Base.Exec.{Exec, ◌>>=◌, pure}
use panda_scratchpad.Tester.Harness.{
  Machine, Harness, mnt_point_record, snapshot_device, restore_snapshot, mount_device,
  format_and_mount_device, umount_device, cleanup_harness,
}

unfoldable pub has_slash : Bytes → Bool
has_slash [] = false
has_slash (b ∷ s) = let rest = has_slash s in if b == 47 then true else rest

-- What is behind the last `/`, or everything.
unfoldable pub behind_slash : Bytes → Bytes
unfolding has_slash
behind_slash [] = []
behind_slash (b ∷ s) =
    let rest = behind_slash s in if has_slash s then rest else if b == 47 then s else b ∷ s

-- Without the last three characters; `length() - 3` of a shorter name is so large that `substr` gives
-- all of it.
unfoldable pub test_case_name : Bytes → Bytes
unfolding behind_slash
test_case_name path =
    let name = behind_slash path in
    if ltb (length name) 3 then name else take (length name - 3) name

module _ {W : Type 0} (machine : Machine W) (fuel : ℕ) where
  -- A call of the machine, with the tester as it is.
  abbrev pub on_world : (Harness → W → ℤ × W) → Exec (Harness × W) ℤ
  on_world f (h, w) = (ok (f h w).0, (h, (f h w).1))

  abbrev pub on_commands : Outcome (ℤ × W) → Exec (Harness × W) ℤ
  on_commands (ok (res, w')) (h, w) = (ok res, (h, w'))
  on_commands failed s = (failed, s)
  on_commands fault s = (fault, s)
  on_commands stuck s = (stuck, s)

  abbrev pub format : (device_path mount_point : Bytes) → Exec (Harness × W) ℤ
  format device_path mount_point (h, w) =
      on_commands (format_and_mount_device machine h device_path mount_point w) (h, w)

  abbrev pub mount : (device_path mount_point : Bytes) → Exec (Harness × W) ℤ
  mount device_path mount_point (h, w) =
      on_commands (mount_device machine h device_path mount_point w) (h, w)

  abbrev pub umount : Exec (Harness × W) ℤ
  umount (h, w) = let (res, busy, h', w') = umount_device machine h w in (ok res, (h', w'))

  abbrev cleaned : Outcome (Harness × W) → Exec (Harness × W) ℤ
  cleaned (ok s') s = (ok (negsuc 0), s')
  cleaned failed s = (failed, s)
  cleaned fault s = (fault, s)
  cleaned stuck s = (stuck, s)

  -- `pm_tester.cleanup_harness(); return -1;`
  abbrev pub give_up : Exec (Harness × W) ℤ
  give_up (h, w) = cleaned (cleanup_harness machine fuel h w) (h, w)

  -- A call, and then the rest if it gives SUCCESS.
  unfoldable pub guarded : Exec (Harness × W) ℤ → Exec (Harness × W) ℤ → Exec (Harness × W) ℤ
  unfolding cleanup_harness
  guarded call rest = do res ← call; if eq_ℤ res (pos 0) then rest else give_up

  abbrev pub only_if : Bool → Exec (Harness × W) ℤ → Exec (Harness × W) ℤ
  only_if b call = if b then call else pure (pos 0)

  -- NOVA is unmounted for the snapshot. The result is 0 where `main` goes on.
  unfoldable pub prepare_device : (fs record_device_path : Bytes) → Exec (Harness × W) ℤ
  unfolding text_eq guarded format_and_mount_device umount_device snapshot_device restore_snapshot
      mount_device
  prepare_device fs record_device_path =
      let is_nova = text_eq fs (codes "NOVA") in
      guarded (format record_device_path mnt_point_record) (
        guarded (only_if is_nova umount) (
          guarded (on_world (snapshot_device machine)) (
            guarded (on_world (restore_snapshot machine)) (
              guarded (only_if is_nova (mount record_device_path mnt_point_record))
                (pure (pos 0))))))
