-- ===== src/Tester/Harness.antt =====
-- The devices and the class of a `Tester` (src/utils/Tester.cpp). `system`, `umount` and the dynamic
-- linker are parameters.
use panda_scratchpad.Base.{
  ℕ, zero, suc, ◌<◌, ◌≡◌, refl, ◌⊎◌, inl, inr, Bool, true, false, Option, none, some, [], ◌++◌,
  if◌then◌else◌, arith, Bool-cases,
}
use panda_scratchpad.Base.Int.{ℤ, pos, negsuc, eq_ℤ, is_neg}
use panda_scratchpad.Base.Words.{Bytes}
use panda_scratchpad.Base.Texts.{codes, to_string}
use panda_scratchpad.Base.Outcome.{Outcome, ok, fault, stuck, Returns}
use panda_scratchpad.ClassLoader.{ClassLoader, fresh_loader, unload_class}
use panda_scratchpad.FsCommands.{FsCommands, get_fs_commands, get_mount_command, get_mkfs_command}

-- What a command and `umount` do: the result, whether `errno` is EBUSY, and the world behind it.
pub record Machine (W : Type 0) : Type 0 where
  pub system : Bytes → W → ℤ × W
  pub umount : Bytes → W → ℤ × Bool × W

pub record Harness : Type 0 where
  pub fs_commands : Option FsCommands
  pub test_loader : ClassLoader
  pub fs : Bytes
  pub record_device_path : Bytes
  pub replay_device_path : Bytes
  pub device_size : ℕ
  pub record_dev_mounted : Bool

abbrev pub new_tester : ℕ → Harness
new_tester dev_size = record {
  fs_commands = none;
  test_loader = fresh_loader;
  fs = [];
  record_device_path = [];
  replay_device_path = [];
  device_size = dev_size;
  record_dev_mounted = false;
}

-- The assertion holds for the file systems that are known.
unfoldable pub set_fs : Bytes → Harness → Outcome Harness
unfolding get_fs_commands
set_fs fs_type h = elim (get_fs_commands fs_type) [
  | none ↦ fault
  | some c ↦ ok (record h { fs = fs_type; fs_commands = some c })
]

abbrev pub set_record_device : Bytes → Harness → Harness
set_record_device path h = record h { record_device_path = path }

abbrev pub set_replay_device : Bytes → Harness → Harness
set_replay_device path h = record h { replay_device_path = path }

abbrev pub mnt_point_record : Bytes
mnt_point_record = codes "/mnt/pmem0"

abbrev pub snapshot_path : Bytes
snapshot_path = codes "/mnt/ramdisk/snapshot.snap"

abbrev pub snap_err : ℤ
snap_err = negsuc 0

abbrev pub restore_err : ℤ
restore_err = negsuc 1

abbrev pub mnt_err : ℤ
mnt_err = negsuc 2

abbrev pub fmt_err : ℤ
fmt_err = negsuc 3

abbrev pub umnt_err : ℤ
umnt_err = negsuc 4

module _ {W : Type 0} (machine : Machine W) where
  abbrev pub command_result : (err : ℤ) → Bytes → W → ℤ × W
  command_result err command w =
      let (res, w') = machine.system command w in (if eq_ℤ res (pos 0) then pos 0 else err, w')

  unfoldable pub snapshot_device : Harness → W → ℤ × W
  unfolding to_string
  snapshot_device h = command_result snap_err (
      codes "dd if="
      ++ (h.record_device_path
          ++ (codes " of="
              ++ (snapshot_path ++ (codes " bs=1M count=" ++ to_string h.device_size)))))

  unfoldable pub restore_snapshot : Harness → W → ℤ × W
  unfolding to_string
  restore_snapshot h = command_result restore_err (
      codes "dd if="
      ++ (snapshot_path
          ++ (codes " of="
              ++ (h.replay_device_path ++ (codes " bs=1M count=" ++ to_string h.device_size)))))

  -- Without the commands of a file system the call goes through NULL.
  unfoldable pub mount_device : Harness → (device_path mount_point : Bytes) → W → Outcome (ℤ × W)
  unfolding get_mount_command
  mount_device h device_path mount_point w = elim h.fs_commands [
    | none ↦ fault
    | some c ↦ ok (command_result mnt_err (get_mount_command c device_path mount_point) w)
  ]

  unfoldable pub format_and_mount_device :
      Harness → (device_path mount_point : Bytes) → W → Outcome (ℤ × W)
  unfolding get_mkfs_command
  format_and_mount_device h device_path mount_point w = elim h.fs_commands [
    | none ↦ fault
    | some c ↦ ok (command_result fmt_err (get_mkfs_command c device_path mount_point) w)
  ]

  -- The result, whether `errno` is EBUSY, and what is left.
  unfoldable pub umount_device : Harness → W → ℤ × Bool × Harness × W
  umount_device h w =
      let (res, busy, w') = machine.umount mnt_point_record w in
      if is_neg res
      then (umnt_err, busy, record h { record_dev_mounted = true }, w')
      else (pos 0, busy, record h { record_dev_mounted = false }, w')

  abbrev pub test_unload_class : Harness → Harness
  test_unload_class h = record h { test_loader = unload_class h.test_loader }

  -- The code behind the loop of `cleanup_harness`.
  unfoldable pub clean_up : ℤ → Harness → Harness
  unfolding unload_class
  clean_up umount_res h =
      let unloaded = test_unload_class h in
      if is_neg umount_res then unloaded else record unloaded { fs_commands = none }

  unfoldable pub cleanup_harness : ℕ → Harness → W → Outcome (Harness × W)
  unfolding umount_device clean_up
  cleanup_harness zero h w = stuck
  cleanup_harness (suc fuel) h w =
      let (umount_res, busy, h', w') = umount_device h w in
      let again = cleanup_harness fuel h' w' in
      if is_neg umount_res
      then (if busy then again else ok (clean_up umount_res h', w'))
      else ok (clean_up umount_res h', w')

  -- The state that `cleanup_harness` leaves: the class is unloaded, and either the device is unmounted
  -- and the commands are deleted, or the device stays mounted.
  abbrev pub IsCleaned : Harness → Harness × W → Type 0
  IsCleaned h r =
      (r.0.test_loader ≡ unload_class h.test_loader)
      × (((r.0.record_dev_mounted ≡ false) × (r.0.fs_commands ≡ none))
          ⊎ ((r.0.record_dev_mounted ≡ true) × (r.0.fs_commands ≡ h.fs_commands)))

  -- Each `umount` that finds the device busy leaves it busy less long: then with more fuel than that,
  -- `cleanup_harness` ends, and leaves a clean state.
  pub cleanup_harness-IsCleaned :
      (patience : W → ℕ)
      → ((w : W)
          → (machine.umount mnt_point_record w).1 ≡ true
          → patience (machine.umount mnt_point_record w).2 < patience w)
      → (fuel : ℕ) (h : Harness) (w : W) → patience w < fuel
      → Returns (IsCleaned h) (cleanup_harness fuel h w)
  unfolding cleanup_harness umount_device clean_up
  cleanup_harness-IsCleaned patience calms zero h w l = absurd (omega arith)
  cleanup_harness-IsCleaned patience calms (suc fuel) h w l =
      elim (Bool-cases (is_neg (machine.umount mnt_point_record w).0)) [
        | inr n ↦ rw (umount_device, n, clean_up) (refl, inl (refl, refl))
        | inl n ↦ elim (Bool-cases (machine.umount mnt_point_record w).1) [
          | inr b ↦ rw (umount_device, n, b, clean_up) (refl, inr (refl, refl))
          | inl b ↦
              rw (umount_device, n, b)
                (cleanup_harness-IsCleaned patience calms fuel
                  (record h { record_dev_mounted = true }) (machine.umount mnt_point_record w).2
                  (omega (arith, calms w b)))
        ]
      ]
