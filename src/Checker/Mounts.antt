-- ===== src/Checker/Mounts.antt =====
-- `mount_disk` and `unmount_and_delete_mount_point` of src/checker/DiskContents.cpp.
use panda_scratchpad.Base.{
  ◌⊎◌, ℕ, zero, suc, ◌≡◌, Bool, true, false, not, ◌&&◌, ◌++◌, ltb, if◌then◌else◌, length, drop,
}
use panda_scratchpad.Base.Int.{ℤ, pos, negsuc, is_neg}
use panda_scratchpad.Base.Words.{Bytes}
use panda_scratchpad.Base.Texts.{codes}
use panda_scratchpad.Base.Outcome.{Outcome, ok, fault, stuck}
use panda_scratchpad.Checker.{DiskContents}

pub record Mounts (W : Type 0) : Type 0 where
  -- whether it succeeds, and whether `errno` is EEXIST if not
  pub mkdir : Bytes → W → Bool × Bool × W
  pub mount : (disk_path mount_point fs_type : Bytes) → W → Bool × W
  -- the result of the command, and whether `errno` is EBUSY
  pub umount : Bytes → W → ℤ × Bool × W
  pub unlink : Bytes → W → Bool × W

module _ {W : Type 0} (mounts : Mounts W) where
  -- `substr(5)` throws for a shorter path. `sleep(0)` returns 0, so the loop ends at once.
  unfoldable pub mount_disk : DiskContents → W → Outcome (ℤ × DiskContents × W)
  mount_disk d w =
      let point = codes "/mnt/" ++ drop 5 d.disk_path in
      let d1 = record d { mount_point = point } in
      let (made, exists, w1) = mounts.mkdir point w in
      let (mounted, w2) = mounts.mount d.disk_path point d.fs_type w1 in
      if ltb (length d.disk_path) 5
      then fault
      else if not made && not exists
      then ok (negsuc 0, d1, w1)
      else if mounted
      then ok (pos 0, record d1 { device_mounted = true }, w2)
      else ok (negsuc 0, d1, w2)

  -- `unlink` of the mount point behind the loop.
  abbrev delete_mount_point : DiskContents → W → ℤ × DiskContents × W
  delete_mount_point d w =
      let (deleted, w') = mounts.unlink d.mount_point w in
      if deleted then (pos 0, record d { device_mounted = false }, w') else (negsuc 0, d, w')

  unfoldable pub unmount_and_delete_mount_point :
      ℕ → DiskContents → W → Outcome (ℤ × DiskContents × W)
  unmount_and_delete_mount_point zero d w = stuck
  unmount_and_delete_mount_point (suc fuel) d w =
      let (res, busy, w') = mounts.umount d.mount_point w in
      let again = unmount_and_delete_mount_point fuel d w' in
      if is_neg res && busy then again else ok (delete_mount_point d w')

  -- From the first world to the second, each `umount` finds the device busy.
  pub data Waits (point : Bytes) : W → W → Type 0 where
    ready : {w : W} → Waits point w w
    busy :
        {w v : W}
        → is_neg (mounts.umount point w).0 ≡ true
        → (mounts.umount point w).1 ≡ true
        → Waits point (mounts.umount point w).2 v
        → Waits point w v

  -- The end of `unmount_and_delete_mount_point`: from the world behind the first `umount` that does not
  -- find the device busy, with what `unlink` of the mount point gives. The flag is cleared only if that
  -- succeeds.
  abbrev pub Unmounts : DiskContents → W → ℤ × DiskContents × W → Type 0
  Unmounts d w r =
      (v : W) × Waits d.mount_point w v
      × ((is_neg (mounts.umount d.mount_point v).0 && (mounts.umount d.mount_point v).1) ≡ false)
      × (r.2 ≡ (mounts.unlink d.mount_point (mounts.umount d.mount_point v).2).1)
      × (((mounts.unlink d.mount_point (mounts.umount d.mount_point v).2).0 ≡ true)
            × (r.0 ≡ pos 0)
            × (r.1 ≡ record d { device_mounted = false })
          ⊎ ((mounts.unlink d.mount_point (mounts.umount d.mount_point v).2).0 ≡ false)
            × (r.0 ≡ negsuc 0)
            × (r.1 ≡ d))
