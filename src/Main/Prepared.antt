-- ===== src/Main/Prepared.antt =====
-- How the preparation in src/main.cpp ends.
use panda_scratchpad.Base.{
  ℕ, ◌<◌, ◌≡◌, refl, ap, ◌∙◌, ◌⊎◌, inl, inr, Bool, true, false, not, ◌++◌, ◌&&◌, arith, some,
  if◌then◌else◌, Bool-cases,
}
use mathlib.Core.Path.{subst}
use panda_scratchpad.Base.Int.{ℤ, pos, negsuc, eq_ℤ, is_neg}
use panda_scratchpad.Base.Words.{Bytes}
use panda_scratchpad.Base.Texts.{codes, text_eq, to_string}
use panda_scratchpad.Base.Outcome.{Outcome, ok, Returns-ok}
use panda_scratchpad.Base.Exec.{Exec, pure}
use panda_scratchpad.ClassLoader.{unload_class}
use panda_scratchpad.FsCommands.{FsCommands, get_mount_command, get_mkfs_command}
use panda_scratchpad.Tester.Harness.{
  mnt_err, fmt_err, snap_err, restore_err, snapshot_path, umnt_err, Machine, Harness,
  mnt_point_record, snapshot_device, restore_snapshot, mount_device, format_and_mount_device,
  umount_device, cleanup_harness, cleanup_harness-IsCleaned,
}
use panda_scratchpad.Main.{
  on_world, format, mount, umount, give_up, guarded, only_if, prepare_device,
}

module _ {W : Type 0} (machine : Machine W) (patience : W → ℕ)
    (calms : (w : W)
      → (machine.umount mnt_point_record w).1 ≡ true
      → patience (machine.umount mnt_point_record w).2 < patience w)
    (fuel : ℕ) (patient : (w : W) → patience w < fuel) where
  -- The end of the preparation of `h`: if all calls succeed, with 0, the class as it was, and the world
  -- `v`; if one fails, with -1 and the class unloaded.
  abbrev pub Ends : (h : Harness) (v : W) (all_succeed : Bool) → Outcome ℤ × (Harness × W) → Type 0
  Ends h v all_succeed s =
      ((all_succeed ≡ true)
        × (s.0 ≡ ok (pos 0))
        × (s.1.1 ≡ v)
        × (s.1.0.test_loader ≡ h.test_loader))
      ⊎ ((all_succeed ≡ false)
          × (s.0 ≡ ok (negsuc 0))
          × (s.1.0.test_loader ≡ unload_class h.test_loader))

  give_up-Ends :
      (h h' : Harness) (v w : W)
      → h'.test_loader ≡ h.test_loader
      → Ends h v false (give_up machine fuel (h', w))
  give_up-Ends h h' v w e =
      let (s, c, d) =
        Returns-ok _ (cleanup_harness machine fuel h' w)
          (cleanup_harness-IsCleaned machine patience calms fuel h' w (patient w)) in
      rw c (inr (refl, refl, d.0 ∙ ap unload_class e))

  -- A call that succeeds as `succeeds` says.
  guarded-Ends :
      (call rest : Exec (Harness × W) ℤ) (h h1 h2 : Harness) (v w1 w2 : W) (res : ℤ)
      (succeeds others : Bool)
      → call (h1, w1) ≡ (ok res, (h2, w2))
      → eq_ℤ res (pos 0) ≡ succeeds
      → h2.test_loader ≡ h.test_loader
      → Ends h v others (rest (h2, w2))
      → Ends h v (succeeds && others) (guarded machine fuel call rest (h1, w1))
  unfolding guarded
  guarded-Ends call rest h h1 h2 v w1 w2 res true others e q l k = rw (guarded, e, q) k
  guarded-Ends call rest h h1 h2 v w1 w2 res false others e q l k =
      rw (guarded, e, q) (give_up-Ends h h2 v w2 l)

  abbrev ran : Bytes → W → W
  ran command w = (machine.system command w).1

  -- Whether a command of the machine gives 0.
  abbrev works : Bytes → W → Bool
  works command w = eq_ℤ (machine.system command w).0 (pos 0)

  abbrev after_umount : Bool → W → W
  after_umount is_nova w = if is_nova then (machine.umount mnt_point_record w).2 else w

  -- `dd` of a whole device.
  abbrev copy_command : (from to : Bytes) (size : ℕ) → Bytes
  copy_command from to size =
      codes "dd if="
      ++ (from ++ (codes " of=" ++ (to ++ (codes " bs=1M count=" ++ to_string size))))

  abbrev to_snapshot : Harness → Bytes
  to_snapshot h = copy_command h.record_device_path snapshot_path h.device_size

  abbrev from_snapshot : Harness → Bytes
  from_snapshot h = copy_command snapshot_path h.replay_device_path h.device_size

  -- The world after mkfs, the umount for NOVA, the copy to the snapshot, the copy to the replay device
  -- and the mount for NOVA.
  abbrev pub prepared : Harness → FsCommands → (fs record_device_path : Bytes) → W → W
  prepared h c fs path w =
      let is_nova = text_eq fs (codes "NOVA") in
      let unmounted = after_umount is_nova (ran (get_mkfs_command c path mnt_point_record) w) in
      let restored = ran (from_snapshot h) (ran (to_snapshot h) unmounted) in
      if is_nova then ran (get_mount_command c path mnt_point_record) restored else restored

  abbrev copies_succeed :
      Harness → (is_nova : Bool) → FsCommands → (record_device_path : Bytes) → W → Bool
  copies_succeed h is_nova c path w =
      let copied = ran (to_snapshot h) w in
      let restored = ran (from_snapshot h) copied in
      works (to_snapshot h) w
      && (works (from_snapshot h) copied
          && (if is_nova then works (get_mount_command c path mnt_point_record) restored else true))

  -- Whether each of these calls succeeds where it is made.
  abbrev pub all_succeed : Harness → FsCommands → (fs record_device_path : Bytes) → W → Bool
  all_succeed h c fs path w =
      let is_nova = text_eq fs (codes "NOVA") in
      let command = get_mkfs_command c path mnt_point_record in
      let made = ran command w in
      works command w
      && ((if is_nova then not (is_neg (machine.umount mnt_point_record made).0) else true)
          && copies_succeed h is_nova c path (after_umount is_nova made))

  result_of :
      (b : Bool) (err : ℤ) → eq_ℤ err (pos 0) ≡ false → eq_ℤ (if b then pos 0 else err) (pos 0) ≡ b
  result_of true err h = refl
  result_of false err h = h

  mount-Ends :
      (is_nova : Bool) (h h' : Harness) (c : FsCommands) (path : Bytes) (w : W)
      → h'.fs_commands ≡ some c
      → h'.test_loader ≡ h.test_loader
      → Ends h
          (if is_nova then ran (get_mount_command c path mnt_point_record) w else w)
          (if is_nova then works (get_mount_command c path mnt_point_record) w else true)
          (guarded machine fuel
            (only_if machine fuel is_nova (mount machine fuel path mnt_point_record))
            (pure (pos 0))
            (h', w))
  unfolding mount_device
  mount-Ends false h h' c path w g e =
      guarded-Ends _ _ h h' h' _ w w (pos 0) true true refl refl e (inl (refl, refl, refl, e))
  mount-Ends true h h' c path w g e =
      let command = get_mount_command c path mnt_point_record in
      let res = if works command w then pos 0 else mnt_err in
      let last : (works command w && true) ≡ works command w = ground arith in
      subst
        (λ b.
          Ends h (ran command w) b (
            guarded machine fuel (mount machine fuel path mnt_point_record) (pure (pos 0)) (h', w)))
        last
        (guarded-Ends _ _ h h' h' _ w (ran command w) res (works command w) true (rw g)
          (result_of (works command w) mnt_err refl) e (inl (refl, refl, refl, e)))

  -- The copies, and the mount for NOVA.
  snapshots-Ends :
      (is_nova : Bool) (h h' : Harness) (c : FsCommands) (path : Bytes) (w : W)
      → h'.fs_commands ≡ some c
      → h'.test_loader ≡ h.test_loader
      → (let restored = ran (from_snapshot h') (ran (to_snapshot h') w) in
          Ends h
            (if is_nova then ran (get_mount_command c path mnt_point_record) restored else restored)
            (copies_succeed h' is_nova c path w)
            (guarded machine fuel
              (on_world machine fuel (snapshot_device machine))
              (guarded machine fuel (on_world machine fuel (restore_snapshot machine)) (
                guarded machine fuel
                  (only_if machine fuel is_nova (mount machine fuel path mnt_point_record))
                  (pure (pos 0))))
              (h', w)))
  unfolding snapshot_device restore_snapshot
  snapshots-Ends is_nova h h' c path w g e =
      let copied = ran (to_snapshot h') w in
      let restored = ran (from_snapshot h') copied in
      guarded-Ends _ _ h h' h' _ w copied (if works (to_snapshot h') w then pos 0 else snap_err)
        (works (to_snapshot h') w) _ refl (result_of (works (to_snapshot h') w) snap_err refl) e
        (guarded-Ends _ _ h h' h' _ copied restored
          (if works (from_snapshot h') copied then pos 0 else restore_err)
          (works (from_snapshot h') copied) _ refl
          (result_of (works (from_snapshot h') copied) restore_err refl) e
          (mount-Ends is_nova h h' c path restored g e))

  umount-Ends :
      (is_nova : Bool) (h : Harness) (c : FsCommands) (path : Bytes) (w : W)
      → h.fs_commands ≡ some c
      → (let unmounted = after_umount is_nova w in
          let restored = ran (from_snapshot h) (ran (to_snapshot h) unmounted) in
          Ends h
            (if is_nova then ran (get_mount_command c path mnt_point_record) restored else restored)
            ((if is_nova then not (is_neg (machine.umount mnt_point_record w).0) else true)
              && copies_succeed h is_nova c path unmounted)
            (guarded machine fuel
              (only_if machine fuel is_nova (umount machine fuel))
              (guarded machine fuel (on_world machine fuel (snapshot_device machine)) (
                guarded machine fuel (on_world machine fuel (restore_snapshot machine)) (
                  guarded machine fuel
                    (only_if machine fuel is_nova (mount machine fuel path mnt_point_record))
                    (pure (pos 0)))))
              (h, w)))
  unfolding umount_device
  umount-Ends false h c path w g =
      guarded-Ends _ _ h h h _ w w (pos 0) true _ refl refl refl
        (snapshots-Ends false h h c path w g refl)
  umount-Ends true h c path w g =
      let after = (machine.umount mnt_point_record w).2 in
      elim (Bool-cases (is_neg (machine.umount mnt_point_record w).0)) [
        | inl n ↦
            let h' = record h { record_dev_mounted = true } in
            rw n (
              guarded-Ends _ _ h h h' _ w after umnt_err false _ (rw n) refl refl
                (snapshots-Ends true h h' c path after g refl))
        | inr n ↦
            let h' = record h { record_dev_mounted = false } in
            rw n (
              guarded-Ends _ _ h h h' _ w after (pos 0) true _ (rw n) refl refl
                (snapshots-Ends true h h' c path after g refl))
      ]

  -- Each `umount` that finds the device busy leaves it busy less long, and the fuel is more than that.
  -- Then the preparation ends. If mkfs, the umount for NOVA, the copy to the snapshot, the copy to the
  -- replay device and the mount for NOVA all succeed, in this order, it gives 0, the class is loaded as
  -- before, and the world is the one behind them. If one of them fails, `main` returns -1, and the class
  -- has been unloaded.
  pub prepare_device-Ends :
      (h : Harness) (c : FsCommands) (fs path : Bytes) (w : W)
      → h.fs_commands ≡ some c
      → Ends h
          (prepared h c fs path w)
          (all_succeed h c fs path w)
          (prepare_device machine fuel fs path (h, w))
  unfolding prepare_device format_and_mount_device
  prepare_device-Ends h c fs path w g =
      let command = get_mkfs_command c path mnt_point_record in
      let res = if works command w then pos 0 else fmt_err in
      guarded-Ends (format machine fuel path mnt_point_record) _ h h h _ w (ran command w) res
        (works command w) _ (rw g) (result_of (works command w) fmt_err refl) refl
        (umount-Ends (text_eq fs (codes "NOVA")) h c path (ran command w) g)
