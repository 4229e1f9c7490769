-- ===== src/Recorder/Storable/Steps.antt =====
-- The DiskMods of a recorder (src/wrapper/wrapper.cpp) against `IsStorable`, call by call.
use panda_scratchpad.Base.{
  ◌≡◌, Bool, true, false, not, ◌||◌, some, List, [], ◌∷◌, ◌++◌, inl, inr, arith,
}
use panda_scratchpad.Base.Int.{ℤ, to_int}
use panda_scratchpad.Base.Words.{Bytes, test_bit}
use panda_scratchpad.Base.Outcome.{Outcome}
use panda_scratchpad.DiskMod.{DiskMod}
use panda_scratchpad.DiskMod.Layout.{IsStorable}
use panda_scratchpad.Recorder.{
  FsFns, Sys, Op, mkdir, open2, open3, write, pwrite, mmap, msync, munmap, fallocate, close, rename,
  unlink, remove, fsync, fdatasync, sync, sync_file_range, checkpoint, to_u64,
}
use panda_scratchpad.Base.Texts.{c_str}
use panda_scratchpad.Recorder.Tables.{FdMap, MmapMap, lookup_fd}
use panda_scratchpad.Recorder.Step.{step, run}
use panda_scratchpad.Recorder.Step.Growth.{Grows, same, one, write_location}
use panda_scratchpad.Recorder.Step.Growth.Calls.{Makes, Asks, Silences, Moves, step_lem}
use panda_scratchpad.Recorder.Storable.{
  IsGoodPath, GoodFds, GoodMappings, IsPosix, CanStore, IsGood, AllMods,
}
use panda_scratchpad.Recorder.Storable.Maps.{
  GoodFds-insert_fd, GoodFds-erase_fd, GoodMappings-insert_mapping, GoodMappings-erase_mapping,
  to_u64_fits, offset_fits, GoodFds-lookup_fd, GoodMappings-find_mapping,
}
use panda_scratchpad.Recorder.Storable.Mods.{
  fallocate_opts_range, new_directory-IsStorable, opened_file-IsStorable,
  written_directory-IsStorable, written_file-IsStorable, synced_mapping-IsStorable,
  allocated_range-IsStorable, synced_file-IsStorable, synced_range-IsStorable,
  synced_all-IsStorable, checkpoint_marker-IsStorable,
}

or_not : (x b : Bool) → (not x || b) ≡ true → x ≡ true → b ≡ true
or_not true b n e = n
or_not false b n e = absurd cc

module _ {W : Type 0} (fns : FsFns W) (posix : IsPosix fns) (s : Sys W) (good : IsGood s) where
  abbrev path_of : (fd : ℤ) (p : Bytes) → lookup_fd fd s.recorder.fd_map ≡ some p → IsGoodPath p
  path_of fd p l = GoodFds-lookup_fd s.recorder.fd_map fd p good.good_fds l

  Makes-IsStorable : (op : Op) → CanStore s op → Makes IsStorable fns s op
  Makes-IsStorable (mkdir p mode) h = new_directory-IsStorable p h
  Makes-IsStorable (open2 p flags) h = λ e n.
      let (exists, w) = fns.fn_path_exists (c_str p) s.world in
      opened_file-IsStorable p exists (fns.fn_stat (c_str p) (fns.fn_open (c_str p) flags w).1).0.1
        h
        (λ there.
          posix.truncates_file (c_str p) flags w e (or_not exists (test_bit flags 9) n there))
  Makes-IsStorable (open3 p flags mode) h = λ e n.
      let (exists, w) = fns.fn_path_exists (c_str p) s.world in
      opened_file-IsStorable p exists
        (fns.fn_stat (c_str p) (fns.fn_open2 (c_str p) flags mode w).1).0.1 h
        (λ there.
          posix.truncates_file2 (c_str p) flags mode w e (or_not exists (test_bit flags 9) n there))
  Makes-IsStorable (write fd buf count) h = (
    λ path l d.
        let location = (write_location fns s.world fd buf count path).0 in
        written_directory-IsStorable (to_u64 location) (to_u64_fits location),
    λ path l d e.
        let (location, w) = write_location fns s.world fd buf count path in
        written_file-IsStorable path buf (to_u64 location) (fns.fn_stat path s.world).0.1 _
          (to_int (fns.fn_write fd buf count w).0) (path_of fd path l) (to_u64_fits location)
          (posix.write_fits fd buf count w).0 (posix.write_fits fd buf count w).1,
  )
  Makes-IsStorable (pwrite fd buf count offset) h = (
    λ path l d. written_directory-IsStorable _ (offset_fits _ offset),
    λ path l d e.
        let (stats, w) = fns.fn_stat path s.world in
        written_file-IsStorable path buf _ stats.1 _
          (to_int (fns.fn_pwrite fd buf count offset w).0) (path_of fd path l)
          (offset_fits _ offset) (posix.pwrite_fits fd buf count offset w).0
          (posix.pwrite_fits fd buf count offset w).1,
  )
  Makes-IsStorable (msync addr n flags) h = λ (k, v) l.
      let w = (fns.fn_msync addr n flags s.world).1 in
      synced_mapping-IsStorable (k, v) addr n flags (fns.memory addr n w)
        (GoodMappings-find_mapping s.recorder.mmap_map addr k v good.good_mappings l) h
        (posix.memory_length addr n w)
  Makes-IsStorable (fallocate fd mode offset len) h = λ path pre post opts l o.
      allocated_range-IsStorable path offset len pre post opts
        (elim l [ inl known ↦ path_of fd path known | inr empty ↦ rw empty (tt, omega arith) ]) h
        (fallocate_opts_range mode opts o)
  Makes-IsStorable (unlink p) h = elim h [ ]
  Makes-IsStorable (remove p) h = elim h [ ]
  Makes-IsStorable (fsync fd) h = λ path l. synced_file-IsStorable path (path_of fd path l)
  Makes-IsStorable (fdatasync fd) h = λ path l. synced_file-IsStorable path (path_of fd path l)
  Makes-IsStorable sync h = synced_all-IsStorable
  Makes-IsStorable (sync_file_range fd offset nbytes flags) (h, lt) =
      λ path l. synced_range-IsStorable path _ offset nbytes (path_of fd path l) h lt
  Makes-IsStorable checkpoint h = checkpoint_marker-IsStorable
  Makes-IsStorable _ h = tt

abbrev GoodMaps : FdMap → MmapMap → Type 0
GoodMaps f g = GoodFds f × GoodMappings g

module _ {W : Type 0} (s : Sys W) (good : IsGood s) where
  Moves-GoodMaps : (op : Op) → CanStore s op → Moves GoodMaps s op
  Moves-GoodMaps (open2 p flags) h =
      λ res. (GoodFds-insert_fd s.recorder.fd_map res p good.good_fds h, good.good_mappings)
  Moves-GoodMaps (open3 p flags mode) h =
      λ res. (GoodFds-insert_fd s.recorder.fd_map res p good.good_fds h, good.good_mappings)
  Moves-GoodMaps (close fd) h =
      (GoodFds-erase_fd s.recorder.fd_map fd good.good_fds, good.good_mappings)
  Moves-GoodMaps (mmap addr n prot flags fd offset) h = λ res path l. (
    good.good_fds,
    GoodMappings-insert_mapping s.recorder.mmap_map res _ good.good_mappings
        (GoodFds-lookup_fd s.recorder.fd_map fd path good.good_fds l),
  )
  Moves-GoodMaps (munmap addr n) h =
      (good.good_fds, GoodMappings-erase_mapping s.recorder.mmap_map addr good.good_mappings)
  Moves-GoodMaps (fallocate fd mode offset len) h =
      λ f g m. (GoodFds-insert_fd f fd [] m.0 (tt, omega arith), m.1)
  Moves-GoodMaps (rename old_path new_path) h = (h, good.good_mappings)
  Moves-GoodMaps _ h = tt

Asks-any : {W : Type 0} (s : Sys W) (op : Op) → Asks (λ p. Unit {0}) s op
Asks-any s (write fd buf count) = λ path l. tt
Asks-any s (pwrite fd buf count offset) = λ path l. tt
Asks-any s (fallocate fd mode offset len) = λ path l. tt
Asks-any s (sync_file_range fd offset nbytes flags) = λ path l. tt
Asks-any s _ = tt

Silences-any : {W : Type 0} (fns : FsFns W) (s : Sys W) (op : Op) → Silences (Unit {0}) fns s op
Silences-any fns s (open2 p flags) = λ n. tt
Silences-any fns s (open3 p flags mode) = λ n. tt
Silences-any fns s (msync addr n flags) = λ l. tt
Silences-any fns s _ = tt

AllMods-append :
    (ms : List DiskMod) (m : DiskMod) → AllMods ms → IsStorable m → AllMods (ms ++ m ∷ [])
AllMods-append [] m h g = (g, tt)
AllMods-append (n ∷ ms) m (k, h) g = (k, AllMods-append ms m h g)

AllMods-Grows :
    {W : Type 0} {fns : FsFns W} {before after : List DiskMod} {r : Outcome ℤ}
    → Grows fns (λ p. Unit {0}) (Unit {0}) IsStorable before r after
    → AllMods before
    → AllMods after
AllMods-Grows (same why) h = h
AllMods-Grows {before} (one m p e) h = AllMods-append before m h p

-- On system calls that behave as POSIX says (`IsPosix`), a call that is no removal, and whose paths
-- and ranges can be stored (`CanStore`), keeps the recorder good (`IsGood`): the paths of its open
-- files and mappings can be stored, and all its DiskMods.
pub step-IsGood :
    {W : Type 0} (fns : FsFns W) (op : Op) (s : Sys W)
    → IsPosix fns
    → IsGood s
    → CanStore s op
    → IsGood (step fns op s).1
step-IsGood fns op s posix good can =
    let (grown, maps) =
      step_lem (λ p. Unit {0}) (Unit {0}) IsStorable GoodMaps fns s
        (good.good_fds, good.good_mappings) op (Makes-IsStorable fns posix s good op can)
        (Asks-any s op) (Silences-any fns s op) (Moves-GoodMaps s good op can) in
    record {
      good_fds = maps.0;
      good_mappings = maps.1;
      good_mods = AllMods-Grows grown good.good_mods;
    }

-- Each call of a test case can be stored where it is made.
abbrev CanStoreAll : {W : Type 0} → FsFns W → List Op → Sys W → Type 0
CanStoreAll fns [] s = Unit {0}
CanStoreAll fns (op ∷ ops) s = CanStore s op × CanStoreAll fns ops (step fns op s).1

run-IsGood :
    {W : Type 0} (fns : FsFns W) (ops : List Op) (s : Sys W)
    → IsPosix fns
    → IsGood s
    → CanStoreAll fns ops s
    → IsGood (run fns ops s)
unfolding run
run-IsGood fns [] s posix good can = good
run-IsGood fns (op ∷ ops) s posix good (can, rest) =
    run-IsGood fns ops (step fns op s).1 posix (step-IsGood fns op s posix good can) rest
