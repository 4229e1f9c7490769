-- ===== src/Checker/Sanity.antt =====
-- The sanity checks of src/checker/DiskContents.cpp, which make a file in each directory and then
-- delete everything. The calls that change the file system are parameters.
pub mod Failure
pub mod Examples
use panda_scratchpad.Base.{
  ℕ, zero, suc, ◌+◌, Bool, true, false, not, ◌&&◌, Option, none, some, List, [], ◌∷◌, ◌++◌, ◌==◌,
  leb, if◌then◌else◌, length, drop,
}
use panda_scratchpad.Base.Int.{ℤ, pos, negsuc, is_neg}
use panda_scratchpad.Base.Words.{Bytes}
use panda_scratchpad.Base.Texts.{text_eq, codes}
use panda_scratchpad.Base.Outcome.{Outcome, ok, failed, fault, stuck}
use panda_scratchpad.Base.Exec.{Exec, ◌>>=◌, ◌>>◌, pure, lift}
use panda_scratchpad.DiskMod.{s_isdir}
use panda_scratchpad.Checker.{Dirent, Os, FileAttributes, DiskContents}
use panda_scratchpad.Checker.Scan.{Contents, is_dots, get_contents}
use panda_scratchpad.Checker.Compare.{
  Diff, Message, base_path, not_created, not_opened, not_removed, failed_creation, failed_deletion,
}

-- What the system answers in a world, and the calls that change it, with whether they succeed.
pub record Files (W : Type 0) : Type 0 where
  pub os : W → Os
  pub unlink : Bytes → W → Bool × W
  pub rmdir : Bytes → W → Bool × W
  -- `open` with `O_CREAT`, and `close`
  pub create : Bytes → W → Bool × W

-- The world, the object's contents and the file of differences.
pub record Sanity (W : Type 0) : Type 0 where
  pub world : W
  pub contents : Contents
  pub diff : Diff

-- At most two entries, `.` and `..`, or no directory.
unfoldable pub is_empty_dir_or_file : Os → Bytes → Bool
is_empty_dir_or_file os path = elim (os.entries path) [ none ↦ true | some es ↦ leb (length es) 2 ]

unfoldable pub is_file : Os → Bytes → Bool
is_file os path = elim (os.stat path) [ none ↦ false | some st ↦ not (s_isdir st.st_mode) ]

module _ {W : Type 0} (files : Files W) where
  -- A call that changes the world.
  abbrev pub change : (W → Bool × W) → Exec (Sanity W) Bool
  change f s = (ok (f s.world).0, record s { world = (f s.world).1 })

  abbrev pub say : Message → Exec (Sanity W) (Unit {0})
  say m s = (ok tt, record s { diff = s.diff ++ m ∷ [] })

  abbrev pub ask : (Os → Bool) → Exec (Sanity W) Bool
  ask f s = (ok (f (files.os s.world)), s)

  -- A file or an empty directory. The mount point itself stays.
  unfoldable pub delete_leaf : Bytes → Exec (Sanity W) Bool
  unfolding text_eq is_file
  delete_leaf path = if text_eq path base_path then pure true else do
    file ← ask (λ os. is_file os path)
    if file then change (files.unlink path) else change (files.rmdir path)

  -- The entries of a directory, with `deleteFiles` for what is below it as an argument. An entry that was
  -- no file is removed again as a directory.
  unfoldable pub delete_entries :
      (Bytes → Exec (Sanity W) Bool) → Bytes → List Dirent → Exec (Sanity W) Bool
  unfolding is_dots is_file
  delete_entries below path [] = pure true
  delete_entries below path (e ∷ es) =
      let rest = delete_entries below path es in
      let subpath = path ++ (codes "/" ++ e.d_name) in
      let directory =
        (change (files.rmdir subpath) >>= λ removed.
        if removed then rest else (say (not_removed subpath) >> pure false)) in
      if is_dots e.d_name
      then rest
      else (ask (λ os. is_file os subpath) >>= λ subpath_is_file. below subpath >>= λ res.
          if not res
          then (say (not_removed subpath) >> pure false)
          else if subpath_is_file
          then rest
          else directory)

  -- The fuel bounds the depth. `readdir` gives the entries that were there at `opendir`.
  unfoldable pub delete_files : ℕ → Bytes → Exec (Sanity W) Bool
  unfolding is_empty_dir_or_file delete_leaf delete_entries
  delete_files zero path = lift stuck
  delete_files (suc fuel) [] = pure true
  delete_files (suc fuel) (b ∷ path) = λ s.
      if is_empty_dir_or_file (files.os s.world) (b ∷ path)
      then delete_leaf (b ∷ path) s
      else elim ((files.os s.world).entries (b ∷ path)) [
        | none ↦ (say (not_opened (b ∷ path)) >> pure false) s
        | some es ↦ delete_entries (delete_files fuel) (b ∷ path) es s
      ]

  -- A `_dummy` in each directory of the contents.
  unfoldable pub make_dummies : Bytes → Contents → Exec (Sanity W) Bool
  make_dummies base [] = pure true
  make_dummies base ((path, fa) ∷ m) =
      let rest = make_dummies base m in
      let filepath = base ++ (path ++ codes "/_dummy") in
      if s_isdir fa.stat_attr.st_mode
      then (change (files.create filepath) >>= λ made.
          if made then rest else (say (not_created filepath) >> pure false))
      else rest

  abbrev keep_contents : Outcome Contents → Exec (Sanity W) (Unit {0})
  keep_contents (ok m) s = (ok tt, record s { contents = m })
  keep_contents failed s = (failed, s)
  keep_contents fault s = (fault, s)
  keep_contents stuck s = (stuck, s)

  -- `makeFiles`: a scan, and then the files.
  unfoldable pub make_files : (st_ino : ℕ) (mount_point : Bytes) → ℕ → Bytes → Exec (Sanity W) Bool
  unfolding get_contents make_dummies
  make_files st_ino mount_point fuel base =
      (λ s.
        keep_contents (get_contents (files.os s.world) st_ino mount_point fuel base s.contents) s)
      >> λ s. make_dummies base s.contents s

  unfoldable pub sanity_checks : (st_ino : ℕ) (mount_point : Bytes) → ℕ → Exec (Sanity W) Bool
  unfolding make_files delete_files
  sanity_checks st_ino mount_point fuel = do
    made ← make_files st_ino mount_point fuel base_path
    if not made then (say failed_creation >> pure false) else do
      deleted ← delete_files fuel base_path
      if deleted then pure true else (say failed_deletion >> pure false)
