-- ===== src/Checker/Scan.antt =====
-- `get_contents` of src/checker/DiskContents.cpp: the scan of a directory and of all below it.
pub mod Depth
pub mod Mirror
use panda_scratchpad.Base.{
  ℕ, zero, suc, Bool, true, false, ◌||◌, Option, none, some, List, [], ◌∷◌, ◌++◌, ◌==◌,
  if◌then◌else◌, length, drop,
}
use panda_scratchpad.Base.Words.{Bytes}
use panda_scratchpad.Base.Texts.{text_eq, codes}
use panda_scratchpad.Base.Maps.{TextMap, insert}
use panda_scratchpad.Base.Outcome.{Outcome, ok, stuck, ◌>>=◌}
use panda_scratchpad.Checker.{
  Dirent, Os, FileAttributes, DiskContents, dt_dir, dt_lnk, dt_reg, new_attributes, set_dir_attr,
  set_stat_attr, set_md5sum,
}

abbrev pub Contents : Type 0
Contents = TextMap FileAttributes

unfoldable pub is_dots : Bytes → Bool
unfolding text_eq
is_dots name = text_eq name (codes ".") || text_eq name (codes "..")

module _ (os : Os) (st_ino : ℕ) (mount_point : Bytes) where
  -- One round of the loop, with `get_contents` for the directory below as an argument.
  unfoldable pub get_entry :
      (Bytes → Contents → Outcome Contents) → Bytes → Dirent → Contents → Outcome Contents
  get_entry below path e contents =
      let current_path = path ++ (codes "/" ++ e.d_name) in
      let relative_path = drop (length mount_point) current_path in
      let fa = new_attributes st_ino in
      elim (os.stat current_path) [
        | none ↦ ok contents
        | some statbuf ↦
            if e.d_type == dt_dir
            then (if is_dots e.d_name
                then ok contents
                else below current_path (
                    insert relative_path (set_stat_attr os current_path false (set_dir_attr e fa))
                      contents))
            else if e.d_type == dt_lnk
            then elim (os.lstat current_path) [
              | none ↦ ok contents
              | some lstatbuf ↦
                  ok (insert relative_path (set_stat_attr os current_path true fa) contents)
            ]
            else if e.d_type == dt_reg
            then (set_md5sum os current_path fa >>= λ with_md5sum.
                ok
                  (insert relative_path (set_stat_attr os current_path false with_md5sum) contents))
            else ok (insert relative_path (set_stat_attr os current_path false fa) contents)
      ]

  unfoldable pub get_entries :
      (Bytes → Contents → Outcome Contents) → Bytes → List Dirent → Contents → Outcome Contents
  unfolding get_entry
  get_entries below path [] contents = ok contents
  get_entries below path (e ∷ es) contents =
      get_entry below path e contents >>= λ more. get_entries below path es more

  -- The fuel bounds the depth of the directories.
  unfoldable pub get_contents : ℕ → Bytes → Contents → Outcome Contents
  unfolding get_entries
  get_contents zero path contents = stuck
  get_contents (suc fuel) path contents = elim (os.entries path) [
    | none ↦ ok contents
    | some es ↦ get_entries (get_contents fuel) path es contents
  ]
