-- ===== src/Checker/Sanity/Failure.antt =====
-- An empty directory and `deleteFiles` of src/checker/DiskContents.cpp.
use panda_scratchpad.Base.{ℕ, suc, ◌≡◌, inl, inr, true, false, List, ◌∷◌, ◌++◌, Bool-cases}
use panda_scratchpad.Base.Words.{Bytes}
use panda_scratchpad.Base.Texts.{text_eq, codes}
use panda_scratchpad.Base.Outcome.{ok}
use panda_scratchpad.Checker.{Dirent}
use panda_scratchpad.Checker.Scan.{is_dots}
use panda_scratchpad.Checker.Compare.{base_path}
use panda_scratchpad.Checker.Sanity.{
  Files, Sanity, is_empty_dir_or_file, is_file, delete_leaf, delete_entries, delete_files,
}

module _ {W : Type 0} (files : Files W) (fuel : ℕ) (path : Bytes) (b : ℕ) (rest : Bytes)
    (e : Dirent) (es : List Dirent) (s : Sanity W) where
  -- If `rmdir` of a directory that is gone fails: an entry that is an empty directory below the mount
  -- point makes `deleteFiles` of its parent fail, even if it can be removed, and whatever follows it.
  pub delete_entries-empty_dir :
      ((p : Bytes) (w : W)
        → (files.rmdir p w).0 ≡ true
        → (files.rmdir p (files.rmdir p w).1).0 ≡ false)
      → is_dots e.d_name ≡ false
      → path ++ (codes "/" ++ e.d_name) ≡ b ∷ rest
      → text_eq (b ∷ rest) base_path ≡ false
      → is_empty_dir_or_file (files.os s.world) (b ∷ rest) ≡ true
      → is_file (files.os s.world) (b ∷ rest) ≡ false
      → (delete_entries files (delete_files files (suc fuel)) path (e ∷ es) s).0 ≡ ok false
  unfolding delete_entries delete_files delete_leaf
  delete_entries-empty_dir gone named sub below empty directory =
      elim (Bool-cases (files.rmdir (b ∷ rest) s.world).0) [
        | inl r ↦ rw (
          delete_entries,
          named,
          sub,
          directory,
          empty,
          below,
          directory,
          r,
          gone (b ∷ rest) s.world r,
        )
        | inr r ↦ rw (delete_entries, named, sub, directory, empty, below, directory, r)
      ]
