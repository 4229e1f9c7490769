-- ===== src/Recorder/Tables.antt =====
-- `fd_map_` and `mmap_map_` of `RecordCmFsOps` (src/wrapper/wrapper.h), and what the methods of
-- src/wrapper/wrapper.cpp do to them.
use panda_scratchpad.Base.{ℕ, Option, none, some, List, [], ◌∷◌, ◌==◌, if◌then◌else◌, length}
use panda_scratchpad.Base.Int.{ℤ, eq_ℤ}
use panda_scratchpad.Base.Words.{Bytes}
use panda_scratchpad.Base.Outcome.{ok, fault}
use panda_scratchpad.Base.Exec.{Exec}
use panda_scratchpad.Recorder.{Mapping, Sys}
use panda_scratchpad.Base.Texts.{text_eq, find, replace}

abbrev pub FdMap : Type 0
FdMap = List (ℤ × Bytes)

unfoldable pub lookup_fd : ℤ → FdMap → Option Bytes
lookup_fd fd [] = none
lookup_fd fd ((k, path) ∷ m) = if eq_ℤ k fd then some path else lookup_fd fd m

-- `fd_map_.insert({fd, path})`: an entry that is there stays.
unfoldable pub insert_fd : ℤ → Bytes → FdMap → FdMap
unfolding lookup_fd
insert_fd fd path m = elim (lookup_fd fd m) [ some _ ↦ m | none ↦ (fd, path) ∷ m ]

-- `fd_map_.erase(fd)`
unfoldable pub erase_fd : ℤ → FdMap → FdMap
erase_fd fd [] = []
erase_fd fd ((k, path) ∷ m) =
    let rest = erase_fd fd m in if eq_ℤ k fd then rest else (k, path) ∷ rest

-- One round of the loop of `CmRename`.
unfoldable rename_path : Bytes → Bytes → Bytes → Bytes
unfolding text_eq find
rename_path old_path new_path path =
    if text_eq path old_path then new_path else elim (find path old_path) [
      | none ↦ path
      | some found ↦ replace path found (length old_path) new_path
    ]

unfoldable pub rename_fds : Bytes → Bytes → FdMap → FdMap
unfolding rename_path
rename_fds old_path new_path [] = []
rename_fds old_path new_path ((k, path) ∷ m) =
    (k, rename_path old_path new_path path) ∷ rename_fds old_path new_path m

abbrev pub MmapMap : Type 0
MmapMap = List (ℕ × Mapping)

unfoldable pub lookup_mapping : ℕ → MmapMap → Option Mapping
lookup_mapping addr [] = none
lookup_mapping addr ((k, v) ∷ m) = if k == addr then some v else lookup_mapping addr m

-- `mmap_map_.insert({addr, mapping})`
unfoldable pub insert_mapping : ℕ → Mapping → MmapMap → MmapMap
unfolding lookup_mapping
insert_mapping addr v m = elim (lookup_mapping addr m) [ some _ ↦ m | none ↦ (addr, v) ∷ m ]

-- `mmap_map_.erase(addr)`
unfoldable pub erase_mapping : ℕ → MmapMap → MmapMap
erase_mapping addr [] = []
erase_mapping addr ((k, v) ∷ m) =
    let rest = erase_mapping addr m in if k == addr then rest else (k, v) ∷ rest

module _ {W : Type 0} where
  -- `fd_map_.at(fd)`, which throws where there is no entry.
  unfoldable pub fd_at : ℤ → Exec (Sys W) Bytes
  fd_at fd s = elim (lookup_fd fd s.recorder.fd_map) [
    | none ↦ (fault, s)
    | some path ↦ (ok path, s)
  ]

  abbrev pub set_fd_map : (FdMap → FdMap) → Exec (Sys W) (Unit {0})
  set_fd_map f s =
      (ok tt, record s { recorder = record s.recorder { fd_map = f s.recorder.fd_map } })

  abbrev pub set_mmap_map : (MmapMap → MmapMap) → Exec (Sys W) (Unit {0})
  set_mmap_map f s =
      (ok tt, record s { recorder = record s.recorder { mmap_map = f s.recorder.mmap_map } })

  -- `fd_map_[fd]`, which enters an empty path where there is no entry.
  unfoldable pub fd_index : ℤ → Exec (Sys W) Bytes
  fd_index fd s = elim (lookup_fd fd s.recorder.fd_map) [
    | none ↦ (ok [], (set_fd_map (insert_fd fd []) s).1)
    | some path ↦ (ok path, s)
  ]
