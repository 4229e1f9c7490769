-- ===== src/Checker/Compare.antt =====
-- The comparisons of src/checker/DiskContents.cpp. The file of differences is a list of messages;
-- `operator<<` of `fileAttributes` has no return statement, and is taken to return its stream.
pub mod Agreement
pub mod Files
pub mod Disks
use panda_scratchpad.Base.{
  ℕ, ◌+◌, Bool, true, false, ◌&&◌, not, Option, none, some, List, [], ◌∷◌, ◌++◌, ◌==◌,
  if◌then◌else◌, length, take, drop, map,
}
use panda_scratchpad.Base.Int.{ℤ, pos, negsuc}
use panda_scratchpad.Base.Words.{Bytes}
use panda_scratchpad.Base.Texts.{c_str, text_eq, codes}
use panda_scratchpad.Base.Maps.{lookup}
use panda_scratchpad.Base.Outcome.{Outcome, ok, fault, ◌>>=◌}
use panda_scratchpad.Checker.{
  Os, FileAttributes, DiskContents, new_attributes, set_stat_attr, set_md5sum, compare_dir_attr,
  compare_stat_attr, compare_md5sum, is_regular_file,
}
use panda_scratchpad.Checker.Scan.{Contents, get_contents}

pub data Message : Type 0 where
  unequal_entries : (disk other : Bytes) → (paths other_paths : List Bytes) → Message
  missing : (path disk : Bytes) → FileAttributes → Message
  content_mismatch : (path : Bytes) → (here there : FileAttributes) → Message
  data_mismatch : (path : Bytes) → (md5sum other_md5sum : Bytes) → Message
  failed_stating : Bytes → Message
  segment_mismatch :
      (path : Bytes) → (offset : ℤ) → (length : ℕ) → (buffer other_buffer : Bytes) → Message
  not_created : Bytes → Message
  not_opened : Bytes → Message
  not_removed : Bytes → Message
  failed_creation : Message
  failed_deletion : Message

abbrev pub Diff : Type 0
Diff = List Message

-- Where the record device is mounted, whatever the mount point of the object is.
abbrev pub base_path : Bytes
base_path = codes "/mnt/pmem0"

abbrev keys : Contents → List Bytes
keys m = map (λ e. e.0) m

-- One round of the loop: whether the entry agrees, and what is said if not.
unfoldable pub compare_entry : Bytes → Contents → Bytes → FileAttributes → Bool × Diff
unfolding lookup compare_dir_attr compare_stat_attr compare_md5sum is_regular_file
compare_entry disk_path other path i_fa = elim (lookup path other) [
  | none ↦ (false, missing path disk_path i_fa ∷ [])
  | some j_fa ↦
      if not (compare_dir_attr i_fa j_fa.dir_attr && compare_stat_attr i_fa j_fa.stat_attr)
      then (false, content_mismatch path i_fa j_fa ∷ [])
      else if is_regular_file i_fa && compare_md5sum i_fa j_fa.md5sum
      then (false, data_mismatch path i_fa.md5sum j_fa.md5sum ∷ [])
      else (true, [])
]

unfoldable pub compare_loop : Bytes → Contents → Contents → Bool → Diff → Bool × Diff
unfolding compare_entry
compare_loop disk_path other [] ret diff = (ret, diff)
compare_loop disk_path other ((path, i_fa) ∷ m) ret diff =
    let agrees = compare_entry disk_path other path i_fa in
    compare_loop disk_path other m (if agrees.0 then ret else false) (diff ++ agrees.1)

-- The sizes, and then entry by entry.
unfoldable pub compare_maps : (disk other : DiskContents) → Diff → Bool × Diff
unfolding compare_loop
compare_maps disk other diff =
    let same_size = length disk.contents == length other.contents in
    let message =
      unequal_entries disk.disk_path other.disk_path (keys disk.contents) (keys other.contents) in
    compare_loop disk.disk_path other.contents disk.contents same_size
      (if same_size then diff else diff ++ message ∷ [])

-- What a comparison of whole disks leaves: both objects keep the contents that they read.
pub record Comparison : Type 0 where
  pub result : Bool
  pub disk : DiskContents
  pub other : DiskContents
  pub diff : Diff

-- The messages for the paths that cannot be stated; none if both can.
abbrev pub failed_stats : Os → (base compare : Bytes) → Diff
failed_stats os base compare =
    (elim (os.stat base) [ none ↦ failed_stating base ∷ [] | some _ ↦ [] ])
    ++ (elim (os.stat compare) [ none ↦ failed_stating compare ∷ [] | some _ ↦ [] ])

-- `st_ino` is what the memory of a new `fileAttributes` holds in this field, `fuel` bounds the depth
-- of the directories.
module _ (os : Os) (st_ino : ℕ) where
  unfoldable pub compare_disk_contents :
      (fuel : ℕ) → (disk other : DiskContents) → Diff → Outcome Comparison
  unfolding text_eq get_contents compare_maps
  compare_disk_contents fuel disk other diff =
      if text_eq disk.disk_path other.disk_path
      then ok (record { result = true; disk = disk; other = other; diff = diff })
      else (get_contents os st_ino disk.mount_point fuel base_path disk.contents >>= λ mine.
          get_contents os st_ino other.mount_point fuel other.mount_point other.contents
          >>= λ theirs.
              let disk' = record disk { contents = mine } in
              let other' = record other { contents = theirs } in
              let compared = compare_maps disk' other' diff in
              ok (record { result = compared.0; disk = disk'; other = other'; diff = compared.1 }))

  -- The sums of two files with the same attributes.
  unfoldable pub compare_sums :
      (path base compare : Bytes)
      → (base_fa compare_fa : FileAttributes) → Diff
      → Outcome (Bool × Diff)
  unfolding set_md5sum compare_md5sum
  compare_sums path base compare base_fa compare_fa diff =
      set_md5sum os base base_fa >>= λ base_sum. set_md5sum os compare compare_fa >>= λ compare_sum.
      if compare_md5sum base_sum compare_sum.md5sum
      then ok (false, diff ++ data_mismatch path base_sum.md5sum compare_sum.md5sum ∷ [])
      else ok (true, diff)

  -- The comparison once both paths are known.
  unfoldable pub compare_paths : (path base compare : Bytes) → Diff → Outcome (Bool × Diff)
  unfolding compare_stat_attr is_regular_file
  compare_paths path base compare diff =
      let base_fa = set_stat_attr os base false (new_attributes st_ino) in
      let compare_fa = set_stat_attr os compare false (new_attributes st_ino) in
      elim (failed_stats os base compare) [
        | (m ∷ ms) ↦ ok (false, diff ++ m ∷ ms)
        | [] ↦
            if not (compare_stat_attr base_fa compare_fa.stat_attr)
            then ok (false, diff ++ content_mismatch path base_fa compare_fa ∷ [])
            else if is_regular_file base_fa
            then compare_sums path base compare base_fa compare_fa diff
            else ok (true, diff)
      ]

  unfoldable pub compare_entries_at_path :
      (disk other : DiskContents) → Bytes → Diff → Outcome (Bool × Diff)
  unfolding text_eq compare_paths
  compare_entries_at_path disk other path diff =
      if text_eq disk.disk_path other.disk_path
      then ok (true, diff)
      else compare_paths path (base_path ++ path) (other.mount_point ++ path) diff

-- `seekg(offset)` and `read(buffer, length)` into a new buffer, and the NUL behind it. A seek to a
-- negative place fails, and then nothing is read; what is not read stays as it was.
unfoldable pub read_segment : (fresh bytes : Bytes) → ℤ → ℕ → Bytes
read_segment fresh bytes (negsuc _) n = take n fresh ++ 0 ∷ []
read_segment fresh bytes (pos offset) n =
    let segment = take n (drop offset bytes) in
    take n (segment ++ drop (length segment) fresh) ++ 0 ∷ []

-- `fresh` and `other_fresh` are what the two new buffers hold. A negative length asks for too large a
-- block, or lets the NUL fall in front of it: a fault.
module _ (os : Os) (fresh other_fresh : ℕ → Bytes) where
  unfoldable pub compare_segments :
      (path base compare : Bytes) → (offset length : ℤ) → Diff → Outcome (Bool × Diff)
  unfolding read_segment c_str text_eq
  compare_segments path base compare offset (negsuc _) diff = fault
  compare_segments path base compare offset (pos n) diff = elim (os.read_file base) [
    | none ↦ ok (false, diff)
    | some f1 ↦ elim (os.read_file compare) [
      | none ↦ ok (false, diff)
      | some f2 ↦
          let buffer_f1 = c_str (read_segment (fresh (n + 1)) f1 offset n) in
          let buffer_f2 = c_str (read_segment (other_fresh (n + 1)) f2 offset n) in
          if text_eq buffer_f1 buffer_f2
          then ok (true, diff)
          else ok (false, diff ++ segment_mismatch path offset n buffer_f1 buffer_f2 ∷ [])
    ]
  ]

  unfoldable pub compare_file_contents :
      (disk other : DiskContents) → Bytes → (offset length : ℤ) → Diff → Outcome (Bool × Diff)
  unfolding text_eq compare_segments
  compare_file_contents disk other path offset n diff =
      let base = base_path ++ path in
      let compare = other.mount_point ++ path in
      if text_eq disk.disk_path other.disk_path
      then ok (true, diff)
      else elim (failed_stats os base compare) [
        | (m ∷ ms) ↦ ok (false, diff ++ m ∷ ms)
        | [] ↦ compare_segments path base compare offset n diff
      ]
