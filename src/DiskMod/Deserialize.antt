-- ===== src/DiskMod/Deserialize.antt =====
-- `DiskMod::Deserialize` of src/wrapper/DiskMod.cpp.
use panda_scratchpad.Base.{
  ℕ, ◌+◌, not, some, [], ◌∷◌, ◌++◌, ltb, ◌==◌, if◌then◌else◌, drop, length, replicate,
}
use panda_scratchpad.Base.Words.{Bytes, of_be}
use panda_scratchpad.Base.Texts.{c_str}
use panda_scratchpad.Base.Outcome.{Outcome, ok, failed, fault, ◌>>=◌}
use panda_scratchpad.Base.Memory.{Allocator, memcpy, read_bytes}
use panda_scratchpad.DiskMod.{
  ModType, create_mod, data_metadata_mod, metadata_mod, data_mod, data_mmap_mod, remove_mod,
  checkpoint_mod, fsync_mod, sync_mod, sync_file_range_mod, ModOpts, none_opt, truncate_opt,
  fallocate_opt, fallocate_keep_size_opt, punch_hole_keep_size_opt, collapse_range_opt,
  zero_range_opt, zero_range_keep_size_opt, insert_range_opt, ms_async_opt, ms_sync_opt, DiskMod,
  reset, is_marker, ends_at_path, is_range_only,
}

-- The cast to the enumeration; a value outside it is a fault.
abbrev pub type_of_code : ℕ → Outcome ModType
type_of_code n =
    if n == 0
    then ok create_mod
    else if n == 1
    then ok data_metadata_mod
    else if n == 2
    then ok metadata_mod
    else if n == 3
    then ok data_mod
    else if n == 4
    then ok data_mmap_mod
    else if n == 5
    then ok remove_mod
    else if n == 6
    then ok checkpoint_mod
    else if n == 7
    then ok fsync_mod
    else if n == 8
    then ok sync_mod
    else if n == 9
    then ok sync_file_range_mod
    else fault

abbrev pub opts_of_code : ℕ → Outcome ModOpts
opts_of_code n =
    if n == 0
    then ok none_opt
    else if n == 1
    then ok truncate_opt
    else if n == 2
    then ok fallocate_opt
    else if n == 3
    then ok fallocate_keep_size_opt
    else if n == 4
    then ok punch_hole_keep_size_opt
    else if n == 5
    then ok collapse_range_opt
    else if n == 6
    then ok zero_range_opt
    else if n == 7
    then ok zero_range_keep_size_opt
    else if n == 8
    then ok insert_range_opt
    else if n == 9
    then ok ms_async_opt
    else if n == 10
    then ok ms_sync_opt
    else fault

-- `tmp` of 128 bytes, as `memset` leaves it.
abbrev pub blank_tmp : Bytes
blank_tmp = replicate 128 0

-- `res.path += tmp`, which reads up to the first NUL; without one it reads past the end of the buffer.
unfoldable pub add_tmp : (path tmp : Bytes) → Outcome Bytes
unfolding c_str
add_tmp path tmp = if ltb (length (c_str tmp)) (length tmp) then ok (path ++ c_str tmp) else fault

-- The loop that reads the path through `tmp`, of which `chars_read` bytes are in use, and which goes to
-- the end of the path when 127 are.
unfoldable pub read_path :
    (tmp : Bytes) (chars_read : ℕ) (path : Bytes) → Bytes → Outcome (Bytes × Bytes)
unfolding memcpy add_tmp
read_path tmp chars_read path [] = fault
read_path tmp chars_read path (b ∷ rest) =
    let last = (add_tmp path tmp >>= λ path'. ok (path', rest)) in
    let more =
      (memcpy tmp chars_read (b ∷ []) >>= λ tmp'.
      let full = (add_tmp path tmp' >>= λ path'. read_path blank_tmp 0 path' rest) in
      let next = read_path tmp' (chars_read + 1) path rest in
      if chars_read + 1 == 127 then full else next) in
    if b == 0 then last else more

-- `uint64_t x; memcpy(&x, data_ptr, 8); data_ptr += 8; x = be64toh(x)`
abbrev pub read_be : ℕ → Bytes → Outcome (ℕ × Bytes)
read_be n ptr = do (bs, ptr) ← read_bytes n ptr; ok (of_be bs, ptr)

module _ (mem : Allocator) where
  -- The part behind the offset and the length.
  unfoldable pub deserialize_data : Bytes → DiskMod → Outcome DiskMod
  deserialize_data ptr res =
      if is_range_only res
      then ok res
      else if ltb 0 res.file_mod_len
      then if mem.can_alloc res.file_mod_len
        then (do
          (bs, ptr) ← read_bytes res.file_mod_len ptr
          ok (record res { file_mod_data = some bs }))
        else failed
      else ok res

  -- The part behind the header.
  unfoldable pub deserialize_change : Bytes → DiskMod → Outcome DiskMod
  deserialize_change ptr res = do
    (path, ptr) ← read_path blank_tmp 0 [] ptr
    (flag, ptr) ← read_be 1 ptr
    let res = record res { path = path; directory_mod = not (flag == 0) }
    if ends_at_path res.mod_type then ok res else do
      (location, ptr) ← read_be 8 ptr
      (len, ptr) ← read_be 8 ptr
      deserialize_data ptr (record res { file_mod_location = location; file_mod_len = len })

  -- `failed` is a negative result. The size in front is skipped.
  unfoldable pub deserialize : Bytes → Outcome DiskMod
  deserialize data_ptr = do
    (t, ptr) ← read_be 2 (drop 8 data_ptr)
    mod_type ← type_of_code t
    (o, ptr) ← read_be 2 ptr
    mod_opts ← opts_of_code o
    let res = record reset { mod_type = mod_type; mod_opts = mod_opts }
    if is_marker res.mod_type then ok res else deserialize_change ptr res
