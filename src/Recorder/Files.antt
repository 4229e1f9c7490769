-- ===== src/Recorder/Files.antt =====
-- The methods of `RecordCmFsOps` (src/wrapper/wrapper.cpp) on files and directories.
use panda_scratchpad.Base.{
  ℕ, Bool, true, not, ◌&&◌, ◌||◌, none, some, ltb, ◌==◌, if◌then◌else◌, take,
}
use panda_scratchpad.Base.Int.{ℤ, pos, is_neg, to_ℕ, to_int}
use panda_scratchpad.Base.Words.{Bytes, test_bit}
use panda_scratchpad.Base.Outcome.{Outcome, ok, fault}
use panda_scratchpad.Base.Exec.{Exec, ◌>>=◌, ◌>>◌, pure, lift}
use panda_scratchpad.DiskMod.{
  reset, Stat, s_isdir, create_mod, data_metadata_mod, data_mod, remove_mod, ModOpts, none_opt,
  truncate_opt, fallocate_opt, fallocate_keep_size_opt, punch_hole_keep_size_opt,
  collapse_range_opt, zero_range_opt, zero_range_keep_size_opt,
}
use panda_scratchpad.Recorder.{FsFns, Sys, call, push_mod, to_u64}
use panda_scratchpad.Base.Texts.{c_str}
use panda_scratchpad.Recorder.Tables.{fd_at, fd_index, set_fd_map, insert_fd, erase_fd, rename_fds}

-- The flags of fallocate(2): KEEP_SIZE is bit 0, PUNCH_HOLE 1, COLLAPSE_RANGE 3, ZERO_RANGE 4.
-- A hole without KEEP_SIZE fails an assertion.
unfoldable pub fallocate_opts : ℕ → Outcome ModOpts
fallocate_opts mode =
    if test_bit mode 1
    then if test_bit mode 0 then ok punch_hole_keep_size_opt else fault
    else if test_bit mode 3
    then ok collapse_range_opt
    else if test_bit mode 4
    then if test_bit mode 0 then ok zero_range_keep_size_opt else ok zero_range_opt
    else if test_bit mode 0
    then ok fallocate_keep_size_opt
    else ok fallocate_opt

module _ {W : Type 0} (fns : FsFns W) where
  unfoldable pub cm_mknod : Bytes → ℕ → ℕ → Exec (Sys W) ℤ
  cm_mknod pathname mode dev = call (fns.fn_mknod (c_str pathname) mode dev)

  unfoldable pub cm_mkdir : Bytes → ℕ → Exec (Sys W) ℤ
  cm_mkdir pathname mode = do
    res ← call (fns.fn_mkdir (c_str pathname) mode)
    if is_neg res then pure res else do
      push_mod (record reset {
        directory_mod = true;
        path = pathname;
        mod_type = create_mod;
        mod_opts = none_opt;
      })
      pure res

  -- `O_TRUNC` is bit 9.
  unfoldable pub cm_open_common : ℤ → Bytes → Bool → ℕ → Exec (Sys W) (Unit {0})
  cm_open_common fd pathname exists flags = do
    set_fd_map (insert_fd fd pathname)
    if not exists || test_bit flags 9
        then (do
          (post_stat_res, stats) ← call (fns.fn_stat (c_str pathname))
          if is_neg post_stat_res
              then pure tt
              else push_mod (record reset {
                post_mod_stats = stats;
                directory_mod = s_isdir stats.st_mode;
                mod_type = if exists then data_metadata_mod else create_mod;
                mod_opts = if exists then truncate_opt else none_opt;
                path = pathname;
              }))
        else pure tt

  unfoldable pub cm_open2 : Bytes → ℕ → Exec (Sys W) ℤ
  unfolding cm_open_common
  cm_open2 pathname flags = do
    exists ← call (fns.fn_path_exists (c_str pathname))
    res ← call (fns.fn_open (c_str pathname) flags)
    if is_neg res then pure res else do cm_open_common res pathname exists flags; pure res

  unfoldable pub cm_open3 : Bytes → ℕ → ℕ → Exec (Sys W) ℤ
  unfolding cm_open_common
  cm_open3 pathname flags mode = do
    exists ← call (fns.fn_path_exists (c_str pathname))
    res ← call (fns.fn_open2 (c_str pathname) flags mode)
    if is_neg res then pure res else do cm_open_common res pathname exists flags; pure res

  unfoldable pub cm_lseek : ℤ → ℤ → ℕ → Exec (Sys W) ℤ
  cm_lseek fd offset whence = call (fns.fn_lseek fd offset whence)

  -- What both writes record after `write_res` bytes were written at `location`.
  unfoldable pub record_write : ℤ → Bytes → ℕ → Stat → ℤ → Exec (Sys W) ℤ
  record_write fd buf location pre write_res =
      if s_isdir pre.st_mode
      then (do
        push_mod (record reset { file_mod_location = location; directory_mod = true })
        pure write_res)
      else (do
        path ← fd_at fd
        (res, post) ← call (fns.fn_stat path)
        if is_neg res then pure write_res else do
          push_mod (record reset {
            file_mod_location = location;
            file_mod_len = to_ℕ write_res;
            path = path;
            post_mod_stats = post;
            mod_type = if pre.st_size == post.st_size then data_mod else data_metadata_mod;
            file_mod_data =
                if ltb 0 (to_ℕ write_res) then some (take (to_ℕ write_res) buf) else none;
          })
          pure write_res)

  -- The position is stored unsigned, so the test `file_mod_location < 0` never holds.
  unfoldable pub cm_write : ℤ → Bytes → ℕ → Exec (Sys W) ℤ
  unfolding record_write
  cm_write fd buf count = do
    path ← fd_at fd
    (res, pre) ← call (fns.fn_stat path)
    if is_neg res then pure res else do
      location ← call (fns.fn_lseek fd (pos 0) 1)
      res64 ← call (fns.fn_write fd buf count)
      let write_res = to_int res64
      if is_neg write_res
          then pure write_res
          else record_write fd buf (to_u64 location) pre write_res

  -- The offset is not stored for a directory.
  unfoldable pub cm_pwrite : ℤ → Bytes → ℕ → ℤ → Exec (Sys W) ℤ
  unfolding record_write
  cm_pwrite fd buf count offset = do
    path ← fd_at fd
    (res, pre) ← call (fns.fn_stat path)
    if is_neg res then pure res else do
      res64 ← call (fns.fn_pwrite fd buf count offset)
      let write_res = to_int res64
      if is_neg write_res
          then pure write_res
          else record_write fd buf (if s_isdir pre.st_mode then 0 else to_u64 offset) pre write_res

  unfoldable pub cm_fallocate : ℤ → ℕ → ℤ → ℤ → Exec (Sys W) ℤ
  cm_fallocate fd mode offset len = do
    path ← fd_index fd
    (pre_stat_res, pre) ← call (fns.fn_stat (c_str path))
    if is_neg pre_stat_res then pure pre_stat_res else do
      res ← call (fns.fn_fallocate fd mode offset len)
      if is_neg res then pure res else do
        path ← fd_index fd
        (post_stat_res, post) ← call (fns.fn_stat (c_str path))
        if is_neg post_stat_res then pure post_stat_res else do
          path ← fd_index fd
          opts ← lift (fallocate_opts mode)
          push_mod (record reset {
            mod_type =
                if (pre.st_size == post.st_size) && (pre.st_blocks == post.st_blocks)
                then data_mod
                else data_metadata_mod;
            path = path;
            file_mod_location = to_u64 offset;
            file_mod_len = to_u64 len;
            mod_opts = opts;
          })
          pure res

  unfoldable pub cm_close : ℤ → Exec (Sys W) ℤ
  cm_close fd = do
    res ← call (fns.fn_close fd)
    if is_neg res then pure res else do set_fd_map (erase_fd fd); pure res

  -- The paths of the open files change before the call, and whatever it returns.
  unfoldable pub cm_rename : Bytes → Bytes → Exec (Sys W) ℤ
  cm_rename old_path new_path = do
    set_fd_map (rename_fds old_path new_path)
    call (fns.fn_rename old_path new_path)

  unfoldable pub cm_unlink : Bytes → Exec (Sys W) ℤ
  cm_unlink pathname = do
    res ← call (fns.fn_unlink (c_str pathname))
    if is_neg res then pure res else do
      push_mod (record reset { mod_type = remove_mod; mod_opts = none_opt; path = pathname })
      pure res

  unfoldable pub cm_remove : Bytes → Exec (Sys W) ℤ
  cm_remove pathname = do
    res ← call (fns.fn_remove (c_str pathname))
    if is_neg res then pure res else do
      push_mod (record reset { mod_type = remove_mod; mod_opts = none_opt; path = pathname })
      pure res
