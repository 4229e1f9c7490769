-- ===== src/Recorder/Sync.antt =====
-- The methods of `RecordCmFsOps` (src/wrapper/wrapper.cpp) that make changes persistent.
use panda_scratchpad.Base.{ℕ, if◌then◌else◌}
use panda_scratchpad.Base.Int.{ℤ, is_neg}
use panda_scratchpad.Base.Exec.{Exec, ◌>>=◌, ◌>>◌, pure}
use panda_scratchpad.DiskMod.{
  reset, checkpoint_mod, fsync_mod, sync_mod, sync_file_range_mod, none_opt,
}
use panda_scratchpad.Recorder.{FsFns, Sys, call, push_mod}
use panda_scratchpad.Recorder.Tables.{fd_at}

module _ {W : Type 0} (fns : FsFns W) where
  unfoldable pub cm_fsync : ℤ → Exec (Sys W) ℤ
  cm_fsync fd = do
    res ← call (fns.fn_fsync fd)
    if is_neg res then pure res else do
      path ← fd_at fd
      push_mod (record reset { mod_type = fsync_mod; mod_opts = none_opt; path = path })
      pure res

  unfoldable pub cm_fdatasync : ℤ → Exec (Sys W) ℤ
  cm_fdatasync fd = do
    res ← call (fns.fn_fdatasync fd)
    if is_neg res then pure res else do
      path ← fd_at fd
      push_mod (record reset { mod_type = fsync_mod; mod_opts = none_opt; path = path })
      pure res

  unfoldable pub cm_sync : Exec (Sys W) (Unit {0})
  cm_sync = do
    call (λ w. (tt {0}, fns.fn_sync w))
    push_mod (record reset { mod_type = sync_mod; mod_opts = none_opt })

  unfoldable pub cm_sync_file_range : ℤ → ℕ → ℕ → ℕ → Exec (Sys W) ℤ
  cm_sync_file_range fd offset nbytes flags = do
    res ← call (fns.fn_sync_file_range fd offset nbytes flags)
    if is_neg res then pure res else do
      path ← fd_at fd
      (post_stat_res, stats) ← call (fns.fn_stat path)
      if is_neg post_stat_res then pure post_stat_res else do
        push_mod (record reset {
          mod_type = sync_file_range_mod;
          mod_opts = none_opt;
          path = path;
          post_mod_stats = stats;
          file_mod_location = offset;
          file_mod_len = nbytes;
        })
        pure res

  unfoldable pub cm_checkpoint : Exec (Sys W) ℤ
  cm_checkpoint = do
    res ← call fns.cm_checkpoint
    if is_neg res
        then pure res
        else do push_mod (record reset { mod_type = checkpoint_mod; mod_opts = none_opt }); pure res
