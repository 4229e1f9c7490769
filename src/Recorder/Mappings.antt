-- ===== src/Recorder/Mappings.antt =====
-- The methods of `RecordCmFsOps` (src/wrapper/wrapper.cpp) on mapped files.
use panda_scratchpad.Base.{
  ℕ, ◌+◌, ◌-◌, not, ◌&&◌, ◌||◌, Option, none, some, [], ◌∷◌, ltb, leb, ◌==◌, if◌then◌else◌,
}
use panda_scratchpad.Base.Int.{ℤ, is_neg}
use panda_scratchpad.Base.Words.{u32, u64, test_bit}
use panda_scratchpad.Base.Outcome.{ok}
use panda_scratchpad.Base.Exec.{Exec, ◌>>=◌, ◌>>◌, pure}
use panda_scratchpad.DiskMod.{reset, data_mod, ms_async_opt, ms_sync_opt}
use panda_scratchpad.Recorder.{FsFns, Mapping, Sys, call, push_mod, to_u64}
use panda_scratchpad.Recorder.Tables.{MmapMap, fd_at, set_mmap_map, insert_mapping, erase_mapping}

-- The entry that the loop of `CmMsync` stops at: `addr` lies in its mapping. The lengths and the
-- offsets are `unsigned int` there.
unfoldable pub find_mapping : ℕ → MmapMap → Option (ℕ × Mapping)
find_mapping addr [] = none
find_mapping addr ((k, v) ∷ m) =
    if leb k addr && ltb addr (k + u32 v.length) then some (k, v) else find_mapping addr m

module _ {W : Type 0} (fns : FsFns W) where
  -- `(void*) -1` is a failure. PROT_WRITE is bit 1, MAP_PRIVATE bit 1, MAP_ANONYMOUS bit 5.
  unfoldable pub cm_mmap : ℕ → ℕ → ℕ → ℕ → ℤ → ℤ → Exec (Sys W) ℕ
  cm_mmap addr length prot flags fd offset = do
    res ← call (fns.fn_mmap addr length prot flags fd offset)
    if (res == 18446744073709551615)
          || (not (test_bit prot 1) || (test_bit flags 1 || test_bit flags 5))
        then pure res
        else (do
          path ← fd_at fd
          set_mmap_map (
              insert_mapping res
                (record { path = path; offset = u32 (to_u64 offset); length = u32 length }))
          pure res)

  -- `MS_ASYNC` is bit 0.
  unfoldable pub cm_msync : ℕ → ℕ → ℕ → Exec (Sys W) ℤ
  cm_msync addr length flags = do
    res ← call (fns.fn_msync addr length flags)
    if is_neg res then pure res else do
      bs ← call (λ w. (fns.memory addr length w, w))
      found ← (λ s. (ok (find_mapping addr s.recorder.mmap_map), s))
      elim found [
        | none ↦ pure tt
        | some (k, v) ↦ push_mod (record reset {
          mod_type = data_mod;
          mod_opts = if test_bit flags 0 then ms_async_opt else ms_sync_opt;
          path = v.path;
          file_mod_location = u64 (u32 v.offset + (addr - k));
          file_mod_len = length;
          file_mod_data = some bs;
        })
      ]
      pure res

  unfoldable pub cm_munmap : ℕ → ℕ → Exec (Sys W) ℤ
  cm_munmap addr length = do
    res ← call (fns.fn_munmap addr length)
    if is_neg res then pure res else do set_mmap_map (erase_mapping addr); pure res
