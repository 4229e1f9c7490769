-- ===== src/Results/Printing.antt =====
-- `FileSystemTestResult::PrintErrors` of src/results/FileSystemTestResult.cpp. A stream keeps the
-- errors that were printed instead of their texts.
use panda_scratchpad.Base.{
  ℕ, zero, suc, ◌+◌, ◌/◌, ◌%◌, Bool, false, Option, none, some, List, [], ◌∷◌, ◌++◌, ◌==◌,
  if◌then◌else◌, get_elem?,
}
use panda_scratchpad.Base.Outcome.{Outcome, ok, stuck}
use panda_scratchpad.Results.{
  FsError, fs_check_not_run, fs_clean, fs_unmountable, fs_fixed, fs_check, fs_snapshot_restore,
  fs_bio_write, fs_other, fs_kernel_mount, fs_check_unfixed,
}

-- A stream whose `failbit` is set prints nothing.
pub record Stream : Type 0 where
  pub out : List FsError
  pub good : Bool

abbrev pub all_errors : List FsError
all_errors =
    fs_clean ∷ fs_unmountable ∷ fs_fixed ∷ fs_check ∷ fs_snapshot_restore ∷ fs_bio_write ∷ fs_other
    ∷ fs_kernel_mount ∷ fs_check_unfixed ∷ []

-- The `switch` of `operator<<` at `1 << shift`. Its default, `none`, sets `failbit`.
abbrev pub error_at : ℕ → Option FsError
error_at shift = get_elem? all_errors shift

abbrev pub put : Option FsError → Stream → Stream
put none s = record s { good = false }
put (some e) s = if s.good then record s { out = s.out ++ e ∷ [] } else s

unfoldable pub print_loop : ℕ → (noted shift : ℕ) → Stream → Outcome Stream
print_loop zero noted shift s = if noted == 0 then ok s else stuck
print_loop (suc fuel) noted shift s =
    let printed = print_loop fuel (noted / 2) (shift + 1) (put (error_at shift) s) in
    let skipped = print_loop fuel (noted / 2) (shift + 1) s in
    if noted == 0 then ok s else if noted % 2 == 1 then printed else skipped

-- The summary is an `unsigned int`: 32 rounds leave nothing of it.
unfoldable pub print_errors : ℕ → Stream → Outcome Stream
print_errors summary s =
    if summary == 0 then ok (put (some fs_check_not_run) s) else print_loop 32 summary 0 s
