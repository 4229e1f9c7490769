-- ===== src/Results/Examples.antt =====
-- The theorems about the results of src/results at concrete results.
use panda_scratchpad.Base.{◌≡◌, true, List, [], ◌∷◌}
use panda_scratchpad.Base.Words.{u32}
use panda_scratchpad.Base.Outcome.{ok}
use panda_scratchpad.Results.{
  auto_check_failed, FsError, fs_check_not_run, fs_unmountable, fs_kernel_mount, SingleTestInfo,
  fresh_info, set_data_error, empty_set,
}
use panda_scratchpad.Results.Printing.{print_errors}
use panda_scratchpad.Results.Flags.{print_errors-set_fs_errors}
use panda_scratchpad.Results.Bits.{set_fs_errors}
use panda_scratchpad.Results.Tally.{
  fresh_suite, get_completed, get_timing_completed, get_reordering_completed,
}
use panda_scratchpad.Results.Counts.{tally_results, tally_results-counts, wrap, counts}
use panda_scratchpad.Results.Completed.{
  Tally, reordering, timing, tally_suite, get_completed-tally_suite,
}

abbrev three_errors : List FsError
three_errors = fs_kernel_mount ∷ fs_check_not_run ∷ fs_unmountable ∷ fs_kernel_mount ∷ []

print_errors-set_fs_errors_example :
    print_errors (set_fs_errors 0 three_errors) (record { out = []; good = true })
    ≡ ok (record { out = fs_unmountable ∷ fs_kernel_mount ∷ []; good = true })
print_errors-set_fs_errors_example = print_errors-set_fs_errors three_errors

abbrev corrupted : SingleTestInfo
corrupted = set_data_error auto_check_failed fresh_info

tally_results-counts_example :
    tally_results (corrupted ∷ fresh_info ∷ []) empty_set
    ≡ wrap (counts (corrupted ∷ fresh_info ∷ []))
tally_results-counts_example = tally_results-counts (corrupted ∷ fresh_info ∷ [])

abbrev two_tallies : List Tally
two_tallies = timing corrupted ∷ reordering fresh_info ∷ []

get_completed-tally_suite_example :
    (get_timing_completed (tally_suite two_tallies fresh_suite) ≡ u32 1)
    × (get_reordering_completed (tally_suite two_tallies fresh_suite) ≡ u32 1)
    × (get_completed (tally_suite two_tallies fresh_suite) ≡ u32 2)
get_completed-tally_suite_example = get_completed-tally_suite two_tallies
