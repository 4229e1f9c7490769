-- ===== src/Results/Tally.antt =====
-- `TestSuiteResult` of src/results/TestSuiteResult.cpp: the counters of a test suite.
use panda_scratchpad.Base.{ℕ, ◌+◌}
use panda_scratchpad.Base.Words.{u32}
use panda_scratchpad.Results.{
  DataError, clean, old_file_persisted, file_missing, file_data_corrupted, file_metadata_corrupted,
  incorrect_block_count, other, auto_check_failed, SingleTestInfo, ResultType, passed, fsck_fixed,
  fsck_required, failed_test, get_test_result, ResultSet, empty_set,
}

-- The `switch` statements of `TallyResult`; `inc` is `++` on a counter. The inner one has no case
-- for `kClean`.
abbrev pub tally_as : (inc : ℕ → ℕ) → ResultType → DataError → ResultSet → ResultSet
tally_as inc passed d s = record s { num_passed = inc s.num_passed }
tally_as inc fsck_fixed d s = record s { num_passed_fixed = inc s.num_passed_fixed }
tally_as inc fsck_required d s = record s { num_fsck_required = inc s.num_fsck_required }
tally_as inc failed_test clean s = record s { num_failed = inc s.num_failed }
tally_as inc failed_test old_file_persisted s = record s {
  num_failed = inc s.num_failed;
  num_old_file_persisted = inc s.num_old_file_persisted;
}
tally_as inc failed_test file_missing s = record s {
  num_failed = inc s.num_failed;
  num_file_missing = inc s.num_file_missing;
}
tally_as inc failed_test file_data_corrupted s = record s {
  num_failed = inc s.num_failed;
  num_file_data_corrupted = inc s.num_file_data_corrupted;
}
tally_as inc failed_test file_metadata_corrupted s = record s {
  num_failed = inc s.num_failed;
  num_file_metadata_corrupted = inc s.num_file_metadata_corrupted;
}
tally_as inc failed_test incorrect_block_count s = record s {
  num_failed = inc s.num_failed;
  num_incorrect_block_count = inc s.num_incorrect_block_count;
}
tally_as inc failed_test other s = record s {
  num_failed = inc s.num_failed;
  num_other = inc s.num_other;
}
tally_as inc failed_test auto_check_failed s = record s {
  num_failed = inc s.num_failed;
  num_auto_check_failed = inc s.num_auto_check_failed;
}

-- `++` on an `unsigned int`.
abbrev pub inc32 : ℕ → ℕ
inc32 n = u32 (n + 1)

unfoldable pub tally_result : SingleTestInfo → ResultSet → ResultSet
tally_result done set = tally_as inc32 (get_test_result done) done.data_error set

pub record TestSuiteResult : Type 0 where
  pub reordering_results : ResultSet
  pub timing_results : ResultSet

abbrev pub fresh_suite : TestSuiteResult
fresh_suite = record { reordering_results = empty_set; timing_results = empty_set }

unfoldable pub tally_reordering_result : SingleTestInfo → TestSuiteResult → TestSuiteResult
tally_reordering_result r suite = record suite {
  reordering_results = tally_result r suite.reordering_results;
}

unfoldable pub tally_timing_result : SingleTestInfo → TestSuiteResult → TestSuiteResult
tally_timing_result r suite = record suite { timing_results = tally_result r suite.timing_results }

-- The sum in both `Get...Completed`.
abbrev pub completed : ResultSet → ℕ
completed s = u32 (s.num_passed + s.num_passed_fixed + s.num_fsck_required + s.num_failed)

unfoldable pub get_reordering_completed : TestSuiteResult → ℕ
get_reordering_completed suite = completed suite.reordering_results

unfoldable pub get_timing_completed : TestSuiteResult → ℕ
get_timing_completed suite = completed suite.timing_results

unfoldable pub get_completed : TestSuiteResult → ℕ
get_completed suite = u32 (get_timing_completed suite + get_reordering_completed suite)
