-- ===== src/Results.antt =====
-- src/results: what the tests of a crash state found (`DataTestResult`, `FileSystemTestResult`),
-- their verdict (`SingleTestInfo`), and the counts of a test suite (`TestSuiteResult`).
pub mod Bits
pub mod Flags
pub mod Printing
pub mod Tally
pub mod Counts
pub mod Completed
mod Examples
use panda_scratchpad.Base.{
  zero, suc, ◌*◌, ◌/◌, ◌%◌, ℕ, ◌+◌, ◌^◌, Bool, true, false, ◌&&◌, ◌||◌, Option, none, some, ◌==◌,
  if◌then◌else◌,
}

-- `DataTestResult::ErrorType`
pub data DataError : Type 0 where
  clean old_file_persisted file_missing file_data_corrupted file_metadata_corrupted : DataError
  incorrect_block_count other auto_check_failed : DataError

-- `FileSystemTestResult::ErrorType`
pub data FsError : Type 0 where
  fs_check_not_run fs_clean fs_unmountable fs_fixed fs_check fs_snapshot_restore : FsError
  fs_bio_write fs_other fs_kernel_mount fs_check_unfixed : FsError

-- The bit of an error; `kCheckNotRun` has none.
abbrev pub fs_bit : FsError → Option ℕ
fs_bit fs_check_not_run = none
fs_bit fs_clean = some 0
fs_bit fs_unmountable = some 1
fs_bit fs_fixed = some 2
fs_bit fs_check = some 3
fs_bit fs_snapshot_restore = some 4
fs_bit fs_bio_write = some 5
fs_bit fs_other = some 6
fs_bit fs_kernel_mount = some 7
fs_bit fs_check_unfixed = some 8

-- The value of an error in the enumeration.
abbrev fs_code : FsError → ℕ
fs_code e = elim (fs_bit e) [ none ↦ 0 | some k ↦ 2 ^ k ]

-- `x | (1 << k)`, by halving.
pub set_bit : ℕ → ℕ → ℕ
set_bit zero x = x / 2 * 2 + 1
set_bit (suc k) x = set_bit k (x / 2) * 2 + x % 2

-- `FileSystemTestResult::SetError`: the errors of a file system add up.
unfoldable pub set_fs_error : ℕ → FsError → ℕ
unfolding set_bit
set_fs_error summary e = elim (fs_bit e) [ none ↦ summary | some k ↦ set_bit k summary ]

-- A crash state's results. The summary of the file system's errors is a word of flags.
pub record SingleTestInfo : Type 0 where
  pub data_error : DataError
  pub fs_errors : ℕ

-- `DataTestResult::SetError`: the last error of the data stays.
abbrev pub set_data_error : DataError → SingleTestInfo → SingleTestInfo
set_data_error e info = record info { data_error = e }

abbrev pub fresh_info : SingleTestInfo
fresh_info = record { data_error = clean; fs_errors = 0 }

pub data ResultType : Type 0 where
  passed fsck_fixed fsck_required failed_test : ResultType

abbrev is_clean : DataError → Bool
is_clean clean = true
is_clean _ = false

-- `SingleTestInfo::GetTestResult`
unfoldable pub get_test_result : SingleTestInfo → ResultType
get_test_result info =
    if ((info.fs_errors == fs_code fs_clean) || (info.fs_errors == fs_code fs_check_not_run))
      && is_clean info.data_error
    then passed
    else if (info.fs_errors == fs_code fs_fixed) && is_clean info.data_error
    then fsck_fixed
    else if info.fs_errors == fs_code fs_kernel_mount
    then fsck_required
    else failed_test

-- `ResultSet`: counters of type `unsigned int`.
pub record ResultSet : Type 0 where
  pub num_failed : ℕ
  pub num_passed_fixed : ℕ
  pub num_passed : ℕ
  pub total_tests : ℕ
  pub num_fsck_required : ℕ
  pub num_old_file_persisted : ℕ
  pub num_file_missing : ℕ
  pub num_file_data_corrupted : ℕ
  pub num_file_metadata_corrupted : ℕ
  pub num_incorrect_block_count : ℕ
  pub num_other : ℕ
  pub num_auto_check_failed : ℕ

abbrev pub empty_set : ResultSet
empty_set = record {
  num_failed = 0;
  num_passed_fixed = 0;
  num_passed = 0;
  total_tests = 0;
  num_fsck_required = 0;
  num_old_file_persisted = 0;
  num_file_missing = 0;
  num_file_data_corrupted = 0;
  num_file_metadata_corrupted = 0;
  num_incorrect_block_count = 0;
  num_other = 0;
  num_auto_check_failed = 0;
}
