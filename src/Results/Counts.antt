-- ===== src/Results/Counts.antt =====
-- The counters of `TestSuiteResult` (src/results/TestSuiteResult.cpp) against the numbers of the
-- tallied results.
use panda_scratchpad.Base.{
  ℕ, suc, ◌+◌, ◌≡◌, refl, sym, ◌∙◌, ap, Bool, ◌&&◌, List, [], ◌∷◌, ◌==◌, if◌then◌else◌, arith,
}
use native.Mathlib.Nat.{zero-add}
use native.Mathlib.Numerals.{unary_clauses}
use panda_scratchpad.Base.Words.{u32}
use panda_scratchpad.Results.{
  DataError, clean, old_file_persisted, file_missing, file_data_corrupted, file_metadata_corrupted,
  incorrect_block_count, other, auto_check_failed, SingleTestInfo, ResultType, passed, fsck_fixed,
  fsck_required, failed_test, get_test_result, ResultSet, empty_set,
}
use panda_scratchpad.Results.Tally.{tally_as, inc32, tally_result}

abbrev pub result_code : ResultType → ℕ
result_code passed = 0
result_code fsck_fixed = 1
result_code fsck_required = 2
result_code failed_test = 3

abbrev data_code : DataError → ℕ
data_code clean = 0
data_code old_file_persisted = 1
data_code file_missing = 2
data_code file_data_corrupted = 4
data_code file_metadata_corrupted = 8
data_code incorrect_block_count = 16
data_code other = 32
data_code auto_check_failed = 64

-- How many of the results have the verdict `t`.
abbrev pub count_verdict : ResultType → List SingleTestInfo → ℕ
count_verdict t [] = 0
count_verdict t (r ∷ rs) =
    let rest = count_verdict t rs in
    if result_code (get_test_result r) == result_code t then suc rest else rest

-- How many of them failed with the error `d` in the data.
abbrev count_failed : DataError → List SingleTestInfo → ℕ
count_failed d [] = 0
count_failed d (r ∷ rs) =
    let rest = count_failed d rs in
    if (result_code (get_test_result r) == 3) && (data_code r.data_error == data_code d)
    then suc rest
    else rest

abbrev pub tally_results : List SingleTestInfo → ResultSet → ResultSet
tally_results [] s = s
tally_results (r ∷ rs) s = tally_results rs (tally_result r s)

-- The counters without the bound of a machine word.
abbrev exact_results : List SingleTestInfo → ResultSet → ResultSet
exact_results [] s = s
exact_results (r ∷ rs) s = exact_results rs (tally_as suc (get_test_result r) r.data_error s)

abbrev pub wrap : ResultSet → ResultSet
wrap s = record {
  num_failed = u32 s.num_failed;
  num_passed_fixed = u32 s.num_passed_fixed;
  num_passed = u32 s.num_passed;
  total_tests = u32 s.total_tests;
  num_fsck_required = u32 s.num_fsck_required;
  num_old_file_persisted = u32 s.num_old_file_persisted;
  num_file_missing = u32 s.num_file_missing;
  num_file_data_corrupted = u32 s.num_file_data_corrupted;
  num_file_metadata_corrupted = u32 s.num_file_metadata_corrupted;
  num_incorrect_block_count = u32 s.num_incorrect_block_count;
  num_other = u32 s.num_other;
  num_auto_check_failed = u32 s.num_auto_check_failed;
}

inc32-u32 : (n : ℕ) → inc32 (u32 n) ≡ u32 (suc n)
inc32-u32 n = omega arith

tally_as-wrap :
    (t : ResultType) (d : DataError) (s : ResultSet)
    → tally_as inc32 t d (wrap s) ≡ wrap (tally_as suc t d s)
tally_as-wrap passed d s = rw (inc32-u32 s.num_passed)
tally_as-wrap fsck_fixed d s = rw (inc32-u32 s.num_passed_fixed)
tally_as-wrap fsck_required d s = rw (inc32-u32 s.num_fsck_required)
tally_as-wrap failed_test clean s = rw (inc32-u32 s.num_failed)
tally_as-wrap failed_test old_file_persisted s =
    rw (inc32-u32 s.num_failed, inc32-u32 s.num_old_file_persisted)
tally_as-wrap failed_test file_missing s = rw (inc32-u32 s.num_failed, inc32-u32 s.num_file_missing)
tally_as-wrap failed_test file_data_corrupted s =
    rw (inc32-u32 s.num_failed, inc32-u32 s.num_file_data_corrupted)
tally_as-wrap failed_test file_metadata_corrupted s =
    rw (inc32-u32 s.num_failed, inc32-u32 s.num_file_metadata_corrupted)
tally_as-wrap failed_test incorrect_block_count s =
    rw (inc32-u32 s.num_failed, inc32-u32 s.num_incorrect_block_count)
tally_as-wrap failed_test other s = rw (inc32-u32 s.num_failed, inc32-u32 s.num_other)
tally_as-wrap failed_test auto_check_failed s =
    rw (inc32-u32 s.num_failed, inc32-u32 s.num_auto_check_failed)

tally_results-wrap :
    (rs : List SingleTestInfo) (s : ResultSet)
    → tally_results rs (wrap s) ≡ wrap (exact_results rs s)
unfolding tally_result
tally_results-wrap [] s = refl
tally_results-wrap (r ∷ rs) s =
    ap (tally_results rs) (tally_as-wrap (get_test_result r) r.data_error s)
    ∙ tally_results-wrap rs (tally_as suc (get_test_result r) r.data_error s)

-- The numbers of results for each counter; nothing counts `total_tests`.
abbrev pub counts : List SingleTestInfo → ResultSet
counts rs = record {
  num_failed = count_verdict failed_test rs;
  num_passed_fixed = count_verdict fsck_fixed rs;
  num_passed = count_verdict passed rs;
  total_tests = 0;
  num_fsck_required = count_verdict fsck_required rs;
  num_old_file_persisted = count_failed old_file_persisted rs;
  num_file_missing = count_failed file_missing rs;
  num_file_data_corrupted = count_failed file_data_corrupted rs;
  num_file_metadata_corrupted = count_failed file_metadata_corrupted rs;
  num_incorrect_block_count = count_failed incorrect_block_count rs;
  num_other = count_failed other rs;
  num_auto_check_failed = count_failed auto_check_failed rs;
}

abbrev pub bump : Bool → ℕ → ℕ
bump b n = if b then suc n else n

abbrev bump_all : ResultType → DataError → ResultSet → ResultSet
bump_all t d c = record {
  num_failed = bump (result_code t == 3) c.num_failed;
  num_passed_fixed = bump (result_code t == 1) c.num_passed_fixed;
  num_passed = bump (result_code t == 0) c.num_passed;
  total_tests = c.total_tests;
  num_fsck_required = bump (result_code t == 2) c.num_fsck_required;
  num_old_file_persisted =
      bump ((result_code t == 3) && (data_code d == 1)) c.num_old_file_persisted;
  num_file_missing = bump ((result_code t == 3) && (data_code d == 2)) c.num_file_missing;
  num_file_data_corrupted =
      bump ((result_code t == 3) && (data_code d == 4)) c.num_file_data_corrupted;
  num_file_metadata_corrupted =
      bump ((result_code t == 3) && (data_code d == 8)) c.num_file_metadata_corrupted;
  num_incorrect_block_count =
      bump ((result_code t == 3) && (data_code d == 16)) c.num_incorrect_block_count;
  num_other = bump ((result_code t == 3) && (data_code d == 32)) c.num_other;
  num_auto_check_failed =
      bump ((result_code t == 3) && (data_code d == 64)) c.num_auto_check_failed;
}

bump_all-tally_as :
    (t : ResultType) (d : DataError) (c : ResultSet) → bump_all t d c ≡ tally_as suc t d c
bump_all-tally_as passed d c = refl
bump_all-tally_as fsck_fixed d c = refl
bump_all-tally_as fsck_required d c = refl
bump_all-tally_as failed_test clean c = refl
bump_all-tally_as failed_test _ c = refl

counts_cons :
    (r : SingleTestInfo) (rs : List SingleTestInfo)
    → counts (r ∷ rs) ≡ tally_as suc (get_test_result r) r.data_error (counts rs)
counts_cons r rs = bump_all-tally_as (get_test_result r) r.data_error (counts rs)

-- The results on top of counters that are there.
abbrev plus : ResultSet → ResultSet → ResultSet
plus s c = record {
  num_failed = s.num_failed + c.num_failed;
  num_passed_fixed = s.num_passed_fixed + c.num_passed_fixed;
  num_passed = s.num_passed + c.num_passed;
  total_tests = s.total_tests + c.total_tests;
  num_fsck_required = s.num_fsck_required + c.num_fsck_required;
  num_old_file_persisted = s.num_old_file_persisted + c.num_old_file_persisted;
  num_file_missing = s.num_file_missing + c.num_file_missing;
  num_file_data_corrupted = s.num_file_data_corrupted + c.num_file_data_corrupted;
  num_file_metadata_corrupted = s.num_file_metadata_corrupted + c.num_file_metadata_corrupted;
  num_incorrect_block_count = s.num_incorrect_block_count + c.num_incorrect_block_count;
  num_other = s.num_other + c.num_other;
  num_auto_check_failed = s.num_auto_check_failed + c.num_auto_check_failed;
}

plus_suc : (a b : ℕ) → suc a + b ≡ a + suc b
plus_suc a b = omega arith

plus-tally_as :
    (t : ResultType) (d : DataError) (s c : ResultSet)
    → plus (tally_as suc t d s) c ≡ plus s (tally_as suc t d c)
plus-tally_as passed d s c = rw (plus_suc s.num_passed c.num_passed)
plus-tally_as fsck_fixed d s c = rw (plus_suc s.num_passed_fixed c.num_passed_fixed)
plus-tally_as fsck_required d s c = rw (plus_suc s.num_fsck_required c.num_fsck_required)
plus-tally_as failed_test clean s c = rw (plus_suc s.num_failed c.num_failed)
plus-tally_as failed_test old_file_persisted s c =
    rw (
      plus_suc s.num_failed c.num_failed,
      plus_suc s.num_old_file_persisted c.num_old_file_persisted,
    )
plus-tally_as failed_test file_missing s c =
    rw (plus_suc s.num_failed c.num_failed, plus_suc s.num_file_missing c.num_file_missing)
plus-tally_as failed_test file_data_corrupted s c = rw (
  plus_suc s.num_failed c.num_failed,
  plus_suc s.num_file_data_corrupted c.num_file_data_corrupted,
)
plus-tally_as failed_test file_metadata_corrupted s c = rw (
  plus_suc s.num_failed c.num_failed,
  plus_suc s.num_file_metadata_corrupted c.num_file_metadata_corrupted,
)
plus-tally_as failed_test incorrect_block_count s c = rw (
  plus_suc s.num_failed c.num_failed,
  plus_suc s.num_incorrect_block_count c.num_incorrect_block_count,
)
plus-tally_as failed_test other s c =
    rw (plus_suc s.num_failed c.num_failed, plus_suc s.num_other c.num_other)
plus-tally_as failed_test auto_check_failed s c =
    rw
      (plus_suc s.num_failed c.num_failed, plus_suc s.num_auto_check_failed c.num_auto_check_failed)

plus_empty : (s : ResultSet) → plus s empty_set ≡ s
plus_empty s = simp unary_clauses

empty_plus : (s : ResultSet) → plus empty_set s ≡ s
empty_plus s = simp zero-add

exact_results-plus :
    (rs : List SingleTestInfo) (s : ResultSet) → exact_results rs s ≡ plus s (counts rs)
exact_results-plus [] s = sym (plus_empty s)
exact_results-plus (r ∷ rs) s =
    exact_results-plus rs (tally_as suc (get_test_result r) r.data_error s)
    ∙ plus-tally_as (get_test_result r) r.data_error s (counts rs)
    ∙ ap (plus s) (sym (counts_cons r rs))

-- Each counter of a suite that tallied a list of results is the number of the results that it
-- stands for, as far as an `unsigned int` holds it: those of each verdict, and the failed ones with
-- each error of the data; `total_tests` stays 0.
pub tally_results-counts :
    (rs : List SingleTestInfo) → tally_results rs empty_set ≡ wrap (counts rs)
tally_results-counts rs =
    tally_results-wrap rs empty_set
    ∙ ap wrap (exact_results-plus rs empty_set ∙ empty_plus (counts rs))
