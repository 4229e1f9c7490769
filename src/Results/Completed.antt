-- ===== src/Results/Completed.antt =====
-- The totals of `TestSuiteResult` (src/results/TestSuiteResult.cpp) over the tallies of a suite.
use panda_scratchpad.Base.{ℕ, suc, ◌+◌, ◌≡◌, refl, ◌∙◌, ap, List, [], ◌∷◌, ◌==◌, arith, length}
use panda_scratchpad.Base.Words.{u32}
use panda_scratchpad.Results.{
  SingleTestInfo, ResultType, passed, fsck_fixed, fsck_required, failed_test, get_test_result,
  empty_set,
}
use panda_scratchpad.Results.Tally.{
  TestSuiteResult, fresh_suite, tally_reordering_result, tally_timing_result, completed,
  get_reordering_completed, get_timing_completed, get_completed,
}
use panda_scratchpad.Results.Counts.{
  result_code, bump, count_verdict, tally_results, tally_results-counts,
}

count_verdict_sum :
    (rs : List SingleTestInfo)
    → count_verdict passed rs
        + count_verdict fsck_fixed rs
        + count_verdict fsck_required rs
        + count_verdict failed_test rs
      ≡ length rs
count_verdict_sum [] = refl
count_verdict_sum (r ∷ rs) =
    go (get_test_result r) (count_verdict passed rs) (count_verdict fsck_fixed rs)
      (count_verdict fsck_required rs) (count_verdict failed_test rs)
    ∙ ap suc (count_verdict_sum rs)
  where
    go :
        (t : ResultType) (a b c d : ℕ)
        → bump (result_code t == 0) a
            + bump (result_code t == 1) b
            + bump (result_code t == 2) c
            + bump (result_code t == 3) d
          ≡ suc (a + b + c + d)
    go t a b c d = ground arith

-- The tallies of a suite in the order in which they are made.
pub data Tally : Type 0 where
  reordering timing : SingleTestInfo → Tally

abbrev pub tally_suite : List Tally → TestSuiteResult → TestSuiteResult
tally_suite [] suite = suite
tally_suite (reordering r ∷ ts) suite = tally_suite ts (tally_reordering_result r suite)
tally_suite (timing r ∷ ts) suite = tally_suite ts (tally_timing_result r suite)

abbrev reorderings : List Tally → List SingleTestInfo
reorderings [] = []
reorderings (reordering r ∷ ts) = r ∷ reorderings ts
reorderings (timing r ∷ ts) = reorderings ts

abbrev timings : List Tally → List SingleTestInfo
timings [] = []
timings (reordering r ∷ ts) = timings ts
timings (timing r ∷ ts) = r ∷ timings ts

length-tallies : (ts : List Tally) → length (timings ts) + length (reorderings ts) ≡ length ts
length-tallies [] = refl
length-tallies (reordering r ∷ ts) = omega (arith, length-tallies ts)
length-tallies (timing r ∷ ts) = omega (arith, length-tallies ts)

tally_suite-tally_results :
    (ts : List Tally) (s : TestSuiteResult)
    → tally_suite ts s ≡ record {
      reordering_results = tally_results (reorderings ts) s.reordering_results;
      timing_results = tally_results (timings ts) s.timing_results;
    }
unfolding tally_reordering_result tally_timing_result
tally_suite-tally_results [] s = refl
tally_suite-tally_results (reordering r ∷ ts) s =
    tally_suite-tally_results ts (tally_reordering_result r s)
tally_suite-tally_results (timing r ∷ ts) s = tally_suite-tally_results ts (tally_timing_result r s)

u32_sum : (a b c d : ℕ) → u32 (u32 a + u32 b + u32 c + u32 d) ≡ u32 (a + b + c + d)
u32_sum a b c d = omega arith

completed-tally_results :
    (rs : List SingleTestInfo) → completed (tally_results rs empty_set) ≡ u32 (length rs)
completed-tally_results rs =
    ap completed (tally_results-counts rs)
    ∙ u32_sum (count_verdict passed rs) (count_verdict fsck_fixed rs)
        (count_verdict fsck_required rs) (count_verdict failed_test rs)
    ∙ ap u32 (count_verdict_sum rs)

-- After any sequence of tallies in a fresh suite, the completed timing tests are the timing
-- tallies, the completed reordering tests the reordering tallies, and all of them together the
-- length of the sequence, each as far as an `unsigned int` holds it.
pub get_completed-tally_suite :
    (ts : List Tally)
    → (get_timing_completed (tally_suite ts fresh_suite) ≡ u32 (length (timings ts)))
      × (get_reordering_completed (tally_suite ts fresh_suite) ≡ u32 (length (reorderings ts)))
      × (get_completed (tally_suite ts fresh_suite) ≡ u32 (length ts))
unfolding get_timing_completed get_reordering_completed get_completed
get_completed-tally_suite ts =
    let timed = completed-tally_results (timings ts) in
    let reordered = completed-tally_results (reorderings ts) in
    rw (tally_suite-tally_results ts fresh_suite)
      (timed, reordered, rw (timed, reordered) (omega (arith, length-tallies ts)))
