-- ===== src/Tester/Cleanup.antt =====
-- `cleanup_harness` of src/utils/Tester.cpp on a device that is busy for a while.
use panda_scratchpad.Base.{ℕ, ◌-◌, ◌==◌, not, arith, if◌then◌else◌}
use panda_scratchpad.Base.Int.{pos, negsuc}
use panda_scratchpad.Base.Outcome.{Returns}
use panda_scratchpad.Tester.Harness.{
  Machine, new_tester, cleanup_harness, IsCleaned, cleanup_harness-IsCleaned,
}

-- The number of times that the device is still busy.
abbrev busy_device : Machine ℕ
busy_device = record {
  system = λ command n. (pos 0, n);
  umount = λ mount_point n. (if n == 0 then pos 0 else negsuc 0, not (n == 0), n - 1);
}

cleanup_harness-IsCleaned_example :
    Returns
      (IsCleaned busy_device (new_tester 64))
      (cleanup_harness busy_device 4 (new_tester 64) 3)
cleanup_harness-IsCleaned_example =
    cleanup_harness-IsCleaned busy_device (λ n. n) (λ n h. ground arith) 4 (new_tester 64) 3
      (omega arith)
