-- ===== src/ChangeLog/Writing.antt =====
-- Writing the change file (`WriteWhole` and `Serialize` of src/wrapper/wrapper.cpp).
use panda_scratchpad.Base.{
  ℕ, zero, suc, ◌+◌, ◌-◌, ◌≤◌, ◌<◌, ◌≡◌, ◌∙◌, ◌++◌, arith, ltb, length, take, drop,
  take-append-drop, drop-drop, drop_all, append_assoc, append-nil, Bool-cases, inl, inr,
}
use panda_scratchpad.Base.Words.{Bytes}
use panda_scratchpad.Base.Outcome.{ok}
use panda_scratchpad.Base.Memory.{Allocator}
use panda_scratchpad.ChangeLog.{FileIo, IsReliable, write_loop, write_whole}

module _ (mem : Allocator) (io : FileIo) (r : IsReliable io) where
  write_loop-ok :
      (fuel : ℕ) (bs : Bytes) (size written : ℕ) (file : Bytes)
      → length bs ≡ size
      → written ≤ size
      → size - written < fuel
      → write_loop mem io fuel bs size written file ≡ (ok tt, file ++ drop written bs)
  unfolding write_loop
  write_loop-ok zero bs size written file e h f = absurd (omega arith)
  write_loop-ok (suc fuel) bs size written file e h f = elim (Bool-cases (ltb written size)) [
    | inl more ↦
        let less : written < size = ground arith in
        let (k, res, hi) = r.write_some (length file) (size - written) (omega arith) in
        rw (more, res)
          (write_loop-ok fuel bs size (written + suc k) (file ++ take (suc k) (drop written bs)) e
              (omega arith) (omega arith)
            ∙ rw (append_assoc, ← drop-drop, take-append-drop))
    | inr done ↦
        let over : size ≤ written = ground arith in
        rw (done, drop_all written bs (omega arith), append-nil)
  ]

  pub write_whole-append :
      (size : ℕ) (bs file : Bytes)
      → length bs ≡ size
      → write_whole mem io size bs file ≡ (ok tt, file ++ bs)
  unfolding write_whole
  write_whole-append size bs file e =
      write_loop-ok (size + 1) bs size 0 file e (omega arith) (omega arith)
