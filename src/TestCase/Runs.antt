-- ===== src/TestCase/Runs.antt =====
-- The two kinds of run of a test case (src/tests/BaseTestCase.cpp) against each other.
use panda_scratchpad.Base.{◌≡◌, refl, inl, inr}
use panda_scratchpad.Base.Int.{ℤ}
use panda_scratchpad.Base.Outcome.{Outcome-cases, ok}
use panda_scratchpad.Recorder.{FsFns, Sys}
use panda_scratchpad.Recorder.Step.{step}
use panda_scratchpad.Recorder.Passthrough.{passthrough}
use panda_scratchpad.Recorder.Transparency.{IsQuiet, IsTracked}
use panda_scratchpad.Recorder.Transparency.Data.{step-passthrough}
use panda_scratchpad.TestCase.{Body, return, call, run_body}

-- Each call of a test case finds its descriptor and its file where it is made.
abbrev IsTrackedBody : {W : Type 0} → FsFns W → Body → Sys W → Type 0
IsTrackedBody fns (return res) s = Unit {0}
IsTrackedBody fns (call op next) s =
    IsTracked fns s op
    × ((res : ℤ) → (step fns op s).0 ≡ ok res → IsTrackedBody fns (next res) (step fns op s).1)

module _ {W : Type 0} (fns : FsFns W) (quiet : IsQuiet fns) where
  -- If the recorder's own queries leave the file system as it is, and each call of a test case finds
  -- its descriptor and its file (`IsTracked`), then the body ends in the same way on the recorder
  -- and without it, with the same result, and leaves the same file system.
  pub run_body-passthrough :
      (body : Body) (s : Sys W)
      → IsTrackedBody fns body s
      → ((run_body (step fns) body s).0 ≡ (run_body (passthrough fns) body s.world).0)
        × ((run_body (step fns) body s).1.world ≡ (run_body (passthrough fns) body s.world).1)
  unfolding run_body
  run_body-passthrough (return res) s h = (refl, refl)
  run_body-passthrough (call op next) s (tracked, h) =
      let (same_res, same_world) = step-passthrough fns quiet s op tracked in
      elim (Outcome-cases (step fns op s).0) [
        | inl (res, e) ↦
            rw (← same_res, ← same_world, e)
              (run_body-passthrough (next res) (step fns op s).1 (h res e))
        | inr (inl e) ↦ rw (← same_res, ← same_world, e) (refl, refl)
        | inr (inr (inl e)) ↦ rw (← same_res, ← same_world, e) (refl, refl)
        | inr (inr (inr e)) ↦ rw (← same_res, ← same_world, e) (refl, refl)
      ]
