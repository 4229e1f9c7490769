-- ===== src/TestCase/Changes.antt =====
-- From the calls of a test case (src/tests/BaseTestCase.cpp) to the changes that the tester reads
-- (src/utils/Tester.cpp).
use panda_scratchpad.Base.{ℕ, ◌≡◌, refl, true, false, List, [], ◌∷◌, inl, inr, map}
use panda_scratchpad.Base.Int.{ℤ, is_neg}
use panda_scratchpad.Base.Outcome.{Outcome-cases, ok}
use panda_scratchpad.Base.Memory.{Allocator}
use panda_scratchpad.DiskMod.{DiskMod}
use panda_scratchpad.DiskMod.Roundtrip.{wire_view}
use panda_scratchpad.ChangeLog.{FileIo, IsReliable, get_change_data}
use panda_scratchpad.ChangeLog.Groups.{checkpoint_groups}
use panda_scratchpad.ChangeLog.Roundtrip.{
  AllStorable, serialize_mods-layouts, get_change_data-serialize_mods,
}
use panda_scratchpad.Recorder.{FsFns, Sys}
use panda_scratchpad.Recorder.Step.{step}
use panda_scratchpad.Recorder.Storable.{IsPosix, CanStore, IsGood, AllMods}
use panda_scratchpad.Recorder.Storable.Steps.{step-IsGood}
use panda_scratchpad.TestCase.{
  Body, return, call, run_body, fresh, after_body, serialize_change_fd, run_test,
}

-- Each call of a test case can be stored where it is made.
abbrev pub CanStoreBody : {W : Type 0} → FsFns W → Body → Sys W → Type 0
CanStoreBody fns (return res) s = Unit {0}
CanStoreBody fns (call op next) s =
    CanStore s op
    × ((res : ℤ) → (step fns op s).0 ≡ ok res → CanStoreBody fns (next res) (step fns op s).1)

module _ {W : Type 0} (fns : FsFns W) (posix : IsPosix fns) where
  run_body-IsGood :
      (body : Body) (s : Sys W)
      → IsGood s
      → CanStoreBody fns body s
      → IsGood (run_body (step fns) body s).1
  unfolding run_body
  run_body-IsGood (return res) s good h = good
  run_body-IsGood (call op next) s good (can, h) =
      let after = step-IsGood fns op s posix good can in
      elim (Outcome-cases (step fns op s).0) [
        | inl (res, e) ↦ rw e (run_body-IsGood (next res) (step fns op s).1 after (h res e))
        | inr (inl e) ↦ rw e after
        | inr (inr (inl e)) ↦ rw e after
        | inr (inr (inr e)) ↦ rw e after
      ]

fresh-IsGood : {W : Type 0} (w : W) → IsGood (fresh w)
fresh-IsGood w = record { good_fds = tt; good_mappings = tt; good_mods = tt }

AllMods-AllStorable :
    (mem : Allocator) (ms : List DiskMod)
    → ((n : ℕ) → mem.can_alloc n ≡ true)
    → AllMods ms
    → AllStorable mem ms
AllMods-AllStorable mem [] can h = tt
AllMods-AllStorable mem (m ∷ ms) can (g, h) = (g, can _, can _, AllMods-AllStorable mem ms can h)

module _ {W : Type 0} (fns : FsFns W) (posix : IsPosix fns) (mem : Allocator)
    (can_alloc : (n : ℕ) → mem.can_alloc n ≡ true) (io : FileIo) (reliable : IsReliable io) where
  -- The first run of a test case, with an empty change file, on system calls that behave as POSIX
  -- says, a reliable change file and enough memory: if each of its calls can be stored
  -- (`CanStoreBody`) and the body ends with a result that is not negative, then `Run` returns this
  -- result, and the tester reads from the change file, without an error, just the DiskMods that
  -- the recorder holds at the end, as far as the format keeps them, grouped by the checkpoints.
  pub run_test-get_change_data :
      (body : ℕ → Body) (w : W) (res : ℤ)
      → CanStoreBody fns (body 0) (fresh w)
      → (run_body (step fns) (body 0) (fresh w)).0 ≡ ok res
      → is_neg res ≡ false
      → ((run_test fns mem io body 0 (w, [])).0 ≡ ok res)
        × (get_change_data mem io [] (run_test fns mem io body 0 (w, [])).1.1 ≡ (
          ok tt,
          checkpoint_groups
              (map wire_view (run_body (step fns) (body 0) (fresh w)).1.recorder.mods),
        ))
  unfolding run_test
  run_test-get_change_data body w res can e pos =
      let s = (run_body (step fns) (body 0) (fresh w)).1 in
      let good = run_body-IsGood fns posix (body 0) (fresh w) (fresh-IsGood w) can in
      let stored = AllMods-AllStorable mem s.recorder.mods can_alloc good.good_mods in
      let written = serialize_mods-layouts mem io reliable s.recorder.mods [] stored in
      let back = get_change_data-serialize_mods mem io reliable s.recorder.mods stored in
      (
        rw (after_body, e, pos, serialize_change_fd, written) refl,
        rw (after_body, e, pos, serialize_change_fd, written) back,
      )
