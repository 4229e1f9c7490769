-- ===== src/WriteLog/Flushes.antt =====
-- The instructions that the tracker (personal_plugins/panda/plugins/writetracker) looks at.
use panda_scratchpad.Base.{◌-◌, ◌/◌, ◌%◌, ◌<◌, ℕ, ◌≡◌, ◌⊎◌, Bool, some, List, [], ◌∷◌}
use panda_scratchpad.Base.Outcome.{Outcome, ok}
use panda_scratchpad.WriteLog.{fence, flush, reg_from_rm, Tracker, Cpu, log}

abbrev NoFlush : (pc : ℕ) (t : Tracker) → Outcome (Bool × Tracker) → Type 0
NoFlush pc t r = (b : Bool) (t' : Tracker) → r ≡ ok (b, t') → (t' ≡ t) ⊎ (t' ≡ log (fence pc) t)

-- The four bytes of clflush, clwb or clflushopt at the address in a register. The tracker tests the
-- register of the third byte first, also where that is a part of the opcode.
pub data IsFlushOf (r : ℕ) : List ℕ → Type 0 where
  clflush :
      (b2 b3 : ℕ)
      → b2 < 0xE8
      → b2 / 8 % 8 ≡ 7
      → reg_from_rm (b2 % 8) ≡ some r
      → IsFlushOf r (0x0F ∷ 0xAE ∷ b2 ∷ b3 ∷ [])
  clwb :
      (b3 : ℕ)
      → (b3 / 8 % 8 ≡ 6) ⊎ (b3 / 8 % 8 ≡ 7)
      → reg_from_rm (b3 % 8) ≡ some r
      → IsFlushOf r (0x66 ∷ 0x0F ∷ 0xAE ∷ b3 ∷ [])

abbrev pub flushed : Cpu → (pc r : ℕ) → Tracker → Tracker
flushed cpu pc r t = log (flush pc (cpu.virt_to_phys (cpu.regs r) - t.range_start)) t
