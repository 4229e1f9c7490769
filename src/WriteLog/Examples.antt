-- ===== src/WriteLog/Examples.antt =====
-- The write log (personal_plugins/panda/plugins, scripts/reader.cpp) on a few stores and instructions.
use panda_scratchpad.Base.{
  ℕ, ◌+◌, ◌-◌, ◌≡◌, refl, true, ◌&&◌, Option, none, some, List, [], ◌∷◌, ◌++◌, leb, ltb,
  if◌then◌else◌, arith, length, get_elem?,
}
use mathlib.Core.Path.{fun_ext}
use panda_scratchpad.Base.Words.{Bytes}
use panda_scratchpad.Base.Outcome.{ok}
use panda_scratchpad.WriteLog.{
  write, flush, fence, Tracker, Cpu, Vars, log, translate_callback, check_flush, replay_loop,
  reader_loop,
}
use panda_scratchpad.WriteLog.Records.{input_of}
use panda_scratchpad.WriteLog.Replay.{log_file, IsMemory}
use panda_scratchpad.WriteLog.Printing.{reader_loop-log_file}
use panda_scratchpad.WriteLog.Tracking.{Store, track, tracked, copy, replay_loop-track}

abbrev stored : Option ℕ → ℕ
stored none = 0
stored (some b) = b

abbrev poke : ℕ → Bytes → (ℕ → ℕ) → ℕ → ℕ
poke a bytes w p =
    if leb a p && ltb p (a + length bytes) then stored (get_elem? bytes (p - a)) else w p

poke-IsMemory : IsMemory poke 0x40000000
poke-IsMemory a bytes w = fun_ext λ p. ground arith

abbrev garbage : Vars
garbage = record { pc = 5; type = 7; offset = 3; write_size = 2; write_data = 1 ∷ [] }

-- The second store lies outside the range.
abbrev stores : List Store
stores =
    (record { pc = 16; pa = 0x40000008; bytes = 1 ∷ 2 ∷ [] })
    ∷ (record { pc = 20; pa = 0x50000000; bytes = 3 ∷ [] })
    ∷ (record { pc = 24; pa = 0x40000009; bytes = 4 ∷ [] })
    ∷ []

replay_loop-track_example :
    replay_loop poke 0x40000000
      (length stores + 3)
      garbage
      (input_of
        (track stores
          (record { range_start = 0x40000000; range_end = 0x48000000; output = [] })).output)
      (λ _. 0)
    ≡ ok (copy poke 0x40000000 0x40000000 0x48000000 stores (λ _. 0))
unfolding tracked
replay_loop-track_example =
    replay_loop-track poke 0x40000000 garbage 0x40000000 0x48000000 stores (λ _. 0) poke-IsMemory
      (omega arith) (λ e. cc)

reader_loop-log_file_example :
    reader_loop 4 garbage (input_of (log_file (write 16 8 (1 ∷ 2 ∷ []) ∷ fence 20 ∷ []))) []
    ≡ ok (write 16 8 (1 ∷ 2 ∷ []) ∷ (fence 20 ∷ []) ++ fence 20 ∷ [])
reader_loop-log_file_example =
    reader_loop-log_file 4 garbage (write 16 8 (1 ∷ 2 ∷ [])) (fence 20 ∷ []) (omega arith)
      (omega arith) (omega arith)

-- clflush [eax]
abbrev clflush : Cpu
clflush = record {
  code = λ _. some (0x0F ∷ 0xAE ∷ 0x38 ∷ 0x90 ∷ []);
  regs = λ _. 0x40000010;
  virt_to_phys = λ va. va;
}

abbrev empty_log : Tracker
empty_log = record { range_start = 0x40000000; range_end = 0x48000000; output = [] }

translated_flush :
    translate_callback clflush 100 empty_log ≡ ok (true, log (flush 100 16) empty_log)
unfolding check_flush
translated_flush = refl
