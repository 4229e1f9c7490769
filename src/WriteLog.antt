-- ===== src/WriteLog.antt =====
-- The log of the writes to persistent memory: the plugin that writes it
-- (personal_plugins/panda/plugins/writetracker), the one that replays it (replayer) and
-- scripts/reader.cpp, which prints it. PANDA and the guest's memory are parameters.
pub mod Records
pub mod Replay
pub mod Printing
pub mod Tracking
pub mod Flushes
pub mod Examples
use panda_scratchpad.Base.{
  ℕ, zero, suc, ◌+◌, ◌-◌, ◌*◌, ◌/◌, ◌%◌, Bool, true, false, ◌&&◌, ◌||◌, Option, none, some, List,
  [], ◌∷◌, ◌++◌, ◌==◌, ltb, leb, if◌then◌else◌, length, take, drop, replicate,
}
use panda_scratchpad.Base.Words.{Bytes, u64, to_le, of_le}
use panda_scratchpad.Base.Outcome.{Outcome, ok, fault, stuck}

-- What the tracker sees, with its kind and the fields that are logged.
pub data Event : Type 0 where
  write : (pc offset : ℕ) → Bytes → Event
  flush : (pc offset : ℕ) → Event
  fence : (pc : ℕ) → Event

-- `log_output`: the fields as they lie in memory.
unfoldable pub log_output : Event → Bytes
log_output (write pc offset bytes) =
    to_le 8 pc ++ (to_le 4 0 ++ (to_le 8 offset ++ (to_le 8 (length bytes) ++ bytes)))
log_output (flush pc offset) = to_le 8 pc ++ (to_le 4 1 ++ to_le 8 offset)
log_output (fence pc) = to_le 8 pc ++ to_le 4 2

-- The addresses that are tracked, and the file `wt.out`.
pub record Tracker : Type 0 where
  pub range_start : ℕ
  pub range_end : ℕ
  pub output : Bytes

abbrev pub log : Event → Tracker → Tracker
log e t = record t { output = t.output ++ log_output e }

abbrev pub in_range : ℕ → Tracker → Bool
in_range pa t = leb t.range_start pa && ltb pa t.range_end

unfoldable pub mem_write_callback : (pc pa : ℕ) → Bytes → Tracker → Tracker
mem_write_callback pc pa bytes t =
    if in_range pa t then log (write pc (pa - t.range_start) bytes) t else t

-- R_EAX and so on; `none` is -1.
unfoldable pub reg_from_rm : ℕ → Option ℕ
reg_from_rm rm =
    if rm == 0
    then some 0
    else if rm == 1
    then some 1
    else if rm == 2
    then some 2
    else if rm == 3
    then some 3
    else if rm == 6
    then some 6
    else if rm == 7
    then some 7
    else none

-- The processor: the bytes at the program counter (`none` if they cannot be read), the registers, and
-- the physical address of a virtual one, -1 if there is none.
pub record Cpu : Type 0 where
  pub code : ℕ → Option Bytes
  pub regs : ℕ → ℕ
  pub virt_to_phys : ℕ → ℕ

abbrev pub unmapped : ℕ
unmapped = 18446744073709551615

-- The part for an instruction that flushes the cache line at the address in a register.
unfoldable pub flush_at : Cpu → (pc reg : ℕ) → (is_translate : Bool) → Tracker → Bool × Tracker
flush_at cpu pc reg is_translate t =
    let pa = cpu.virt_to_phys (cpu.regs reg) in
    if is_translate
    then (true, t)
    else if pa == unmapped
    then (false, t)
    else if in_range pa t
    then (true, log (flush pc (pa - t.range_start)) t)
    else (true, t)

-- Behind the tests for a fence: clflush, and clwb and clflushopt behind the prefix 0x66.
unfoldable pub flush_of : Cpu → ℕ → (b0 b1 b2 b3 : ℕ) → Bool → Tracker → Bool × Tracker
unfolding reg_from_rm flush_at
flush_of cpu pc b0 b1 b2 b3 is_translate t =
    if b0 == 0x0F && (b1 == 0xAE && b2 / 8 % 8 == 7)
    then elim (reg_from_rm (b2 % 8)) [
      | none ↦ (false, t)
      | some r ↦ flush_at cpu pc r is_translate t
    ]
    else if b0 == 0x66 && (b1 == 0x0F && (b2 == 0xAE && (b3 / 8 % 8 == 6 || b3 / 8 % 8 == 7)))
    then elim (reg_from_rm (b3 % 8)) [
      | none ↦ (false, t)
      | some r ↦ flush_at cpu pc r is_translate t
    ]
    else (false, t)

-- For a two-byte opcode the register of the third byte is read at once: a register of -1 would read in
-- front of the array.
unfoldable pub check_insn : Cpu → ℕ → (b0 b1 b2 b3 : ℕ) → Bool → Tracker → Outcome (Bool × Tracker)
unfolding flush_of
check_insn cpu pc b0 b1 b2 b3 is_translate t =
    let rest =
      if b0 == 0x0F && (b1 == 0xAE && (leb 0xE8 b2 && leb b2 0xEF))
      then (false, t)
      else if b0 == 0x0F && (b1 == 0xAE && leb 0xF0 b2)
      then (true, log (fence pc) t)
      else flush_of cpu pc b0 b1 b2 b3 is_translate t in
    if b0 == 0x0F then elim (reg_from_rm (b2 % 8)) [ none ↦ fault | some r ↦ ok rest ] else ok rest

-- The four bytes that `panda_virtual_memory_read` gives, if it does not fail.
unfoldable pub check_bytes : Cpu → ℕ → Bool → Tracker → Option Bytes → Outcome (Bool × Tracker)
unfolding check_insn
check_bytes cpu pc is_translate t (some (b0 ∷ b1 ∷ b2 ∷ b3 ∷ [])) =
    check_insn cpu pc b0 b1 b2 b3 is_translate t
check_bytes cpu pc is_translate t _ = ok (false, t)

unfoldable pub check_flush : Cpu → ℕ → Bool → Tracker → Outcome (Bool × Tracker)
unfolding check_bytes
check_flush cpu pc is_translate t = check_bytes cpu pc is_translate t (cpu.code pc)

-- `translate_callback` passes false for `is_translate`, and `exec_callback` true.
abbrev pub translate_callback : Cpu → ℕ → Tracker → Outcome (Bool × Tracker)
translate_callback cpu pc t = check_flush cpu pc false t

abbrev pub exec_callback : Cpu → ℕ → Tracker → Outcome (Bool × Tracker)
exec_callback cpu pc t = check_flush cpu pc true t

-- A `std::ifstream`: what is left of the file, and whether no read has failed.
pub record Input : Type 0 where
  pub rest : Bytes
  pub good : Bool

-- `input.read(buffer, n)`; of a file that is too short what is there is read.
unfoldable pub read_into : ℕ → Bytes → Input → Bytes × Input
read_into n buffer i =
    let got = take n i.rest in
    if i.good
    then (
      got ++ drop (length got) buffer,
      record { rest = drop n i.rest; good = leb n (length i.rest) },
    )
    else (buffer, i)

unfoldable pub read_word : ℕ → ℕ → Input → ℕ × Input
read_word n old i = let (bytes, i') = read_into n (to_le n old) i in (of_le bytes, i')

-- `write_data.resize(n)`
abbrev pub resize : ℕ → Bytes → Bytes
resize n bytes = take n bytes ++ replicate (n - length bytes) 0

-- The variables of the loop.
pub record Vars : Type 0 where
  pub pc : ℕ
  pub type : ℕ
  pub offset : ℕ
  pub write_size : ℕ
  pub write_data : Bytes

-- The reads of one round of the loop.
unfoldable pub read_record : Vars → Input → Vars × Input
read_record v i =
    let (pc, i1) = read_word 8 v.pc i in
    let (type, i2) = read_word 4 v.type i1 in
    let (offset, i3) = read_word 8 v.offset i2 in
    let (size, i4) = read_word 8 v.write_size i3 in
    let (bytes, i5) = read_into size (resize size v.write_data) i4 in
    if type == 0
    then (
      record { pc = pc; type = type; offset = offset; write_size = size; write_data = bytes },
      i5,
    )
    else if type == 1
    then (record v { pc = pc; type = type; offset = offset }, i3)
    else (record v { pc = pc; type = type }, i2)

module _ {W : Type 0} (physical_memory_rw : ℕ → Bytes → W → W) (base : ℕ) where
  abbrev pub replay_record : Vars → W → W
  replay_record v w =
      if v.type == 0 then physical_memory_rw (u64 (base + v.offset)) v.write_data w else w

  -- The loop of the replayer, with what the variables hold. Its fuel bounds the rounds.
  unfoldable pub replay_loop : ℕ → Vars → Input → W → Outcome W
  replay_loop zero v i w = if i.good then stuck else ok w
  replay_loop (suc fuel) v i w = elim i.good [
    | false ↦ ok w
    | true ↦ let (v', i') = read_record v i in replay_loop fuel v' i' (replay_record v' w)
  ]

-- What scripts/reader.cpp prints of a record; of an unknown type nothing.
abbrev pub print_record : Vars → List Event
print_record v =
    if v.type == 0
    then write v.pc v.offset v.write_data ∷ []
    else if v.type == 1
    then flush v.pc v.offset ∷ []
    else if v.type == 2
    then fence v.pc ∷ []
    else []

-- Its loop, with what is printed.
unfoldable pub reader_loop : ℕ → Vars → Input → List Event → Outcome (List Event)
reader_loop zero v i out = if i.good then stuck else ok out
reader_loop (suc fuel) v i out = elim i.good [
  | false ↦ ok out
  | true ↦ let (v', i') = read_record v i in reader_loop fuel v' i' (out ++ print_record v')
]
