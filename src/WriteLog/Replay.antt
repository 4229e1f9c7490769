-- ===== src/WriteLog/Replay.antt =====
-- The replayer (personal_plugins/panda/plugins/replayer) and scripts/reader.cpp on a whole log.
use panda_scratchpad.Base.{
  ℕ, zero, suc, ◌+◌, ◌-◌, ◌^◌, ◌<◌, ◌≡◌, refl, ap, false, List, [], ◌∷◌, ◌++◌, leb, arith, length,
  append-nil, take_all,
}
use panda_scratchpad.Base.Words.{Bytes, u64, of_le-to_le}
use panda_scratchpad.Base.Outcome.{ok}
use panda_scratchpad.WriteLog.{
  Event, write, flush, fence, log_output, Input, read_into, read_word, resize, Vars, read_record,
  replay_record, replay_loop,
}
use panda_scratchpad.WriteLog.Records.{IsLogged, input_of, vars_after, read_record-log_output}

-- The events in the file `wt.out`, one behind the other.
unfoldable pub log_file : List Event → Bytes
log_file [] = []
log_file (e ∷ es) = log_output e ++ log_file es

abbrev pub AllLogged : List Event → Type 0
AllLogged [] = Unit {0}
AllLogged (e ∷ es) = IsLogged e × AllLogged es

-- The input behind the last record, once a read has failed.
abbrev pub at_end : Input
at_end = record { rest = []; good = false }

read_word_end : (n v : ℕ) → 0 < n → v < 256 ^ n → read_word n v (input_of []) ≡ (v, at_end)
unfolding read_word read_into
read_word_end zero v p h = elim p [ ]
read_word_end (suc n) v p h =
    let none_left : leb (suc n) 0 ≡ false = ground arith in
    rw none_left (ap (λ t. (t, at_end)) (of_le-to_le (suc n) v h))

read_word_failed : (n v : ℕ) → v < 256 ^ n → read_word n v at_end ≡ (v, at_end)
unfolding read_word read_into
read_word_failed n v h = ap (λ t. (t, at_end)) (of_le-to_le n v h)

resize_same : (bytes : Bytes) → resize (length bytes) bytes ≡ bytes
resize_same bytes =
    let none_new : length bytes - length bytes ≡ 0 = omega arith in
    rw (none_new, take_all (length bytes) bytes (omega arith), append-nil)

-- The round at the end of the file reads nothing, and leaves the variables as they are.
pub read_record_end :
    (v : Vars) (e : Event)
    → IsLogged e
    → read_record (vars_after v e) (input_of []) ≡ (vars_after v e, at_end)
unfolding read_record vars_after read_into
read_record_end v (write pc offset bytes) h = rw (
  read_record,
  read_word_end 8 pc (omega arith) h.0,
  read_word_failed 4 0 (omega arith),
  read_word_failed 8 offset h.1,
  read_word_failed 8 (length bytes) h.2,
  resize_same bytes,
)
read_record_end v (flush pc offset) h = rw (
  read_record,
  read_word_end 8 pc (omega arith) h.0,
  read_word_failed 4 1 (omega arith),
  read_word_failed 8 offset h.1,
)
read_record_end v (fence pc) h =
    rw (read_record, read_word_end 8 pc (omega arith) h, read_word_failed 4 2 (omega arith))

module _ {W : Type 0} (physical_memory_rw : ℕ → Bytes → W → W) (base : ℕ) where
  -- What an event does to the memory that is replayed into.
  abbrev pub apply_event : Event → W → W
  apply_event (write pc offset bytes) w = physical_memory_rw (u64 (base + offset)) bytes w
  apply_event (flush pc offset) w = w
  apply_event (fence pc) w = w

  unfoldable pub recover : List Event → W → W
  recover [] w = w
  recover (e ∷ es) w = recover es (apply_event e w)

  -- To write the same bytes again to the same place changes nothing.
  abbrev pub IsMemory : Type 0
  IsMemory =
      (addr : ℕ) (bytes : Bytes) (w : W)
      → physical_memory_rw addr bytes (physical_memory_rw addr bytes w)
        ≡ physical_memory_rw addr bytes w

  replay_record_after :
      (v : Vars) (e : Event) (w : W)
      → replay_record physical_memory_rw base (vars_after v e) w ≡ apply_event e w
  unfolding vars_after
  replay_record_after v (write pc offset bytes) w = refl
  replay_record_after v (flush pc offset) w = refl
  replay_record_after v (fence pc) w = refl

  apply_event_twice :
      (e : Event) (w : W) → IsMemory → apply_event e (apply_event e w) ≡ apply_event e w
  apply_event_twice (write pc offset bytes) w m = m (u64 (base + offset)) bytes w
  apply_event_twice (flush pc offset) w m = refl
  apply_event_twice (fence pc) w m = refl

  replay_stops :
      (fuel : ℕ) (v : Vars) (w : W) → replay_loop physical_memory_rw base fuel v at_end w ≡ ok w
  unfolding replay_loop
  replay_stops zero v w = refl
  replay_stops (suc fuel) v w = refl

  replay_rest :
      (fuel : ℕ) (v : Vars) (e : Event) (es : List Event) (w : W)
      → IsMemory
      → length es < fuel
      → IsLogged e
      → AllLogged es
      → apply_event e w ≡ w
      → replay_loop physical_memory_rw base fuel (vars_after v e) (input_of (log_file es)) w
        ≡ ok (recover es w)
  unfolding replay_loop log_file recover
  replay_rest zero v e es w m h i j same = absurd (omega arith)
  replay_rest (suc fuel) v e [] w m h i j same =
      rw (read_record_end v e i, replay_record_after v e w, same)
        (replay_stops fuel (vars_after v e) w)
  replay_rest (suc fuel) v e (f ∷ es) w m h i j same =
      rw
        (
          read_record-log_output (vars_after v e) f (log_file es) j.0,
          replay_record_after (vars_after v e) f w,
        )
        (replay_rest fuel (vars_after v e) f es (apply_event f w) m (omega arith) j.0 j.1
          (apply_event_twice f w m))

  -- Where a second write of the same bytes to the same place changes nothing: of a log that holds an
  -- event and whose fields fit, replayed with more rounds than events by a replayer whose variables
  -- hold anything, just the writes reach the memory, in order, each at the base plus its offset.
  pub replay_loop-log_file :
      (fuel : ℕ) (v : Vars) (e : Event) (es : List Event) (w : W)
      → IsMemory
      → length es + 1 < fuel
      → IsLogged e
      → AllLogged es
      → replay_loop physical_memory_rw base fuel v (input_of (log_file (e ∷ es))) w
        ≡ ok (recover (e ∷ es) w)
  unfolding replay_loop log_file recover
  replay_loop-log_file zero v e es w m h i j = absurd (omega arith)
  replay_loop-log_file (suc fuel) v e es w m h i j =
      rw (read_record-log_output v e (log_file es) i, replay_record_after v e w)
        (replay_rest fuel v e es (apply_event e w) m (omega arith) i j (apply_event_twice e w m))
