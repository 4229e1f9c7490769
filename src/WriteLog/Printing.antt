-- ===== src/WriteLog/Printing.antt =====
-- scripts/reader.cpp on a whole log.
use panda_scratchpad.Base.{
  ℕ, zero, suc, ◌+◌, ◌<◌, ◌≡◌, refl, ◌∙◌, List, [], ◌∷◌, ◌++◌, arith, length, append_assoc,
}
use panda_scratchpad.Base.Outcome.{ok}
use panda_scratchpad.WriteLog.{Event, write, flush, fence, Vars, print_record, reader_loop}
use panda_scratchpad.WriteLog.Records.{IsLogged, input_of, vars_after, read_record-log_output}
use panda_scratchpad.WriteLog.Replay.{log_file, AllLogged, at_end, read_record_end}

abbrev pub last_of : Event → List Event → Event
last_of e [] = e
last_of e (f ∷ es) = last_of f es

print_record_after : (v : Vars) (e : Event) → print_record (vars_after v e) ≡ e ∷ []
unfolding vars_after
print_record_after v (write pc offset bytes) = refl
print_record_after v (flush pc offset) = refl
print_record_after v (fence pc) = refl

reader_stops : (fuel : ℕ) (v : Vars) (out : List Event) → reader_loop fuel v at_end out ≡ ok out
unfolding reader_loop
reader_stops zero v out = refl
reader_stops (suc fuel) v out = refl

reader_rest :
    (fuel : ℕ) (v : Vars) (e : Event) (es out : List Event)
    → length es < fuel
    → IsLogged e
    → AllLogged es
    → reader_loop fuel (vars_after v e) (input_of (log_file es)) out
      ≡ ok (out ++ (es ++ last_of e es ∷ []))
unfolding reader_loop log_file
reader_rest zero v e es out h i j = absurd (omega arith)
reader_rest (suc fuel) v e [] out h i j =
    rw (read_record_end v e i, print_record_after v e)
      (reader_stops fuel (vars_after v e) (out ++ e ∷ []))
reader_rest (suc fuel) v e (f ∷ es) out h i j =
    rw
      (
        read_record-log_output (vars_after v e) f (log_file es) j.0,
        print_record_after (vars_after v e) f,
      )
      (reader_rest fuel (vars_after v e) f es (out ++ f ∷ []) (omega arith) j.0 j.1
        ∙ rw (append_assoc out (f ∷ []) (es ++ last_of f es ∷ [])))

-- Of a log that holds an event and whose fields fit, with more rounds than events and variables that
-- hold anything, the reader prints all events in order, and the last one a second time.
pub reader_loop-log_file :
    (fuel : ℕ) (v : Vars) (e : Event) (es : List Event)
    → length es + 1 < fuel
    → IsLogged e
    → AllLogged es
    → reader_loop fuel v (input_of (log_file (e ∷ es))) [] ≡ ok (e ∷ (es ++ last_of e es ∷ []))
unfolding reader_loop log_file
reader_loop-log_file zero v e es h i j = absurd (omega arith)
reader_loop-log_file (suc fuel) v e es h i j =
    rw (read_record-log_output v e (log_file es) i, print_record_after v e)
      (reader_rest fuel v e es (e ∷ []) (omega arith) i j)
