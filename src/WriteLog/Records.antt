-- ===== src/WriteLog/Records.antt =====
-- The reads of personal_plugins/panda/plugins/replayer and of scripts/reader.cpp against what the
-- tracker's `log_output` writes.
use panda_scratchpad.Base.{
  ℕ, ◌+◌, ◌-◌, ◌^◌, ◌<◌, ◌≡◌, refl, ap, ◌∙◌, true, [], ◌++◌, leb, arith, length, take, drop,
  replicate, take_prefix, drop_prefix, drop_all, length-replicate, length-take, length-append,
  append-nil, append_assoc, leb-eq_true,
}
use panda_scratchpad.Base.Words.{Bytes, to_le, length-to_le, of_le-to_le}
use panda_scratchpad.WriteLog.{
  Event, write, flush, fence, log_output, Input, read_into, read_word, resize, Vars, read_record,
}

-- A field can be written as a 64-bit word.
abbrev pub IsWord : ℕ → Type 0
IsWord n = n < 256 ^ 8

-- The fields of an event fit into their words.
abbrev pub IsLogged : Event → Type 0
IsLogged (write pc offset bytes) = IsWord pc × IsWord offset × IsWord (length bytes)
IsLogged (flush pc offset) = IsWord pc × IsWord offset
IsLogged (fence pc) = IsWord pc

abbrev pub input_of : Bytes → Input
input_of bytes = record { rest = bytes; good = true }

-- A read of bytes that are there.
read_into_there :
    (n : ℕ) (buffer bytes more : Bytes)
    → length bytes ≡ n
    → length buffer ≡ n
    → read_into n buffer (input_of (bytes ++ more)) ≡ (bytes, input_of more)
unfolding read_into
read_into_there n buffer bytes more e f =
    let all : length (bytes ++ more) ≡ length bytes + length more = length-append bytes more in
    let enough : leb n (length (bytes ++ more)) ≡ true = leb-eq_true n _ (omega arith) in
    let used : drop (length bytes) buffer ≡ [] = drop_all (length bytes) buffer (omega arith) in
    rw (take_prefix n bytes more e, drop_prefix n bytes more e, enough, used, append-nil)

read_word_there :
    (n old v : ℕ) (more : Bytes)
    → v < 256 ^ n
    → read_word n old (input_of (to_le n v ++ more)) ≡ (v, input_of more)
unfolding read_word
read_word_there n old v more h =
    rw (read_into_there n (to_le n old) (to_le n v) more (length-to_le n v) (length-to_le n old))
      (ap (λ t. (t, input_of more)) (of_le-to_le n v h))

-- What the variables hold behind the event.
unfoldable pub vars_after : Vars → Event → Vars
vars_after v (write pc offset bytes) = record {
  pc = pc;
  type = 0;
  offset = offset;
  write_size = length bytes;
  write_data = bytes;
}
vars_after v (flush pc offset) = record v { pc = pc; type = 1; offset = offset }
vars_after v (fence pc) = record v { pc = pc; type = 2 }

length-resize : (n : ℕ) (bytes : Bytes) → length (resize n bytes) ≡ n
length-resize n bytes =
    length-append (take n bytes) (replicate (n - length bytes) 0)
    ∙ omega (arith, length-take n bytes, length-replicate {A = ℕ} (n - length bytes) 0)

pub read_record-log_output :
    (v : Vars) (e : Event) (more : Bytes)
    → IsLogged e
    → read_record v (input_of (log_output e ++ more)) ≡ (vars_after v e, input_of more)
unfolding read_record log_output vars_after
read_record-log_output v (write pc offset bytes) more h =
    let n : ℕ = length bytes in
    let r4 : Bytes = bytes ++ more in
    let r3 : Bytes = to_le 8 n ++ r4 in
    let r2 : Bytes = to_le 8 offset ++ r3 in
    let r1 : Bytes = to_le 4 0 ++ r2 in
    rw (
      append_assoc (to_le 8 pc) (to_le 4 0 ++ (to_le 8 offset ++ (to_le 8 n ++ bytes))) more,
      append_assoc (to_le 4 0) (to_le 8 offset ++ (to_le 8 n ++ bytes)) more,
      append_assoc (to_le 8 offset) (to_le 8 n ++ bytes) more,
      append_assoc (to_le 8 n) bytes more,
      read_record,
      read_word_there 8 v.pc pc r1 h.0,
      read_word_there 4 v.type 0 r2 (omega arith),
      read_word_there 8 v.offset offset r3 h.1,
      read_word_there 8 v.write_size n r4 h.2,
      read_into_there n (resize n v.write_data) bytes more refl (length-resize n v.write_data),
    )
read_record-log_output v (flush pc offset) more h =
    let r2 : Bytes = to_le 8 offset ++ more in
    rw (
      append_assoc (to_le 8 pc) (to_le 4 1 ++ to_le 8 offset) more,
      append_assoc (to_le 4 1) (to_le 8 offset) more,
      read_record,
      read_word_there 8 v.pc pc (to_le 4 1 ++ r2) h.0,
      read_word_there 4 v.type 1 r2 (omega arith),
      read_word_there 8 v.offset offset more h.1,
    )
read_record-log_output v (fence pc) more h = rw (
  append_assoc (to_le 8 pc) (to_le 4 2) more,
  read_record,
  read_word_there 8 v.pc pc (to_le 4 2 ++ more) h,
  read_word_there 4 v.type 2 more (omega arith),
)
