-- ===== src/Main/Examples.antt =====
-- The preparation, the options and the phases of src/main.cpp, on a machine that keeps the commands.
use panda_scratchpad.Base.{
  ◌≡◌, refl, true, false, some, List, [], ◌∷◌, ◌++◌, arith, length, ltb, if◌then◌else◌, ◌<◌,
}
use panda_scratchpad.Base.Int.{pos}
use panda_scratchpad.Base.Words.{Bytes}
use panda_scratchpad.Base.Texts.{codes, text_eq}
use panda_scratchpad.Base.Outcome.{ok}
use panda_scratchpad.ClientSocket.{unload_plugin, writetracker}
use panda_scratchpad.FsCommands.{nova}
use panda_scratchpad.Tester.Harness.{Machine, Harness, new_tester, mnt_point_record}
use panda_scratchpad.Main.{prepare_device}
use panda_scratchpad.Main.Options.{
  Flag, default_settings, parse_options, fs_flag, verbose_flag, last_arg, has_flag, last_port,
  parse_options_lem,
}
use panda_scratchpad.Main.Phases.{Parts, Target}
use panda_scratchpad.Main.Prepared.{Ends, prepared, prepare_device-Ends}

-- The second copy fails.
abbrev full_machine : Machine (List Bytes)
full_machine = record {
  system = λ command ran. ((if ltb (length ran) 3 then pos 0 else pos 256), ran ++ command ∷ []);
  umount = λ mount_point ran. (pos 0, false, ran ++ codes "umount" ∷ []);
}

abbrev nova_tester : Harness
nova_tester = record (new_tester 128) {
  fs_commands = some nova;
  replay_device_path = codes "/dev/pmem1";
  record_device_path = codes "/dev/pmem0";
}

never_busy : (ran : List Bytes) → (full_machine.umount mnt_point_record ran).1 ≡ true → 0 < 0
never_busy ran e = ground arith

prepare_device-Ends_example :
    Ends full_machine
      (λ _. 0)
      never_busy
      1
      (λ _. omega arith)
      nova_tester
      (prepared full_machine
        (λ _. 0)
        never_busy
        1
        (λ _. omega arith)
        nova_tester
        nova
        (codes "NOVA")
        (codes "/dev/pmem0")
        [])
      false
      (prepare_device full_machine 1 (codes "NOVA") (codes "/dev/pmem0") (nova_tester, []))
unfolding text_eq
prepare_device-Ends_example =
    prepare_device-Ends full_machine (λ _. 0) never_busy 1 (λ _. omega arith) nova_tester nova
      (codes "NOVA") (codes "/dev/pmem0") [] refl

abbrev two_file_systems : List (Flag × Bytes)
two_file_systems = (fs_flag, codes "pmfs") ∷ (verbose_flag, []) ∷ (fs_flag, codes "dax") ∷ []

parse_options_lem_example :
    parse_options length two_file_systems default_settings
    ≡ some (record default_settings { fs = codes "dax"; verbose = true })
unfolding last_arg has_flag last_port
parse_options_lem_example = parse_options_lem length two_file_systems default_settings

-- The monitor takes messages as long as the log is short.
abbrev short_parts : Parts (List Bytes)
short_parts = record {
  init = λ log. (true, log ++ codes "init" ∷ []);
  send = λ message log. (ltb (length log) 9, log ++ codes "send" ∷ []);
  receive = λ log. log ++ codes "receive" ∷ [];
  workload = λ log. log ++ codes "workload" ∷ [];
  run = λ log. (pos 0, log ++ codes "run" ∷ []);
  read_changes = λ log. (ok (pos 0), log ++ codes "changes" ∷ []);
  check = λ log. (ok tt, log ++ codes "check" ∷ []);
  umount_replay = λ log. log ++ codes "umount" ∷ [];
}

abbrev default_target : Target
default_target = record {
  begin_trace_addr = codes "0x40000000";
  end_trace_addr = codes "0x48000000";
  begin_replay_addr = codes "0x48000000";
  fs = codes "NOVA";
  record_device_path = codes "/dev/pmem0";
  message = record {
    q_cmd = unload_plugin;
    need_response = false;
    plugin_name = writetracker;
    start = [];
    end = [];
    id = 0;
  };
}

abbrev large_machine : Machine (List Bytes)
large_machine = record {
  system = λ command log. (pos 0, log ++ command ∷ []);
  umount = λ mount_point log. (pos 0, false, log ++ codes "umount" ∷ []);
}
