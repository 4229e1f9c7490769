-- ===== src/Main/Options.antt =====
-- The options of src/main.cpp. `getopt_long` is the list of what it gives, and `atoi` a parameter.
use panda_scratchpad.Base.{
  ℕ, ◌≡◌, refl, Bool, true, false, Option, none, some, List, [], ◌∷◌, ◌==◌, Bool-cases, inl, inr,
  if◌then◌else◌,
}
use panda_scratchpad.Base.Words.{Bytes}
use panda_scratchpad.Base.Texts.{codes}

-- `harness_options`; `no_flag` is `?`, `:` and what else is not in the list.
pub data Flag : Type 0 where
  begin_flag end_flag record_flag fs_flag ip_flag port_flag replay_flag verbose_flag no_flag : Flag

abbrev pub val : Flag → ℕ
val begin_flag = 98
val end_flag = 101
val record_flag = 100
val fs_flag = 102
val ip_flag = 105
val port_flag = 112
val replay_flag = 114
val verbose_flag = 118
val no_flag = 63

pub record Settings : Type 0 where
  pub remote_ip : Bytes
  pub remote_port : ℕ
  pub begin_trace_addr : Bytes
  pub end_trace_addr : Bytes
  pub fs : Bytes
  pub record_device_path : Bytes
  pub replay_device_path : Bytes
  pub verbose : Bool

abbrev pub default_settings : Settings
default_settings = record {
  remote_ip = codes "192.168.122.1";
  remote_port = 4444;
  begin_trace_addr = codes "0x40000000";
  end_trace_addr = codes "0x48000000";
  fs = codes "NOVA";
  record_device_path = codes "/dev/pmem0";
  replay_device_path = codes "/dev/pmem1";
  verbose = false;
}

module _ (atoi : Bytes → ℕ) where
  -- The cases of the loop; `none` for the error.
  unfoldable pub set_option : Flag → (optarg : Bytes) → Settings → Option Settings
  set_option begin_flag optarg s = some (record s { begin_trace_addr = optarg })
  set_option record_flag optarg s = some (record s { record_device_path = optarg })
  set_option end_flag optarg s = some (record s { end_trace_addr = optarg })
  set_option fs_flag optarg s = some (record s { fs = optarg })
  set_option ip_flag optarg s = some (record s { remote_ip = optarg })
  set_option port_flag optarg s = some (record s { remote_port = atoi optarg })
  set_option replay_flag optarg s = some (record s { replay_device_path = optarg })
  set_option verbose_flag optarg s = some (record s { verbose = true })
  set_option no_flag optarg s = none

  unfoldable pub parse_options : List (Flag × Bytes) → Settings → Option Settings
  unfolding set_option
  parse_options [] s = some s
  parse_options ((flag, optarg) ∷ options) s = elim (set_option flag optarg s) [
    | none ↦ none
    | some s' ↦ parse_options options s'
  ]

-- The argument that stands last, or a default.
unfoldable pub last_arg : Flag → List (Flag × Bytes) → Bytes → Bytes
last_arg flag [] other = other
last_arg flag ((g, optarg) ∷ options) other =
    last_arg flag options (if val g == val flag then optarg else other)

unfoldable pub has_flag : Flag → List (Flag × Bytes) → Bool → Bool
has_flag flag [] other = other
has_flag flag ((g, optarg) ∷ options) other =
    has_flag flag options (if val g == val flag then true else other)

has_flag-true : (flag : Flag) (options : List (Flag × Bytes)) → has_flag flag options true ≡ true
unfolding has_flag
has_flag-true flag [] = refl
has_flag-true flag ((g, optarg) ∷ options) = elim (Bool-cases (val g == val flag)) [
  | inl q ↦ rw (q, has_flag-true flag options)
  | inr q ↦ rw (q, has_flag-true flag options)
]

module _ (atoi : Bytes → ℕ) where
  unfoldable pub last_port : List (Flag × Bytes) → ℕ → ℕ
  last_port [] other = other
  last_port ((g, optarg) ∷ options) other =
      last_port options (if val g == val port_flag then atoi optarg else other)

  -- With an option that is not known there are no settings. Otherwise each setting is the argument
  -- of the last option that sets it, and stays as it is without one.
  pub parse_options_lem :
      (options : List (Flag × Bytes)) (s : Settings)
      → parse_options atoi options s ≡ (
          if has_flag no_flag options false
          then none
          else some (record {
            remote_ip = last_arg ip_flag options s.remote_ip;
            remote_port = last_port options s.remote_port;
            begin_trace_addr = last_arg begin_flag options s.begin_trace_addr;
            end_trace_addr = last_arg end_flag options s.end_trace_addr;
            fs = last_arg fs_flag options s.fs;
            record_device_path = last_arg record_flag options s.record_device_path;
            replay_device_path = last_arg replay_flag options s.replay_device_path;
            verbose = has_flag verbose_flag options s.verbose;
          }))
  unfolding parse_options set_option last_arg has_flag last_port
  parse_options_lem [] s = refl
  parse_options_lem ((begin_flag, optarg) ∷ options) s = parse_options_lem options _
  parse_options_lem ((end_flag, optarg) ∷ options) s = parse_options_lem options _
  parse_options_lem ((record_flag, optarg) ∷ options) s = parse_options_lem options _
  parse_options_lem ((fs_flag, optarg) ∷ options) s = parse_options_lem options _
  parse_options_lem ((ip_flag, optarg) ∷ options) s = parse_options_lem options _
  parse_options_lem ((port_flag, optarg) ∷ options) s = parse_options_lem options _
  parse_options_lem ((replay_flag, optarg) ∷ options) s = parse_options_lem options _
  parse_options_lem ((verbose_flag, optarg) ∷ options) s = parse_options_lem options _
  parse_options_lem ((no_flag, optarg) ∷ options) s = rw (has_flag-true no_flag options)
