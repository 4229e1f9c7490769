-- ===== src/DiskMod/Examples.antt =====
-- Runs of the code of src/wrapper/DiskMod.cpp, and the theorems about it at concrete DiskMods.
use panda_scratchpad.Base.{
  ◌≡◌, refl, true, some, [], ◌∷◌, arith, length, replicate, length-replicate,
}
use panda_scratchpad.Base.Outcome.{ok, fault, ◌>>=◌}
use panda_scratchpad.Base.Memory.{Allocator}
use panda_scratchpad.DiskMod.{DiskMod, reset, data_mod, remove_mod, serialize}
use panda_scratchpad.DiskMod.Layout.{layout, IsStorable}
use panda_scratchpad.DiskMod.Serialize.{serialize-layout}
use panda_scratchpad.DiskMod.Deserialize.{deserialize, read_path}
use panda_scratchpad.DiskMod.Reads.{holding, read_path-append}
use panda_scratchpad.DiskMod.Roundtrip.{deserialize-serialize}
use panda_scratchpad.DiskMod.Remove.{serialize-remove_mod}

-- An allocator that never fails, of zeroed blocks.
abbrev pub zeroed : Allocator
zeroed = record {
  can_alloc = λ n. true;
  fresh = λ n. replicate n 0;
  length-fresh = λ n. length-replicate n 0;
}

-- Three bytes written at offset 5 of the file "/a".
abbrev pub three_bytes : DiskMod
three_bytes = record reset {
  path = 47 ∷ 97 ∷ [];
  mod_type = data_mod;
  file_mod_location = 5;
  file_mod_len = 3;
  file_mod_data = some (7 ∷ 8 ∷ 9 ∷ []);
}

pub three_bytes-IsStorable : IsStorable three_bytes
three_bytes-IsStorable = record {
  not_remove = λ e. cc;
  not_directory = λ e. refl;
  no_nul = omega arith;
  short_path = omega arith;
  location_fits = omega arith;
  short_data = omega arith;
  whole_data = λ e. refl;
}

abbrev removal : DiskMod
removal = record reset { path = 47 ∷ 97 ∷ []; mod_type = remove_mod }

serialize-layout_example :
    serialize zeroed three_bytes ≡ ok (layout three_bytes, length (layout three_bytes))
serialize-layout_example = serialize-layout zeroed three_bytes three_bytes-IsStorable refl

deserialize-serialize_example :
    (serialize zeroed three_bytes >>= λ r. deserialize zeroed r.0) ≡ ok three_bytes
deserialize-serialize_example =
    deserialize-serialize zeroed three_bytes three_bytes-IsStorable refl refl

serialize-remove_mod_example : serialize zeroed removal ≡ fault
serialize-remove_mod_example = serialize-remove_mod removal refl (omega arith) zeroed refl

read_path-append_example :
    read_path (holding (47 ∷ [])) 1 [] (97 ∷ 98 ∷ 0 ∷ 1 ∷ []) ≡ ok (47 ∷ 97 ∷ 98 ∷ [], 1 ∷ [])
read_path-append_example =
    read_path-append (97 ∷ 98 ∷ []) (47 ∷ []) [] (1 ∷ []) (omega arith) (omega arith) (omega arith)
